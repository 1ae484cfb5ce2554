-- ===== src/Tests/Port.antt =====
-- Runs over at/parser.go: reads, commands and submissions.
use dontmove_kit.Prelude.{◌≡◌, refl, Bool, true, false, List, [], ◌∷◌, ◌++◌, arith, All, map}
use dontmove_kit.Text.{Text, txt}
use dontmove_kit.At.Parser.{feed, feed_loop}
use dontmove_kit.At.Parser.Framing.{
  feed_chunks, feed_loop-frame, feed_all, flatten, frame, NoNewline,
}
use dontmove_kit.At.Client.{
  Client, deadline_exceeded, Lines, scan, no_lines, answer, read_loop, exchange, send_pdu,
  send_text,
}
use dontmove_kit.At.Client.Scan.{read_loop_chunks, read_loop_drops_tail, plain}
use dontmove_kit.At.Client.Answers.{exchange-Told, IsAnswer, IsUrc}
use dontmove_kit.At.Client.Submission.{
  send_pdu-Progress, send_text-Progress, Progress, pdu_commands, text_commands,
}

abbrev no_echo : Text → Bool
no_echo line = false

-- A port that takes every write and returns these reads.
abbrev pub says : List Text → Client
says chunks = record {
  accepts = λ before text. true;
  sent = [];
  reads = map plain chunks;
  ended = deadline_exceeded;
  poll_buffer = [];
  dry_run = false;
}

feed_chunks_example :
    (feed_all (txt "+CS") (txt "Q: 20\r" ∷ txt "\nOK\r\nRI" ∷ [])
      ≡ feed (txt "+CS") (flatten (txt "Q: 20\r" ∷ txt "\nOK\r\nRI" ∷ [])))
    × NoNewline (feed_all (txt "+CS") (txt "Q: 20\r" ∷ txt "\nOK\r\nRI" ∷ [])).1
unfolding dontmove_kit.At.Parser.cut_byte
feed_chunks_example = feed_chunks (txt "+CS") (txt "Q: 20\r" ∷ txt "\nOK\r\nRI" ∷ []) refl

feed_loop-frame_example : feed_loop 9 (txt "OK\r\nRING") ≡ frame [] (txt "OK\r\nRING")
feed_loop-frame_example = feed_loop-frame 9 (txt "OK\r\nRING") (omega arith)

abbrev signal : Lines
signal = record { response = txt "+CSQ: 20,99" ∷ txt "OK" ∷ []; unsolicited = txt "RING" ∷ [] }

read_loop_chunks_example :
    ((read_loop deadline_exceeded no_echo false
        (map plain (txt "+CSQ: 20,99\r\nRI" ∷ txt "NG\r\nOK\r\n" ∷ []))
        []
        no_lines).0
      ≡ answer signal (txt "OK"))
    × ((read_loop deadline_exceeded no_echo false
          (map plain (txt "+CSQ: 20,99\r\nRI" ∷ txt "NG\r\nOK\r\n" ∷ []))
          []
          no_lines).1
        ≡ txt "RING" ∷ [])
unfolding scan feed flatten dontmove_kit.At.Parser.is_unsolicited dontmove_kit.At.Parser.is_final
read_loop_chunks_example =
    read_loop_chunks deadline_exceeded no_echo (txt "+CSQ: 20,99\r\nRI" ∷ txt "NG\r\nOK\r\n" ∷ [])
      signal (txt "OK") refl

abbrev accepted : Lines
accepted = record { response = txt "OK" ∷ []; unsolicited = [] }

read_loop_drops_tail_run :
    read_loop deadline_exceeded no_echo false
      (plain (txt "OK\r\n" ++ txt "RING\r\n") ∷ [])
      []
      no_lines
    ≡ read_loop deadline_exceeded no_echo false (plain (txt "OK\r\n") ∷ []) [] no_lines
unfolding scan feed dontmove_kit.At.Parser.is_unsolicited dontmove_kit.At.Parser.is_final
read_loop_drops_tail_run =
    read_loop_drops_tail deadline_exceeded no_echo (txt "OK\r\n") (txt "RING\r\n") [] accepted
      (txt "OK") refl

exchange-Told_example :
    IsAnswer (exchange (txt "AT+CLCC") (says (txt "RING\r\nOK\r\n" ∷ []))).0
    × All IsUrc (exchange (txt "AT+CLCC") (says (txt "RING\r\nOK\r\n" ∷ []))).1
exchange-Told_example = exchange-Told (txt "AT+CLCC") (says (txt "RING\r\nOK\r\n" ∷ []))

abbrev submits : Client
submits = says (txt "OK\r\n" ∷ txt "> " ∷ txt "+CMGS: 7\r\nOK\r\n" ∷ [])

send_pdu-Progress_example :
    Progress [] (pdu_commands false 14 (txt "0001000A81")) (send_pdu 14 (txt "0001000A81") submits)
send_pdu-Progress_example = send_pdu-Progress 14 (txt "0001000A81") submits

send_text-Progress_example :
    Progress []
      (text_commands false (txt "13800138000") (txt "hi"))
      (send_text (txt "13800138000") (txt "hi") submits)
send_text-Progress_example = send_text-Progress (txt "13800138000") (txt "hi") submits
