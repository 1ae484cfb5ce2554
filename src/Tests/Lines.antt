-- ===== src/Tests/Lines.antt =====
-- Runs over at/adapter.go: what the modem's lines mean, and the commands of a call.
use dontmove_kit.Prelude.{◌≡◌, ◌≢◌, refl, false, not, some, List, [], ◌∷◌, ◌++◌, arith, inr, ◌==◌}
use dontmove_kit.Prelude.Int.{pos, negsuc, ◌≤ℤ◌}
use dontmove_kit.Text.{Text, txt, contains, to_lower, trim_space, has_prefix, text_eq, atoi}
use dontmove_kit.At.Parser.{is_call_end}
use dontmove_kit.At.Client.{Client, exchange}
use dontmove_kit.At.Clcc.{clcc_has_live_context, count_ghosts, clcc_active}
use dontmove_kit.At.Clcc.Live.{clcc_has_live_context-count_ghosts}
use dontmove_kit.At.Status.{normalize_sim, absent, ready, parse_rssi, rssi_field, signal_bars, dbm}
use dontmove_kit.At.Status.Readings.{parse_rssi_known, signal_bars_unknown, normalize_sim_not_ready}
use dontmove_kit.At.Adapter.{
  Adapter, failed, active_call, call_mismatch, invalid_digit, handle_urc, handle_urcs, command,
  dial, hangup, answer_call, send_dtmf, validate_active,
}
use dontmove_kit.At.Adapter.Reaping.{reap_ghosts}
use dontmove_kit.At.Adapter.Refusals.{call_commands_refused}
use dontmove_kit.At.Adapter.Ringing.{handle_urcs_ring_once, handle_urc_end, hangup_ring, IsIdle}
use dontmove_kit.At.Adapter.Ghosts.{reap_ghosts_stays_busy}
use dontmove_kit.At.Messages.{cmgl_index, list_lines}
use dontmove_kit.At.Messages.Listing.{
  Entry, IsEntry, entry_lines, listed, last_index, list_lines-entries,
}
use dontmove_kit.Prelude.{map, All, none, true, false}
use dontmove_kit.At.Parser.{is_final}
use dontmove_kit.At.Adapter.{publish, close}
use dontmove_kit.At.Adapter.Closing.{publish-close}
use dontmove_kit.Tests.Port.{says}

abbrev contexts : List Text
contexts = txt "+CLCC: 1,1,0,0,0,\"13800138000\",129" ∷ txt "OK" ∷ []

clcc_has_live_context-count_ghosts_run :
    clcc_has_live_context contexts ≡ not (count_ghosts contexts == 0)
clcc_has_live_context-count_ghosts_run = clcc_has_live_context-count_ghosts contexts

parse_rssi_known_run :
    (parse_rssi (txt "+CSQ: 20,99") ≡ dbm (pos 20))
    × (negsuc 112 ≤ℤ parse_rssi (txt "+CSQ: 20,99"))
    × (parse_rssi (txt "+CSQ: 20,99") ≤ℤ negsuc 50)
unfolding atoi rssi_field
parse_rssi_known_run = parse_rssi_known (txt "+CSQ: 20,99") 20 refl (omega arith)

signal_bars_unknown_run : signal_bars (parse_rssi (txt "+CSQ: 99,99")) ≡ 4
unfolding atoi rssi_field
signal_bars_unknown_run = signal_bars_unknown (txt "+CSQ: 99,99") (inr refl)

normalize_sim_not_ready_run :
    (normalize_sim (txt "NOT READY") ≢ absent) × (normalize_sim (txt "NOT READY") ≡ ready)
unfolding contains to_lower
normalize_sim_not_ready_run = normalize_sim_not_ready (txt "NOT READY") refl

-- An adapter over this port with no call.
abbrev pub idle : Client → Adapter
idle port = record {
  client = port;
  active = [];
  pending_peer = [];
  incoming_sent = false;
  publishing = [];
  events = [];
  closed = false;
  crashed = false;
  minted = 0;
  uuid = λ n. n ∷ txt "call";
  new_id = λ n. some (n ∷ txt "id");
}

abbrev pub in_call : Client → Adapter
in_call port = record (idle port) { active = txt "c1" }

call_commands_refused_run :
    (answer_call (txt "c2") (in_call (says [])) ≡ (failed call_mismatch, in_call (says [])))
    × (hangup (txt "c2") (in_call (says [])) ≡ (failed call_mismatch, in_call (says [])))
    × (send_dtmf (txt "c2") 90 (in_call (says [])) ≡ (failed call_mismatch, in_call (says [])))
    × (send_dtmf (txt "c2") 90 (record (in_call (says [])) { active = txt "c2" })
        ≡ (failed invalid_digit, record (in_call (says [])) { active = txt "c2" }))
unfolding validate_active text_eq
call_commands_refused_run =
    call_commands_refused (txt "c2") 90 (in_call (says []))
      (record (in_call (says [])) { active = txt "c2" })
      (inr ((λ e. ground (arith, e)), (λ e. ground (arith, e)))) refl refl

handle_urcs_ring_once_example :
    ((handle_urcs (txt "RING" ∷ txt "RING" ∷ []) (idle (says []))).publishing
      ≡ (0 ∷ txt "call") ∷ [])
    × ((handle_urcs (txt "RING" ∷ txt "RING" ∷ []) (idle (says []))).active ≡ 0 ∷ txt "call")
    × ((handle_urcs (txt "RING" ∷ txt "RING" ∷ []) (idle (says []))).events ≡ [])
unfolding trim_space is_call_end
handle_urcs_ring_once_example =
    handle_urcs_ring_once (txt "RING") (txt "RING" ∷ []) (idle (says [])) (refl, refl)
      (λ e. ground (arith, e)) refl (refl, tt)

handle_urc_end_run :
    IsIdle (handle_urc (txt "NO CARRIER") (in_call (says [])))
    × ((dial (txt "10086") (handle_urc (txt "NO CARRIER") (in_call (says [])))).0
        ≢ failed active_call)
    × ((handle_urc (txt "RING") (handle_urc (txt "NO CARRIER") (in_call (says [])))).publishing
        ≡ (0 ∷ txt "call") ∷ [])
unfolding trim_space is_call_end has_prefix text_eq
handle_urc_end_run =
    handle_urc_end (txt "NO CARRIER") (txt "RING") (txt "10086") (in_call (says [])) refl refl refl
      refl

abbrev hangs_up : Adapter
hangs_up = in_call (says (txt "OK\r\n" ∷ []))

hangup_ring_run :
    ((hangup (txt "c1") hangs_up).1.incoming_sent ≡ false)
    × ((hangup (txt "c1") hangs_up).1.active ≢ txt "c1")
    × ((handle_urc (txt "RING") (hangup (txt "c1") hangs_up).1).publishing
        ≡ (hangup (txt "c1") hangs_up).1.publishing
          ++ (handle_urc (txt "RING") (hangup (txt "c1") hangs_up).1).active ∷ [])
unfolding trim_space hangup validate_active command exchange dontmove_kit.At.Parser.feed
    dontmove_kit.At.Parser.is_unsolicited dontmove_kit.At.Parser.is_final
hangup_ring_run = hangup_ring (txt "c1") (txt "RING") hangs_up (λ e. ground (arith, e)) refl refl

-- The look finds a context, ATH is acknowledged, and the next look finds none.
abbrev pub ghostly : Adapter
ghostly =
    in_call (
      says
        (txt "+CLCC: 1,1,0,0,0,\"13800138000\",129\r\nOK\r\n" ∷ txt "OK\r\n" ∷ txt "OK\r\n" ∷ []))

reap_ghosts_stays_busy_run :
    dial (txt "10086") (reap_ghosts ghostly).1 ≡ (failed active_call, (reap_ghosts ghostly).1)
unfolding reap_ghosts exchange dontmove_kit.At.Parser.feed dontmove_kit.At.Parser.is_unsolicited
    dontmove_kit.At.Parser.is_final count_ghosts dontmove_kit.At.Clcc.is_live clcc_has_live_context
reap_ghosts_stays_busy_run =
    reap_ghosts_stays_busy (txt "10086") ghostly (λ e. ground (arith, e)) refl (omega arith) refl

abbrev stored : List Entry
stored =
    record {
      header = txt "+CMGL: 3,1,,24";
      body = txt "07a1";
      index = pos 3;
      octets = 7 ∷ 161 ∷ [];
    }
    ∷ []

stored-IsEntry : All IsEntry stored
unfolding has_prefix cmgl_index trim_space is_final
stored-IsEntry = (
  record {
    opens = refl;
    names = refl;
    follows = refl;
    plain = refl;
    digits = refl;
    bounded = (omega arith, (omega arith, tt));
  },
  tt,
)

list_lines-entries_example :
    list_lines (entry_lines stored) none (txt "1")
    ≡ (map listed stored, last_index stored (txt "1"))
list_lines-entries_example = list_lines-entries stored (txt "1") stored-IsEntry

abbrev announcing : Adapter
announcing = record (in_call (says [])) { publishing = txt "c1" ∷ [] }

publish-close_example :
    ((publish (close announcing)).crashed ≡ true)
    × ((handle_urc (txt "NO CARRIER") (close announcing)).crashed ≡ false)
publish-close_example = publish-close (txt "NO CARRIER") (txt "c1") [] announcing refl
