-- ===== src/Sip/Message.antt =====
-- sip/server.go: how SIP messages are read and rendered.
pub mod Users
use dontmove_kit.Prelude.{
  ℕ, zero, suc, ◌+◌, ◌-◌, ◌*◌, Bool, true, false, not, ◌&&◌, ◌||◌, Option, none, some, List, [],
  ◌∷◌, ◌++◌, ◌==◌, if◌then◌else◌, length, is_nil, any,
}
use dontmove_kit.Prelude.Int.{ℤ, pos, negsuc}
use dontmove_kit.Text.{
  Text, txt, has_prefix, drop, cut, contains, trim_left, trim_space, to_lower, split, fields, atoi,
  print_nat, digits_value, is_digit,
}

abbrev pub crlf : Text
crlf = 13 ∷ 10 ∷ []

unfoldable pub find_header : List Text → Text → Text
unfolding has_prefix to_lower drop trim_space
find_header [] name = []
find_header (line ∷ lines) name =
    let rest = find_header lines name in
    if has_prefix (to_lower line) (to_lower name ++ txt ":")
    then trim_space (drop (length name + 1) line)
    else rest

-- parseHeader.
unfoldable pub parse_header : Text → Text → Text
unfolding find_header split
parse_header msg name = find_header (split msg crlf) name

abbrev pub head_or : Text → List Text → Text
head_or default [] = default
head_or default (x ∷ xs) = x

abbrev pub before : Option (Text × Text) → Text → Text
before none s = s
before (some (a, b)) s = a

-- The text before the first of some bytes: strings.IndexAny and the slice.
unfoldable pub until_any : Text → Text → Text
until_any [] stops = []
until_any (c ∷ s) stops =
    let rest = c ∷ until_any s stops in if any (λ d. c == d) stops then [] else rest

abbrev second : List Text → Text
second (a ∷ b ∷ rest) = b
second _ = []

-- requestURIOf: the second word of the first line.
unfoldable pub request_uri_of : Text → Text
unfolding cut fields
request_uri_of msg = second (fields (before (cut msg crlf) msg))

abbrev branch_in : Option (Text × Text) → Text
branch_in none = []
branch_in (some (a, rest)) = trim_space (until_any rest (txt ";, \t"))

-- viaBranchOf.
unfoldable pub via_branch_of : Text → Text
unfolding parse_header cut until_any trim_space
via_branch_of msg = branch_in (cut (parse_header msg (txt "Via")) (txt "branch="))

abbrev number_or_zero : Option ℤ → ℤ
number_or_zero none = pos 0
number_or_zero (some n) = n

-- cseqNumber.
unfoldable pub cseq_number : Text → ℤ
unfolding fields atoi
cseq_number cseq = elim (fields cseq) [ [] ↦ pos 0 | word ∷ words ↦ number_or_zero (atoi word) ]

-- fmt's %d.
unfoldable pub print_int : ℤ → Text
unfolding print_nat
print_int (pos n) = print_nat n
print_int (negsuc n) = txt "-" ++ print_nat (suc n)

-- extractSIPUser; `none` is a panic, on a "sip:" that nothing but blanks follows.
unfoldable pub extract_sip_user : Text → Option Text
unfolding cut fields
extract_sip_user hdr = elim (cut hdr (txt "sip:")) [
  | none ↦ some []
  | some (skipped, rest) ↦ elim (cut rest (txt "@")) [
    | some (user, host) ↦ some user
    | none ↦ elim (cut rest (txt ">")) [
      | some (user, after) ↦ some user
      | none ↦ elim (fields rest) [ [] ↦ none | word ∷ words ↦ some word ]
    ]
  ]
]

-- contactURI: the Contact's URI, or one made of the packet's source, or nothing.
unfoldable pub contact_uri : Text → Option Text → Text → Text
unfolding cut until_any trim_space
contact_uri contact remote user =
    let fallback : Text = elim remote [
      | none ↦ []
      | some addr ↦ txt "sip:" ++ user ++ txt "@" ++ addr
    ] in
    elim (cut contact (txt "sip:")) [
      | none ↦ fallback
      | some (skipped, rest) ↦
          let uri = trim_space (until_any (txt "sip:" ++ rest) (txt ">;")) in
          if is_nil uri then fallback else uri
    ]

-- Lines, each with its end.
unfoldable pub unlines : List Text → Text
unlines [] = []
unlines (line ∷ lines) = line ++ crlf ++ unlines lines

-- extractSDP: what stands behind the first empty line, up to the next.
unfoldable pub extract_sdp : Text → Text
unfolding split
extract_sdp msg = second (split msg (crlf ++ crlf))

-- The digits at the head of a text as a number: fmt.Sscanf's %d of an unsigned number.
unfoldable pub leading_number : ℕ → Text → ℕ
leading_number acc [] = acc
leading_number acc (c ∷ s) =
    let rest = leading_number (acc * 10 + (c - 48)) s in if is_digit c then rest else acc

abbrev scan_digits : Text → Option ℕ
scan_digits [] = none
scan_digits (c ∷ s) = if is_digit c then some (leading_number 0 (c ∷ s)) else none

-- fmt.Sscanf's %d behind an optional plus sign. A negative number counts as none.
unfoldable pub scan_number : Text → Option ℕ
unfolding leading_number
scan_number [] = none
scan_number (c ∷ s) = if c == b'+' then scan_digits s else scan_digits (c ∷ s)

abbrev pub or_else : Option ℕ → ℕ → ℕ
or_else none default = default
or_else (some n) default = n

-- parseSDPRTP: the last c= address and the last m=audio port.
unfoldable pub sdp_rtp : List Text → Text × ℕ → Text × ℕ
unfolding has_prefix drop trim_space scan_number
sdp_rtp [] found = found
sdp_rtp (raw ∷ lines) (ip, port) =
    let line = trim_space raw in
    sdp_rtp lines (
      if has_prefix line (txt "c=IN IP4 ") then trim_space (drop 9 line) else ip,
      if has_prefix line (txt "m=audio ")
          then or_else (scan_number (trim_left (drop 8 line))) port
          else port,
    )

unfoldable pub parse_sdp_rtp : Text → Text × ℕ
unfolding sdp_rtp split
parse_sdp_rtp sdp = sdp_rtp (split sdp (txt "\n")) ([], 0)

-- inboundCallerHeaders: the extra headers and the From value.
unfoldable pub inbound_caller_headers : Text → Text → Text × Text
unfolding unlines
inbound_caller_headers peer local_ip =
    let name = txt "\"" ++ peer ++ txt "\"" in
    let uri = txt "<sip:" ++ peer ++ txt "@" ++ local_ip ++ txt ">" in
    if is_nil peer then ([], txt "<sip:unknown@" ++ local_ip ++ txt ">") else (
      unlines (
          (txt "P-Asserted-Identity: " ++ name ++ txt " " ++ uri)
          ∷ (txt "Remote-Party-ID: " ++ name ++ txt " " ++ uri ++ txt ";party=calling;screen=yes")
          ∷ []),
      name ++ txt " " ++ uri,
    )

-- buildResponse; `fresh` is the tag that the code mints when it is given none.
unfoldable pub build_response : Text → Text → ℕ → Text → Text → Text → Text → Text
unfolding parse_header contains print_nat unlines
build_response fresh req code reason extra body tag =
    let given = if is_nil tag then txt ";tag=" ++ fresh else tag in
    let to = parse_header req (txt "To") in
    let kept = if contains to (txt "tag=") then [] else given in
    unlines (
      (txt "SIP/2.0 " ++ print_nat code ++ txt " " ++ reason)
      ∷ (txt "Via: " ++ parse_header req (txt "Via"))
      ∷ (txt "From: " ++ parse_header req (txt "From"))
      ∷ (txt "To: " ++ to ++ kept)
      ∷ (txt "Call-ID: " ++ parse_header req (txt "Call-ID"))
      ∷ (txt "CSeq: " ++ parse_header req (txt "CSeq"))
      ∷ [])
    ++ extra
    ++ unlines ((txt "Content-Length: " ++ print_nat (length body)) ∷ [] ∷ [])
    ++ body

-- The header lines of a request that ends a call.
unfoldable pub teardown_lines : Text → Text → Text → Text → Text → Text → Text → ℤ → List Text
unfolding print_int
teardown_lines method uri local_ip branch from to call_id cseq =
    (method ++ txt " " ++ uri ++ txt " SIP/2.0")
    ∷ (txt "Via: SIP/2.0/UDP " ++ local_ip ++ txt ":5060;branch=" ++ branch ++ txt ";rport")
    ∷ txt "Max-Forwards: 70"
    ∷ (txt "From: " ++ from)
    ∷ (txt "To: " ++ to)
    ∷ (txt "Call-ID: " ++ call_id)
    ∷ (txt "CSeq: " ++ print_int cseq ++ txt " " ++ method)
    ∷ txt "Content-Length: 0"
    ∷ []
    ∷ []

-- cancelMessage; empty when the INVITE lacks what a CANCEL must repeat.
unfoldable pub cancel_message : Text → Text → Text
unfolding request_uri_of via_branch_of parse_header cseq_number unlines teardown_lines
cancel_message invite local_ip =
    let uri = request_uri_of invite in
    let branch = via_branch_of invite in
    let from = parse_header invite (txt "From") in
    let to = parse_header invite (txt "To") in
    let call_id = parse_header invite (txt "Call-ID") in
    let cseq = parse_header invite (txt "CSeq") in
    if (is_nil invite || is_nil local_ip)
      || (is_nil uri || is_nil branch || is_nil from || is_nil to || is_nil call_id || is_nil cseq)
    then []
    else unlines
        (teardown_lines (txt "CANCEL") uri local_ip branch from to call_id (cseq_number cseq))
