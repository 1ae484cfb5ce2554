-- ===== src/Api/Sdp.antt =====
-- api/server.go: `sdpStructure`, what the log shows of a session description.
pub mod Redaction
use dontmove_kit.Prelude.{Bool, ◌||◌, Option, none, some, List, [], ◌∷◌, ◌++◌, if◌then◌else◌, any}
use dontmove_kit.Text.{Text, txt, has_prefix, cut, split, trim_space}

-- The lines that are logged as they are, by their prefixes.
abbrev pub plain_names : List Text
plain_names =
    txt "m="
    ∷ txt "a=group:"
    ∷ txt "a=mid:"
    ∷ txt "a=send"
    ∷ txt "a=recv"
    ∷ txt "a=inactive"
    ∷ txt "a=rtcp-mux"
    ∷ txt "a=rtpmap:"
    ∷ txt "a=fmtp:"
    ∷ txt "a=setup:"
    ∷ txt "a=ice-options:"
    ∷ txt "a=end-of-candidates"
    ∷ []

-- The lines of which the name is logged alone.
pub data Secret : Type 0 where
  candidate ice_ufrag ice_pwd fingerprint : Secret

abbrev pub secret_name : Secret → Text
secret_name candidate = txt "a=candidate:"
secret_name ice_ufrag = txt "a=ice-ufrag:"
secret_name ice_pwd = txt "a=ice-pwd:"
secret_name fingerprint = txt "a=fingerprint:"

abbrev pub is_plain : Text → Bool
is_plain line = any (has_prefix line) plain_names

abbrev pub is_secret : Text → Bool
is_secret line =
    has_prefix line (secret_name candidate)
    || (has_prefix line (secret_name ice_ufrag)
        || (has_prefix line (secret_name ice_pwd) || has_prefix line (secret_name fingerprint)))

-- SplitN at the first colon, its first part.
abbrev before_colon : Text → Text
before_colon line = elim (cut line (txt ":")) [ none ↦ line | some (a, b) ↦ a ]

-- What a trimmed line adds.
unfoldable pub structure_of : Text → List Text
unfolding has_prefix cut
structure_of line =
    if is_plain line
    then line ∷ []
    else if is_secret line
    then (before_colon line ++ txt ":<redacted>") ∷ []
    else []

unfoldable pub structures : List Text → List Text
unfolding structure_of
structures [] = []
structures (line ∷ lines) = structure_of (trim_space line) ++ structures lines

-- strings.Join.
unfoldable pub join : Text → List Text → Text
join separator [] = []
join separator (part ∷ []) = part
join separator (part ∷ next ∷ parts) = part ++ (separator ++ join separator (next ∷ parts))

-- sdpStructure.
unfoldable pub sdp_structure : Text → Text
unfolding structures join
sdp_structure sdp = join (txt "|") (structures (split sdp (txt "\n")))
