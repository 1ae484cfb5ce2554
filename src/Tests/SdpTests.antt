-- ===== src/Tests/SdpTests.antt =====
-- Runs over `sdpStructure` of api/server.go.
use dontmove_kit.Prelude.{◌≡◌, refl, ◌∷◌, ◌++◌}
use dontmove_kit.Text.{Text, txt, split, trim_space, has_prefix}
use dontmove_kit.Api.Sdp.{sdp_structure}
use dontmove_kit.Api.Sdp.Redaction.{sdp_structure-without_secrets}

-- A description with an ICE password.
abbrev described : Text → Text
described password =
    txt "v=0" ++ (13 ∷ 10 ∷ (txt "m=audio 9" ++ (13 ∷ 10 ∷ (txt "a=ice-pwd:" ++ password))))

sdp_structure_run : sdp_structure (described (txt "x")) ≡ txt "m=audio 9|a=ice-pwd:<redacted>"
unfolding sdp_structure split trim_space
sdp_structure_run = refl

sdp_structure-without_secrets_example :
    sdp_structure (described (txt "x")) ≡ sdp_structure (described (txt "yz"))
unfolding split trim_space has_prefix
sdp_structure-without_secrets_example =
    sdp_structure-without_secrets (described (txt "x")) (described (txt "yz")) refl
