-- ===== src/Api/Sdp/Redaction.antt =====
-- api/server.go: no credential of a session description reaches the log.
use dontmove_kit.Prelude.{
  ◌≡◌, refl, sym, ap, ◌∙◌, inl, inr, true, List, [], ◌∷◌, ◌++◌, map, if◌then◌else◌, length,
  Bool-cases,
}
use dontmove_kit.Text.{Text, txt, has_prefix, drop, split, trim_space}
use dontmove_kit.Text.Laws.{append-drop_of_has_prefix}
use dontmove_kit.Api.Sdp.{
  Secret, candidate, ice_ufrag, ice_pwd, fingerprint, secret_name, structure_of, structures, join,
  sdp_structure,
}

-- A line without what stands behind the name of a credential.
abbrev hide_under : Secret → Text → Text → Text
hide_under secret line other =
    if has_prefix line (secret_name secret) then secret_name secret else other

abbrev pub hide : Text → Text
hide line =
    hide_under candidate line
      (hide_under ice_ufrag line (hide_under ice_pwd line (hide_under fingerprint line line)))

-- The lines of a description, trimmed and without candidates, passwords and fingerprints.
abbrev pub without_secrets : Text → List Text
without_secrets sdp = map (λ line. hide (trim_space line)) (split sdp (txt "\n"))

structure_of_behind :
    (secret : Secret) (rest : Text)
    → structure_of (secret_name secret ++ rest) ≡ structure_of (secret_name secret)
unfolding structure_of
structure_of_behind candidate rest = refl
structure_of_behind ice_ufrag rest = refl
structure_of_behind ice_pwd rest = refl
structure_of_behind fingerprint rest = refl

structure_of-secret :
    (secret : Secret) (line : Text)
    → has_prefix line (secret_name secret) ≡ true
    → structure_of (secret_name secret) ≡ structure_of line
structure_of-secret secret line starts =
    let parts = append-drop_of_has_prefix line (secret_name secret) starts in
    sym
      (ap structure_of parts ∙ structure_of_behind secret (drop (length (secret_name secret)) line))

structure_of-hide_under :
    (secret : Secret) (line other : Text)
    → structure_of other ≡ structure_of line
    → structure_of (hide_under secret line other) ≡ structure_of line
structure_of-hide_under secret line other same =
    elim (Bool-cases (has_prefix line (secret_name secret))) [
      | inl starts ↦ rw starts (structure_of-secret secret line starts)
      | inr differs ↦ rw differs same
    ]

structure_of-hide : (line : Text) → structure_of (hide line) ≡ structure_of line
structure_of-hide line = structure_of-hide_under candidate line _ (
    structure_of-hide_under ice_ufrag line _
      (structure_of-hide_under ice_pwd line _ (structure_of-hide_under fingerprint line line refl)))

-- The structures of lines that are trimmed.
abbrev trimmed_structures : List Text → List Text
trimmed_structures [] = []
trimmed_structures (line ∷ lines) = structure_of line ++ trimmed_structures lines

trimmed_structures-hide :
    (lines : List Text)
    → trimmed_structures (map (λ line. hide (trim_space line)) lines) ≡ structures lines
unfolding structures
trimmed_structures-hide [] = refl
trimmed_structures-hide (line ∷ lines) =
    rw (structure_of-hide (trim_space line), trimmed_structures-hide lines) refl

-- Two session descriptions that differ only in what stands behind the names of candidates, of ICE user
-- fragments and passwords, and of fingerprints (and in the blanks around lines) are logged the same.
pub sdp_structure-without_secrets :
    (a b : Text) → without_secrets a ≡ without_secrets b → sdp_structure a ≡ sdp_structure b
unfolding sdp_structure
sdp_structure-without_secrets a b same =
    let lines_of = λ (sdp : Text). split sdp (txt "\n") in
    ap (join (txt "|")) (
      sym (trimmed_structures-hide (lines_of a))
      ∙ (ap trimmed_structures same ∙ trimmed_structures-hide (lines_of b)))
