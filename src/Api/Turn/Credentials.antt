-- ===== src/Api/Turn/Credentials.antt =====
-- api/server.go: what a relay reads of the credentials that the gateway makes.
use dontmove_kit.Prelude.{
  ℕ, ◌+◌, ◌*◌, ◌/◌, ◌≤◌, ◌≡◌, refl, ap, ◌∙◌, inl, inr, subst, Option, none, some, Bool-cases, arith,
}
use dontmove_kit.Text.{Text, txt, cut, trim_space, digits_value}
use dontmove_kit.Text.Numbers.{digits_value-print_nat, cut-print_nat}
use dontmove_kit.Api.State.{Env}
use dontmove_kit.Api.Turn.{
  IceServer, or_default, second, has_turn, expiry, turn_username, private_turn_server,
}

-- The expiry that a relay reads of a username: the number up to the first colon.
abbrev pub read_expiry : Option (Text × Text) → Option ℕ
read_expiry none = none
read_expiry (some (stamp, subject)) = digits_value 0 stamp

module _ (env : Env) where
  read_expiry-turn_username :
      (now : ℕ) (subject : Text)
      → read_expiry (cut (turn_username env now subject) (txt ":")) ≡ some (expiry env now)
  read_expiry-turn_username now subject =
      ap read_expiry (cut-print_nat (expiry env now) (trim_space subject))
      ∙ digits_value-print_nat (expiry env now)

  now-expiry : (now : ℕ) → now / second ≤ expiry env now
  now-expiry now = let ttl = or_default (600 * second) env.turn.credential_ttl in now_later now ttl
    where
      now_later : (a b : ℕ) → a / second ≤ (a + b) / second
      now_later a b = omega arith

  abbrev Told : ℕ → Option (IceServer × ℕ) → Type 0
  Told now none = Unit {0}
  Told now (some (server, expires)) =
      (read_expiry (cut server.username (txt ":")) ≡ some expires)
      × (now / second ≤ expires)
      × (server.credential ≡ env.hmac env.turn.secret server.username)

  private_turn_server-Told :
      (now : ℕ) (subject : Text) → Told now (private_turn_server env now subject)
  unfolding private_turn_server
  private_turn_server-Told now subject = elim (Bool-cases (has_turn env)) [
    | inl there ↦ rw there (read_expiry-turn_username now subject, now-expiry now, refl)
    | inr missing ↦ rw missing tt
  ]

  -- What `privateTURNServer` hands out: a relay that cuts the username at its first colon reads the very
  -- second that the caller is told, which is not before the present one, and the password is the MAC of
  -- that username under the shared secret.
  pub private_turn_server-read_expiry :
      (now : ℕ) (subject : Text) (server : IceServer) (expires : ℕ)
      → private_turn_server env now subject ≡ some (server, expires)
      → (read_expiry (cut server.username (txt ":")) ≡ some expires)
        × (now / second ≤ expires)
        × (server.credential ≡ env.hmac env.turn.secret server.username)
  private_turn_server-read_expiry now subject server expires given =
      subst (λ given. Told now given) given (private_turn_server-Told now subject)
