-- ===== src/Sip/Server/Told.antt =====
-- sip/server.go: the responses that a handler sends, by their addressee and status.
use mathlib.Core.List.{append_assoc}
use dontmove_kit.Prelude.{ℕ, ◌≡◌, refl, ap, ◌∙◌, Bool, true, List, [], ◌∷◌, ◌++◌}
use dontmove_kit.Text.{Text, txt, has_prefix, print_nat}
use dontmove_kit.Calls.{Control}
use dontmove_kit.Sip.Message.{build_response}
use dontmove_kit.Sip.Session.{Addr}
use dontmove_kit.Sip.Teardown.{Datagram}
use dontmove_kit.Sip.Server.{Env}
use dontmove_kit.Sip.Server.Ending.{Server, respond}

-- A message that is a response of this status.
abbrev pub has_status : ℕ → Text → Bool
has_status code message = has_prefix message (txt "SIP/2.0 " ++ print_nat code ++ txt " ")

-- One response of each status, in order, to one address.
abbrev pub Answers : Addr → List ℕ → List Datagram → Type 0
Answers remote [] [] = Unit
Answers remote (code ∷ codes) (d ∷ ds) =
    (d.to_addr ≡ remote) × (has_status code d.message ≡ true) × Answers remote codes ds
Answers remote _ _ = ⊥

Answers-append :
    (remote : Addr) (codes more : List ℕ) (ds es : List Datagram)
    → Answers remote codes ds
    → Answers remote more es
    → Answers remote (codes ++ more) (ds ++ es)
Answers-append remote [] more [] es h k = k
Answers-append remote (code ∷ codes) more (d ∷ ds) es (to, status, h) k =
    (to, status, Answers-append remote codes more ds es h k)
Answers-append remote [] more (d ∷ ds) es h k = absurd h
Answers-append remote (code ∷ codes) more [] es h k = absurd h

module _ {control : Control} ⦃env : Env⦄ where
  -- What was sent between two states: responses of these statuses to the address, and nothing else.
  abbrev pub Sent : Addr → List ℕ → Server control → Server control → Type 0
  Sent remote codes before after =
      (ds : List Datagram) × (after.outbox ≡ before.outbox ++ ds) × Answers remote codes ds

  pub Sent-trans :
      (remote : Addr) (codes more : List ℕ) (a b c : Server control)
      → Sent remote codes a b
      → Sent remote more b c
      → Sent remote (codes ++ more) a c
  Sent-trans remote codes more a b c (ds, e, h) (es, f, k) = (
    ds ++ es,
    f ∙ ap (λ out. out ++ es) e ∙ append_assoc a.outbox ds es,
    Answers-append remote codes more ds es h k,
  )

  pub respond-Sent :
      (remote : Addr) (req : Text) (code : ℕ) (reason extra body tag : Text) (srv : Server control)
      → has_status code (build_response (env.uuid srv.minted) req code reason extra body tag) ≡ true
      → Sent remote (code ∷ []) srv (respond remote req code reason extra body tag srv)
  unfolding respond
  respond-Sent remote req code reason extra body tag srv h = (_, refl, (refl, h, tt))

-- The statuses of the handlers' responses.
pub build_response_100 :
    (fresh req extra body tag : Text)
    → has_status 100 (build_response fresh req 100 (txt "Trying") extra body tag) ≡ true
unfolding build_response has_prefix print_nat
build_response_100 fresh req extra body tag = refl

pub build_response_180 :
    (fresh req extra body tag : Text)
    → has_status 180 (build_response fresh req 180 (txt "Ringing") extra body tag) ≡ true
unfolding build_response has_prefix print_nat
build_response_180 fresh req extra body tag = refl

pub build_response_200 :
    (fresh req extra body tag : Text)
    → has_status 200 (build_response fresh req 200 (txt "OK") extra body tag) ≡ true
unfolding build_response has_prefix print_nat
build_response_200 fresh req extra body tag = refl

pub build_response_403 :
    (fresh req extra body tag : Text)
    → has_status 403 (build_response fresh req 403 (txt "Forbidden") extra body tag) ≡ true
unfolding build_response has_prefix print_nat
build_response_403 fresh req extra body tag = refl

pub build_response_500 :
    (fresh req extra body tag : Text)
    → has_status 500 (build_response fresh req 500 (txt "Server Error") extra body tag) ≡ true
unfolding build_response has_prefix print_nat
build_response_500 fresh req extra body tag = refl
