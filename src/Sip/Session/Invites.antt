-- ===== src/Sip/Session/Invites.antt =====
-- sip/session.go: the claims of a pickup, and the invitations that a ringing call remembers.
use dontmove_kit.Prelude.{
  ℕ, zero, suc, ◌+◌, ◌≤◌, ◌<◌, ◌≡◌, ◌≢◌, refl, sym, ap, ◌∙◌, Bool, true, false, not, ◌||◌, Option,
  none, some, List, [], ◌∷◌, ◌++◌, arith, ltb, if◌then◌else◌, inl, inr, ◌↔◌, length, is_nil,
  is_nil-false, length-append, any, any_snoc, Option-cases, Bool-cases,
}
use dontmove_kit.Text.Laws.{text_eq_sym}
use dontmove_kit.Sip.Session.{
  Addr, addr_text, init, answering, Session, Invite, begin_answer, remember_invite, same_addr,
  state_eq, max_invite_attempts,
}

-- How many of these claims of the pickup win, one after another.
pub pickups : ℕ → Session → ℕ
pickups zero s = 0
pickups (suc n) s = (if (begin_answer s).0 then 1 else 0) + pickups n (begin_answer s).1

pickups_none : (n : ℕ) (s : Session) → state_eq s.state init ≡ false → pickups n s ≡ 0
unfolding pickups begin_answer
pickups_none zero s h = refl
pickups_none (suc n) s h = ground (arith, pickups_none n s h)

-- However often the client repeats its 200, exactly one claim of the pickup wins while the call is
-- ringing, and none in any other state.
pub pickups_once :
    (n : ℕ) (s : Session) → pickups (suc n) s ≡ (if state_eq s.state init then 1 else 0)
unfolding pickups begin_answer
pickups_once n s = elim (Bool-cases (state_eq s.state init)) [
  | inl e ↦ rw e (rw (pickups_none n (record s { state = answering }) refl))
  | inr e ↦ rw e (rw (pickups_none n s e))
]

-- No two of the invitations went to one address, and each went to one.
abbrev HasFreshAddr : Option Addr → List Invite → Type 0
HasFreshAddr none later = ⊥
HasFreshAddr (some addr) later = any (same_addr addr) later ≡ false

abbrev pub IsDistinct : List Invite → Type 0
IsDistinct [] = Unit
IsDistinct (a ∷ later) = HasFreshAddr a.addr later × IsDistinct later

-- What a session's list of invitations keeps.
pub record IsBounded (s : Session) : Type 0 where
  pub few : length s.invites ≤ max_invite_attempts
  pub distinct : IsDistinct s.invites

same_addr_sym :
    (x y : Addr) (a b : Invite) → a.addr ≡ some x → b.addr ≡ some y → same_addr x b ≡ same_addr y a
same_addr_sym x y a b ha hb = ground (arith, text_eq_sym (addr_text x) (addr_text y))

HasFreshAddr-append :
    (o : Option Addr) (a b : Invite) (y : Addr) (later : List Invite)
    → a.addr ≡ o
    → b.addr ≡ some y
    → HasFreshAddr o later
    → same_addr y a ≡ false
    → HasFreshAddr o (later ++ b ∷ [])
HasFreshAddr-append none a b y later ha hb h n = absurd h
HasFreshAddr-append (some x) a b y later ha hb h n =
    any_snoc (same_addr x) later b h (same_addr_sym x y a b ha hb ∙ n)

IsDistinct-append :
    (invites : List Invite) (b : Invite) (y : Addr)
    → b.addr ≡ some y
    → IsDistinct invites
    → any (same_addr y) invites ≡ false
    → IsDistinct (invites ++ b ∷ [])
IsDistinct-append [] b y hb d n = (rw hb refl, tt)
IsDistinct-append (a ∷ later) b y hb d n = (
  HasFreshAddr-append a.addr a b y later refl hb d.0 (ground arith),
  IsDistinct-append later b y hb d.1 (ground arith),
)

-- When an invitation is recorded.
abbrev pub IsRecordable : Invite → Session → Type 0
IsRecordable a s =
    (y : Addr) × (a.addr ≡ some y)
    × (a.req ≢ [])
    × (any (same_addr y) s.invites ≡ false)
    × (length s.invites < max_invite_attempts)

remember_refused :
    (a : Invite) (s : Session)
    → remember_invite a s ≡ (false, s)
    → IsBounded s
    → ¬ IsRecordable a s
    → IsBounded (remember_invite a s).1
      × (((remember_invite a s).0 ≡ true) ↔ IsRecordable a s)
      × ((remember_invite a s).1.invites
          ≡ (if (remember_invite a s).0 then s.invites ++ a ∷ [] else s.invites))
remember_refused a s e h n = rw e (h, ((λ t. ground arith), (λ r. absurd (n r))), refl)

no_address : (a : Invite) (s : Session) → a.addr ≡ none → remember_invite a s ≡ (false, s)
unfolding remember_invite
no_address a s h = ground arith

recorded :
    (a : Invite) (s : Session) (y : Addr)
    → a.addr ≡ some y
    → remember_invite a s ≡ (
        if is_nil a.req
          || (any (same_addr y) s.invites || not (ltb (length s.invites) max_invite_attempts))
        then (false, s)
        else (true, record s { invites = s.invites ++ a ∷ [] }))
unfolding remember_invite
recorded a s y h = rw h (ground arith)

not-IsRecordable :
    (a : Invite) (s : Session) (y : Addr)
    → a.addr ≡ some y
    → (is_nil a.req
        || (any (same_addr y) s.invites || not (ltb (length s.invites) max_invite_attempts)))
      ≡ true
    → ¬ IsRecordable a s
not-IsRecordable a s y e t (z, ez, q, d, l) = ground (
  arith,
  is_nil-false a.req q,
  ap {B = Bool} (λ o. elim o [ none ↦ false | some w ↦ any (same_addr w) s.invites ]) (sym ez ∙ e),
)

-- Recording an invitation keeps the list within its bound of eight, its addresses distinct. It is
-- recorded, at the end, exactly if it has an address and a message, no recorded one went to that
-- address, and there is room; otherwise the session is unchanged.
pub remember_invite-IsBounded :
    (a : Invite) (s : Session)
    → IsBounded s
    → IsBounded (remember_invite a s).1
      × (((remember_invite a s).0 ≡ true) ↔ IsRecordable a s)
      × ((remember_invite a s).1.invites
          ≡ (if (remember_invite a s).0 then s.invites ++ a ∷ [] else s.invites))
remember_invite-IsBounded a s h = elim (Option-cases a.addr) [
  | inl e ↦ remember_refused a s (no_address a s e) h (λ r. ground arith)
  | inr (y, e) ↦
      elim (Bool-cases (
        is_nil a.req
        || (any (same_addr y) s.invites || not (ltb (length s.invites) max_invite_attempts)))) [
          | inl t ↦
              remember_refused a s (recorded a s y e ∙ rw t refl) h (not-IsRecordable a s y e t)
          | inr f ↦
              rw (recorded a s y e, f)
                (
                  record {
                    few = ground (arith, length-append s.invites (a ∷ []));
                    distinct = IsDistinct-append s.invites a y e h.distinct (ground arith);
                  },
                  (
                    (λ t. (y, e, (λ q. ground (arith, ap is_nil q)), ground arith, ground arith)),
                    (λ r. refl),
                  ),
                  refl,
                )
        ]
]
