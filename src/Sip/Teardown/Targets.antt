-- ===== src/Sip/Teardown/Targets.antt =====
-- sip/server.go, sendDialogTeardown: whom the end of a call is told, and how often.
use dontmove_kit.Prelude.{
  ℕ, ◌+◌, ◌≡◌, refl, sym, ◌∙◌, Bool, true, false, not, ◌||◌, Option, none, some, List, [], ◌∷◌,
  ◌++◌, arith, if◌then◌else◌, inl, inr, ◌⊎◌, Bool-cases, is_nil, any, All, any_snoc, any-append,
}
use mathlib.Core.Path.{subst}
use dontmove_kit.Text.{Text, text_eq}
use dontmove_kit.Text.Laws.{text_eq_refl, text_eq_sym}
use dontmove_kit.Sip.Session.{Addr, addr_text}
use dontmove_kit.Sip.Teardown.{
  Registration, contact_addr, Datagram, add_target, add_registrations, send_twice, send_each,
}

-- One of these addresses reads like this one.
abbrev pub is_target : Addr → List Addr → Bool
is_target addr targets = any (λ a. text_eq (addr_text a) (addr_text addr)) targets

abbrev pub AreDistinct : List Addr → Type 0
AreDistinct [] = Unit
AreDistinct (a ∷ later) = (is_target a later ≡ false) × AreDistinct later

AreDistinct-append :
    (targets : List Addr) (addr : Addr)
    → AreDistinct targets
    → is_target addr targets ≡ false
    → AreDistinct (targets ++ addr ∷ [])
AreDistinct-append [] addr d n = (refl, tt)
AreDistinct-append (a ∷ later) addr d n = (
  any_snoc (λ b. text_eq (addr_text b) (addr_text a)) later addr d.0
      (text_eq_sym (addr_text addr) (addr_text a) ∙ ground arith),
  AreDistinct-append later addr d.1 (ground arith),
)

add_target-AreDistinct :
    (targets : List Addr) (o : Option Addr)
    → AreDistinct targets
    → AreDistinct (add_target targets o)
unfolding add_target
add_target-AreDistinct targets none d = d
add_target-AreDistinct targets (some addr) d = elim (Bool-cases (is_target addr targets)) [
  | inl e ↦ rw (add_target, e) d
  | inr e ↦ rw (add_target, e) (AreDistinct-append targets addr d e)
]

add_target_keeps :
    (targets : List Addr) (o : Option Addr) (a : Addr)
    → is_target a targets ≡ true
    → is_target a (add_target targets o) ≡ true
unfolding add_target
add_target_keeps targets none a h = h
add_target_keeps targets (some addr) a h =
    ground (arith, any-append (λ b. text_eq (addr_text b) (addr_text a)) targets (addr ∷ []))

add_target_adds :
    (targets : List Addr) (addr : Addr) → is_target addr (add_target targets (some addr)) ≡ true
unfolding add_target
add_target_adds targets addr = ground (
  arith,
  any-append (λ b. text_eq (addr_text b) (addr_text addr)) targets (addr ∷ []),
  text_eq_refl (addr_text addr),
)

-- A registration that the end of this user's call is told.
abbrev pub is_concerned : Text → Registration → Bool
is_concerned username reg = is_nil username || text_eq reg.username username

-- The addresses of these registrations, where they resolve, are among the targets.
abbrev pub AreTold : (Text → Option Addr) → Text → List Addr → List Registration → Type 0
AreTold resolve username targets [] = Unit
AreTold resolve username targets (reg ∷ regs) =
    ((addr : Addr)
      → is_concerned username reg ≡ true
      → contact_addr resolve reg.contact ≡ some addr
      → is_target addr targets ≡ true)
    × AreTold resolve username targets regs

-- The targets that are reached from some, which stay.
abbrev pub IsReached :
    (Text → Option Addr) → Text → List Registration → List Addr → List Addr → Type 0
IsReached resolve username regs targets reached =
    AreDistinct reached
    × ((a : Addr) → is_target a targets ≡ true → is_target a reached ≡ true)
    × AreTold resolve username reached regs

skip_registration :
    (resolve : Text → Option Addr) (username : Text) (reg : Registration) (regs : List Registration)
    (targets : List Addr)
    → is_concerned username reg ≡ false
    → add_registrations resolve username (reg ∷ regs) targets
      ≡ add_registrations resolve username regs targets
unfolding add_registrations
skip_registration resolve username reg regs targets h = ground arith

take_registration :
    (resolve : Text → Option Addr) (username : Text) (reg : Registration) (regs : List Registration)
    (targets : List Addr)
    → is_concerned username reg ≡ true
    → add_registrations resolve username (reg ∷ regs) targets
      ≡ add_registrations resolve username regs
          (add_target targets (contact_addr resolve reg.contact))
unfolding add_registrations
take_registration resolve username reg regs targets h = ground arith

add_registrations_complete :
    (resolve : Text → Option Addr) (username : Text) (regs : List Registration)
    (targets : List Addr)
    → AreDistinct targets
    → IsReached resolve username regs targets (add_registrations resolve username regs targets)
unfolding add_registrations
add_registrations_complete resolve username [] targets d = (d, (λ a h. h), tt)
add_registrations_complete resolve username (reg ∷ regs) targets d =
    elim (Bool-cases (is_concerned username reg)) [
      | inr e ↦
          let r = add_registrations_complete resolve username regs targets d in
          subst (IsReached resolve username (reg ∷ regs) targets)
            (sym (skip_registration resolve username reg regs targets e))
            (r.0, r.1, ((λ addr c h. ground arith), r.2))
      | inl e ↦
          let more = add_target targets (contact_addr resolve reg.contact) in
          let r =
            add_registrations_complete resolve username regs more
              (add_target-AreDistinct targets (contact_addr resolve reg.contact) d) in
          subst (IsReached resolve username (reg ∷ regs) targets)
            (sym (take_registration resolve username reg regs targets e))
            (
              r.0,
              (λ a h. r.1 a (add_target_keeps targets (contact_addr resolve reg.contact) a h)),
              ((λ addr c h. r.1 addr (rw h (add_target_adds targets addr))), r.2),
            )
    ]

-- One of the registrations.
abbrev pub IsRegistered : Registration → List Registration → Type 0
IsRegistered reg [] = ⊥
IsRegistered reg (r ∷ regs) = (reg ≡ r) ⊎ IsRegistered reg regs

told_of :
    (resolve : Text → Option Addr) (username : Text) (targets : List Addr)
    (regs : List Registration) (reg : Registration) (addr : Addr)
    → AreTold resolve username targets regs
    → IsRegistered reg regs
    → is_concerned username reg ≡ true
    → contact_addr resolve reg.contact ≡ some addr
    → is_target addr targets ≡ true
told_of resolve username targets (r ∷ regs) reg addr t (inl e) c h = t.0 addr (rw⁻¹ e c) (rw⁻¹ e h)
told_of resolve username targets (r ∷ regs) reg addr t (inr m) c h =
    told_of resolve username targets regs reg addr t.1 m c h
told_of resolve username targets [] reg addr t m c h = absurd m

-- The end of a call is sent to distinct addresses, the one that the call came from among them; and
-- each registration of the call's user, or of anyone if the user is not known, is told at its
-- contact's address, where that resolves.
pub add_registrations-told :
    (resolve : Text → Option Addr) (username : Text) (regs : List Registration) (remote : Addr)
    (reg : Registration) (addr : Addr)
    → IsRegistered reg regs
    → is_concerned username reg ≡ true
    → contact_addr resolve reg.contact ≡ some addr
    → AreDistinct (add_registrations resolve username regs (remote ∷ []))
      × (is_target remote (add_registrations resolve username regs (remote ∷ [])) ≡ true)
      × (is_target addr (add_registrations resolve username regs (remote ∷ [])) ≡ true)
add_registrations-told resolve username regs remote reg addr m c h =
    let r = add_registrations_complete resolve username regs (remote ∷ []) (refl, tt) in
    (
      r.0,
      r.1 remote (ground (arith, text_eq_refl (addr_text remote))),
      told_of resolve username _ regs reg addr r.2 m c h,
    )

-- How many of the datagrams go to this address.
abbrev pub count_to : Addr → List Datagram → ℕ
count_to addr [] = 0
count_to addr (d ∷ ds) =
    (if text_eq (addr_text d.to_addr) (addr_text addr) then 1 else 0) + count_to addr ds

count_to-append :
    (addr : Addr) (xs ys : List Datagram)
    → count_to addr (xs ++ ys) ≡ count_to addr xs + count_to addr ys
count_to-append addr [] ys = omega arith
count_to-append addr (d ∷ xs) ys = omega (arith, count_to-append addr xs ys)

count_to-twice :
    (addr a : Addr) (message : Text)
    → count_to addr (send_twice message a)
      ≡ (if is_nil message || not (text_eq (addr_text a) (addr_text addr)) then 0 else 2)
unfolding send_twice
count_to-twice addr a message = ground arith

count_to_fresh :
    (message : Addr → Text) (addr : Addr) (targets : List Addr)
    → is_target addr targets ≡ false
    → count_to addr (send_each message targets) ≡ 0
unfolding send_each
count_to_fresh message addr [] h = refl
count_to_fresh message addr (a ∷ later) h = ground (
  arith,
  count_to-append addr (send_twice (message a) a) (send_each message later),
  count_to-twice addr a (message a),
  count_to_fresh message addr later,
)

send_each_head :
    (message : Addr → Text) (a : Addr) (later : List Addr)
    → is_target a later ≡ false
    → count_to a (send_each message (a ∷ later)) ≡ (if is_nil (message a) then 0 else 2)
unfolding send_each
send_each_head message a later h = ground (
  arith,
  count_to-append a (send_twice (message a) a) (send_each message later),
  count_to-twice a a (message a),
  count_to_fresh message a later h,
  text_eq_refl (addr_text a),
)

send_each-later :
    (message : Addr → Text) (a : Addr) (later rest : List Addr)
    → is_target a rest ≡ false
    → All (λ b. count_to b (send_each message later) ≡ (if is_nil (message b) then 0 else 2)) rest
    → All
        (λ b. count_to b (send_each message (a ∷ later)) ≡ (if is_nil (message b) then 0 else 2))
        rest
unfolding send_each
send_each-later message a later [] h k = tt
send_each-later message a later (b ∷ rest) h k = (
  ground (
    arith,
    count_to-append b (send_twice (message a) a) (send_each message later),
    count_to-twice b a (message a),
    k.0,
    text_eq_sym (addr_text a) (addr_text b),
  ),
  send_each-later message a later rest (ground arith) k.1,
)

-- With distinct addresses, each gets the message of its own exactly twice, or nothing if that is
-- empty.
pub send_each_twice :
    (message : Addr → Text) (targets : List Addr)
    → AreDistinct targets
    → All
        (λ b. count_to b (send_each message targets) ≡ (if is_nil (message b) then 0 else 2))
        targets
send_each_twice message [] d = tt
send_each_twice message (a ∷ later) d = (
  send_each_head message a later d.0,
  send_each-later message a later later d.0 (send_each_twice message later d.1),
)
