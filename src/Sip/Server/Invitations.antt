-- ===== src/Sip/Server/Invitations.antt =====
-- sip/server.go, inviteRegistered: what is sent to ring the clients, and what is kept of it.
use mathlib.Core.List.{append-nil, append_assoc}
use dontmove_kit.Prelude.{
  ◌≡◌, refl, sym, ap, ◌∙◌, Option, none, some, List, [], ◌∷◌, ◌++◌, inl, inr, Bool-cases,
  Option-cases, if◌then◌else◌,
}
use dontmove_kit.Text.{Text}
use dontmove_kit.Calls.{Control}
use dontmove_kit.Sip.Session.{Addr, Invite, Session, remember_invite}
use dontmove_kit.Sip.Session.Invites.{IsBounded, remember_invite-IsBounded}
use dontmove_kit.Sip.Teardown.{Registration, Datagram, contact_addr}
use dontmove_kit.Sip.Server.{Env}
use dontmove_kit.Sip.Server.Ending.{Server}
use dontmove_kit.Sip.Server.Ringing.{invite_message, invite_at, invite_registered}

abbrev invite_datagram : Option Addr → Text → List Datagram
invite_datagram none message = []
invite_datagram (some addr) message = record { to_addr = addr; message = message } ∷ []

-- The datagrams of these invitations.
abbrev pub invite_datagrams : List Invite → List Datagram
invite_datagrams [] = []
invite_datagrams (a ∷ invites) = invite_datagram a.addr a.req ++ invite_datagrams invites

invite_datagrams-append :
    (xs ys : List Invite) → invite_datagrams (xs ++ ys) ≡ invite_datagrams xs ++ invite_datagrams ys
invite_datagrams-append [] ys = refl
invite_datagrams-append (a ∷ xs) ys =
    ap (λ ds. invite_datagram a.addr a.req ++ ds) (invite_datagrams-append xs ys)
    ∙ sym (append_assoc (invite_datagram a.addr a.req) (invite_datagrams xs) (invite_datagrams ys))

module _ {control : Control} ⦃env : Env⦄ where
  -- What was sent from one state to another is what the session's list of invitations grew by.
  pub record KeptInvites (s : Session) (srv : Server control) (r : Session × Server control)
      : Type 0 where
    pub added : List Invite
    pub kept : r.0.invites ≡ s.invites ++ added
    pub sent : r.1.outbox ≡ srv.outbox ++ invite_datagrams added
    pub bounded : IsBounded r.0

  KeptInvites-refl : (s : Session) (srv : Server control) → IsBounded s → KeptInvites s srv (s, srv)
  KeptInvites-refl s srv b = record {
    added = [];
    kept = sym (append-nil s.invites);
    sent = sym (append-nil srv.outbox);
    bounded = b;
  }

  KeptInvites-trans :
      (s : Session) (srv : Server control) (m r : Session × Server control)
      → KeptInvites s srv m
      → KeptInvites m.0 m.1 r
      → KeptInvites s srv r
  KeptInvites-trans s srv m r h k = record {
    added = h.added ++ k.added;
    kept = k.kept ∙ ap (λ xs. xs ++ k.added) h.kept ∙ append_assoc s.invites h.added k.added;
    sent =
        k.sent
        ∙ ap (λ xs. xs ++ invite_datagrams k.added) h.sent
        ∙ append_assoc srv.outbox (invite_datagrams h.added) (invite_datagrams k.added)
        ∙ ap (λ xs. srv.outbox ++ xs) (sym (invite_datagrams-append h.added k.added));
    bounded = k.bounded;
  }

  invite_at-KeptInvites :
      (reg : Registration) (remote : Addr) (s : Session) (srv : Server control)
      → IsBounded s
      → KeptInvites s srv (invite_at reg remote s srv)
  unfolding invite_at
  invite_at-KeptInvites reg remote s srv b =
      let local = env.local_ip_for remote in
      let a : Invite = record {
        addr = some remote;
        req = invite_message reg.username local s.id s.peer (env.media_port s.id);
      } in
      let r = remember_invite-IsBounded a s b in
      elim (Bool-cases (remember_invite a s).0) [
        | inl e ↦
            rw (invite_at, e)
              (record {
                added = a ∷ [];
                kept = r.2 ∙ ap (λ t. if t then s.invites ++ a ∷ [] else s.invites) e;
                sent = refl;
                bounded = record { few = r.0.few; distinct = r.0.distinct };
              })
        | inr e ↦ rw (invite_at, e) (KeptInvites-refl s srv b)
      ]

  -- A pass over the registrations records each invitation that it sends, with its address and the
  -- very message, and sends no other: the datagrams that went out are those of the invitations that
  -- the session's list grew by. The list stays within its bound, no address in it twice.
  pub invite_registered-KeptInvites :
      (regs : List Registration) (s : Session) (srv : Server control)
      → IsBounded s
      → KeptInvites s srv (invite_registered regs s srv)
  unfolding invite_registered
  invite_registered-KeptInvites [] s srv b = KeptInvites-refl s srv b
  invite_registered-KeptInvites (reg ∷ regs) s srv b =
      elim (Option-cases (contact_addr env.resolve reg.contact)) [
        | inl e ↦ rw (invite_registered, e) (invite_registered-KeptInvites regs s srv b)
        | inr (remote, e) ↦
            let m = invite_at reg remote s srv in
            let h = invite_at-KeptInvites reg remote s srv b in
            rw (invite_registered, e)
              (KeptInvites-trans s srv m (invite_registered regs m.0 m.1) h
                (invite_registered-KeptInvites regs m.0 m.1 h.bounded))
      ]
