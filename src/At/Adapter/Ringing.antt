-- ===== src/At/Adapter/Ringing.antt =====
-- at/adapter.go: one cellular call opens one incoming event, however often it rings.
use dontmove_kit.Prelude.{◌≡◌, ◌≢◌, refl, true, false, List, [], ◌∷◌, ◌++◌, arith, All}
use dontmove_kit.Text.{Text, txt, text_eq, has_prefix, trim_space}
use dontmove_kit.Text.Laws.{text_eq_iff}
use dontmove_kit.At.Parser.{is_call_end}
use dontmove_kit.At.Adapter.Refusals.{dial_idle}
use dontmove_kit.At.Adapter.{
  Adapter, handle_urc, handle_urcs, done, failed, active_call, command, dial, hangup, finish_active,
  validate_active,
}

-- A line that does not end a call.
abbrev pub KeepsCall : Text → Type 0
KeepsCall line = is_call_end (trim_space line) ≡ false

-- What repeated lines leave alone.
record IsSameCall (a b : Adapter) : Type 0 where
  sent : b.incoming_sent ≡ true
  active : b.active ≡ a.active
  publishing : b.publishing ≡ a.publishing
  events : b.events ≡ a.events

handle_urc-IsSameCall :
    (line : Text) (a : Adapter)
    → KeepsCall line
    → a.incoming_sent ≡ true
    → a.active ≢ []
    → IsSameCall a (handle_urc line a)
unfolding handle_urc
handle_urc-IsSameCall line a k s h = ground arith

handle_urcs-IsSameCall :
    (lines : List Text) (a : Adapter)
    → All KeepsCall lines
    → a.incoming_sent ≡ true
    → a.active ≢ []
    → IsSameCall a (handle_urcs lines a)
unfolding handle_urcs
handle_urcs-IsSameCall [] a k s h = record {
  sent = s;
  active = refl;
  publishing = refl;
  events = refl;
}
handle_urcs-IsSameCall (line ∷ lines) a k s h = ground (
  arith,
  handle_urc-IsSameCall line a k.0 s h,
  handle_urcs-IsSameCall lines (handle_urc line a) k.1,
)

-- No call is up and none has been announced.
abbrev pub IsIdle : Adapter → Type 0
IsIdle a = (a.active ≡ []) × (a.incoming_sent ≡ false)

ring_idle :
    (line : Text) (a : Adapter)
    → IsIdle a
    → trim_space line ≡ txt "RING"
    → ((handle_urc line a).active ≡ a.uuid a.minted)
      × ((handle_urc line a).incoming_sent ≡ true)
      × ((handle_urc line a).publishing ≡ a.publishing ++ a.uuid a.minted ∷ [])
      × ((handle_urc line a).events ≡ a.events)
unfolding handle_urc has_prefix text_eq
ring_idle line a (n, s) t = rw t (ground arith)

-- On an idle adapter a RING, followed by any lines of which none ends a call, starts exactly one
-- announcement, under a fresh id that becomes the active call, and publishes nothing itself.
pub handle_urcs_ring_once :
    (line : Text) (lines : List Text) (a : Adapter)
    → IsIdle a
    → a.uuid a.minted ≢ []
    → trim_space line ≡ txt "RING"
    → All KeepsCall lines
    → ((handle_urcs (line ∷ lines) a).publishing ≡ a.publishing ++ a.uuid a.minted ∷ [])
      × ((handle_urcs (line ∷ lines) a).active ≡ a.uuid a.minted)
      × ((handle_urcs (line ∷ lines) a).events ≡ a.events)
unfolding handle_urcs
handle_urcs_ring_once line lines a i u t k =
    ground (arith, ring_idle line a i t, handle_urcs-IsSameCall lines (handle_urc line a) k)

end-IsIdle :
    (line : Text) (a : Adapter)
    → is_call_end (trim_space line) ≡ true
    → has_prefix (trim_space line) (txt "+CLIP:") ≡ false
    → text_eq (trim_space line) (txt "RING") ≡ false
    → IsIdle (handle_urc line a)
      × ((handle_urc line a).publishing ≡ a.publishing)
      × ((handle_urc line a).uuid ≡ a.uuid)
      × ((handle_urc line a).minted ≡ a.minted)
unfolding handle_urc
end-IsIdle line a e c r = ground arith

-- A line that ends a call, and is no caller id, leaves the adapter idle: the next dial is not
-- refused as busy, and the next RING announces a call.
pub handle_urc_end :
    (line ring_line peer : Text) (a : Adapter)
    → is_call_end (trim_space line) ≡ true
    → has_prefix (trim_space line) (txt "+CLIP:") ≡ false
    → text_eq (trim_space line) (txt "RING") ≡ false
    → trim_space ring_line ≡ txt "RING"
    → IsIdle (handle_urc line a)
      × ((dial peer (handle_urc line a)).0 ≢ failed active_call)
      × ((handle_urc ring_line (handle_urc line a)).publishing
          ≡ a.publishing ++ a.uuid a.minted ∷ [])
handle_urc_end line ring_line peer a e c r t = ground (
  arith,
  end-IsIdle line a e c r,
  dial_idle peer (handle_urc line a),
  ring_idle ring_line (handle_urc line a),
  t,
)

hangup_finish :
    (call : Text) (a : Adapter)
    → (hangup call a).0 ≡ done tt
    → (hangup call a).1 ≡ finish_active call (txt "local_hangup") (command (txt "ATH") a).1
unfolding hangup validate_active
hangup_finish call a h = ground arith

finish_active_facts :
    (call reason : Text) (a : Adapter)
    → call ≢ []
    → ((finish_active call reason a).incoming_sent ≡ false)
      × ((finish_active call reason a).active ≢ call)
unfolding finish_active
finish_active_facts call reason a n = ground (arith, text_eq_iff a.active call)

ring_unsent :
    (line : Text) (a : Adapter)
    → a.incoming_sent ≡ false
    → trim_space line ≡ txt "RING"
    → (handle_urc line a).publishing ≡ a.publishing ++ (handle_urc line a).active ∷ []
unfolding handle_urc has_prefix text_eq
ring_unsent line a s t = rw t (ground arith)

-- After a successful local hangup of a named call that call is not active and the next RING
-- announces a call, whatever the modem said while the hangup was under way: the announcements
-- still waiting grow by exactly the call then active.
pub hangup_ring :
    (call line : Text) (a : Adapter)
    → call ≢ []
    → (hangup call a).0 ≡ done tt
    → trim_space line ≡ txt "RING"
    → ((hangup call a).1.incoming_sent ≡ false)
      × ((hangup call a).1.active ≢ call)
      × ((handle_urc line (hangup call a).1).publishing
          ≡ (hangup call a).1.publishing ++ (handle_urc line (hangup call a).1).active ∷ [])
hangup_ring call line a n h t =
    let facts = finish_active_facts call (txt "local_hangup") (command (txt "ATH") a).1 n in
    rw (hangup_finish call a h) (facts.0, facts.1, ring_unsent line _ facts.0 t)
