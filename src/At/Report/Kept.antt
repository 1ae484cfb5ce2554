-- ===== src/At/Report/Kept.antt =====
-- at/adapter.go: what a probe leaves for the status report.
use dontmove_kit.Prelude.{◌≡◌, refl, true, List}
use dontmove_kit.Text.{Text, txt}
use dontmove_kit.At.Adapter.{Adapter, Except, done, failed, command}
use dontmove_kit.At.Report.{Capabilities, Vendor, Reporter, probe_from, probe}

-- A probe that fails keeps the capabilities that were there and asks for caller identification
-- again next time; one that is done keeps what it answered, and does not ask again.
abbrev IsKept : Reporter → Except Capabilities × Reporter → Type 0
IsKept r (failed e, s) = (s.caps ≡ r.caps) × (s.clip_done ≡ r.clip_done)
IsKept r (done c, s) = (s.caps ≡ c) × (s.clip_done ≡ true)

module _ (vendor : Vendor) where
  probe_from-IsKept :
      (answer : Except (List Text)) (a : Adapter) (r : Reporter)
      → IsKept r (probe_from vendor answer a r)
  probe_from-IsKept (failed e) a r = (refl, refl)
  probe_from-IsKept (done lines) a r = (refl, refl)

  -- Probe keeps what it answers for Status, and a probe that fails changes nothing of it.
  probe-IsKept : (r : Reporter) → IsKept r (probe vendor r)
  unfolding probe
  probe-IsKept r =
      let answer = command (txt "AT+CGMI") r.adapter in probe_from-IsKept answer.0 answer.1 r
