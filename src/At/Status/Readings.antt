-- ===== src/At/Status/Readings.antt =====
-- at/adapter.go: what the status readings promise, and where they mislead.
use dontmove_kit.Prelude.{ℕ, ◌≤◌, ◌≡◌, ◌≢◌, ◌⊎◌, true, none, some, arith}
use dontmove_kit.Prelude.Int.{ℤ, pos, negsuc, ◌≤ℤ◌}
use dontmove_kit.Text.Laws.{contains_tail}
use dontmove_kit.Text.{Text, txt, contains, to_lower, atoi}
use dontmove_kit.At.Status.{ready, absent, normalize_sim, rssi_field, dbm, parse_rssi, signal_bars}

-- More signal never shows fewer bars, and there are four at most.
pub signal_bars_mono : (a b : ℤ) → a ≤ℤ b → (signal_bars a ≤ signal_bars b) × (signal_bars b ≤ 4)
unfolding signal_bars
signal_bars_mono a b h = ground arith

-- A reading of 0 to 31, which is what the modem reports of a known signal, is shown between -113
-- and -51 dBm, as twice the reading above -113.
pub parse_rssi_known :
    (value : Text) (n : ℕ)
    → atoi (rssi_field value) ≡ some (pos n)
    → n ≤ 31
    → (parse_rssi value ≡ dbm (pos n))
      × (negsuc 112 ≤ℤ parse_rssi value)
      × (parse_rssi value ≤ℤ negsuc 50)
unfolding parse_rssi
parse_rssi_known value n h le = ground arith

-- An unknown signal, reported as 99 or unreadable, is shown at full strength.
pub signal_bars_unknown :
    (value : Text)
    → (atoi (rssi_field value) ≡ none) ⊎ (atoi (rssi_field value) ≡ some (pos 99))
    → signal_bars (parse_rssi value) ≡ 4
unfolding parse_rssi signal_bars
signal_bars_unknown value h = ground arith

ready_of_not_ready :
    (s : Text) → contains s (txt "not ready") ≡ true → contains s (txt "ready") ≡ true
ready_of_not_ready s h =
    contains_tail s _ b' '
      (contains_tail s _ b't' (contains_tail s _ b'o' (contains_tail s _ b'n' h)))

-- "NOT READY" contains "READY", and that is tested first: an answer that says so is read not as an
-- absent card but as one that is ready.
pub normalize_sim_not_ready :
    (value : Text)
    → contains (to_lower value) (txt "not ready") ≡ true
    → (normalize_sim value ≢ absent) × (normalize_sim value ≡ ready)
unfolding normalize_sim
normalize_sim_not_ready value h = (
  ground (arith, ready_of_not_ready (to_lower value)),
  ground (arith, ready_of_not_ready (to_lower value)),
)
