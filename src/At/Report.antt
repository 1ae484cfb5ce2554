-- ===== src/At/Report.antt =====
-- at/adapter.go: `Probe` and `Status`, what the modem can do and how its line is.
--
-- The tiers and the probe of the voice functions (`qdc507.ProbeCapabilities`) are of packages that are
-- not part of this repository: `Vendor` has them.
pub mod Kept
use dontmove_kit.Prelude.{
  ℕ, Bool, true, false, not, Option, none, some, List, [], ◌∷◌, ◌++◌, if◌then◌else◌, is_nil,
}
use dontmove_kit.Prelude.Int.{ℤ}
use dontmove_kit.Text.{Text, txt, trim_space}
use dontmove_kit.At.Status.{
  payload, SimState, normalize_sim, Registration, normalize_registration, parse_rssi, signal_bars,
}
use dontmove_kit.At.Adapter.{Adapter, Failure, Except, done, failed, Op, ◌>>=◌, pure, command}

-- modem.Capabilities, with the fields that the adapter fills.
pub record Capabilities : Type 0 where
  pub vendor : Text
  pub model : Text
  pub tier : Text  -- empty before a probe
  pub sms : Bool
  pub voice : Bool
  pub dtmf : Bool
  pub audio : Bool
  pub requires_bootstrap : Bool
  pub fingerprint : Text

pub record Vendor : Type 0 where
  pub sms_only : Text
  pub probe_voice : Text → Text → Adapter → Option Capabilities × Adapter

-- The adapter with what Probe keeps: whether caller identification was asked for, and the capabilities.
pub record Reporter : Type 0 where
  pub adapter : Adapter
  pub clip_done : Bool
  pub caps : Capabilities

pub record LineStatus : Type 0 where
  pub sim : SimState
  pub registration : Registration
  pub rssi : ℤ
  pub bars : ℕ
  pub tier : Text
  pub voice : Text
  pub sms : Text
  pub active_call : Option Text

-- firstPayload with its error left aside.
abbrev payload_or_empty : Except (List Text) → Text
payload_or_empty (failed e) = []
payload_or_empty (done lines) = payload lines

-- The capabilities with what the probe of the voice functions found.
abbrev with_voice : Option Capabilities → Capabilities → Capabilities
with_voice none c = c
with_voice (some v) c = record c {
  voice = v.voice;
  dtmf = v.dtmf;
  audio = v.audio;
  requires_bootstrap = v.requires_bootstrap;
  tier = v.tier;
}

module _ (vendor_env : Vendor) where
  abbrev found : Text → Text → Text → Option Capabilities → Capabilities
  found manufacturer model revision voice = with_voice voice (record {
    vendor = manufacturer;
    model = model;
    tier = vendor_env.sms_only;
    sms = true;
    voice = false;
    dtmf = false;
    audio = false;
    requires_bootstrap = false;
    fingerprint = trim_space (manufacturer ++ (txt " " ++ (model ++ (txt " " ++ revision))));
  })

  -- The rest of a probe whose modem has told its manufacturer.
  abbrev probe_model : Text → Capabilities → Adapter → Except Capabilities × Reporter
  probe_model manufacturer old a =
      let model = command (txt "AT+CGMM") a in
      let revision = command (txt "AT+CGMR") model.1 in
      let name = payload_or_empty model.0 in
      let voice = vendor_env.probe_voice manufacturer name revision.1 in
      let caps = found manufacturer name (payload_or_empty revision.0) voice.0 in
      (done caps, record { adapter = voice.1; clip_done = true; caps = caps })

  abbrev pub probe_from : Except (List Text) → Adapter → Reporter → Except Capabilities × Reporter
  probe_from (failed e) a r = (failed e, record r { adapter = a })
  probe_from (done lines) a r =
      let clip = command (txt "AT+CLIP=1") a in
      probe_model (payload lines) r.caps (if r.clip_done then a else clip.1)

  -- (*Adapter).Probe.
  unfoldable pub probe : Reporter → Except Capabilities × Reporter
  unfolding command payload
  probe r = let m = command (txt "AT+CGMI") r.adapter in probe_from m.0 m.1 r

  abbrev active_of : Text → Option Text
  active_of active = if is_nil active then none else some active

  abbrev line_status : Capabilities → List Text → List Text → List Text → Text → LineStatus
  line_status caps sim registration signal active =
      let rssi = parse_rssi (payload signal) in
      record {
        sim = normalize_sim (payload sim);
        registration = normalize_registration (payload registration);
        rssi = rssi;
        bars = signal_bars rssi;
        tier = if is_nil caps.tier then vendor_env.sms_only else caps.tier;
        voice = if caps.voice then txt "control_only" else txt "unavailable";
        sms = txt "ready";
        active_call = active_of active;
      }

  -- (*Adapter).Status; the call is the one that is active behind the three exchanges.
  unfoldable pub status : Capabilities → Op LineStatus
  unfolding command payload normalize_sim normalize_registration parse_rssi signal_bars
  status caps a =
      (do
        sim ← command (txt "AT+CPIN?")
        registration ← command (txt "AT+CEREG?")
        signal ← command (txt "AT+CSQ")
        λ b. (done (line_status caps sim registration signal b.active), b))
        a
