-- ===== src/Api/Recordings/Preferences.antt =====
-- api/server.go: `recordingSettings`.
use dontmove_kit.Prelude.{ℕ, Bool, true, false, ◌||◌, Option, none, some, if◌then◌else◌}
use dontmove_kit.Text.{Text, txt, trim_space}
use dontmove_kit.Api.{
  get, put, method_eq, Request, SettingsRequest, Settings, current_settings, write, write_error,
}
use dontmove_kit.Api.State.{automatic_disabled, Error, Result, good, bad, Env}
use dontmove_kit.Api.Keys.{Handler, reply, behind, authorize, require, with_json, on_result, audit}
use dontmove_kit.Api.Messages.{failed_with}
use dontmove_kit.Api.Recordings.{no_recordings}

abbrev or_kept {ℓ} : {A : Type ℓ} → A → Option A → A
or_kept old none = old
or_kept old (some new) = new

abbrev trimmed : Option Text → Option Text
trimmed none = none
trimmed (some mode) = some (trim_space mode)

-- The settings with the fields of a request put in.
unfoldable pub changed_settings : SettingsRequest → Settings → Settings
changed_settings r s = record {
  enabled = or_kept s.enabled r.enabled;
  auto_mode = or_kept s.auto_mode (trimmed r.auto_mode);
  retention_days = or_kept s.retention_days r.retention_days;
  minimum_free_bytes = or_kept s.minimum_free_bytes r.minimum_free_bytes;
}

abbrev is_automatic_disabled : Error → Bool
is_automatic_disabled e = elim e.reason [ automatic_disabled ↦ true | _ ↦ false ]

module _ (env : Env) where
  abbrev pub write_settings : Settings → ℕ → Handler env
  write_settings settings used = reply env (write 200 (current_settings settings used))

  abbrev pub show_settings : Settings → Handler env
  show_settings settings s =
      on_result env (env.used_bytes s.store) (failed_with env (txt "CB-REC-011"))
        (write_settings settings) s

  abbrev pub updated : Text → Settings → Result (Unit {0}) → Handler env
  updated device settings (good u) s =
      show_settings settings
        (audit env device (txt "recording.settings.update") (txt "recording") (txt "accepted") s)
  updated device settings (bad e) s =
      if is_automatic_disabled e
      then (write_error 409 (txt "CB-REC-013") e.text, s)
      else (write_error 400 (txt "CB-REC-014") e.text, s)

  abbrev pub put_settings : Text → Settings → SettingsRequest → Handler env
  put_settings device settings request s =
      let changed = changed_settings request settings in
      let r = env.update_settings changed s.store in
      updated device changed r.0 (record s { store = r.1 })

  abbrev pub with_settings : Request → Text → Settings → Handler env
  with_settings r device settings =
      if method_eq r.method put
      then with_json env r.settings
          (write_error 400 (txt "CB-REC-012") (txt "invalid recording settings JSON"))
          (put_settings device settings)
      else show_settings settings

  abbrev pub settings_stored : Request → Text → Handler env
  settings_stored r device s =
      on_result env (env.recording_settings s.store) (failed_with env (txt "CB-REC-011"))
        (with_settings r device) s

  abbrev pub settings_authorized : Request → Text → Handler env
  settings_authorized r device =
      require env env.has_recordings no_recordings (settings_stored r device)

  -- recordingSettings.
  unfoldable pub recording_settings : Request → Handler env
  recording_settings r =
      require env (method_eq r.method get || method_eq r.method put)
        (write_error 405 (txt "CB-API-001") (txt "method not allowed"))
        (behind env (authorize env r) (settings_authorized r))
