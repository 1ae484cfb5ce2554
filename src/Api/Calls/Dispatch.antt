-- ===== src/Api/Calls/Dispatch.antt =====
-- api/server.go: `callAction`, the routes below a call.
use dontmove_kit.Prelude.{Bool, true, false, ◌&&◌, List, [], ◌∷◌, if◌then◌else◌}
use dontmove_kit.Text.{Text, txt, text_eq}
use dontmove_kit.Api.{get, post, delete, method_eq, Request}
use dontmove_kit.Api.State.{Env}
use dontmove_kit.Api.Keys.{Handler, reply, behind, authorize, idempotency_key}
use dontmove_kit.Api.Messages.Actions.{parts_below}
use dontmove_kit.Api.Recordings.Control.{call_recording_action}
use dontmove_kit.Api.Calls.{get_call}
use dontmove_kit.Api.Calls.Actions.{no_call_action, act_named}
use dontmove_kit.Api.Turn.{call_ice}
use dontmove_kit.Api.Calls.Deletion.{delete_call}

module _ (env : Env) where
  abbrev pub one_part : Request → Text → Text → Handler env
  one_part r device id =
      if method_eq r.method get
      then get_call env id
      else if method_eq r.method delete
      then delete_call env r id device
      else reply env (no_call_action env)

  abbrev pub two_parts : Request → Text → Text → Text → Handler env
  two_parts r device id name =
      if method_eq r.method post
      then behind env (idempotency_key r) (act_named env r device id name)
      else reply env (no_call_action env)

  -- The requests about the media of a call.
  abbrev pub is_media : Request → List Text → Bool
  is_media r (id ∷ name ∷ []) = text_eq name (txt "ice") && method_eq r.method get
  is_media r (id ∷ name ∷ last ∷ []) =
      method_eq r.method post && (text_eq name (txt "webrtc") && text_eq last (txt "offer"))
  is_media r _ = false

  abbrev pub three_parts : Request → Text → Text → Text → Handler env
  three_parts r id name last =
      if method_eq r.method post && text_eq name (txt "recording")
      then (if text_eq last (txt "start")
          then call_recording_action env r id true
          else if text_eq last (txt "stop")
          then call_recording_action env r id false
          else reply env (no_call_action env))
      else reply env (no_call_action env)

  abbrev pub call_route : Request → Text → List Text → Handler env
  call_route r device (id ∷ []) = one_part r device id
  call_route r device (id ∷ name ∷ []) = two_parts r device id name
  call_route r device (id ∷ name ∷ last ∷ []) = three_parts r id name last
  call_route r device _ = reply env (no_call_action env)

  -- The ICE servers, and the WebRTC offer, which is handled `elsewhere`.
  abbrev pub media_route : (Request → Text → Handler env) → Request → Text → List Text → Handler env
  media_route elsewhere r device (id ∷ name ∷ []) = call_ice env r.now id device
  media_route elsewhere r device _ = elsewhere r device

  abbrev pub call_authorized : (Request → Text → Handler env) → Request → Text → Handler env
  call_authorized elsewhere r device =
      let parts = parts_below (txt "/api/v1/calls/") r.path in
      if is_media r parts then media_route elsewhere r device parts else call_route r device parts

  -- callAction. `elsewhere` stands for the WebRTC offer.
  unfoldable pub call_action : (Request → Text → Handler env) → Request → Handler env
  call_action elsewhere r = behind env (authorize env r) (call_authorized elsewhere r)
