-- ===== src/Agent/Gate.antt =====
-- The gate over the agent's life: which operations of client/sentinel-agent/src/agent.rs move it.
use magick_sentinel.Prelude.{
  ℕ, zero, suc, ◌≡◌, refl, ◌∙◌, Bool, true, false, Option, none, some, List, [], ◌∷◌, Text, arith,
  Bool-cases, inl, inr,
}
use magick_sentinel.Tier.{CaptureTier}
use magick_sentinel.Device.{AudioDevice}
use magick_sentinel.Events.{ClientEvent}
use magick_sentinel.Identity.{
  IdentityGate, IdentityStatus, status, may_capture, observe_verified, set_signed_in,
  set_device_revoked, block_reason,
}
use magick_sentinel.Identity
use magick_sentinel.Auth.{AuthService, AuthResult}
use magick_sentinel.Auth
use magick_sentinel.Uplink.{Uplink}
use magick_sentinel.Pipeline.{Pipeline, open_devices}
use magick_sentinel.Pipeline
use magick_sentinel.Pipeline.Step.{Reading, Ran, ran, fell, StepResult}
use magick_sentinel.Agent.{
  Agent, Policy, Surroundings, HeartbeatReply, accepted, forbidden, failed, new, record_event,
  open_capture, on_session, on_signed_in, run_capture, captured, take_pipeline_events, upload,
  send_heartbeat, beat, sign_out, signed_out_with, sign_out_calls, after_capture, then_upload, tick,
  adopt_pipeline, on_pipeline, gated, replied,
}

-- What an agent can be told to do.
pub data Operation : Type 0 where
  ticking : Surroundings → ℕ → Operation
  opening : List AudioDevice → CaptureTier → Text → Operation
  session : Bool → Operation
  signing_in : Text → Operation
  recording : ClientEvent → Operation
  signing_out : Surroundings → ℕ → Operation

unfoldable pub perform : Operation → Agent → Agent
unfolding tick open_capture on_session on_signed_in record_event sign_out
perform (ticking s now_ms) a = (tick s now_ms a).0
perform (opening devices tier uid) a = (open_capture a devices tier uid).0
perform (session active) a = on_session a active
perform (signing_in uid) a = on_signed_in a uid
perform (recording event) a = record_event a event
perform (signing_out s now_ms) a = (sign_out s now_ms a).0

abbrev pub perform_all : List Operation → Agent → Agent
perform_all [] a = a
perform_all (op ∷ ops) a = perform_all ops (perform op a)

abbrev present : Agent → Bool
present a = a.gate.pinned_device_present

captured-present :
    (s : Surroundings) (a : Agent) (r : Ran StepResult) → present (captured s a r).0 ≡ present a
captured-present s a (ran m result) = refl
captured-present s a (fell m) = refl

run_capture-present :
    (s : Surroundings) (b : Bool) (p : Option Pipeline) (source : Option (Reading × Reading))
    (a : Agent)
    → present (run_capture s b p source a).0 ≡ present a
unfolding run_capture
run_capture-present s true (some p) (some (r, q)) a = captured-present s a _
run_capture-present s true (some p) none a = refl
run_capture-present s true none source a = refl
run_capture-present s false p source a = refl

upload-present :
    (s : Surroundings) (now_ms : ℕ) (a : Agent) → present (upload s.world now_ms a).0 ≡ present a
unfolding upload observe_verified set_device_revoked
upload-present s now_ms a = ground arith

replied-present :
    (r : HeartbeatReply) (now_ms : ℕ) (a : Agent) → present (replied r now_ms a).0 ≡ present a
unfolding observe_verified set_device_revoked
replied-present accepted now_ms a = refl
replied-present forbidden now_ms a = refl
replied-present failed now_ms a = refl

beat-present :
    (r : HeartbeatReply) (now_ms : ℕ) (a : Agent) → present (beat r now_ms a).0 ≡ present a
unfolding beat send_heartbeat
beat-present r now_ms a =
    ground (arith, replied-present r now_ms (record a { last_heartbeat_ms = some now_ms }))

signed_out_with-present :
    (a : Agent) (r : AuthService × Uplink × AuthResult ℕ)
    → present (signed_out_with a r).0 ≡ present a
unfolding set_signed_in
signed_out_with-present a (svc, u, Auth.ok n) = refl
signed_out_with-present a (svc, u, Auth.err e) = refl

sign_out-present :
    (s : Surroundings) (now_ms : ℕ) (a : Agent) → present (sign_out s now_ms a).0 ≡ present a
unfolding sign_out
sign_out-present s now_ms a = signed_out_with-present a _

sign_out_calls-present :
    (s : Surroundings) (now_ms n : ℕ) (a : Agent)
    → present (sign_out_calls s now_ms n a).0 ≡ present a
unfolding sign_out_calls
sign_out_calls-present s now_ms zero a = refl
sign_out_calls-present s now_ms (suc n) a =
    let once = sign_out-present s now_ms a in
    elim (Bool-cases (sign_out s now_ms a).1) [
      | inl e ↦ rw e (sign_out_calls-present s now_ms n (sign_out s now_ms a).0 ∙ once)
      | inr e ↦ rw e once
    ]

then_upload-present :
    (s : Surroundings) (now_ms : ℕ) (r : Agent × Option ℕ)
    → present (then_upload s now_ms r).0 ≡ present r.0
unfolding then_upload after_capture take_pipeline_events
then_upload-present s now_ms (a, none) = refl
then_upload-present s now_ms (a, some n) =
    let a1 = take_pipeline_events a in
    let a2 = (upload s.world now_ms a1).0 in
    let a3 = (beat s.reply now_ms a2).0 in
    sign_out_calls-present s now_ms s.sign_outs a3
    ∙ beat-present s.reply now_ms a2
    ∙ upload-present s now_ms a1

tick-present : (s : Surroundings) (now_ms : ℕ) (a : Agent) → present (tick s now_ms a).0 ≡ present a
unfolding tick
tick-present s now_ms a =
    let st = status a.gate now_ms in
    let a1 = on_pipeline (gated (block_reason st)) a in
    then_upload-present s now_ms (run_capture s (may_capture st) a1.pipeline s.source a1)
    ∙ run_capture-present s (may_capture st) a1.pipeline s.source a1

adopt_pipeline-present :
    (a : Agent) (r : Pipeline × Bool) → present (adopt_pipeline a r).0 ≡ present a
adopt_pipeline-present a (p, true) = refl
adopt_pipeline-present a (p, false) = refl

perform-present : (op : Operation) (a : Agent) → present (perform op a) ≡ present a
unfolding perform open_capture on_session on_signed_in record_event set_signed_in
perform-present (ticking s now_ms) a = tick-present s now_ms a
perform-present (opening devices tier uid) a =
    adopt_pipeline-present a
      (open_devices a.policy.pinned devices (Pipeline.new a.policy.vad tier a.device_id uid))
perform-present (session active) a = refl
perform-present (signing_in uid) a = refl
perform-present (recording event) a = refl
perform-present (signing_out s now_ms) a = sign_out-present s now_ms a

perform_all-present : (ops : List Operation) (a : Agent) → present (perform_all ops a) ≡ present a
perform_all-present [] a = refl
perform_all-present (op ∷ ops) a = perform_all-present ops (perform op a) ∙ perform-present op a

refuses_absent :
    (g : IdentityGate) (now_ms : ℕ)
    → g.pinned_device_present ≡ false
    → may_capture (status g now_ms) ≡ false
unfolding may_capture status
refuses_absent g now_ms h = ground (arith, h)

-- A new agent never captures: after any operations, opening the pinned devices and signing in
-- included, its gate allows capture at no time, since nothing tells the gate that the pinned
-- device is present.
pub never_captures :
    (uplink : Uplink) (auth : AuthService) (policy : Policy) (device_id : Text)
    (ops : List Operation) (now_ms : ℕ)
    → may_capture (status (perform_all ops (new uplink auth policy device_id)).gate now_ms) ≡ false
unfolding new Identity.new set_signed_in
never_captures uplink auth policy device_id ops now_ms =
    refuses_absent _ now_ms (perform_all-present ops (new uplink auth policy device_id))
