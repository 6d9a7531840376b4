-- ===== src/Agent/Refusals.antt =====
-- What a tick of client/sentinel-agent/src/agent.rs does when the gate refuses and when the device
-- is revoked.
use magick_sentinel.Prelude.{
  ℕ, zero, suc, ◌≡◌, refl, ◌∙◌, ap, true, false, Option, none, some, arith, Bool-cases, inl, inr,
}
use magick_sentinel.Detector.{BlockReason, CallState, block, unblock, signed_out}
use magick_sentinel.Detector
use magick_sentinel.Identity.{
  IdentityStatus, online, grace, expired, gate_blocked, status, may_capture, observe_verified,
  set_device_revoked, block_reason,
}
use magick_sentinel.Auth.{AuthService, AuthState, AuthResult}
use magick_sentinel.Auth
use magick_sentinel.Uplink.{Uplink}
use magick_sentinel.Pipeline.{Pipeline, take_events, block_capture, tell}
use magick_sentinel.Agent.{
  Agent, Surroundings, HeartbeatReply, accepted, forbidden, failed, run_capture,
  take_pipeline_events, upload, send_heartbeat, beat, sign_out, signed_out_with, sign_out_calls,
  after_capture, then_upload, tick, on_pipeline, gated, replied, is_blocked, state_of,
  capture_state,
}

abbrev Stopped : Agent → Type 0
Stopped a = is_blocked (state_of a.pipeline) ≡ true

block-stops :
    (p : Pipeline) (reason : BlockReason)
    → is_blocked (block_capture p reason).0.detector.state ≡ true
unfolding block_capture tell Detector.feed
block-stops p reason = ground arith

gated-stops :
    (st : IdentityStatus) (p : Pipeline)
    → may_capture st ≡ false
    → is_blocked (gated (block_reason st) p).detector.state ≡ true
unfolding gated may_capture block_reason
gated-stops online p h = cc
gated-stops (grace n) p h = cc
gated-stops expired p h = elim (Bool-cases (is_blocked p.detector.state)) [
  | inl e ↦ rw e e
  | inr e ↦ rw e (block-stops p Detector.offline_grace_expired)
]
gated-stops (gate_blocked reason) p h = elim (Bool-cases (is_blocked p.detector.state)) [
  | inl e ↦ rw e e
  | inr e ↦ rw e (block-stops p reason)
]

gated_pipeline-stops :
    (st : IdentityStatus) (p : Option Pipeline) (a : Agent)
    → a.pipeline ≡ p
    → may_capture st ≡ false
    → Stopped (on_pipeline (gated (block_reason st)) a)
gated_pipeline-stops st none a e h = rw e refl
gated_pipeline-stops st (some p) a e h = rw e (gated-stops st p h)

upload-pipeline :
    (s : Surroundings) (now_ms : ℕ) (a : Agent) → (upload s.world now_ms a).0.pipeline ≡ a.pipeline
unfolding upload
upload-pipeline s now_ms a = ground arith

replied-pipeline :
    (r : HeartbeatReply) (now_ms : ℕ) (a : Agent) → (replied r now_ms a).0.pipeline ≡ a.pipeline
replied-pipeline accepted now_ms a = refl
replied-pipeline forbidden now_ms a = refl
replied-pipeline failed now_ms a = refl

beat-pipeline :
    (r : HeartbeatReply) (now_ms : ℕ) (a : Agent) → (beat r now_ms a).0.pipeline ≡ a.pipeline
unfolding beat send_heartbeat
beat-pipeline r now_ms a =
    ground (arith, replied-pipeline r now_ms (record a { last_heartbeat_ms = some now_ms }))

taken-Stopped :
    (p : Option Pipeline) (a : Agent)
    → a.pipeline ≡ p
    → Stopped a
    → Stopped (take_pipeline_events a)
unfolding take_pipeline_events take_events
taken-Stopped none a e h = rw e refl
taken-Stopped (some p) a e h = rw e (rw e at h)

out_with-Stopped :
    (p : Option Pipeline) (a : Agent) (r : AuthService × Uplink × AuthResult ℕ)
    → a.pipeline ≡ p
    → Stopped a
    → Stopped (signed_out_with a r).0
out_with-Stopped none a (svc, u, Auth.ok n) e h = rw e refl
out_with-Stopped (some p) a (svc, u, Auth.ok n) e h = rw e (block-stops p signed_out)
out_with-Stopped p a (svc, u, Auth.err x) e h = h

sign_out_calls-Stopped :
    (s : Surroundings) (now_ms n : ℕ) (a : Agent)
    → Stopped a
    → Stopped (sign_out_calls s now_ms n a).0
unfolding sign_out_calls sign_out
sign_out_calls-Stopped s now_ms zero a h = h
sign_out_calls-Stopped s now_ms (suc n) a h =
    let once : Stopped (sign_out s now_ms a).0 = out_with-Stopped a.pipeline a _ refl h in
    elim (Bool-cases (sign_out s now_ms a).1) [
      | inl e ↦ rw e (sign_out_calls-Stopped s now_ms n (sign_out s now_ms a).0 once)
      | inr e ↦ rw e once
    ]

after_capture-Stopped :
    (s : Surroundings) (now_ms n : ℕ) (a : Agent)
    → Stopped a
    → Stopped (after_capture s now_ms n a).0
unfolding after_capture
after_capture-Stopped s now_ms n a h =
    let a1 = take_pipeline_events a in
    let a2 = (upload s.world now_ms a1).0 in
    let a3 = (beat s.reply now_ms a2).0 in
    let same : a3.pipeline ≡ a1.pipeline =
      beat-pipeline s.reply now_ms a2 ∙ upload-pipeline s now_ms a1 in
    sign_out_calls-Stopped s now_ms s.sign_outs a3
      (ap (λ p. is_blocked (state_of p)) same ∙ taken-Stopped a.pipeline a refl h)

-- A tick at a time when the gate does not allow capture ends with the detector blocked, or with no
-- pipeline, whatever its state was and whatever else happens in the tick.
pub refused_tick_blocks :
    (s : Surroundings) (now_ms : ℕ) (a : Agent)
    → may_capture (status a.gate now_ms) ≡ false
    → is_blocked (capture_state (tick s now_ms a).0) ≡ true
unfolding tick capture_state run_capture then_upload
refused_tick_blocks s now_ms a h =
    let a1 = on_pipeline (gated (block_reason (status a.gate now_ms))) a in
    rw h (
      after_capture-Stopped s now_ms 0 a1
        (gated_pipeline-stops (status a.gate now_ms) a.pipeline a refl h))

-- What a revoked agent keeps over the parts of a tick.
abbrev Halted : Uplink → Agent → Type 0
Halted u a = (a.uplink ≡ u) × (a.revoked ≡ true) × (a.gate.device_revoked ≡ true)

upload-Halted :
    (s : Surroundings) (now_ms : ℕ) (u : Uplink) (a : Agent)
    → Halted u a
    → Halted u (upload s.world now_ms a).0
unfolding upload set_device_revoked
upload-Halted s now_ms u a (same, revoked, closed) = rw revoked (same, refl, refl)

replied-Halted :
    (r : HeartbeatReply) (now_ms : ℕ) (u : Uplink) (a : Agent)
    → Halted u a
    → Halted u (replied r now_ms a).0
unfolding observe_verified set_device_revoked
replied-Halted accepted now_ms u a h = h
replied-Halted forbidden now_ms u a (same, _, _) = (same, refl, refl)
replied-Halted failed now_ms u a h = h

beat-Halted :
    (r : HeartbeatReply) (now_ms : ℕ) (u : Uplink) (a : Agent)
    → Halted u a
    → Halted u (beat r now_ms a).0
unfolding beat send_heartbeat
beat-Halted r now_ms u a h =
    let later = replied-Halted r now_ms u (record a { last_heartbeat_ms = some now_ms }) h in
    ground (arith, h, later)

revoked_refuses :
    (a : Agent) (now_ms : ℕ)
    → a.gate.device_revoked ≡ true
    → may_capture (status a.gate now_ms) ≡ false
unfolding may_capture status
revoked_refuses a now_ms h = ground (arith, h)

-- A tick of an agent whose device is revoked, in which nobody signs out, leaves the uplink as it
-- is: nothing is spooled, no connection is opened and no audio is deleted; and the device stays
-- revoked whatever the server answers.
pub revoked_tick_halts :
    (s : Surroundings) (now_ms : ℕ) (a : Agent)
    → a.revoked ≡ true
    → a.gate.device_revoked ≡ true
    → s.sign_outs ≡ 0
    → let a' = (tick s now_ms a).0 in
      (a'.uplink ≡ a.uplink) × (a'.revoked ≡ true) × (a'.gate.device_revoked ≡ true)
unfolding tick run_capture then_upload after_capture sign_out_calls take_pipeline_events
revoked_tick_halts s now_ms a revoked closed stays =
    let a1 = take_pipeline_events (on_pipeline (gated (block_reason (status a.gate now_ms))) a) in
    let a2 = (upload s.world now_ms a1).0 in
    rw (revoked_refuses a now_ms closed, stays)
      (beat-Halted s.reply now_ms a.uplink a2
        (upload-Halted s now_ms a.uplink a1 (refl, revoked, closed)))
