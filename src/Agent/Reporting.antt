-- ===== src/Agent/Reporting.antt =====
-- The client events over a tick of client/sentinel-agent/src/agent.rs.
use magick_sentinel.Prelude.{
  ℕ, zero, suc, ◌≡◌, refl, sym, ◌∙◌, ap, Bool, true, false, Option, none, some, List, [], ◌++◌,
  arith, Bool-cases, inl, inr, append_assoc, append-nil,
}
use magick_sentinel.Events.{ClientEvent}
use magick_sentinel.Identity.{status, may_capture, block_reason}
use magick_sentinel.Auth.{AuthService, AuthState, AuthResult}
use magick_sentinel.Auth
use magick_sentinel.Uplink.{Uplink}
use magick_sentinel.Pipeline.{Pipeline}
use magick_sentinel.Pipeline.Step.{Reading, Ran, ran, fell, StepResult}
use magick_sentinel.Uplink.Pump.{pump}
use magick_sentinel.Agent.{
  Agent, Surroundings, failed, run_capture, take_pipeline_events, upload, send_heartbeat, beat,
  sign_out, signed_out_with, sign_out_calls, after_capture, then_upload, tick, on_pipeline, gated,
  captured, events_of,
}

-- The events of an agent, with more after them.
abbrev Longer : Agent → Agent → Type 0
Longer a a' = (more : List ClientEvent) × (a'.pending_events ≡ a.pending_events ++ more)

Longer-trans : (a b c : Agent) → Longer a b → Longer b c → Longer a c
Longer-trans a b c (xs, e) (ys, f) =
    (xs ++ ys, f ∙ ap (λ zs. zs ++ ys) e ∙ append_assoc a.pending_events xs ys)

Longer-refl : (a a' : Agent) → a'.pending_events ≡ a.pending_events → Longer a a'
Longer-refl a a' e = ([], e ∙ sym (append-nil a.pending_events))

captured-events :
    (s : Surroundings) (a : Agent) (r : Ran StepResult)
    → (captured s a r).0.pending_events ≡ a.pending_events
captured-events s a (ran m result) = refl
captured-events s a (fell m) = refl

run_capture-events :
    (s : Surroundings) (b : Bool) (p : Option Pipeline) (source : Option (Reading × Reading))
    (a : Agent)
    → (run_capture s b p source a).0.pending_events ≡ a.pending_events
unfolding run_capture
run_capture-events s true (some p) (some (r, q)) a = captured-events s a _
run_capture-events s true (some p) none a = refl
run_capture-events s true none source a = refl
run_capture-events s false p source a = refl

upload-Longer : (s : Surroundings) (now_ms : ℕ) (a : Agent) → Longer a (upload s.world now_ms a).0
unfolding upload
upload-Longer s now_ms a = elim (Bool-cases a.revoked) [
  | inl e ↦ Longer-refl a (upload s.world now_ms a).0 (ground (arith, e))
  | inr e ↦ ((pump s.world now_ms a.uplink).up.events, ground (arith, e))
]

-- A heartbeat that fails, or that is not due, or that has no token to go with, gives nothing up.
beat-events : (now_ms : ℕ) (a : Agent) → (beat failed now_ms a).0.pending_events ≡ a.pending_events
unfolding beat send_heartbeat
beat-events now_ms a = ground arith

out_with-events :
    (a : Agent) (r : AuthService × Uplink × AuthResult ℕ)
    → (signed_out_with a r).0.pending_events ≡ a.pending_events
out_with-events a (svc, u, Auth.ok n) = refl
out_with-events a (svc, u, Auth.err x) = refl

sign_out_calls-events :
    (s : Surroundings) (now_ms n : ℕ) (a : Agent)
    → (sign_out_calls s now_ms n a).0.pending_events ≡ a.pending_events
unfolding sign_out_calls sign_out
sign_out_calls-events s now_ms zero a = refl
sign_out_calls-events s now_ms (suc n) a =
    let once : (sign_out s now_ms a).0.pending_events ≡ a.pending_events = out_with-events a _ in
    elim (Bool-cases (sign_out s now_ms a).1) [
      | inl e ↦ rw e (sign_out_calls-events s now_ms n (sign_out s now_ms a).0 ∙ once)
      | inr e ↦ rw e once
    ]

then_upload-Longer :
    (s : Surroundings) (now_ms : ℕ) (r : Agent × Option ℕ)
    → s.reply ≡ failed
    → Longer r.0 (then_upload s now_ms r).0
unfolding then_upload after_capture take_pipeline_events
then_upload-Longer s now_ms (a, none) h = Longer-refl a a refl
then_upload-Longer s now_ms (a, some n) h =
    let a1 = take_pipeline_events a in
    let a2 = (upload s.world now_ms a1).0 in
    let a3 = (beat s.reply now_ms a2).0 in
    let a4 = (sign_out_calls s now_ms s.sign_outs a3).0 in
    let sent : a3.pending_events ≡ a2.pending_events = rw h (beat-events now_ms a2) in
    let kept : a4.pending_events ≡ a2.pending_events =
      sign_out_calls-events s now_ms s.sign_outs a3 ∙ sent in
    Longer-trans a a1 a4 (events_of a.pipeline, refl)
      (Longer-trans a1 a2 a4 (upload-Longer s now_ms a1) (Longer-refl a2 a4 kept))

-- A tick whose heartbeat does not get through loses no client event: the events that waited are
-- still waiting, in their order and before any new ones, also when capture or a sign-out fails.
pub failed_heartbeat_keeps_events :
    (s : Surroundings) (now_ms : ℕ) (a : Agent)
    → s.reply ≡ failed
    → (more : List ClientEvent) × ((tick s now_ms a).0.pending_events ≡ a.pending_events ++ more)
unfolding tick
failed_heartbeat_keeps_events s now_ms a h =
    let st = status a.gate now_ms in
    let a1 = on_pipeline (gated (block_reason st)) a in
    let r = run_capture s (may_capture st) a1.pipeline s.source a1 in
    Longer-trans a r.0 (then_upload s now_ms r).0
      (Longer-refl a r.0 (run_capture-events s (may_capture st) a1.pipeline s.source a1))
      (then_upload-Longer s now_ms r h)
