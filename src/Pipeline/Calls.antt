-- ===== src/Pipeline/Calls.antt =====
-- The open call of the pipeline and the state of its detector.
use magick_sentinel.Prelude.{
  ℕ, ◌<◌, ◌≡◌, ◌≢◌, refl, sym, ◌∙◌, ap, Bool, true, false, ◌||◌, ◌&&◌, not, none, some, is_some,
  Text, text_eq_iff, arith, Bool-cases, inl, inr, if◌then◌else◌, max, ◌==◌, ◌*◌, ◌/◌, add_u64,
}
use magick_sentinel.Protocol.{far, near}
use magick_sentinel.Detector.{
  VadConfig, Detector, DetectorInput, Transition, unchanged, call_started, call_ended,
  arm_discarded, wrap_started, now_blocked, now_unblocked, far_voice, near_voice, user_changed,
  in_record, EndReason,
}
use magick_sentinel.Detector
use magick_sentinel.Detector.Calls.{open_after, feed_brackets}
use magick_sentinel.Encoder.{sample_rate}
use magick_sentinel.Foreign.{judge}
use magick_sentinel.Pipeline.{Codec, Pipeline, tell, on_user_changed}
use magick_sentinel.Pipeline.Step.{
  Reading, Machine, Ran, ran, fell, after_run, read_channel, finish_call, restart_pipes, start_call,
  apply_transition, is_unchanged, detect, step_read, step_rest, step, pipe_voiced, is_foreign,
  StepResult,
}
use magick_sentinel.Pipeline.Untouched.{
  machine_of, Same, finish_taken-Same, read_channel-Same, act-Same,
}

-- The thresholds that no transition may pass in no time.
pub record IsTimed (cfg : VadConfig) : Type 0 where
  pub confirm : 0 < cfg.speech_ms_to_confirm
  pub arm : 0 < cfg.armed_timeout_ms
  pub hangup : 0 < cfg.hangup_silence_ms
  pub wrap : 0 < cfg.wrap_ms

-- Two observations at one time make at most one transition.
pub one_transition :
    (d : Detector) (now : ℕ) (far_voiced near_voiced : Bool)
    → IsTimed d.cfg
    → let (d1, t1) = Detector.feed d now (far_voice far_voiced) in
      let (d2, t2) = Detector.feed d1 now (near_voice near_voiced) in
      (is_unchanged t1 || is_unchanged t2) ≡ true
unfolding Detector.feed
one_transition d now a b timed = ground (arith, timed.confirm, timed.arm, timed.hangup, timed.wrap)

pick_transition :
    (t1 t2 : Transition) (b b1 b2 : Bool)
    → b1 ≡ open_after b t1
    → b2 ≡ open_after b1 t2
    → (is_unchanged t1 || is_unchanged t2) ≡ true
    → b2 ≡ open_after b (if is_unchanged t1 then t2 else t1)
pick_transition t1 t2 b b1 b2 h k one = ground arith

two_feeds :
    (d : Detector) (now : ℕ) (a b : Bool)
    → IsTimed d.cfg
    → let (d1, t1) = Detector.feed d now (far_voice a) in
      let (d2, t2) = Detector.feed d1 now (near_voice b) in
      in_record d2.state ≡ open_after (in_record d.state) (if is_unchanged t1 then t2 else t1)
two_feeds d now a b timed =
    let (d1, t1) = Detector.feed d now (far_voice a) in
    let (d2, t2) = Detector.feed d1 now (near_voice b) in
    pick_transition t1 t2 (in_record d.state) (in_record d1.state) (in_record d2.state)
      (feed_brackets d now (far_voice a)).1 (feed_brackets d1 now (near_voice b)).1
      (one_transition d now a b timed)

feed-cfg : (d : Detector) (now : ℕ) (i : DetectorInput) → (Detector.feed d now i).0.cfg ≡ d.cfg
unfolding Detector.feed
feed-cfg d now i = ground arith

two_feeds-cfg :
    (d : Detector) (now : ℕ) (a b : Bool)
    → let d1 = (Detector.feed d now (far_voice a)).0 in
      (Detector.feed d1 now (near_voice b)).0.cfg ≡ d.cfg
two_feeds-cfg d now a b =
    feed-cfg (Detector.feed d now (far_voice a)).0 now (near_voice b) ∙ feed-cfg d now (far_voice a)

-- The transition that a step acts on says what the two observations did to the open record.
detect_brackets :
    (codec : Codec) (advance : ℕ) (p : Pipeline)
    → IsTimed p.detector.cfg
    → let (p', t) = detect codec advance p in
      (in_record p'.detector.state ≡ open_after (in_record p.detector.state) t)
      × (p'.current_call ≡ p.current_call)
      × (p'.detector.cfg ≡ p.detector.cfg)
unfolding detect tell
detect_brackets codec advance p timed =
    let clock = add_u64 p.clock_ms advance in
    let voiced = pipe_voiced codec p.far in
    let marked = is_foreign (judge p.suppressor clock voiced advance).1 in
    let a = voiced && not marked in
    let b = pipe_voiced codec p.near in
    (two_feeds p.detector clock a b timed, refl, two_feeds-cfg p.detector clock a b)

-- The pipeline has an open call exactly when its detector has an open record.
abbrev pub IsSynced : Machine → Type 0
IsSynced m = is_some m.pipe.current_call ≡ in_record m.pipe.detector.state

-- A transition is applied to the call as it is to the record.
apply_synced :
    (codec : Codec) (fresh : Text) (t : Transition) (b : Bool) (m : Machine)
    → is_some m.pipe.current_call ≡ b
    → let m' = machine_of (apply_transition codec fresh t m) in
      (is_some m'.pipe.current_call ≡ open_after b t) × (m'.pipe.detector ≡ m.pipe.detector)
unfolding apply_transition restart_pipes start_call finish_call
apply_synced codec fresh unchanged b m h = (h, refl)
apply_synced codec fresh Transition.armed b m h = (h, refl)
apply_synced codec fresh call_started b m h = (refl, refl)
apply_synced codec fresh wrap_started b m h = (h, refl)
apply_synced codec fresh (call_ended reason) b m h =
    let m0 = record m { pipe = record m.pipe { current_call = none } } in
    let (none_left, same) = finish_taken-Same codec reason m.pipe.current_call m0 in
    (ap is_some none_left, same)
apply_synced codec fresh arm_discarded b m h = (h, refl)
apply_synced codec fresh (now_blocked reason) b m h = (h, refl)
apply_synced codec fresh now_unblocked b m h = (h, refl)

Same-IsSynced : (m m' : Machine) → Same m m' → IsSynced m → IsSynced m'
Same-IsSynced m m' (h, k) synced = ap is_some h ∙ synced ∙ sym (ap (λ d. in_record d.state) k)

step_read-IsSynced :
    (codec : Codec) (fresh : Text) (n : ℕ) (m : Machine)
    → IsTimed m.pipe.detector.cfg
    → IsSynced m
    → IsSynced (machine_of (step_read codec fresh n m))
unfolding step_read
step_read-IsSynced codec fresh n m timed synced =
    let advance = n * 1_000 / sample_rate in
    let (p, t) = detect codec advance m.pipe in
    let (opened, kept, _) = detect_brackets codec advance m.pipe timed in
    let m0 = record m { pipe = p } in
    let (call, det) =
      apply_synced codec fresh t (in_record m.pipe.detector.state) m0 (ap is_some kept ∙ synced) in
    let (call', det') = act-Same codec fresh t m0 in
    ap is_some call' ∙ call ∙ sym opened ∙ sym (ap (λ d. in_record d.state) (det' ∙ det))

-- What both reads keep, a step keeps that the rest of it keeps.
abbrev Good : Machine → Type 0
Good m = IsTimed m.pipe.detector.cfg × IsSynced m

Same-Good : (m m' : Machine) → Same m m' → Good m → Good m'
Same-Good m m' same (timed, synced) = (rw same.1 timed, Same-IsSynced m m' same synced)

after-IsSynced {ℓ κ} :
    {A : Type ℓ} {B : Type κ} (m : Machine) (r : Ran A) (next : Machine → A → Ran B)
    → Same m (machine_of r)
    → Good m
    → ((m1 : Machine) (a : A) → Good m1 → IsSynced (machine_of (next m1 a)))
    → IsSynced (machine_of (after_run r next))
after-IsSynced m (ran m1 a) next same good keeps = keeps m1 a (Same-Good m m1 same good)
after-IsSynced m (fell m1) next same good keeps = Same-IsSynced m m1 same good.1

rest-IsSynced :
    (codec : Codec) (fresh : Text) (n : ℕ) (m : Machine)
    → Good m
    → IsSynced (machine_of (step_rest codec fresh n m))
unfolding step_rest
rest-IsSynced codec fresh n m (timed, synced) = elim (Bool-cases (n == 0)) [
  | inl e ↦ rw e synced
  | inr e ↦ rw e (step_read-IsSynced codec fresh n m timed synced)
]

-- A step, also one that fails, keeps the open call of the pipeline and the open record of its
-- detector together, when no threshold of the detector is zero: if there was a call exactly when
-- there was a record, then so after the step, whatever the two channels read.
pub step-IsSynced :
    (codec : Codec) (fresh : Text) (r s : Reading) (m : Machine)
    → IsTimed m.pipe.detector.cfg
    → IsSynced m
    → IsSynced (machine_of (step codec fresh r s m))
unfolding step
step-IsSynced codec fresh r s m timed synced =
    let rest : ℕ → Machine → ℕ → Ran StepResult =
      λ n1 m2 n2. step_rest codec fresh (max n1 n2) m2 in
    let second : Machine → ℕ → Ran StepResult =
      λ m1 n1. after_run (read_channel codec near s m1) (rest n1) in
    after-IsSynced m (read_channel codec far r m) second (read_channel-Same codec far r m)
      (timed, synced)
      (λ m1 n1 good.
        after-IsSynced m1 (read_channel codec near s m1) (rest n1)
          (read_channel-Same codec near s m1) good
          (λ m2 n2 good2. rest-IsSynced codec fresh (max n1 n2) m2 good2))

-- A change of user during a call takes the detector out of its open record and leaves the call of
-- the pipeline open, with its unspooled segments as they are.
pub user_change_strands :
    (p : Pipeline) (id old uid : Text)
    → p.current_call ≡ some id
    → in_record p.detector.state ≡ true
    → p.detector.user_uid ≡ some old
    → old ≢ uid
    → let p' = (on_user_changed p uid).0 in
      (in_record p'.detector.state ≡ false)
      × (p'.current_call ≡ some id)
      × (p'.far ≡ p.far)
      × (p'.near ≡ p.near)
unfolding on_user_changed tell Detector.feed
user_change_strands p id old uid ongoing recording known other =
    ground (arith, ongoing, recording, known, other, text_eq_iff old uid)
