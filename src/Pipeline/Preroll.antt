-- ===== src/Pipeline/Preroll.antt =====
-- What a pipe holds between steps: `bound_preroll` and the draining of
-- client/sentinel-agent/src/pipeline.rs.
use magick_sentinel.Prelude.{
  ℕ, ◌≤◌, ◌<◌, ◌≡◌, refl, Bool, true, false, ◌||◌, ◌&&◌, not, Option, none, some, is_some, List, [],
  ◌∷◌, arith, Bool-cases, inl, inr, ◌⊎◌, max, ◌==◌, length, ◌-◌, length-drop, Text, ◌/◌, ◌*◌, ◌+◌,
}
use magick_sentinel.Protocol.{Channel, far, near}
use magick_sentinel.Detector.{Transition}
use magick_sentinel.Encoder.{Segment, Outcome, done, failed, out_of_fuel, push_samples, sample_rate}
use magick_sentinel.Pipeline.{
  Codec, ChannelPipe, Pipeline, bound_pipe, bound_preroll, each_pipe, preroll_max_segments,
  map_pipe, is_armed, to_row,
}
use magick_sentinel.Uplink.{push_segment}
use magick_sentinel.Pipeline.Step.{
  Reading, got, device_invalidated, Machine, Ran, ran, fell, after_run, encoded, read_pipe,
  read_open, read_channel, step_rest, step_read, step, act, report, StepResult, detect,
  apply_transition, drain_encoders, drain_for, drain_pipe, push_all, heard, with_pipe,
}

-- A pipe whose finished segments are all taken.
abbrev IsEmptied : Option ChannelPipe → Type 0
IsEmptied none = Unit
IsEmptied (some c) = c.ready ≡ []

-- What a pipe holds: 60 segments at most, and none unless it waits for a call.
abbrev pub IsHeld : Bool → Option ChannelPipe → Type 0
IsHeld waiting none = Unit
IsHeld waiting (some c) =
    (length c.ready ≤ preroll_max_segments) × ((waiting ≡ true) ⊎ (c.ready ≡ []))

-- An armed detector with no call open.
abbrev pub waits : Pipeline → Bool
waits p = is_armed p.detector.state && not (is_some p.current_call)

abbrev pub IsBounded : Pipeline → Type 0
IsBounded p = IsHeld (waits p) p.far × IsHeld (waits p) p.near

-- What a run that succeeds ends with.
abbrev pub Keeps {ℓ} : {A : Type ℓ} → (Machine → A → Type 0) → Ran A → Type 0
Keeps P (ran m a) = P m a
Keeps P (fell m) = Unit

pub Keeps-after {ℓ κ} :
    {A : Type ℓ} {B : Type κ} (P : Machine → A → Type 0) (Q : Machine → B → Type 0) (r : Ran A)
    (next : Machine → A → Ran B)
    → Keeps P r
    → ((m : Machine) (a : A) → P m a → Keeps Q (next m a))
    → Keeps Q (after_run r next)
Keeps-after P Q (ran m a) next h k = k m a h
Keeps-after P Q (fell m) next h k = _

bound_pipe-IsHeld :
    (is_waiting in_call : Bool) (c : Option ChannelPipe)
    → (in_call ≡ true → IsEmptied c)
    → IsHeld (is_waiting && not in_call) (map_pipe (bound_pipe (is_waiting || in_call)) c)
unfolding bound_pipe
bound_pipe-IsHeld w b none h = _
bound_pipe-IsHeld false false (some c) h = (omega arith, inr refl)
bound_pipe-IsHeld true false (some c) h =
    let cut = length-drop (length c.ready - preroll_max_segments) c.ready in
    (ground (arith, cut), inl refl)
bound_pipe-IsHeld w true (some c) h = rw (h refl) (ground arith, inr (ground arith))

-- What pushing segments leaves of the pipeline.
abbrev SamePipes : Machine → Machine → ℕ → Type 0
SamePipes m m' n =
    (m'.pipe.far ≡ m.pipe.far)
    × (m'.pipe.near ≡ m.pipe.near)
    × (m'.pipe.current_call ≡ m.pipe.current_call)

push_all_pipes :
    (id : Text) (ch : Channel) (segs : List Segment) (count : ℕ) (m : Machine)
    → Keeps (SamePipes m) (push_all id ch segs count m)
unfolding push_all
push_all_pipes id ch [] count m = (refl, refl, refl)
push_all_pipes id ch (seg ∷ segs) count m =
    elim (Bool-cases (push_segment m.uplink (to_row id seg m.pipe.clock_ms)).1) [
      | inl e ↦ rw e (push_all_pipes id ch segs (count + 1) _)
      | inr e ↦ rw e (_)
    ]

abbrev AreEmptied : Machine → ℕ → Type 0
AreEmptied m n = is_some m.pipe.current_call ≡ true → IsEmptied m.pipe.far × IsEmptied m.pipe.near

pub Keeps-map {ℓ} :
    {A : Type ℓ} (P Q : Machine → A → Type 0) (r : Ran A)
    → Keeps P r
    → ((m : Machine) (a : A) → P m a → Q m a)
    → Keeps Q r
Keeps-map P Q (ran m a) h k = k m a h
Keeps-map P Q (fell m) h k = _

Keeps-any {ℓ} : {A : Type ℓ} (r : Ran A) → Keeps (λ m a. Unit) r
Keeps-any (ran m a) = _
Keeps-any (fell m) = _

drain_far :
    (id : Text) (c : Option ChannelPipe) (count : ℕ) (m : Machine)
    → m.pipe.far ≡ c
    → Keeps (λ m1 n. IsEmptied m1.pipe.far) (drain_pipe id far c count m)
unfolding drain_pipe
drain_far id none count m e = rw e _
drain_far id (some c) count m e =
    let m0 = with_pipe far (record c { ready = [] }) m in
    Keeps-map (SamePipes m0) (λ m1 n. IsEmptied m1.pipe.far) (push_all id far c.ready count m0)
      (push_all_pipes id far c.ready count m0) (λ m1 n (f, _, _). rw f refl)

drain_near :
    (id : Text) (c : Option ChannelPipe) (count : ℕ) (m : Machine)
    → m.pipe.near ≡ c
    → IsEmptied m.pipe.far
    → Keeps (λ m1 n. IsEmptied m1.pipe.far × IsEmptied m1.pipe.near) (drain_pipe id near c count m)
unfolding drain_pipe
drain_near id none count m e h = (h, rw e _)
drain_near id (some c) count m e h =
    let m0 = with_pipe near (record c { ready = [] }) m in
    Keeps-map (SamePipes m0) (λ m1 n. IsEmptied m1.pipe.far × IsEmptied m1.pipe.near)
      (push_all id near c.ready count m0) (push_all_pipes id near c.ready count m0)
      (λ m1 n (f, g, _). (rw f h, rw g refl))

drain_for-AreEmptied :
    (id : Option Text) (count : ℕ) (m : Machine)
    → m.pipe.current_call ≡ id
    → Keeps AreEmptied (drain_for id count m)
unfolding drain_for
drain_for-AreEmptied none count m e = λ h. cc
drain_for-AreEmptied (some id) count m e =
    let both : Machine → ℕ → Type 0 = λ m2 n2. IsEmptied m2.pipe.far × IsEmptied m2.pipe.near in
    let near_part : Machine → ℕ → Ran ℕ = λ m1 n1. drain_pipe id near m1.pipe.near n1 m1 in
    let r = drain_pipe id far m.pipe.far count m in
    Keeps-map both AreEmptied (after_run r near_part)
      (Keeps-after (λ m1 n. IsEmptied m1.pipe.far) both r near_part
        (drain_far id m.pipe.far count m refl) (λ m1 n1 h. drain_near id m1.pipe.near n1 m1 refl h))
      (λ m2 n2 h _. h)

report-IsBounded :
    (t : Transition) (n : ℕ) (m : Machine)
    → AreEmptied m n
    → Keeps (λ m' a. IsBounded m'.pipe) (report t n m)
unfolding report bound_preroll each_pipe
report-IsBounded t n m h =
    let w = is_armed m.pipe.detector.state in
    let b = is_some m.pipe.current_call in
    (
      bound_pipe-IsHeld w b m.pipe.far (λ e. (h e).0),
      bound_pipe-IsHeld w b m.pipe.near (λ e. (h e).1),
    )

act-IsBounded :
    (codec : Codec) (fresh : Text) (t : Transition) (m : Machine)
    → Keeps (λ m' a. IsBounded m'.pipe) (act codec fresh t m)
unfolding act drain_encoders
act-IsBounded codec fresh t m =
    let P : Machine → StepResult → Type 0 = λ m' a. IsBounded m'.pipe in
    let second : Machine → ℕ → Ran StepResult =
      λ m1 n1. after_run (drain_encoders n1 m1) (λ m2 n2. report t n2 m2) in
    Keeps-after (λ m1 n1. Unit) P (apply_transition codec fresh t m) second
      (Keeps-any (apply_transition codec fresh t m))
      (λ m1 n1 _.
        Keeps-after AreEmptied P (drain_encoders n1 m1) (λ m2 n2. report t n2 m2)
          (drain_for-AreEmptied m1.pipe.current_call n1 m1 refl)
          (λ m2 n2 h. report-IsBounded t n2 m2 h))

-- A read that brings no samples changes nothing.
abbrev Idle : Machine → Machine → ℕ → Type 0
Idle m m1 n = n ≡ 0 → m1 ≡ m

encoded-Idle :
    (ch : Channel) (c : ChannelPipe) (n : ℕ) (o : Outcome (List Segment)) (m : Machine)
    → 0 < n
    → Keeps (Idle m) (encoded ch c n o m)
unfolding encoded
encoded-Idle ch c n (done e segs) m h = λ none_read. ground (arith, h, none_read)
encoded-Idle ch c n (failed e) m h = _
encoded-Idle ch c n out_of_fuel m h = _

read_open-Idle :
    (codec : Codec) (ch : Channel) (c : Option ChannelPipe) (r : Reading) (m : Machine)
    → Keeps (Idle m) (read_open codec ch c r m)
unfolding read_open read_pipe
read_open-Idle codec ch none r m = λ _. refl
read_open-Idle codec ch (some c) device_invalidated m = _
read_open-Idle codec ch (some c) (got []) m = λ _. refl
read_open-Idle codec ch (some c) (got (s ∷ ss)) m =
    let some_read : (length (s ∷ ss) == 0) ≡ false = ground arith in
    let o = push_samples codec.opus c.encoder (s ∷ ss) in
    rw some_read (encoded-Idle ch (heard (s ∷ ss) c) (length (s ∷ ss)) o m (omega arith))

rest-IsBounded :
    (codec : Codec) (fresh : Text) (n : ℕ) (m : Machine)
    → (n ≡ 0 → IsBounded m.pipe)
    → Keeps (λ m' a. IsBounded m'.pipe) (step_rest codec fresh n m)
unfolding step_rest step_read
rest-IsBounded codec fresh n m h = elim (Bool-cases (n == 0)) [
  | inl e ↦ rw e (h (ground (arith, e)))
  | inr e ↦
      let (p, t) = detect codec (n * 1_000 / sample_rate) m.pipe in
      rw e (act-IsBounded codec fresh t (record m { pipe = p }))
]

-- A step that succeeds, from a pipeline so bounded, leaves in each open channel at most 60 finished
-- segments that wait, and none at all unless the detector is armed and no call is open.
pub step-IsBounded :
    (codec : Codec) (fresh : Text) (r s : Reading) (m m' : Machine) (result : StepResult)
    → IsBounded m.pipe
    → step codec fresh r s m ≡ ran m' result
    → IsBounded m'.pipe
unfolding step read_channel
step-IsBounded codec fresh r s m m' result bounded runs =
    let P : Machine → StepResult → Type 0 = λ m' a. IsBounded m'.pipe in
    let rest : ℕ → Machine → ℕ → Ran StepResult =
      λ n1 m2 n2. step_rest codec fresh (max n1 n2) m2 in
    let second : Machine → ℕ → Ran StepResult =
      λ m1 n1. after_run (read_channel codec near s m1) (rest n1) in
    let all : Keeps P (step codec fresh r s m) =
      Keeps-after (Idle m) P (read_channel codec far r m) second
        (read_open-Idle codec far m.pipe.far r m)
        (λ m1 n1 idle.
          Keeps-after (Idle m1) P (read_channel codec near s m1) (rest n1)
            (read_open-Idle codec near m1.pipe.near s m1)
            (λ m2 n2 idle2.
              rest-IsBounded codec fresh (max n1 n2) m2
                (λ e. rw (idle2 (omega (arith, e)), idle (omega (arith, e))) bounded))) in
    rw runs at all
