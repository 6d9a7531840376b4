-- ===== src/Encoder/Loop.antt =====
-- The chunked loop of `push_samples` is the machine that takes one sample at a time.
use magick_sentinel.Prelude.{
  ℕ, zero, suc, ◌+◌, ◌-◌, ◌≤◌, ◌<◌, min, ◌≡◌, refl, sym, ◌∙◌, ap, List, [], ◌∷◌, ◌++◌, append_assoc,
  append-nil, length, length-append, take, drop, length-take-le, length-drop, take-append-drop,
  ◌==◌, arith, Bool-cases, inl, inr, Option, none, some, Bytes, false,
}
use magick_sentinel.Protocol.{frames_per_segment}
use magick_sentinel.Encoder.{
  Opus, Samples, Segment, SegmentEncoder, Outcome, done, failed, out_of_fuel, add_frame, emit_full,
  emit, then_emit, complete, extend, go_on, push_loop, push_samples, frame_samples,
}

-- One sample at a time.
unfoldable pub feed : Opus → Samples → List Segment → SegmentEncoder → Outcome (List Segment)
feed opus [] out e = done e out
feed opus (s ∷ ss) out e =
    go_on (complete opus (extend e (s ∷ []))) out (λ e' out'. feed opus ss out' e')

-- Between two samples a frame is never full, nor a segment.
abbrev pub HasRoom : SegmentEncoder → Type 0
HasRoom e = (length e.pending < frame_samples) × (length e.frames < frames_per_segment)

-- What holds of the state and the segments of an outcome that is no failure.
abbrev pub Ensures {ℓ} : {A : Type ℓ} → (SegmentEncoder → A → Type 0) → Outcome A → Type 0
Ensures P (done e a) = P e a
Ensures P (failed e) = Unit {0}
Ensures P out_of_fuel = ⊥

not_full : (n : ℕ) → n < frame_samples → (n == frame_samples) ≡ false
not_full n h = ground arith

complete_partial :
    (opus : Opus) (e : SegmentEncoder)
    → length e.pending < frame_samples
    → complete opus e ≡ done e []
unfolding complete
complete_partial opus e h = rw (not_full (length e.pending) h)

-- A chunk that does not overfill the frame, taken sample by sample.
feed_chunk :
    (opus : Opus) (s : ℕ) (c rest : Samples) (out : List Segment) (e : SegmentEncoder)
    → length e.pending + length (s ∷ c) ≤ frame_samples
    → feed opus (s ∷ c ++ rest) out e
      ≡ go_on (complete opus (extend e (s ∷ c))) out (λ e' out'. feed opus rest out' e')
unfolding feed
feed_chunk opus s [] rest out e h = refl
feed_chunk opus s (t ∷ c) rest out e h =
    ap (λ o. go_on o out (λ e' out'. feed opus (t ∷ c ++ rest) out' e'))
      (complete_partial opus (extend e (s ∷ [])) (omega (arith, length-append e.pending (s ∷ []))))
    ∙ ap (λ o. feed opus (t ∷ c ++ rest) o (extend e (s ∷ []))) (append-nil out)
    ∙ feed_chunk opus t c rest out (extend e (s ∷ []))
        (omega (arith, length-append e.pending (s ∷ [])))
    ∙ ap
        (λ p.
          go_on (complete opus (record e { pending = p })) out (λ e' out'. feed opus rest out' e'))
        (append_assoc e.pending (s ∷ []) (t ∷ c))

-- Less than a frame is pending.
abbrev HasSpace : SegmentEncoder → List Segment → Type 0
HasSpace e segments = length e.pending < frame_samples

emit_full_pending : (e : SegmentEncoder) → (emit_full e).0.pending ≡ e.pending
unfolding emit_full emit
emit_full_pending e = ground arith

then_emit_space :
    (r : Option Bytes) (e : SegmentEncoder) → Ensures HasSpace (then_emit (add_frame r e))
unfolding add_frame
then_emit_space none e = tt
then_emit_space (some frame) e = rw (emit_full_pending _) (omega arith)

complete_space :
    (opus : Opus) (e : SegmentEncoder)
    → length e.pending ≤ frame_samples
    → Ensures HasSpace (complete opus e)
unfolding complete
complete_space opus e h = elim (Bool-cases (length e.pending == frame_samples)) [
  | inl full ↦ rw full (then_emit_space (opus e.history e.pending) e)
  | inr part ↦ rw part (ground arith)
]

go_on_cong :
    (P : SegmentEncoder → List Segment → Type 0) (o : Outcome (List Segment)) (out : List Segment)
    (f g : SegmentEncoder → List Segment → Outcome (List Segment))
    → Ensures P o
    → ((e : SegmentEncoder) (a segments : List Segment) → P e a → f e segments ≡ g e segments)
    → go_on o out f ≡ go_on o out g
go_on_cong P (done e a) out f g h k = k e a (out ++ a) h
go_on_cong P (failed e) out f g h k = refl
go_on_cong P out_of_fuel out f g h k = refl

push_round :
    (fuel : ℕ) (opus : Opus) (s k : ℕ) (ss : Samples) (out : List Segment) (e : SegmentEncoder)
    → min (frame_samples - length e.pending) (length (s ∷ ss)) ≡ suc k
    → length e.pending + suc k ≤ frame_samples
    → ((e' : SegmentEncoder) (out' : List Segment)
        → length e'.pending < frame_samples
        → push_loop fuel opus (drop k ss) out' e' ≡ feed opus (drop k ss) out' e')
    → push_loop (suc fuel) opus (s ∷ ss) out e ≡ feed opus (s ∷ take k ss ++ drop k ss) out e
unfolding push_loop
push_round fuel opus s k ss out e taken fits ih = rw taken (
    go_on_cong HasSpace (complete opus (extend e (s ∷ take k ss))) out _ _
      (complete_space opus (extend e (s ∷ take k ss)) (room)) (λ e' a out' h. ih e' out' h)
    ∙ sym (feed_chunk opus s (take k ss) (drop k ss) out e (short)))
  where
    room : length (e.pending ++ (s ∷ take k ss)) ≤ frame_samples
    room = omega (arith, length-append e.pending (s ∷ take k ss), length-take-le k ss)

    short : length e.pending + length (s ∷ take k ss) ≤ frame_samples
    short = omega (arith, length-take-le k ss)

-- The loop ends, and does what taking one sample at a time does, also where libopus fails.
push_loop-feed :
    (fuel : ℕ) (opus : Opus) (ss : Samples) (out : List Segment) (e : SegmentEncoder)
    → length ss ≤ fuel
    → length e.pending < frame_samples
    → push_loop fuel opus ss out e ≡ feed opus ss out e
push_loop-feed fuel opus [] out e h space = unfold push_loop feed in refl
push_loop-feed zero opus (s ∷ ss) out e h space = absurd (omega arith)
push_loop-feed (suc fuel) opus (s ∷ ss) out e h space =
    let k = min (frame_samples - length e.pending) (length (s ∷ ss)) - 1 in
    push_round fuel opus s k ss out e (omega arith) (omega arith) (λ e' out' h'.
      push_loop-feed fuel opus (drop k ss) out' e' (omega (arith, length-drop k ss)) h')
    ∙ ap (λ x. feed opus (s ∷ x) out e) (take-append-drop k ss)

-- `push_samples` always ends, and does exactly what an encoder does that takes one sample at a
-- time, in the segments, in the state and in the errors, however the samples lie in frames.
pub push_samples_refines :
    (opus : Opus) (e : SegmentEncoder) (samples : Samples)
    → length e.pending < frame_samples
    → push_samples opus e samples ≡ feed opus samples [] e
unfolding push_samples
push_samples_refines opus e samples h =
    push_loop-feed (length samples + 1) opus samples [] e (omega arith) h

go_on_same :
    (o : Outcome (List Segment)) (out : List Segment)
    (f g : SegmentEncoder → List Segment → Outcome (List Segment))
    → ((e : SegmentEncoder) (segments : List Segment) → f e segments ≡ g e segments)
    → go_on o out f ≡ go_on o out g
go_on_same (done e a) out f g h = h e (out ++ a)
go_on_same (failed e) out f g h = refl
go_on_same out_of_fuel out f g h = refl

go_on_assoc :
    (o : Outcome (List Segment)) (out : List Segment)
    (f g : SegmentEncoder → List Segment → Outcome (List Segment))
    → go_on (go_on o out f) [] g ≡ go_on o out (λ e' out'. go_on (f e' out') [] g)
go_on_assoc (done e a) out f g = refl
go_on_assoc (failed e) out f g = refl
go_on_assoc out_of_fuel out f g = refl

feed-append :
    (opus : Opus) (xs ys : Samples) (out : List Segment) (e : SegmentEncoder)
    → feed opus (xs ++ ys) out e ≡ go_on (feed opus xs out e) [] (λ e' out'. feed opus ys out' e')
unfolding feed
feed-append opus [] ys out e = refl
feed-append opus (x ∷ xs) ys out e =
    go_on_same (complete opus (extend e (x ∷ []))) out _ _
      (λ e' out'. feed-append opus xs ys out' e')
    ∙ sym (go_on_assoc (complete opus (extend e (x ∷ []))) out _ _)

regroup :
    (o : Outcome (List Segment)) (before out : List Segment)
    (f : SegmentEncoder → List Segment → Outcome (List Segment))
    → ((e : SegmentEncoder) (segments : List Segment)
        → f e (before ++ segments) ≡ go_on (f e segments) before done)
    → go_on o (before ++ out) f ≡ go_on (go_on o out f) before done
regroup (done e a) before out f h = ap (f e) (append_assoc before out a) ∙ h e (out ++ a)
regroup (failed e) before out f h = refl
regroup out_of_fuel before out f h = refl

-- Earlier segments stand in front.
feed_after :
    (opus : Opus) (ys : Samples) (before out : List Segment) (e : SegmentEncoder)
    → feed opus ys (before ++ out) e ≡ go_on (feed opus ys out e) before done
unfolding feed
feed_after opus [] before out e = refl
feed_after opus (y ∷ ys) before out e =
    regroup (complete opus (extend e (y ∷ []))) before out _
      (λ e' segments. feed_after opus ys before segments e')

pub go_on-Ensures :
    (P Q : SegmentEncoder → List Segment → Type 0) (o : Outcome (List Segment)) (out : List Segment)
    (f : SegmentEncoder → List Segment → Outcome (List Segment))
    → Ensures P o
    → ((e : SegmentEncoder) (a : List Segment) → P e a → Ensures Q (f e (out ++ a)))
    → Ensures Q (go_on o out f)
go_on-Ensures P Q (done e a) out f h k = k e a h
go_on-Ensures P Q (failed e) out f h k = tt
go_on-Ensures P Q out_of_fuel out f h k = h

feed_space :
    (opus : Opus) (ss : Samples) (out : List Segment) (e : SegmentEncoder)
    → length e.pending < frame_samples
    → Ensures HasSpace (feed opus ss out e)
unfolding feed
feed_space opus [] out e h = h
feed_space opus (s ∷ ss) out e h =
    go_on-Ensures HasSpace HasSpace (complete opus (extend e (s ∷ []))) out _
      (complete_space opus (extend e (s ∷ [])) (omega (arith, length-append e.pending (s ∷ []))))
      (λ e' a h'. feed_space opus ss (out ++ a) e' h')

-- Whether samples arrive in one call of `push_samples` or in two makes no difference: the second
-- call goes on where the first has ended, the segments of the first come first, and an error of
-- either is an error of the whole.
pub push_samples-append :
    (opus : Opus) (e : SegmentEncoder) (xs ys : Samples)
    → length e.pending < frame_samples
    → push_samples opus e (xs ++ ys)
      ≡ go_on (push_samples opus e xs) [] (λ e' out. go_on (push_samples opus e' ys) out done)
push_samples-append opus e xs ys h =
    push_samples_refines opus e (xs ++ ys) h
    ∙ feed-append opus xs ys [] e
    ∙ go_on_cong HasSpace (feed opus xs [] e) [] _ _ (feed_space opus xs [] e h) (λ e' a out h'.
      ap (λ o. feed opus ys o e') (sym (append-nil out))
      ∙ feed_after opus ys out [] e'
      ∙ ap (λ o. go_on o out done) (sym (push_samples_refines opus e' ys h')))
    ∙ ap (λ o. go_on o [] (λ e' out. go_on (push_samples opus e' ys) out done))
        (sym (push_samples_refines opus e xs h))
