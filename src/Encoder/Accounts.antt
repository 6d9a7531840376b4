-- ===== src/Encoder/Accounts.antt =====
-- The numbers of the segments and the count of the samples.
use magick_sentinel.Prelude.{
  ℕ, ◌+◌, ◌*◌, ◌<◌, ◌≤◌, ◌≡◌, refl, sym, u32_mod, append_assoc, append-nil, ◌∙◌, ap, List, [], ◌∷◌,
  ◌++◌, length, length-append, ◌==◌, arith, Option, none, some, Bytes, Bool-cases, inl, inr,
}
use mathlib.Core.Path.{subst}
use magick_sentinel.Protocol.{Channel, frames_per_segment, pack_segment}
use magick_sentinel.Encoder.{
  Opus, Samples, Segment, SegmentEncoder, add_frame, emit_full, emit, then_emit, complete, extend,
  push_samples, frame_samples, segment_ms, new,
}
use magick_sentinel.Encoder.Loop.{feed, Ensures, go_on-Ensures, push_samples_refines}

-- A frame and a segment have room, and the clock of the segments is their number in seconds.
pub record Inv (e : SegmentEncoder) : Type 0 where
  pub space : length e.pending < frame_samples
  pub room : length e.frames < frames_per_segment
  pub clock : e.segment_start_ms ≡ segment_ms * e.next_seq

-- Consecutive segments from number `n`, each of a full second with its time.
abbrev pub Numbered : ℕ → List Segment → Type 0
Numbered n [] = Unit {0}
Numbered n (s ∷ ss) =
    (s.seq ≡ n)
    × (s.timestamp_ms ≡ segment_ms * n)
    × ((frames : List Bytes) × (length frames ≡ frames_per_segment)
        × (s.payload ≡ pack_segment frames))
    × Numbered (n + 1) ss

-- Frames cut in fifties: the segments carry them in order, numbered from `n`, with what is left.
abbrev pub IsCut : ℕ → List Bytes → List Segment → List Bytes → Type 0
IsCut n frames [] rest = frames ≡ rest
IsCut n frames (s ∷ ss) rest =
    (group : List Bytes) × (more : List Bytes) × (frames ≡ group ++ more)
    × (length group ≡ frames_per_segment)
    × (s.payload ≡ pack_segment group)
    × (s.seq ≡ n)
    × (s.timestamp_ms ≡ segment_ms * n)
    × IsCut (n + 1) more ss rest

-- The frames are what libopus, with the history it has, makes of whole frames of samples, one after
-- the other, which join the history.
abbrev pub IsCoded : Opus → List Samples → List Bytes → List Samples → Type 0
IsCoded opus h [] h' = h' ≡ h
IsCoded opus h (f ∷ fs) h' =
    (frame : Samples) × (length frame ≡ frame_samples)
    × (opus h frame ≡ some f)
    × IsCoded opus (h ++ (frame ∷ [])) fs h'

abbrev pub flatten : List Samples → Samples
flatten [] = []
flatten (x ∷ xs) = x ++ flatten xs

-- What `samples` do to an encoder.
pub record Grown (opus : Opus) (e : SegmentEncoder) (samples : Samples) (e' : SegmentEncoder)
    (out : List Segment) : Type 0 where
  pub inv : Inv e'
  pub coded : List Bytes  -- the new frames
  pub heard : flatten e'.history ++ e'.pending ≡ (flatten e.history ++ e.pending) ++ samples
  pub encodes : IsCoded opus e.history coded e'.history
  pub cut : IsCut e.next_seq (e.frames ++ coded) out e'.frames
  pub next : e'.next_seq ≡ e.next_seq + length out
  pub few : length out ≤ length samples

flatten-append : (xs : List Samples) (y : Samples) → flatten (xs ++ (y ∷ [])) ≡ flatten xs ++ y
flatten-append [] y = append-nil y
flatten-append (x ∷ xs) y =
    ap (λ (z : Samples). x ++ z) (flatten-append xs y) ∙ sym (append_assoc x (flatten xs) y)

IsCoded-append :
    (opus : Opus) (h : List Samples) (xs ys : List Bytes) (h1 h2 : List Samples)
    → IsCoded opus h xs h1
    → IsCoded opus h1 ys h2
    → IsCoded opus h (xs ++ ys) h2
IsCoded-append opus h [] ys h1 h2 same k = subst (λ (x : List Samples). IsCoded opus x ys h2) same k
IsCoded-append opus h (x ∷ xs) ys h1 h2 (frame, full, made, more) k =
    (frame, full, made, IsCoded-append opus (h ++ (frame ∷ [])) xs ys h1 h2 more k)

IsCut-append :
    (n m : ℕ) (xs ys : List Bytes) (out out' : List Segment) (r r' : List Bytes)
    → m ≡ n + length out
    → IsCut n xs out r
    → IsCut m (r ++ ys) out' r'
    → IsCut n (xs ++ ys) (out ++ out') r'
IsCut-append n m xs ys [] out' r r' same cut more =
    let number : m ≡ n = omega (arith, same) in
    subst (λ (x : List Bytes). IsCut n (x ++ ys) out' r') (sym cut)
      (subst (λ (x : ℕ). IsCut x (r ++ ys) out' r') number more)
IsCut-append n m xs ys (s ∷ out) out' r r' same (group, rest, split, full, p, q, t, cut) more = (
  group,
  rest ++ ys,
  ap (λ (x : List Bytes). x ++ ys) split ∙ append_assoc group rest ys,
  full,
  p,
  q,
  t,
  IsCut-append (n + 1) m rest ys out out' r r' (omega (arith, same)) cut more,
)

Grown-append :
    (opus : Opus) (e0 e e' : SegmentEncoder) (xs ys : Samples) (out a : List Segment)
    → Grown opus e0 xs e out
    → Grown opus e ys e' a
    → Grown opus e0 (xs ++ ys) e' (out ++ a)
Grown-append opus e0 e e' xs ys out a g h = record {
  inv = h.inv;
  coded = g.coded ++ h.coded;
  heard =
      h.heard
      ∙ ap (λ (x : Samples). x ++ ys) g.heard
      ∙ append_assoc (flatten e0.history ++ e0.pending) xs ys;
  encodes = IsCoded-append opus e0.history g.coded h.coded e.history e'.history g.encodes h.encodes;
  cut =
      subst (λ (x : List Bytes). IsCut e0.next_seq x (out ++ a) e'.frames)
        (append_assoc e0.frames g.coded h.coded)
        (IsCut-append e0.next_seq e.next_seq (e0.frames ++ g.coded) h.coded out a e.frames e'.frames
          g.next g.cut h.cut);
  next = omega (arith, g.next, h.next, length-append out a);
  few = omega (arith, g.few, h.few, length-append out a, length-append xs ys);
}

emit_full-Grown :
    (opus : Opus) (e e2 : SegmentEncoder) (s : ℕ) (frame : Bytes)
    → Inv e
    → e.next_seq + 1 < u32_mod
    → length (e.pending ++ (s ∷ [])) ≡ frame_samples
    → opus e.history (e.pending ++ (s ∷ [])) ≡ some frame
    → e2 ≡ record e {
      history = e.history ++ ((e.pending ++ (s ∷ [])) ∷ []);
      frames = e.frames ++ (frame ∷ []);
      pending = [];
    }
    → Grown opus e (s ∷ []) (emit_full e2).0 (emit_full e2).1
unfolding emit_full emit
emit_full-Grown opus e e2 s frame v room full made is_e2 =
    let p : Samples = e.pending ++ (s ∷ []) in
    let fs : List Bytes = e.frames ++ (frame ∷ []) in
    let heard : flatten (e.history ++ (p ∷ [])) ++ []
        ≡ (flatten e.history ++ e.pending) ++ (s ∷ []) =
      append-nil (flatten (e.history ++ (p ∷ [])))
      ∙ flatten-append e.history p
      ∙ sym (append_assoc (flatten e.history) e.pending (s ∷ [])) in
    let encodes : IsCoded opus e.history (frame ∷ []) (e.history ++ (p ∷ [])) =
      (p, full, made, refl) in
    let more = length-append e.frames (frame ∷ []) in
    rw is_e2 (elim (Bool-cases (length fs == frames_per_segment)) [
      | inl whole ↦ rw whole (record {
        inv = record {
          space = omega arith;
          room = omega arith;
          clock = omega (arith, v.clock, room);
        };
        coded = frame ∷ [];
        heard = heard;
        encodes = encodes;
        cut = (fs, [], sym (append-nil fs), ground (arith, whole), refl, refl, v.clock, refl);
        next = omega (arith, room);
        few = omega arith;
      })
      | inr part ↦ rw part (record {
        inv = record {
          space = omega arith;
          room = ground (arith, more, v.room, part);
          clock = v.clock;
        };
        coded = frame ∷ [];
        heard = heard;
        encodes = encodes;
        cut = refl;
        next = omega arith;
        few = omega arith;
      })
    ])

then_emit-Grown :
    (opus : Opus) (r : Option Bytes) (e : SegmentEncoder) (s : ℕ)
    → Inv e
    → e.next_seq + 1 < u32_mod
    → length (e.pending ++ (s ∷ [])) ≡ frame_samples
    → opus e.history (e.pending ++ (s ∷ [])) ≡ r
    → Ensures (Grown opus e (s ∷ [])) (then_emit (add_frame r (extend e (s ∷ []))))
unfolding add_frame
then_emit-Grown opus none e s v room full made = tt
then_emit-Grown opus (some frame) e s v room full made =
    emit_full-Grown opus e _ s frame v room full made refl

complete-Grown :
    (opus : Opus) (e : SegmentEncoder) (s : ℕ)
    → Inv e
    → e.next_seq + 1 < u32_mod
    → Ensures (Grown opus e (s ∷ [])) (complete opus (extend e (s ∷ [])))
unfolding complete
complete-Grown opus e s v room =
    elim (Bool-cases (length (e.pending ++ (s ∷ [])) == frame_samples)) [
      | inl full ↦ rw full (
          then_emit-Grown opus (opus e.history (e.pending ++ (s ∷ []))) e s v room
            (ground (arith, full)) refl)
      | inr part ↦ rw part (record {
        inv = record {
          space = ground (arith, length-append e.pending (s ∷ []), v.space, part);
          room = v.room;
          clock = v.clock;
        };
        coded = [];
        heard = sym (append_assoc (flatten e.history) e.pending (s ∷ []));
        encodes = refl;
        cut = append-nil e.frames;
        next = omega arith;
        few = omega arith;
      })
    ]

feed-Grown :
    (opus : Opus) (ss before : Samples) (e0 e : SegmentEncoder) (out : List Segment)
    → e0.next_seq + length before + length ss < u32_mod
    → Grown opus e0 before e out
    → Ensures (Grown opus e0 (before ++ ss)) (feed opus ss out e)
unfolding feed
feed-Grown opus [] before e0 e out room g = rw (append-nil before) g
feed-Grown opus (s ∷ ss) before e0 e out room g =
    go_on-Ensures (Grown opus e (s ∷ [])) (Grown opus e0 (before ++ (s ∷ ss)))
      (complete opus (extend e (s ∷ []))) out _
      (complete-Grown opus e s g.inv (omega (arith, g.next, g.few, room)))
      (λ e' a h.
        let more =
          feed-Grown opus ss (before ++ (s ∷ [])) e0 e' (out ++ a)
            (omega (arith, length-append before (s ∷ []), room))
            (Grown-append opus e0 e e' before (s ∷ []) out a g h) in
        subst (λ (x : Samples). Ensures (Grown opus e0 x) (feed opus ss (out ++ a) e'))
          (append_assoc before (s ∷ []) ss) more)

-- When `push_samples` succeeds, with `next_seq` and the count of the samples together below 2 ^ 32,
-- the samples that libopus has been given and those that are pending are exactly those of before and the new ones, in order.
-- The new frames are what libopus makes of whole frames of these samples, and the segments returned
-- carry the waiting frames and the new ones, in order and fifty each, with consecutive numbers from
-- `next_seq` on and their number in seconds as time stamp; what is left waits. The encoder has room
-- for a frame and a segment.
pub push_samples_accounts :
    (opus : Opus) (e : SegmentEncoder) (samples : Samples)
    → Inv e
    → e.next_seq + length samples < u32_mod
    → Ensures (Grown opus e samples) (push_samples opus e samples)
push_samples_accounts opus e samples v room = rw (push_samples_refines opus e samples v.space) (
    feed-Grown opus samples [] e e [] (omega (arith, room)) (record {
      inv = v;
      coded = [];
      heard = sym (append-nil (flatten e.history ++ e.pending));
      encodes = refl;
      cut = append-nil e.frames;
      next = omega arith;
      few = omega arith;
    }))

pub new-Inv : (channel : Channel) → Inv (new channel)
unfolding new
new-Inv channel = record { space = omega arith; room = omega arith; clock = refl }
