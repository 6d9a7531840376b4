-- ===== src/Spool/Invariant.antt =====
-- What holds of the spool between two operations, over any sequence of them.
use magick_sentinel.Prelude.{
  ℕ, ◌≡◌, refl, Bool, false, none, List, [], ◌∷◌, keep, All, All-keep, Text, text_eq, arith,
  Bool-cases, Option-cases, inl, inr,
}
use magick_sentinel.Protocol.{Channel}
use magick_sentinel.Spool.Schema.{Spool, SegmentRow, CallRow, SpoolLimits, open_empty}
use magick_sentinel.Spool.CallTable.{find_call, update_call, begin_call, end_call, is_sealed}
use magick_sentinel.Spool.Segments.{push}
use magick_sentinel.Spool.Upkeep.{ack, seal, vacuum_finished_calls}
use magick_sentinel.Spool.Order.{IsTable, keep-IsTable}
use magick_sentinel.Spool.Eviction.{push_accounts, push_oldest_first}
use magick_sentinel.Spool.CallLaws.{IsKeyed}

-- The segments are in order with each key once, and each call has one row.
pub record Inv (s : Spool) : Type 0 where
  pub table : IsTable s.segments
  pub calls_keyed : IsKeyed s.calls

pub data Op : Type 0 where
  begins : Text → Text → ℕ → Op
  ends : Text → Text → Op
  pushes : SegmentRow → Op
  acks : Text → Channel → ℕ → Op
  seals : Text → Text → ℕ → Op
  vacuums : Op

unfoldable pub step : Spool → Op → Spool
step s (begins id json now) = begin_call s id json now
step s (ends id json) = end_call s id json
step s (pushes seg) = (push s seg).0
step s (acks id ch through) = (ack s id ch through).0
step s (seals id reason now) = (seal s id reason now).0
step s vacuums = (vacuum_finished_calls s).0

unfoldable pub run : Spool → List Op → Spool
run s [] = s
run s (o ∷ os) = run (step s o) os

update-All :
    (id : Text) (f : CallRow → CallRow) (k : Text) (cs : List CallRow)
    → ((c : CallRow) → (f c).call_id ≡ c.call_id)
    → All (λ d. text_eq d.call_id k ≡ false) cs
    → All (λ d. text_eq d.call_id k ≡ false) (update_call id f cs)
unfolding update_call
update-All id f k [] h all = tt
update-All id f k (c ∷ cs) h (a, all) = (ground (arith, h c), update-All id f k cs h all)

update-IsKeyed :
    (id : Text) (f : CallRow → CallRow) (cs : List CallRow)
    → ((c : CallRow) → (f c).call_id ≡ c.call_id)
    → IsKeyed cs
    → IsKeyed (update_call id f cs)
unfolding update_call
update-IsKeyed id f [] h k = tt
update-IsKeyed id f (c ∷ cs) h (a, k) = elim (Bool-cases (text_eq c.call_id id)) [
  | inl e ↦ rw e (rw (h c) (update-All id f c.call_id cs h a), update-IsKeyed id f cs h k)
  | inr e ↦ rw e (update-All id f c.call_id cs h a, update-IsKeyed id f cs h k)
]

keep-IsKeyed : (p : CallRow → Bool) (cs : List CallRow) → IsKeyed cs → IsKeyed (keep p cs)
keep-IsKeyed p [] h = tt
keep-IsKeyed p (c ∷ cs) (a, h) = elim (Bool-cases (p c)) [
  | inl e ↦ rw e (All-keep _ p cs a, keep-IsKeyed p cs h)
  | inr e ↦ rw e (keep-IsKeyed p cs h)
]

none_found :
    (id : Text) (cs : List CallRow)
    → find_call id cs ≡ none
    → All (λ d. text_eq d.call_id id ≡ false) cs
unfolding find_call
none_found id [] h = tt
none_found id (c ∷ cs) h = (ground arith, none_found id cs (ground arith))

begin-Inv : (s : Spool) (id json : Text) (now : ℕ) → Inv s → Inv (begin_call s id json now)
begin-Inv s id json now v = elim (Option-cases (find_call id s.calls)) [
  | inr (c, e) ↦ unfold begin_call in rw (e, begin_call) v
  | inl e ↦
      unfold begin_call in
      rw (e, begin_call)
        (record { table = v.table; calls_keyed = (none_found id s.calls e, v.calls_keyed) })
]

push-Inv : (s : Spool) (seg : SegmentRow) → Inv s → Inv (push s seg).0
push-Inv s seg v = elim (Bool-cases (is_sealed s seg.call_id)) [
  | inl e ↦ rw ((push_accounts s seg).0 e) v
  | inr e ↦
      let (event, _, _, _, _, same, _) = (push_accounts s seg).1 e in
      record { table = (push_oldest_first s seg v.table e).0; calls_keyed = rw same v.calls_keyed }
]

-- Every operation keeps the segments in eviction order with each key once, and the calls with
-- one row each.
pub step-Inv : (s : Spool) (o : Op) → Inv s → Inv (step s o)
unfolding step end_call ack seal vacuum_finished_calls
step-Inv s (begins id json now) v = begin-Inv s id json now v
step-Inv s (ends id json) v = record {
  table = v.table;
  calls_keyed = update-IsKeyed id _ s.calls (λ c. refl) v.calls_keyed;
}
step-Inv s (pushes seg) v = push-Inv s seg v
step-Inv s (acks id ch through) v = record {
  table = keep-IsTable _ s.segments v.table;
  calls_keyed = v.calls_keyed;
}
step-Inv s (seals id reason now) v = record {
  table = keep-IsTable _ s.segments v.table;
  calls_keyed = update-IsKeyed id _ s.calls (λ c. refl) v.calls_keyed;
}
step-Inv s vacuums v = record {
  table = v.table;
  calls_keyed = keep-IsKeyed _ s.calls v.calls_keyed;
}

run-Inv : (s : Spool) (os : List Op) → Inv s → Inv (run s os)
unfolding run
run-Inv s [] v = v
run-Inv s (o ∷ os) v = run-Inv (step s o) os (step-Inv s o v)

-- Starting from an empty spool, any sequence of operations leaves the segments in eviction order
-- with each (call, channel, number) once, and each call with one row.
pub run-open_empty-Inv : (limits : SpoolLimits) (os : List Op) → Inv (run (open_empty limits) os)
run-open_empty-Inv limits os = run-Inv (open_empty limits) os (
    unfold open_empty in
    record { table = record { is_sorted = tt; is_keyed = tt }; calls_keyed = tt })
