-- ===== src/Spool/Eviction.antt =====
-- What a write keeps, evicts and reports.
use magick_sentinel.Prelude.{
  ℕ, zero, suc, ◌+◌, ◌-◌, ◌/◌, ◌≤◌, min, max, ◌≡◌, refl, sym, ◌∙◌, true, false, Option, is_some,
  List, [], ◌∷◌, ltb, leb, if◌then◌else◌, length, take, drop, keep, any, All, length-keep,
  length-drop, drop-add, arith, Bool-cases, inl, inr,
}
use magick_sentinel.Events.{ClientEvent, count_of}
use magick_sentinel.Spool.Schema.{
  Spool, SegmentRow, ok, err, sealed, before, same_key, insert_sorted, insert_segment, total_bytes,
}
use magick_sentinel.Spool.CallTable.{is_sealed}
use magick_sentinel.Spool.Segments.{evict_loop, not_expired, eviction_event, enforce_limits, push}
use magick_sentinel.Spool.Order.{
  IsTable, insert_segment-IsTable, keep-IsTable, drop-IsTable, oldest_first,
}

-- What the eviction loop leaves: the rows behind the first `gone`, within the size cap, every
-- deleted row counted.
pub record Evicted (max_bytes : ℕ) (rows : List SegmentRow) (before_ : ℕ) (left : List SegmentRow)
    (after : ℕ) : Type 0 where
  pub gone : ℕ
  pub left_is : left ≡ drop gone rows
  pub within : total_bytes left ≤ max_bytes
  pub counted : length left + after ≡ length rows + before_

evict_loop-Evicted :
    (fuel max_bytes : ℕ) (rows : List SegmentRow) (evicted : ℕ)
    → length rows ≤ fuel
    → let (left, n) = evict_loop fuel max_bytes rows evicted in
      Evicted max_bytes rows evicted left n
unfolding evict_loop
evict_loop-Evicted fuel max_bytes [] evicted h = record {
  gone = 0;
  left_is = refl;
  within = ground arith;
  counted = refl;
}
evict_loop-Evicted zero max_bytes (r ∷ rs) evicted h = absurd (omega arith)
evict_loop-Evicted (suc fuel) max_bytes (r ∷ rs) evicted h =
    elim (Bool-cases (leb (total_bytes (r ∷ rs)) max_bytes)) [
      | inl fits ↦
          rw fits (record { gone = 0; left_is = refl; within = ground arith; counted = refl })
      | inr over ↦
          let batch = min (max ((total_bytes (r ∷ rs) - max_bytes) / 3_000) 1) 1_000 in
          let more =
            evict_loop-Evicted fuel max_bytes (drop batch (r ∷ rs))
              (evicted + min batch (length (r ∷ rs))) (omega (arith, length-drop batch (r ∷ rs))) in
          rw over (record {
            gone = batch + more.gone;
            left_is = more.left_is ∙ sym (drop-add batch more.gone (r ∷ rs));
            within = more.within;
            counted = omega (arith, more.counted, length-drop batch (r ∷ rs));
          })
    ]

-- The rows young enough to be kept at `now`.
abbrev pub young : Spool → ℕ → List SegmentRow
young s now = keep (not_expired (now - s.limits.max_age_ms)) s.segments

count_of-eviction_event : (now n : ℕ) → count_of (eviction_event now n) ≡ n
unfolding eviction_event
count_of-eviction_event now n = ground arith

reported-eviction_event : (now n : ℕ) → is_some (eviction_event now n) ≡ ltb 0 n
unfolding eviction_event
reported-eviction_event now n = ground arith

ltb_counted : (a b n : ℕ) → a + n ≡ b → ltb 0 n ≡ ltb a b
ltb_counted a b n h = ground arith

-- What `enforce_limits` has done when it returns.
pub record Enforced (s : Spool) (now : ℕ) (s' : Spool) (event : Option ClientEvent) : Type 0 where
  pub gone : ℕ
  pub left_is : s'.segments ≡ drop gone (young s now)
  pub within : total_bytes s'.segments ≤ s.limits.max_bytes
  pub counted : length s'.segments + count_of event ≡ length s.segments
  pub reported : is_some event ≡ ltb (length s'.segments) (length s.segments)
  pub same_calls : s'.calls ≡ s.calls
  pub same_acks : s'.acks ≡ s.acks
  pub same_limits : s'.limits ≡ s.limits

pub enforce_limits-Enforced :
    (s : Spool) (now : ℕ) → let (s', event) = enforce_limits s now in Enforced s now s' event
unfolding enforce_limits
enforce_limits-Enforced s now =
    let rows = young s now in
    let few = length-keep (not_expired (now - s.limits.max_age_ms)) s.segments in
    let e =
      evict_loop-Evicted (length rows) s.limits.max_bytes rows (length s.segments - length rows)
        (omega arith) in
    let n =
      (evict_loop (length rows) s.limits.max_bytes rows (length s.segments - length rows)).1 in
    record {
      gone = e.gone;
      left_is = e.left_is;
      within = e.within;
      counted = omega (arith, e.counted, few, count_of-eviction_event now n);
      reported = reported-eviction_event now n ∙ ltb_counted _ _ n (omega (arith, e.counted, few));
      same_calls = refl;
      same_acks = refl;
      same_limits = refl;
    }

-- The rows after the insertion that `push` makes.
abbrev pub inserted : Spool → SegmentRow → Spool
inserted s seg = record s { segments = insert_segment seg s.segments }

push_open :
    (s : Spool) (seg : SegmentRow)
    → is_sealed s seg.call_id ≡ false
    → push s seg ≡ (
      (enforce_limits (inserted s seg) seg.created_ms).0,
      ok (enforce_limits (inserted s seg) seg.created_ms).1,
    )
unfolding push
push_open s seg h = rw h

length-insert_sorted :
    (x : SegmentRow) (ys : List SegmentRow) → length (insert_sorted x ys) ≡ suc (length ys)
unfolding insert_sorted
length-insert_sorted x [] = refl
length-insert_sorted x (y ∷ ys) = ground (arith, length-insert_sorted x ys)

-- A segment for a sealed call is refused and the spool is left as it was. Any other write
-- succeeds, keeps the payload bytes within the size cap, and loses nothing in silence: a segment
-- whose key is new adds one row, a repeated one adds none, and every row that is no longer there
-- is counted in the event returned, which is there exactly when a row was lost. Calls and
-- watermarks stay.
pub push_accounts :
    (s : Spool) (seg : SegmentRow)
    → (is_sealed s seg.call_id ≡ true → push s seg ≡ (s, err (sealed seg.call_id)))
      × (is_sealed s seg.call_id ≡ false
          → (event : Option ClientEvent) × ((push s seg).1 ≡ ok event)
            × (total_bytes (push s seg).0.segments ≤ s.limits.max_bytes)
            × (length (push s seg).0.segments + count_of event ≡ (
                if any (λ y. same_key seg y) s.segments
                then length s.segments
                else length s.segments + 1))
            × (is_some event ≡ ltb 0 (count_of event))
            × ((push s seg).0.calls ≡ s.calls)
            × ((push s seg).0.acks ≡ s.acks))
unfolding insert_segment
push_accounts s seg = (
  λ h. unfold push in rw h,
  λ h.
      let e = enforce_limits-Enforced (inserted s seg) seg.created_ms in
      rw (push_open s seg h) (
        (enforce_limits (inserted s seg) seg.created_ms).1,
        refl,
        e.within,
        ground (arith, e.counted, length-insert_sorted seg s.segments),
        e.reported ∙ ground (arith, e.counted),
        e.same_calls,
        e.same_acks,
      ),
)

-- Eviction takes the oldest first. A write that is not refused keeps the table sorted with each
-- key once; what it leaves is, of the rows inserted and young enough, all but the first `gone` in
-- the order of creation, and no row left stands before one of those that went.
pub push_oldest_first :
    (s : Spool) (seg : SegmentRow)
    → IsTable s.segments
    → is_sealed s seg.call_id ≡ false
    → let rows = young (inserted s seg) seg.created_ms in
      IsTable (push s seg).0.segments
      × ((gone : ℕ) × ((push s seg).0.segments ≡ drop gone rows)
          × All (λ old. All (λ left. before left old ≡ false) (drop gone rows)) (take gone rows))
push_oldest_first s seg t h =
    let e = enforce_limits-Enforced (inserted s seg) seg.created_ms in
    let rows = young (inserted s seg) seg.created_ms in
    let table : IsTable rows = keep-IsTable _ _ (insert_segment-IsTable seg s.segments t) in
    rw (push_open s seg h) (
      rw e.left_is (drop-IsTable e.gone rows table),
      (e.gone, e.left_is, oldest_first e.gone rows table.is_sorted),
    )
