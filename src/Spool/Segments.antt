-- ===== src/Spool/Segments.antt =====
-- Writing segments and evicting old ones: client/sentinel-core/src/spool.rs.
use magick_sentinel.Prelude.{
  ℕ, zero, suc, ◌+◌, ◌-◌, ◌/◌, min, max, Bool, not, Option, none, some, List, [], ◌∷◌, length, drop,
  keep, ltb, leb, ◌==◌, if◌then◌else◌, text,
}
use magick_sentinel.Events.{ClientEvent, spool_eviction}
use magick_sentinel.Events
use magick_sentinel.Spool.Schema.{
  sealed, Result, ok, err, SegmentRow, Spool, as_i64, insert_segment, total_bytes,
}
use magick_sentinel.Spool.CallTable.{is_sealed}

-- The loop of `enforce_limits`: the rows left and the number evicted. Each round deletes a row,
-- so the number of rows is fuel enough.
unfoldable pub evict_loop : ℕ → ℕ → List SegmentRow → ℕ → List SegmentRow × ℕ
unfolding total_bytes
evict_loop fuel max_bytes [] evicted = ([], evicted)
evict_loop zero max_bytes (r ∷ rs) evicted = (r ∷ rs, evicted)
evict_loop (suc fuel) max_bytes (r ∷ rs) evicted =
    let bytes = total_bytes (r ∷ rs) in
    let batch = min (max ((bytes - max_bytes) / 3_000) 1) 1_000 in
    let more =
      evict_loop fuel max_bytes (drop batch (r ∷ rs)) (evicted + min batch (length (r ∷ rs))) in
    if leb bytes max_bytes then (r ∷ rs, evicted) else more

-- DELETE FROM segments WHERE created_ms < cutoff.
abbrev pub not_expired : ℕ → SegmentRow → Bool
not_expired cutoff r = not (ltb (as_i64 r.created_ms) (as_i64 cutoff))

-- The event for `evicted` rows, if any were.
unfoldable pub eviction_event : ℕ → ℕ → Option ClientEvent
eviction_event now_ms evicted =
    if evicted == 0
    then none
    else some (
        Events.with_detail (Events.with_count (Events.new spool_eviction now_ms) evicted)
          (text "spool cap reached"))

unfoldable pub enforce_limits : Spool → ℕ → Spool × Option ClientEvent
enforce_limits s now_ms =
    let young = keep (not_expired (now_ms - s.limits.max_age_ms)) s.segments in
    let (left, evicted) =
      evict_loop (length young) s.limits.max_bytes young (length s.segments - length young) in
    (record s { segments = left }, eviction_event now_ms evicted)

unfoldable pub push : Spool → SegmentRow → Spool × Result (Option ClientEvent)
unfolding is_sealed insert_segment enforce_limits eviction_event
push s seg =
    let (s', event) =
      enforce_limits (record s { segments = insert_segment seg s.segments }) seg.created_ms in
    if is_sealed s seg.call_id then (s, err (sealed seg.call_id)) else (s', ok event)
