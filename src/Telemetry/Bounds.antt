-- ===== src/Telemetry/Bounds.antt =====
-- The bounds of the exporter: client/sentinel-service/src/telemetry/layer.rs.
use magick_sentinel.Prelude.{
  ℕ, ◌+◌, ◌≤◌, ◌<◌, ◌≡◌, refl, ap, Bool, true, false, List, [], ◌∷◌, ◌++◌, length, length-append,
  u64_mod, arith,
}
use magick_sentinel.Telemetry.{
  queue_capacity, max_batch, Record, record_of, Exporter, new, enqueue, on_event, note_drops, ship,
  flush, receive, export_pass, Step, emit, pass, step, run,
}

pub record IsSound (e : Exporter) : Type 0 where
  pub queued : length e.queue ≤ queue_capacity
  pub batched : length e.batch < max_batch
  pub counted : e.dropped ≡ length e.refused
  pub told : e.reported_drops ≤ e.dropped

enqueue-IsSound :
    (r : Record) (e : Exporter) → length e.refused + 1 < u64_mod → IsSound e → IsSound (enqueue r e)
unfolding enqueue
enqueue-IsSound r e room h =
    ground (arith, length-append e.queue (r ∷ []), length-append e.refused (r ∷ []))

ship_lem :
    (taken : Bool) (b : List Record) (e : Exporter)
    → e.batch ≡ b
    → length (ship taken b e).batch < max_batch
ship_lem taken [] e h = rw h (omega arith)
ship_lem true (r ∷ rs) e h = omega arith
ship_lem false (r ∷ rs) e h = omega arith

ship_keeps :
    (taken : Bool) (b : List Record) (e : Exporter)
    → let e' = ship taken b e in
      (e'.queue ≡ e.queue)
      × (e'.dropped ≡ e.dropped)
      × (e'.refused ≡ e.refused)
      × (e'.reported_drops ≡ e.reported_drops)
      × (e'.layer ≡ e.layer)
      × (e'.handle ≡ e.handle)
      × (e'.stopped ≡ e.stopped)
ship_keeps taken [] e = (refl, refl, refl, refl, refl, refl, refl)
ship_keeps true (r ∷ rs) e = (refl, refl, refl, refl, refl, refl, refl)
ship_keeps false (r ∷ rs) e = (refl, refl, refl, refl, refl, refl, refl)

-- What an exporter pass leaves as it was, and that the batch stays short.
abbrev Settles : Exporter → Exporter → Type 0
Settles e e' =
    (e'.queue ≡ e.queue)
    × (e'.dropped ≡ e.dropped)
    × (e'.refused ≡ e.refused)
    × (e'.reported_drops ≤ e'.dropped)
    × (length e'.batch < max_batch)
    × (e'.layer ≡ e.layer)
    × (e'.handle ≡ e.handle)
    × (e'.stopped ≡ e.stopped)

flush-Settles :
    (now : ℕ) (taken : Bool) (e : Exporter)
    → e.reported_drops ≤ e.dropped
    → Settles e (flush now taken e)
unfolding flush note_drops
flush-Settles now taken e told =
    let noted = note_drops now e in
    ground (arith, told, ship_lem taken noted.batch noted refl, ship_keeps taken noted.batch noted)

received-IsSound :
    (rs : List Record) (now : ℕ) (taken : Bool) (e : Exporter)
    → e.queue ≡ rs
    → IsSound e
    → IsSound (receive rs now taken e)
received-IsSound [] now taken e h sound =
    let settled = flush-Settles now taken e sound.told in ground (arith, settled, sound)
received-IsSound (r ∷ rs) now taken e h sound =
    let e' : Exporter = record e { queue = rs; batch = e.batch ++ (r ∷ []) } in
    let settled = flush-Settles now taken e' sound.told in
    let shorter : length rs ≤ queue_capacity =
      omega (arith, sound, ap (λ (q : List Record). length q) h) in
    ground (arith, settled, sound, shorter)

pub flush_keeps :
    (now : ℕ) (taken : Bool) (e : Exporter)
    → let e' = flush now taken e in
      (e'.queue ≡ e.queue)
      × (e'.refused ≡ e.refused)
      × (e'.layer ≡ e.layer)
      × (e'.handle ≡ e.handle)
      × (e'.stopped ≡ e.stopped)
unfolding flush note_drops
flush_keeps now taken e =
    let noted = note_drops now e in ground (arith, ship_keeps taken noted.batch noted)

-- Without a sender left, an exporter ends; else it goes on.
received_keeps :
    (rs : List Record) (now : ℕ) (taken : Bool) (e : Exporter)
    → let e' = receive rs now taken e in
      (e'.refused ≡ e.refused)
      × (e'.layer ≡ e.layer)
      × (e'.handle ≡ e.handle)
      × (e.layer ≡ true → e'.stopped ≡ e.stopped)
received_keeps [] now taken e = ground (arith, flush_keeps now taken e)
received_keeps (r ∷ rs) now taken e =
    let e' : Exporter = record e { queue = rs; batch = e.batch ++ (r ∷ []) } in
    ground (arith, flush_keeps now taken e')

pub step_keeps :
    (s : Step) (e : Exporter)
    → let e' = step s e in
      (length e'.refused ≤ length e.refused + 1)
      × (e'.layer ≡ e.layer)
      × (e'.handle ≡ e.handle)
      × (e.layer ≡ true → e'.stopped ≡ e.stopped)
unfolding step on_event enqueue export_pass
step_keeps (emit now event) e = ground (arith, length-append e.refused (record_of now event ∷ []))
step_keeps (pass now taken) e = ground (arith, received_keeps e.queue now taken e)

step-IsSound :
    (s : Step) (e : Exporter) → length e.refused + 1 < u64_mod → IsSound e → IsSound (step s e)
unfolding step on_event export_pass
step-IsSound (emit now event) e room h =
    let sound = enqueue-IsSound (record_of now event) e room h in ground (arith, sound, h)
step-IsSound (pass now taken) e room h =
    let sound = received-IsSound e.queue now taken e refl h in ground (arith, sound, h)

run-IsSound :
    (ss : List Step) (e : Exporter)
    → length e.refused + length ss < u64_mod
    → IsSound e
    → IsSound (run ss e)
unfolding run
run-IsSound [] e room h = h
run-IsSound (s ∷ ss) e room h =
    run-IsSound ss (step s e) (omega (arith, step_keeps s e, room))
      (step-IsSound s e (omega (arith, room)) h)

-- Over any fewer than 2 ^ 64 steps of a new exporter the queue holds at most 1024 records, a batch
-- that waits is shorter than 128, the number of drops is the number of records refused by a full
-- queue, and no more drops than that have been reported.
pub run-new-IsSound : (ss : List Step) → length ss < u64_mod → IsSound (run ss new)
unfolding new
run-new-IsSound ss h = run-IsSound ss new (omega (arith, h)) (omega arith)
