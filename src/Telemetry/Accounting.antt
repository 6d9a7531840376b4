-- ===== src/Telemetry/Accounting.antt =====
-- Where every telemetry record goes: client/sentinel-service/src/telemetry/layer.rs.
use magick_sentinel.Prelude.{
  ℕ, ◌+◌, ◌-◌, ◌≡◌, refl, ap, ◌∙◌, Bool, true, false, List, [], ◌∷◌, ◌++◌, if◌then◌else◌, text_eq,
  ◌||◌, not, arith,
}
use magick_sentinel.Telemetry.{
  target, Record, Event, record_of, Exporter, enqueue, on_event, drop_notice, note_drops, ship,
  flush, receive, export_pass, Step, emit, pass, step, run,
}

-- How many records pass a test.
abbrev pub number : (Record → Bool) → List Record → ℕ
number test [] = 0
number test (r ∷ rs) = let rest = number test rs in if test r then rest + 1 else rest

number-append :
    (test : Record → Bool) (xs ys : List Record)
    → number test (xs ++ ys) ≡ number test xs + number test ys
number-append test [] ys = omega arith
number-append test (x ∷ xs) ys = ground (arith, number-append test xs ys)

-- The records that are somewhere.
abbrev pub placed : (Record → Bool) → Exporter → ℕ
placed test e =
    number test e.queue
    + number test e.batch
    + number test e.shipped
    + number test e.lost
    + number test e.refused

-- The records that the steps emit while the exporter runs and the layer is installed.
abbrev pub emitted : (Record → Bool) → List Step → Exporter → ℕ
emitted test [] e = 0
emitted test (pass now taken ∷ ss) e = emitted test ss (step (pass now taken) e)
emitted test (emit now event ∷ ss) e =
    let rest = emitted test ss (step (emit now event) e) in
    if e.stopped || not e.layer
    then rest
    else if text_eq event.event_target target
    then if test (record_of now event) then rest + 1 else rest
    else rest

on_event_places :
    (test : Record → Bool) (now : ℕ) (event : Event) (e : Exporter)
    → placed test (on_event now event e) ≡ placed test e + emitted test (emit now event ∷ []) e
unfolding on_event enqueue
on_event_places test now event e =
    let r = record_of now event in
    ground (arith, number-append test e.queue (r ∷ []), number-append test e.refused (r ∷ []))

ship_places :
    (test : Record → Bool) (taken : Bool) (b : List Record) (e : Exporter)
    → e.batch ≡ b
    → placed test (ship taken b e) ≡ placed test e
ship_places test taken [] e h = refl
ship_places test true (r ∷ rs) e h =
    omega (arith, number-append test e.shipped (r ∷ rs), ap (number test) h)
ship_places test false (r ∷ rs) e h =
    omega (arith, number-append test e.lost (r ∷ rs), ap (number test) h)

note_drops_places :
    (test : Record → Bool) (now : ℕ) (e : Exporter)
    → test (drop_notice now (e.dropped - e.reported_drops)) ≡ false
    → placed test (note_drops now e) ≡ placed test e
unfolding note_drops
note_drops_places test now e h =
    let notice = drop_notice now (e.dropped - e.reported_drops) in
    ground (arith, h, number-append test e.batch (notice ∷ []))

flush_places :
    (test : Record → Bool) (now : ℕ) (taken : Bool) (e : Exporter)
    → test (drop_notice now (e.dropped - e.reported_drops)) ≡ false
    → placed test (flush now taken e) ≡ placed test e
unfolding flush
flush_places test now taken e h =
    ship_places test taken (note_drops now e).batch (note_drops now e) refl
    ∙ note_drops_places test now e h

module _ (test : Record → Bool)
    (silent : (now count : ℕ) → test (drop_notice now count) ≡ false) where
  received_places :
      (rs : List Record) (now : ℕ) (taken : Bool) (e : Exporter)
      → e.queue ≡ rs
      → placed test (receive rs now taken e) ≡ placed test e
  received_places [] now taken e h =
      let flushed = flush_places test now taken e (silent now (e.dropped - e.reported_drops)) in
      ground (arith, flushed)
  received_places (r ∷ rs) now taken e h =
      let e' : Exporter = record e { queue = rs; batch = e.batch ++ (r ∷ []) } in
      let moved : placed test e' ≡ placed test e =
        ground (arith, number-append test e.batch (r ∷ []), ap (number test) h) in
      let flushed = flush_places test now taken e' (silent now (e.dropped - e.reported_drops)) in
      ground (arith, moved, flushed)

  step_places :
      (s : Step) (e : Exporter) → placed test (step s e) ≡ placed test e + emitted test (s ∷ []) e
  unfolding step export_pass
  step_places (emit now event) e = on_event_places test now event e
  step_places (pass now taken) e = ground (arith, received_places e.queue now taken e refl)

  emitted_first :
      (s : Step) (ss : List Step) (e : Exporter)
      → emitted test (s ∷ ss) e ≡ emitted test (s ∷ []) e + emitted test ss (step s e)
  emitted_first (pass now taken) ss e = omega arith
  emitted_first (emit now event) ss e = ground arith

  -- A record that is emitted on the target while the exporter runs and the layer is installed is in
  -- exactly one place: in the queue, in the batch, shipped, lost with a batch that the collector did not take, or refused by a
  -- full queue. This is counted for any records that are told apart from the notices of drops.
  pub run_places :
      (ss : List Step) (e : Exporter) → placed test (run ss e) ≡ placed test e + emitted test ss e
  unfolding run
  run_places [] e = omega arith
  run_places (s ∷ ss) e =
      omega (arith, run_places ss (step s e), step_places s e, emitted_first s ss e)
