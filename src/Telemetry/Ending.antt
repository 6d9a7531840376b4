-- ===== src/Telemetry/Ending.antt =====
-- How the exporter ends: `stop` and `export_loop` of client/sentinel-service/src/telemetry/layer.rs.
use magick_sentinel.Prelude.{
  ℕ, ◌<◌, ◌≡◌, refl, ap, ◌∙◌, Bool, true, false, List, [], ◌∷◌, ◌++◌, length, arith, if◌then◌else◌,
  ◌||◌,
}
use magick_sentinel.Telemetry.{
  Record, Exporter, new, note_drops, ship, flush, flush_full, receive, export_pass, stop,
  drop_layer, Step, pass, step, run,
}
use magick_sentinel.Telemetry.Bounds.{flush_keeps, step_keeps}

never_stops :
    (ss : List Step) (e : Exporter)
    → e.layer ≡ true
    → ((run ss e).stopped ≡ e.stopped) × ((run ss e).layer ≡ true)
unfolding run
never_stops [] e h = (refl, h)
never_stops (s ∷ ss) e h =
    let (room, same, handle, goes_on) = step_keeps s e in
    let (later, layer) = never_stops ss (step s e) (same ∙ h) in (later ∙ goes_on h, layer)

handle_stays : (ss : List Step) (e : Exporter) → e.handle ≡ false → (run ss e).handle ≡ false
unfolding run
handle_stays [] e h = h
handle_stays (s ∷ ss) e h =
    let (room, layer, same, goes_on) = step_keeps s e in handle_stays ss (step s e) (same ∙ h)

-- Passes of the export loop alone, each with whether the collector takes a batch.
abbrev pub export_passes : ℕ → List Bool → List Step
export_passes now [] = []
export_passes now (taken ∷ more) = pass now taken ∷ export_passes now more

passes_stopped :
    (now : ℕ) (ts : List Bool) (e : Exporter) → e.stopped ≡ true → run (export_passes now ts) e ≡ e
unfolding run step export_pass
passes_stopped now [] e h = refl
passes_stopped now (t ∷ ts) e h =
    ap (λ b. run (export_passes now ts) (if b then e else receive e.queue now t e)) h
    ∙ passes_stopped now ts e h

flush_empties : (now : ℕ) (taken : Bool) (e : Exporter) → (flush now taken e).batch ≡ []
unfolding flush note_drops
flush_empties now taken e = let noted = note_drops now e in shipped_all taken noted.batch noted refl
  where
    shipped_all :
        (taken : Bool) (b : List Record) (e : Exporter) → e.batch ≡ b → (ship taken b e).batch ≡ []
    shipped_all taken [] e h = h
    shipped_all true (r ∷ rs) e h = refl
    shipped_all false (r ∷ rs) e h = refl

flush_full_keeps :
    (now : ℕ) (taken : Bool) (e : Exporter)
    → let e' = flush_full now taken e in
      (e'.queue ≡ e.queue)
      × (e'.layer ≡ e.layer)
      × (e'.handle ≡ e.handle)
      × (e'.stopped ≡ e.stopped)
flush_full_keeps now taken e = ground (arith, flush_keeps now taken e)

last_pass :
    (now : ℕ) (taken : Bool) (e : Exporter)
    → e.queue ≡ []
    → (e.layer || e.handle) ≡ false
    → e.stopped ≡ false
    → export_pass now taken e ≡ record (flush now taken e) { stopped = true }
unfolding export_pass
last_pass now taken e empty closed going =
    ap (λ b. if b then e else receive e.queue now taken e) going
    ∙ ap (λ q. receive q now taken e) empty
    ∙ ap (λ b. if b then flush now taken e else record (flush now taken e) { stopped = true })
        closed

-- Without a sender left, a pass takes a record of the queue, or makes the last flush and ends.
closed_passes :
    (now : ℕ) (ts : List Bool) (q : List Record) (e : Exporter)
    → e.queue ≡ q
    → length q < length ts
    → (e.layer || e.handle) ≡ false
    → e.stopped ≡ false
    → ((run (export_passes now ts) e).stopped ≡ true) × ((run (export_passes now ts) e).batch ≡ [])
unfolding run step
closed_passes now [] q e queued enough closed going = absurd (omega arith)
closed_passes now (t ∷ ts) [] e queued enough closed going =
    let ended : Exporter = record (flush now t e) { stopped = true } in
    let rests =
      ap (run (export_passes now ts)) (last_pass now t e queued closed going)
      ∙ passes_stopped now ts ended refl in
    (ap (λ x. x.stopped) rests, ap (λ x. x.batch) rests ∙ flush_empties now t e)
closed_passes now (t ∷ ts) (r ∷ rs) e queued enough closed going =
    let taken : Exporter = record e { queue = rs; batch = e.batch ++ (r ∷ []) } in
    let (queue, layer, handle, stopped) = flush_full_keeps now t taken in
    let open_same : ((flush_full now t taken).layer || (flush_full now t taken).handle) ≡ false =
      ap (λ b. b || (flush_full now t taken).handle) layer
      ∙ ap (λ b. e.layer || b) handle
      ∙ closed in
    let first : export_pass now t e ≡ flush_full now t taken =
      unfold export_pass in
      ap (λ b. if b then e else receive e.queue now t e) going
      ∙ ap (λ q. receive q now t e) queued in
    let (ended, emptied) =
      closed_passes now ts rs (flush_full now t taken) queue (omega arith) open_same
        (stopped ∙ going) in
    (
      ap (λ x. (run (export_passes now ts) x).stopped) first ∙ ended,
      ap (λ x. (run (export_passes now ts) x).batch) first ∙ emptied,
    )

-- While the layer is installed, stopping the handle does not end the exporter, however many passes
-- and events come before and after: the channel never closes, so that the last flush is not made.
-- Once the layer has been dropped too, one pass more than there are records in the queue ends it,
-- with nothing left to ship.
pub stop_needs_layer :
    (before after : List Step) (now : ℕ) (ts : List Bool)
    → length (run after (stop (run before new))).queue < length ts
    → let e = run after (stop (run before new)) in
      (e.stopped ≡ false)
      × ((run (export_passes now ts) (drop_layer e)).stopped ≡ true)
      × ((run (export_passes now ts) (drop_layer e)).batch ≡ [])
unfolding stop new drop_layer
stop_needs_layer before after now ts enough =
    let (first, layer) = never_stops before new refl in
    let stopped = stop (run before new) in
    let (later, kept) = never_stops after stopped layer in
    let e = run after stopped in
    let handle : e.handle ≡ false = handle_stays after stopped refl in
    let going : e.stopped ≡ false = later ∙ first in
    let (ended, emptied) = closed_passes now ts e.queue (drop_layer e) refl enough handle going in
    (going, ended, emptied)
