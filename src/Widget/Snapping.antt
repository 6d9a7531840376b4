-- ===== src/Widget/Snapping.antt =====
-- Where the widget comes to rest: client/sentinel-agent/src/widget/mod.rs.
use magick_sentinel.Prelude.{ℕ, ◌+◌, ◌≤◌, ◌<◌, ◌≡◌, ◌⊎◌, inl, inr, refl, arith}
use native.Mathlib.Decide.{dec_le}
use magick_sentinel.Widget.{Rect, right, bottom, distance, snap_start, snap_to_edge}

snap_start-le : (start size low high threshold : ℕ) → low ≤ snap_start start size low high threshold
unfolding snap_start
snap_start-le start size low high threshold = ground arith

snap_start_fits :
    (start size low high threshold : ℕ)
    → low + size ≤ high
    → snap_start start size low high threshold + size ≤ high
unfolding snap_start
snap_start_fits start size low high threshold h = ground (arith, h)

snap_start_near :
    (start size low high threshold : ℕ)
    → low ≤ start
    → start + size ≤ high
    → distance (snap_start start size low high threshold) start ≤ threshold
unfolding snap_start
snap_start_near start size low high threshold h k = ground (arith, h, k)

snap_start_again :
    (start size low high threshold : ℕ)
    → low + size + threshold < high
    → snap_start (snap_start start size low high threshold) size low high threshold
      ≡ snap_start start size low high threshold
unfolding snap_start
snap_start_again start size low high threshold h = ground (arith, h)

-- Out of the area at one side, or moved by the threshold at most.
abbrev pub IsNear : ℕ → ℕ → ℕ → ℕ → ℕ → ℕ → Type 0
IsNear from start size low high threshold =
    (from < low) ⊎ (high < from + size) ⊎ (distance start from ≤ threshold)

snap_start-IsNear :
    (start size low high threshold : ℕ)
    → IsNear start (snap_start start size low high threshold) size low high threshold
snap_start-IsNear start size low high threshold = elim (dec_le low start) [
  | no p ↦ inl (omega (arith, p))
  | yes p ↦ elim (dec_le (start + size) high) [
    | no q ↦ inr (inl (omega (arith, q)))
    | yes q ↦ inr (inr (snap_start_near start size low high threshold p q))
  ]
]

-- A window that is smaller than the work area by more than the threshold keeps its size, comes to
-- rest inside of the work area, stays where it is when it is snapped again, and, in each direction,
-- is moved by no more than the threshold unless it was outside.
pub snap_to_edge_rests :
    (window area : Rect) (threshold : ℕ)
    → window.width + threshold < area.width
    → window.height + threshold < area.height
    → let rest = snap_to_edge window area threshold in
      (rest.width ≡ window.width)
      × (rest.height ≡ window.height)
      × (area.x ≤ rest.x)
      × (right rest ≤ right area)
      × (area.y ≤ rest.y)
      × (bottom rest ≤ bottom area)
      × (snap_to_edge rest area threshold ≡ rest)
      × IsNear window.x rest.x window.width area.x (right area) threshold
      × IsNear window.y rest.y window.height area.y (bottom area) threshold
unfolding snap_to_edge right bottom
snap_to_edge_rests window area threshold h k =
    let (x, y) = let t : ℕ × ℕ = (window.x, window.y) in t in
    let (w, v) = let t : ℕ × ℕ = (window.width, window.height) in t in
    let r = area.x + area.width in
    let b = area.y + area.height in
    (
      refl,
      refl,
      snap_start-le x w area.x r threshold,
      snap_start_fits x w area.x r threshold (omega (arith, h)),
      snap_start-le y v area.y b threshold,
      snap_start_fits y v area.y b threshold (omega (arith, k)),
      λ i. record window {
        x = snap_start_again x w area.x r threshold (omega (arith, h)) i;
        y = snap_start_again y v area.y b threshold (omega (arith, k)) i;
      },
      snap_start-IsNear x w area.x r threshold,
      snap_start-IsNear y v area.y b threshold,
    )
