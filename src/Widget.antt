-- ===== src/Widget.antt =====
-- The window of the widget and what it accepts from its page:
-- client/sentinel-agent/src/widget/mod.rs and position.rs.
-- A coordinate is counted from the smallest i32, and sums are taken to fit.
pub mod Snapping
use magick_sentinel.Prelude.{
  ℕ, ◌+◌, ◌-◌, max, Bool, true, false, not, ◌&&◌, ◌||◌, Option, none, some, List, [], ◌∷◌, ◌++◌,
  leb, ltb, ◌==◌, if◌then◌else◌, keep, take, Text, text,
}
use magick_sentinel.Config.{starts_with}
use magick_sentinel.Enrolment.{contains}

pub record Rect : Type 0 where
  pub x : ℕ
  pub y : ℕ
  pub width : ℕ
  pub height : ℕ

unfoldable pub right : Rect → ℕ
right r = r.x + r.width

unfoldable pub bottom : Rect → ℕ
bottom r = r.y + r.height

abbrev pub snap_threshold : ℕ
snap_threshold = 24

-- `(a - b).abs()`.
abbrev pub distance : ℕ → ℕ → ℕ
distance a b = (a - b) + (b - a)

abbrev pub clamp : ℕ → ℕ → ℕ → ℕ
clamp v low high = if ltb v low then low else if ltb high v then high else v

-- One of the two directions of `snap_to_edge`: where the window starts and how long it is, and where
-- the work area starts and ends.
unfoldable pub snap_start : ℕ → ℕ → ℕ → ℕ → ℕ → ℕ
snap_start start size low high threshold =
    clamp
      (if leb (distance start low) threshold
        then low
        else if leb (distance high (start + size)) threshold
        then high - size
        else start)
      low (max (high - size) low)

unfoldable pub snap_to_edge : Rect → Rect → ℕ → Rect
unfolding snap_start right bottom
snap_to_edge window work_area threshold = record window {
  x = snap_start window.x window.width work_area.x (right work_area) threshold;
  y = snap_start window.y window.height work_area.y (bottom work_area) threshold;
}

unfoldable pub validate_portal_path : Text → Bool
unfolding starts_with contains
validate_portal_path path = not (
    not (starts_with (text "/") path)
    || starts_with (text "//") path
    || contains (text "://") path
    || contains (92 ∷ []) path
    || contains (text "..") path)

abbrev pub is_safe : ℕ → Bool
is_safe c =
    (leb 48 c && leb c 57)
    || (leb 65 c && leb c 90)
    || (leb 97 c && leb c 122)
    || c == 45
    || c == 95

-- The name of the file of `path_for`.
unfoldable pub position_name : Text → Text
position_name uid = text "widget-" ++ (take 64 (keep is_safe uid) ++ text ".json")

-- What `sentinel.getState()` returns. The coverage is a number of 0 to 100 and is always missing.
pub record WidgetState : Type 0 where
  pub auth_state : Text
  pub capture_state : Text
  pub tier : Option Text
  pub coverage : Option ℕ
  pub call_id : Option Text
  pub message : Option Text
  pub recording : Bool
  pub spool_depth : ℕ

unfoldable pub signed_out : Text → WidgetState
signed_out message = record {
  auth_state = text "signed_out";
  capture_state = text "BLOCKED";
  tier = none;
  coverage = none;
  call_id = none;
  message = some message;
  recording = false;
  spool_depth = 0;
}
