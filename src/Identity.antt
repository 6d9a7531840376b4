-- ===== src/Identity.antt =====
-- The identity gate: client/sentinel-agent/src/identity.rs.
-- `IdentityStatus::Blocked` is `gate_blocked`; the widget's texts are texts.
use magick_sentinel.Prelude.{
  ℕ, ◌+◌, ◌-◌, ◌<◌, ◌≡◌, Bool, true, false, not, Option, none, some, if◌then◌else◌, ltb, ◌==◌, Text,
  text, arith, [], ◌∷◌, ◌++◌, max, ◌↔◌, refl,
}
use magick_sentinel.Detector.{
  BlockReason, signed_out, pinned_device_missing, offline_grace_expired, device_revoked, shutdown,
}

pub data IdentityStatus : Type 0 where
  online : IdentityStatus
  grace : ℕ → IdentityStatus
  expired : IdentityStatus
  gate_blocked : BlockReason → IdentityStatus

unfoldable pub may_capture : IdentityStatus → Bool
may_capture online = true
may_capture (grace remaining_ms) = true
may_capture _ = false

unfoldable pub block_reason : IdentityStatus → Option BlockReason
block_reason online = none
block_reason (grace remaining_ms) = none
block_reason expired = some offline_grace_expired
block_reason (gate_blocked reason) = some reason

-- The bytes of an em dash.
abbrev dash : Text
dash = 226 ∷ 128 ∷ 148 ∷ []

unfoldable pub widget_message : IdentityStatus → Option Text
widget_message online = none
widget_message (grace remaining_ms) =
    some (text "Working offline " ++ dash ++ text " recording continues")
widget_message expired = some (text "Reconnect to continue recording")
widget_message (gate_blocked signed_out) = some (text "Sign in to start")
widget_message (gate_blocked pinned_device_missing) = some (text "Headset not detected")
widget_message (gate_blocked device_revoked) =
    some (text "This device has been deactivated " ++ dash ++ text " contact your administrator")
widget_message (gate_blocked offline_grace_expired) = some (text "Reconnect to continue recording")
widget_message (gate_blocked shutdown) = some (text "Shutting down")

pub record IdentityGate : Type 0 where
  pub grace_ms : ℕ
  pub last_verified_ms : Option ℕ
  pub signed_in : Bool
  pub device_revoked : Bool
  pub pinned_device_present : Bool

unfoldable pub new : ℕ → IdentityGate
new grace_ms = record {
  grace_ms = grace_ms;
  last_verified_ms = none;
  signed_in = false;
  device_revoked = false;
  pinned_device_present = false;
}

unfoldable pub set_grace_ms : IdentityGate → ℕ → IdentityGate
set_grace_ms g grace_ms = record g { grace_ms = grace_ms }

unfoldable pub observe_verified : IdentityGate → ℕ → IdentityGate
observe_verified g now_ms = record g { last_verified_ms = some now_ms }

unfoldable pub set_signed_in : IdentityGate → Bool → IdentityGate
set_signed_in g signed_in = record g {
  signed_in = signed_in;
  last_verified_ms = if signed_in then g.last_verified_ms else none;
}

unfoldable pub set_device_revoked : IdentityGate → Bool → IdentityGate
set_device_revoked g revoked = record g { device_revoked = revoked }

unfoldable pub set_pinned_device_present : IdentityGate → Bool → IdentityGate
set_pinned_device_present g present = record g { pinned_device_present = present }

-- The part of `status` that reads the clock.
unfoldable pub verified_status : ℕ → ℕ → Option ℕ → IdentityStatus
verified_status grace_ms now_ms none = expired
verified_status grace_ms now_ms (some last) =
    let elapsed = now_ms - last in
    if elapsed == 0
    then online
    else if ltb elapsed grace_ms
    then grace (grace_ms - elapsed)
    else expired

unfoldable pub status : IdentityGate → ℕ → IdentityStatus
unfolding verified_status
status g now_ms =
    if g.device_revoked
    then gate_blocked device_revoked
    else if not g.signed_in
    then gate_blocked signed_out
    else if not g.pinned_device_present
    then gate_blocked pinned_device_missing
    else verified_status g.grace_ms now_ms g.last_verified_ms

-- What capture needs at a time.
pub record IsAttributable (g : IdentityGate) (now_ms last : ℕ) : Type 0 where
  pub not_revoked : g.device_revoked ≡ false
  pub has_user : g.signed_in ≡ true
  pub has_device : g.pinned_device_present ≡ true
  pub was_verified : g.last_verified_ms ≡ some last
  pub in_time : now_ms < last + max 1 g.grace_ms

attributed :
    (g : IdentityGate) (now_ms : ℕ) (last : Option ℕ)
    → g.last_verified_ms ≡ last
    → may_capture (status g now_ms) ≡ true
    → (t : ℕ) × IsAttributable g now_ms t
unfolding may_capture status
attributed g now_ms none e h = ground (arith, e, h)
attributed g now_ms (some t) e h = (
  t,
  record {
    not_revoked = ground (arith, h);
    has_user = ground (arith, h);
    has_device = ground (arith, h);
    was_verified = e;
    in_time = ground (arith, e, h);
  },
)

-- The gate allows capture exactly when the device is not revoked, a user is signed in, the pinned
-- device is present, and the server has verified the user before now, less than the grace window
-- ago, or, with no grace window, in this very millisecond.
pub may_capture_iff :
    (g : IdentityGate) (now_ms : ℕ)
    → (may_capture (status g now_ms) ≡ true) ↔ ((t : ℕ) × IsAttributable g now_ms t)
unfolding may_capture status
may_capture_iff g now_ms = (
  λ h. attributed g now_ms g.last_verified_ms refl h,
  λ (t, ok).
      ground (arith, ok.not_revoked, ok.has_user, ok.has_device, ok.was_verified, ok.in_time),
)

-- The detector is given a reason to block exactly when capture is not allowed.
pub block_reason_iff : (s : IdentityStatus) → (block_reason s ≡ none) ↔ (may_capture s ≡ true)
unfolding block_reason may_capture
block_reason_iff s = ground arith
