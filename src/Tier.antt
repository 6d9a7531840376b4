-- ===== src/Tier.antt =====
-- Capture tiers: client/sentinel-capture/src/tier.rs.
use magick_sentinel.Prelude.{
  ℕ, ◌≤◌, ◌<◌, ◌≡◌, ◌↔◌, ◌⊎◌, Bool, true, false, not, Option, none, some, ◌++◌, leb, ltb,
  if◌then◌else◌, Text, text, digits, arith,
}

pub data CaptureTier : Type 0 where
  a b : CaptureTier

pub data TierDetection : Type 0 where
  supported : CaptureTier → Text → TierDetection
  unsupported : Text → Text → TierDetection

unfoldable pub tier : TierDetection → Option CaptureTier
tier (supported t os_build) = some t
tier (unsupported os_build reason) = none

unfoldable pub os_build_of : TierDetection → Text
os_build_of (supported t os_build) = os_build
os_build_of (unsupported os_build reason) = os_build

pub data Arch : Type 0 where
  x64 x86 arm64 other : Arch

-- `{arch:?}`.
abbrev pub arch_debug : Arch → Text
arch_debug x64 = text "X64"
arch_debug x86 = text "X86"
arch_debug arm64 = text "Arm64"
arch_debug other = text "Other"

abbrev pub is_x64 : Arch → Bool
is_x64 x64 = true
is_x64 _ = false

-- `format!("{major}.{minor}.{build}")`; a u32 has ten digits at most.
unfoldable pub os_build : ℕ → ℕ → ℕ → Text
os_build major minor build =
    digits 10 major ++ (text "." ++ (digits 10 minor ++ (text "." ++ digits 10 build)))

unfoldable pub classify : ℕ → ℕ → ℕ → Bool → Arch → TierDetection
classify major minor build is_server arch =
    let os = os_build major minor build in
    if not (is_x64 arch)
    then unsupported os (text "unsupported architecture " ++ (arch_debug arch ++ text "; x64 only"))
    else if ltb major 10
    then unsupported os (text "Windows 8.1 and earlier are not supported")
    else if is_server
    then if leb 20348 build
      then supported a os
      else unsupported os (text "Windows Server before 2022 has no process loopback")
    else if leb 22000 build
    then supported a os
    else if leb 18362 build
    then supported b os
    else unsupported os (text "Windows 10 before 1903 (build 18362) is not supported")

-- Tier A is exactly x64 with Windows 10 or later as the major version, on a server from build
-- 20348 on and on a client from build 22000 on. Tier B is exactly an x64 client of builds
-- 18362 to 21999. All else is unsupported, and each answer carries the build it was asked about.
pub classify_matrix :
    (major minor build : ℕ) (is_server : Bool) (arch : Arch)
    → let d = classify major minor build is_server arch in
      ((tier d ≡ some a) ↔ (
        (is_x64 arch ≡ true)
        × (10 ≤ major)
        × (((is_server ≡ true) × (20348 ≤ build)) ⊎ ((is_server ≡ false) × (22000 ≤ build)))))
      × ((tier d ≡ some b) ↔ (
          (is_x64 arch ≡ true)
          × (10 ≤ major)
          × (is_server ≡ false)
          × (18362 ≤ build)
          × (build < 22000)))
      × (os_build_of d ≡ os_build major minor build)
unfolding classify tier os_build_of
classify_matrix major minor build is_server arch = (
  (λ e. ground arith, λ (x, m, k). ground arith),
  (λ e. ground arith, λ (x, m, s, k, l). ground arith),
  ground arith,
)

abbrev pub rank : Option CaptureTier → ℕ
rank none = 0
rank (some b) = 1
rank (some a) = 2

-- An in-place upgrade, to a later build of the same kind of system, never lowers the tier.
pub classify_upgrade :
    (major major' minor minor' build build' : ℕ) (is_server : Bool) (arch : Arch)
    → major ≤ major'
    → build ≤ build'
    → rank (tier (classify major minor build is_server arch))
      ≤ rank (tier (classify major' minor' build' is_server arch))
unfolding classify tier
classify_upgrade major major' minor minor' build build' is_server arch h k = ground arith
