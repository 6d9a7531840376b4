-- ===== src/Watch/Tiers.antt =====
-- The tier that the service detects against that of the capture crate:
-- client/sentinel-service/src/main.rs and client/sentinel-capture/src/tier.rs.
use magick_sentinel.Prelude.{ℕ, ◌≡◌, ◌↔◌, ◌⊎◌, Bool, true, Option, none, some, Text, text, arith}
use magick_sentinel.Tier.{CaptureTier, a, b, Arch, is_x64, tier, classify}
use magick_sentinel.Watch.{tier_of_build}

abbrev pub tier_name : Option CaptureTier → Option Text
tier_name none = none
tier_name (some a) = some (text "A")
tier_name (some b) = some (text "B")

-- The service detects the tier of the capture crate for Windows 10 and later exactly when the
-- machine is x64 or the service finds no tier: it does not ask for the architecture.
pub tier_of_build_iff :
    (minor build : ℕ) (is_server : Bool) (arch : Arch)
    → (tier_name (tier (classify 10 minor build is_server arch)) ≡ tier_of_build build is_server)
      ↔ ((is_x64 arch ≡ true) ⊎ (tier_of_build build is_server ≡ none))
unfolding classify tier tier_of_build
tier_of_build_iff minor build is_server arch = ((λ e. ground (arith, e)), (λ h. ground (arith, h)))
