-- ===== src/Resume.antt =====
-- Where to restart after a reconnect: client/sentinel-agent/src/uplink/resume.rs.
-- A `BTreeMap<Channel, A>` has at most two entries: it is a function from the two channels.
use magick_sentinel.Prelude.{
  ℕ, ◌+◌, ◌<◌, max, ◌≡◌, ◌↔◌, refl, Bool, true, Option, none, some, List, [], ◌∷◌, leb,
  if◌then◌else◌, or_else, saturating_add_u32, u32_mod, Text, text_eq, digits, arith,
}
use magick_sentinel.Protocol.{Channel, far, near, channel_as_u8}

-- `map.get(&key)` of a `BTreeMap<String, u32>`, as the list of its entries.
unfoldable pub lookup : Text → List (Text × ℕ) → Option ℕ
lookup key [] = none
lookup key ((k, v) ∷ rest) = if text_eq k key then some v else lookup key rest

abbrev pub ChannelMap : Type 0
ChannelMap = Channel → Option ℕ

-- `ch.as_u8().to_string()`.
unfoldable pub channel_key : Channel → Text
unfolding digits channel_as_u8
channel_key ch = digits 3 (channel_as_u8 ch)

-- The match on the two watermarks.
abbrev pub combine : Option ℕ → Option ℕ → Option ℕ
combine (some l) (some s) = some (max l s)
combine (some l) none = some l
combine none (some s) = some s
combine none none = none

-- `acked.map_or(0, |a| a.saturating_add(1))`.
abbrev pub next_seq : Option ℕ → ℕ
next_seq none = 0
next_seq (some a) = saturating_add_u32 a 1

-- The resume point: `plan` enters a value for every channel.
unfoldable pub plan : ChannelMap → List (Text × ℕ) → ChannelMap
unfolding lookup channel_key
plan local_acked server_acked ch =
    some (next_seq (combine (local_acked ch) (lookup (channel_key ch) server_acked)))

-- `ResumePoint::from_seq`.
unfoldable pub from_seq : ChannelMap → Channel → ℕ
from_seq point ch = or_else (point ch) 0

unfoldable pub should_send : ChannelMap → Channel → ℕ → Bool
unfolding from_seq
should_send point ch seq = leb (from_seq point ch) seq

-- A sequence number that a watermark leaves to be sent.
abbrev pub Beyond : Option ℕ → ℕ → Type 0
Beyond none seq = Unit {0}
Beyond (some a) seq = a < seq

above_combined :
    (l s : Option ℕ) (seq : ℕ)
    → seq + 1 < u32_mod
    → (leb (next_seq (combine l s)) seq ≡ true) ↔ (Beyond l seq × Beyond s seq)
above_combined none none seq h = (λ e. (tt, tt), λ e. ground arith)
above_combined none (some s) seq h = (λ e. (tt, ground arith), λ (a, b). ground arith)
above_combined (some l) none seq h = (λ e. (ground arith, tt), λ (a, b). ground arith)
above_combined (some l) (some s) seq h = (λ e. (ground arith, ground arith), λ (a, b). ground arith)

-- After a reconnect a segment is sent exactly when its number lies beyond what this client
-- recorded as acknowledged and beyond what the server reports for its channel, each side
-- counting only where it has a watermark: a channel with none is sent from 0. The one exception
-- is the largest u32, which the saturating step does not pass.
pub should_send-plan :
    (local_acked : ChannelMap) (server_acked : List (Text × ℕ)) (ch : Channel) (seq : ℕ)
    → seq + 1 < u32_mod
    → (should_send (plan local_acked server_acked) ch seq ≡ true)
      ↔ (Beyond (local_acked ch) seq × Beyond (lookup (channel_key ch) server_acked) seq)
unfolding should_send plan
should_send-plan local_acked server_acked ch seq h = above_combined _ _ seq h

-- The keys of the two channels in the server's map differ.
pub channel_key-injective : (a b : Channel) → channel_key a ≡ channel_key b → a ≡ b
unfolding channel_key
channel_key-injective far far e = refl
channel_key-injective far near e = ground arith
channel_key-injective near far e = ground arith
channel_key-injective near near e = refl
