-- ===== src/Pipeline/Spooling.antt =====
-- What draining the pipes gives the spool: `drain_encoders` of client/sentinel-agent/src/pipeline.rs.
use magick_sentinel.Prelude.{ℕ, ◌+◌, ◌≡◌, Option, none, some, List, [], ◌∷◌, ◌++◌, length, Text}
use magick_sentinel.Protocol.{far, near}
use magick_sentinel.Encoder.{Segment}
use magick_sentinel.Spool.Schema.{SegmentRow}
use magick_sentinel.Uplink.{Uplink, push_segment}
use magick_sentinel.Pipeline.{ChannelPipe, to_row}
use magick_sentinel.Pipeline.Step.{Machine}

abbrev pub rows : Text → ℕ → List Segment → List SegmentRow
rows id clock [] = []
rows id clock (seg ∷ segs) = to_row id seg clock ∷ rows id clock segs

abbrev pub ready_of : Option ChannelPipe → List Segment
ready_of none = []
ready_of (some c) = c.ready

-- Rows pushed one after the other.
unfoldable pub push_rows : List SegmentRow → Uplink → Uplink
push_rows [] u = u
push_rows (row ∷ rest) u = push_rows rest (push_segment u row).0

-- What pushing the segments of a channel does.
abbrev Pushed : Text → List Segment → ℕ → Machine → Machine → ℕ → Type 0
Pushed id segs count m m1 n =
    (m1.uplink ≡ push_rows (rows id m.pipe.clock_ms segs) m.uplink)
    × (n ≡ count + length segs)
    × (m1.pipe.far ≡ m.pipe.far)
    × (m1.pipe.near ≡ m.pipe.near)
    × (m1.pipe.current_call ≡ m.pipe.current_call)
    × (m1.pipe.clock_ms ≡ m.pipe.clock_ms)

abbrev FarDrained : Text → Option ChannelPipe → ℕ → Machine → Machine → ℕ → Type 0
FarDrained id c count m m1 n =
    (m1.uplink ≡ push_rows (rows id m.pipe.clock_ms (ready_of c)) m.uplink)
    × (n ≡ count + length (ready_of c))
    × (ready_of m1.pipe.far ≡ [])
    × (m1.pipe.near ≡ m.pipe.near)
    × (m1.pipe.current_call ≡ m.pipe.current_call)
    × (m1.pipe.clock_ms ≡ m.pipe.clock_ms)

abbrev NearDrained : Text → Option ChannelPipe → ℕ → Machine → Machine → ℕ → Type 0
NearDrained id c count m m1 n =
    (m1.uplink ≡ push_rows (rows id m.pipe.clock_ms (ready_of c)) m.uplink)
    × (n ≡ count + length (ready_of c))
    × (m1.pipe.far ≡ m.pipe.far)
    × (ready_of m1.pipe.near ≡ [])
    × (m1.pipe.current_call ≡ m.pipe.current_call)

abbrev pub Drained : Text → ℕ → Machine → Machine → ℕ → Type 0
Drained id n m m' k =
    let (xs, ys) : List Segment × List Segment = (ready_of m.pipe.far, ready_of m.pipe.near) in
    (m'.uplink ≡ push_rows (rows id m.pipe.clock_ms xs ++ rows id m.pipe.clock_ms ys) m.uplink)
    × (k ≡ n + length xs + length ys)
    × (ready_of m'.pipe.far ≡ [])
    × (ready_of m'.pipe.near ≡ [])
    × (m'.pipe.current_call ≡ m.pipe.current_call)
