-- ===== src/Uplink/Waiting.antt =====
-- Waiting for the server's answer before media is sent again.
use magick_sentinel.Prelude.{
  false, [], ◌∷◌, ◌++◌, ◌⊎◌, ℕ, ◌+◌, ◌<◌, ◌≡◌, refl, Bool, true, some, Text, Bytes, text_eq_refl,
  arith, u64_mod,
}
use magick_sentinel.Spool.Upkeep.{acked_through}
use magick_sentinel.Spool.CallTable.{is_sealed, call_start_json}
use magick_sentinel.Protocol.{Channel}
use magick_sentinel.Uplink.{Uplink, Frame, Wire, text_sent, resume_timeout_ms}
use magick_sentinel.Uplink.Send.{
  Pass, continue, transmit, is_replay, mark_started, send_recorded, send_start, hold_or_send,
  send_call,
}

-- A call that waits is left alone.
hold_waits :
    (bytes_of : Text → Bytes) (now deadline : ℕ) (id : Text) (s : Pass)
    → s.up.awaiting_resume id ≡ some deadline
    → now < deadline
    → hold_or_send bytes_of now id s ≡ (s, true)
unfolding hold_or_send
hold_waits bytes_of now deadline id s e h = ground arith

mark_started-awaiting :
    (now : ℕ) (id : Text) (s : Pass)
    → is_replay s.up id ≡ true
    → now + resume_timeout_ms < u64_mod
    → (mark_started now id s).up.awaiting_resume id ≡ some (now + resume_timeout_ms)
unfolding mark_started
mark_started-awaiting now id s r h = ground (arith, text_eq_refl id)

started_waits :
    (bytes_of : Text → Bytes) (now : ℕ) (id : Text) (s : Pass) (m : Bool)
    → is_replay s.up id ≡ true
    → now + resume_timeout_ms < u64_mod
    → continue (continue (s, m) (λ t. (mark_started now id t, true))) (hold_or_send bytes_of now id)
      ≡ continue (s, m) (λ t. (mark_started now id t, true))
started_waits bytes_of now id s true r h =
    hold_waits bytes_of now (now + resume_timeout_ms) id (mark_started now id s)
      (mark_started-awaiting now id s r h) (omega arith)
started_waits bytes_of now id s false r h = refl

transmit_replay :
    (id : Text) (json : Text) (s : Pass)
    → is_replay (transmit (text_sent json) s).0.up id ≡ is_replay s.up id
unfolding transmit
transmit_replay id json s = ground arith

recorded_waits :
    (bytes_of : Text → Bytes) (now : ℕ) (id json : Text) (s : Pass)
    → is_replay s.up id ≡ true
    → now + resume_timeout_ms < u64_mod
    → let r = send_recorded (some json) (mark_started now id) s in
      continue r (hold_or_send bytes_of now id) ≡ r
unfolding send_recorded
recorded_waits bytes_of now id json s r h =
    let (t, m) = transmit (text_sent json) s in
    started_waits bytes_of now id t m (rw (transmit_replay id json s) r) h

-- A call that is replayed sends no media before the server has answered: on a new connection its
-- turn is its start frame and nothing else, and while the answer is outstanding and the waiting
-- time not over its turn does nothing at all.
pub media_waits :
    (bytes_of : Text → Bytes) (now deadline : ℕ) (id json : Text) (s : Pass)
    → is_sealed s.up.spool id ≡ false
    → now + resume_timeout_ms < u64_mod
    → (s.up.started_this_connection id ≡ false
        → call_start_json s.up.spool id ≡ some json
        → is_replay s.up id ≡ true
        → send_call bytes_of now id s ≡ send_start now id s)
      × (s.up.started_this_connection id ≡ true
          → s.up.awaiting_resume id ≡ some deadline
          → now < deadline
          → send_call bytes_of now id s ≡ (s, true))
unfolding send_call send_start
media_waits bytes_of now deadline id json s sealed h = (
  λ new recorded replay.
      rw (sealed, new, recorded) (recorded_waits bytes_of now id json s replay h),
  λ started waits early. rw (sealed, started) (hold_waits bytes_of now deadline id s waits early),
)

-- The spool has an acknowledgement for the call, or media has been sent for it.
abbrev pub IsReplayed : Uplink → Text → Type 0
IsReplayed u id =
    (ch : Channel) × (hi : ℕ) × ((acked_through u.spool id ch ≡ some hi)
      ⊎ (u.sent_through id ch ≡ some hi))

abbrev after_frame : Frame → Wire → ℕ → Wire
after_frame frame w n = record { sent = w.sent ++ (frame ∷ []); sends_left = n }
