-- ===== src/Spool/CallLaws.antt =====
-- The calls: their control frames, sealing, and clean-up.
use magick_sentinel.Prelude.{
  ℕ, ◌+◌, ◌≡◌, refl, ◌∙◌, Bool, true, false, not, Option, none, some, is_some, or_else, List, [],
  ◌∷◌, if◌then◌else◌, length, keep, All, All-keep, Text, text_eq, text_eq_iff, arith, Bool-cases,
  inl, inr,
}
use magick_sentinel.Events.{count_of}
use magick_sentinel.Spool.Schema.{Spool, SegmentRow, CallRow, err, sealed}
use magick_sentinel.Spool.CallTable.{
  find_call, update_call, begin_call, end_call, call_start_json, call_end_json, is_sealed,
}
use magick_sentinel.Spool.Segments.{push}
use magick_sentinel.Spool.Upkeep.{seal, is_finished, vacuum_finished_calls}
use magick_sentinel.Spool.Eviction.{push_accounts}

abbrev pub map_option {ℓ} : {A : Type ℓ} → (A → A) → Option A → Option A
map_option f none = none
map_option f (some x) = some (f x)

text_eq_self : (s : Text) → text_eq s s ≡ true
text_eq_self s = (text_eq_iff s s).1 refl

find_call_id :
    (id : Text) (cs : List CallRow) (c : CallRow) → find_call id cs ≡ some c → c.call_id ≡ id
unfolding find_call
find_call_id id [] c e = cc
find_call_id id (d ∷ cs) c e = ground (arith, text_eq_iff d.call_id id, find_call_id id cs c)

find_call-update_call :
    (id id' : Text) (f : CallRow → CallRow) (cs : List CallRow)
    → ((c : CallRow) → (f c).call_id ≡ c.call_id)
    → find_call id' (update_call id f cs)
      ≡ (if text_eq id id' then map_option f (find_call id' cs) else find_call id' cs)
unfolding find_call update_call
find_call-update_call id id' f [] h = ground arith
find_call-update_call id id' f (c ∷ cs) h = ground (
  arith,
  h c,
  text_eq_iff id id',
  text_eq_iff c.call_id id,
  text_eq_iff c.call_id id',
  find_call-update_call id id' f cs h,
)

find_call-cons :
    (id : Text) (c : CallRow) (cs : List CallRow)
    → find_call id (c ∷ cs) ≡ (if text_eq c.call_id id then some c else find_call id cs)
unfolding find_call
find_call-cons id c cs = refl

-- The start frame of a call is recorded once and kept verbatim: beginning a call again, by a
-- reconnect, leaves the first frame, and no frame of another call is touched.
pub begin_call_verbatim :
    (s : Spool) (id id' json : Text) (now : ℕ)
    → (call_start_json (begin_call s id json now) id ≡ some (or_else (call_start_json s id) json))
      × (text_eq id id' ≡ false
          → call_start_json (begin_call s id json now) id' ≡ call_start_json s id')
      × ((begin_call s id json now).segments ≡ s.segments)
unfolding call_start_json begin_call
begin_call_verbatim s id id' json now =
    (ground (arith, text_eq_self id), λ h. ground arith, ground arith)

-- Recording the end of a call stores its frame if the call was begun, keeps the start frames of
-- all calls and their seals, and deletes no segment.
pub end_call_keeps :
    (s : Spool) (id id' json : Text)
    → (call_end_json (end_call s id json) id
        ≡ (if is_some (call_start_json s id) then some json else none))
      × (call_start_json (end_call s id json) id' ≡ call_start_json s id')
      × (is_sealed (end_call s id json) id' ≡ is_sealed s id')
      × ((end_call s id json).segments ≡ s.segments)
      × ((end_call s id json).acks ≡ s.acks)
unfolding call_end_json call_start_json is_sealed end_call
end_call_keeps s id id' json =
    let f = λ (c : CallRow). record c { end_json = some json } in
    (
      ground (arith, find_call-update_call id id f s.calls (λ c. refl), text_eq_self id),
      ground (arith, find_call-update_call id id' f s.calls (λ c. refl)),
      ground (arith, find_call-update_call id id' f s.calls (λ c. refl)),
      refl,
      refl,
    )

length_split {ℓ} :
    {A : Type ℓ} (p : A → Bool) (xs : List A)
    → length (keep p xs) + length (keep (λ x. not (p x)) xs) ≡ length xs
length_split p [] = omega arith
length_split p (x ∷ xs) = ground (arith, length_split p xs)

keep_passes {ℓ} : {A : Type ℓ} (p : A → Bool) (xs : List A) → All (λ x. p x ≡ true) (keep p xs)
keep_passes p [] = tt
keep_passes p (x ∷ xs) = elim (Bool-cases (p x)) [
  | inl e ↦ rw e (e, keep_passes p xs)
  | inr e ↦ rw e (keep_passes p xs)
]

-- Sealing a rejected call deletes its segments and no others, reports exactly how many went,
-- seals the call if it is known and no other call, and keeps all control frames. From then on
-- segments of the call are refused.
pub seal_effect :
    (s : Spool) (id id' reason : Text) (now : ℕ) (seg : SegmentRow)
    → let (s', event) = seal s id reason now in
      (s'.segments ≡ keep (λ r. not (text_eq r.call_id id)) s.segments)
      × (length s'.segments + count_of (some event) ≡ length s.segments)
      × (is_sealed s' id ≡ is_some (call_start_json s id))
      × (text_eq id id' ≡ false → is_sealed s' id' ≡ is_sealed s id')
      × (call_start_json s' id' ≡ call_start_json s id')
      × (call_end_json s' id' ≡ call_end_json s id')
      × (is_some (call_start_json s id) ≡ true
          → seg.call_id ≡ id
          → push s' seg ≡ (s', err (sealed seg.call_id)))
unfolding seal is_sealed call_start_json call_end_json
seal_effect s id id' reason now seg =
    let f = λ (c : CallRow). record c { is_sealed = true } in
    let sealed_now : is_sealed (seal s id reason now).0 id ≡ is_some (call_start_json s id) =
      ground (arith, find_call-update_call id id f s.calls (λ c. refl), text_eq_self id) in
    (
      refl,
      omega (arith, length_split (λ (r : SegmentRow). text_eq r.call_id id) s.segments),
      sealed_now,
      λ h. ground (arith, find_call-update_call id id' f s.calls (λ c. refl)),
      ground (arith, find_call-update_call id id' f s.calls (λ c. refl)),
      ground (arith, find_call-update_call id id' f s.calls (λ c. refl)),
      λ known same. (push_accounts (seal s id reason now).0 seg).0 (rw same (sealed_now ∙ known)),
    )

-- Each call has one row.
abbrev pub IsKeyed : List CallRow → Type 0
IsKeyed [] = Unit {0}
IsKeyed (c ∷ cs) = All (λ d. text_eq d.call_id c.call_id ≡ false) cs × IsKeyed cs

not_found :
    (id : Text) (cs : List CallRow)
    → All (λ d. text_eq d.call_id id ≡ false) cs
    → find_call id cs ≡ none
unfolding find_call
not_found id [] h = refl
not_found id (c ∷ cs) (h, all) = ground (arith, not_found id cs all)

abbrev pub filter_option : (CallRow → Bool) → Option CallRow → Option CallRow
filter_option p none = none
filter_option p (some c) = if p c then some c else none

find_call-keep :
    (id : Text) (p : CallRow → Bool) (cs : List CallRow)
    → IsKeyed cs
    → find_call id (keep p cs) ≡ filter_option p (find_call id cs)
unfolding find_call
find_call-keep id p [] h = refl
find_call-keep id p (c ∷ cs) (a, h) = elim (Bool-cases (text_eq c.call_id id)) [
  | inl e ↦
      let same : c.call_id ≡ id = (text_eq_iff c.call_id id).0 e in
      let gone : find_call id (keep p cs) ≡ none =
        not_found id (keep p cs)
          (All-keep (λ (d : CallRow). text_eq d.call_id id ≡ false) p cs (rw same at a)) in
      ground (arith, find_call-cons id c (keep p cs))
  | inr e ↦ ground (arith, find_call-keep id p cs h)
]

-- Clean-up removes the row of a call exactly when an end frame is recorded and no segment of it
-- is left, whether or not that frame has been sent; so the frame can no longer be replayed, and a
-- seal on the call is forgotten. Every other call keeps its frames and its seal, and no segment
-- is lost.
pub vacuum_removes :
    (s : Spool) (id : Text) (c : CallRow)
    → IsKeyed s.calls
    → find_call id s.calls ≡ some c
    → let s' = (vacuum_finished_calls s).0 in
      let finished = is_finished s.segments c in
      (call_end_json s' id ≡ (if finished then none else call_end_json s id))
      × (call_start_json s' id ≡ (if finished then none else call_start_json s id))
      × (is_sealed s' id ≡ (if finished then false else is_sealed s id))
      × (s'.segments ≡ s.segments)
unfolding vacuum_finished_calls call_end_json call_start_json is_sealed
vacuum_removes s id c k e =
    let found = find_call-keep id (λ d. not (is_finished s.segments d)) s.calls k in
    (ground (arith, found), ground (arith, found), ground (arith, found), refl)
