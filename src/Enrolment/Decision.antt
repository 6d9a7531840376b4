-- ===== src/Enrolment/Decision.antt =====
-- The table of `ensure_enrolled` of client/sentinel-service/src/enroll.rs.
use magick_sentinel.Prelude.{
  ℕ, ◌+◌, ◌≤◌, ◌<◌, ◌≡◌, refl, Bool, true, false, inl, inr, Option, none, some, Text, arith,
  Bool-cases, is_some,
}
use magick_sentinel.Enrolment.{
  DeviceIdentity, MachineFacts, Result, ok, err, Enrolled, Surroundings, Machine,
  renew_when_remaining_ms, needs_renewal, renewal_decision, enroll,
}
use magick_sentinel.Enrolment.Service.{
  usable, EnsureOutcome, already_enrolled, enrolled, not_enrolled_no_token,
  renewal_blocked_no_token, failed, outcome_of, on_decision, stored_identity, expiry_of,
  ensure_enrolled,
}

-- Thirty days or less are left, or nobody knows.
abbrev pub IsDue : ℕ → Option ℕ → Type 0
IsDue now_ms none = Unit {0}
IsDue now_ms (some exp) = exp ≤ now_ms + renew_when_remaining_ms

module _ (s : Surroundings) (api_base : Text) (facts : MachineFacts) (now_ms : ℕ)
    (m : Machine) where
  -- What holds of the stored identity and its expiry when it is to be replaced.
  abbrev pub IsWanted : Option DeviceIdentity → Option ℕ → Bool → Type 0
  IsWanted none expiry renewed = renewed ≡ false
  IsWanted (some id) expiry renewed = (renewed ≡ true) × IsDue now_ms expiry

  abbrev pub Decided :
      Option DeviceIdentity → Option ℕ → Option Text → Option EnsureOutcome × Machine → Type 0
  Decided stored expiry token (none, m') = ⊥
  Decided stored expiry token (some (already_enrolled d n), m') =
      (m' ≡ m)
      × (id : DeviceIdentity) × (stored ≡ some id)
      × (id.device_id ≡ d)
      × (id.not_after ≡ n)
      × (exp : ℕ) × (expiry ≡ some exp)
      × (now_ms + renew_when_remaining_ms < exp)
  Decided stored expiry token (some not_enrolled_no_token, m') =
      (m' ≡ m) × (stored ≡ none) × (token ≡ none)
  Decided stored expiry token (some (renewal_blocked_no_token n), m') =
      (m' ≡ m)
      × (id : DeviceIdentity) × (stored ≡ some id)
      × (id.not_after ≡ n)
      × IsDue now_ms expiry
      × (token ≡ none)
  Decided stored expiry token (some (enrolled d n renewed kind), m') =
      (t : Text) × (e : Enrolled) × (token ≡ some t)
      × (enroll s api_base t facts m ≡ (ok e, m'))
      × (e.identity.device_id ≡ d)
      × (e.identity.not_after ≡ n)
      × (e.key_kind ≡ kind)
      × IsWanted stored expiry renewed
  Decided stored expiry token (some (failed x), m') =
      (t : Text) × (token ≡ some t)
      × (enroll s api_base t facts m ≡ (err x, m'))
      × (renewed : Bool) × IsWanted stored expiry renewed

  outcome_of-Decided :
      (stored : Option DeviceIdentity) (expiry : Option ℕ) (t : Text) (renewed : Bool)
      (r : Result Enrolled) (m' : Machine)
      → enroll s api_base t facts m ≡ (r, m')
      → IsWanted stored expiry renewed
      → Decided stored expiry (some t) (outcome_of renewed (r, m'))
  outcome_of-Decided stored expiry t renewed (ok e) m' ran wanted =
      (t, e, refl, ran, refl, refl, refl, wanted)
  outcome_of-Decided stored expiry t renewed (err x) m' ran wanted = (t, refl, ran, renewed, wanted)

  due : (expiry : Option ℕ) → needs_renewal expiry now_ms ≡ true → IsDue now_ms expiry
  unfolding needs_renewal
  due none e = tt
  due (some exp) e = ground (arith, e)

  not_due :
      (expiry : Option ℕ)
      → needs_renewal expiry now_ms ≡ false
      → (exp : ℕ) × (expiry ≡ some exp) × (now_ms + renew_when_remaining_ms < exp)
  unfolding needs_renewal
  not_due none e = cc
  not_due (some exp) e = (exp, refl, ground (arith, e))

  on_decision-Decided :
      (stored : Option DeviceIdentity) (expiry : Option ℕ) (token : Option Text)
      → Decided stored expiry token (
          on_decision s api_base facts stored token
            (renewal_decision stored expiry now_ms (is_some token))
            m)
  unfolding renewal_decision on_decision
  on_decision-Decided none expiry none = (refl, refl, refl)
  on_decision-Decided none expiry (some t) =
      let (r, m') = enroll s api_base t facts m in
      outcome_of-Decided none expiry t false r m' refl refl
  on_decision-Decided (some id) expiry none = elim (Bool-cases (needs_renewal expiry now_ms)) [
    | inl e ↦ rw e (refl, id, refl, refl, due expiry e, refl)
    | inr e ↦
        let (exp, known, far) = not_due expiry e in
        rw e (refl, id, refl, refl, refl, exp, known, far)
  ]
  on_decision-Decided (some id) expiry (some t) = elim (Bool-cases (needs_renewal expiry now_ms)) [
    | inl e ↦
        let (r, m') = enroll s api_base t facts m in
        rw e (outcome_of-Decided (some id) expiry t true r m' refl (refl, due expiry e))
    | inr e ↦
        let (exp, known, far) = not_due expiry e in
        rw e (refl, id, refl, refl, refl, exp, known, far)
  ]

  -- No `expect` of `ensure_enrolled` fails, and its outcome tells which row of the table applied. A
  -- certificate with more than thirty days left is kept, whatever the token; without a token that is
  -- not blank nothing happens, which is reported by whether there is an identity; else the machine
  -- is enrolled with the trimmed token, as a renewal exactly when it has an identity, and what
  -- `enroll` answers is reported.
  pub ensure_enrolled-Decided :
      (token : Option Text)
      → let stored = stored_identity s m.dir in
        Decided stored
          (expiry_of s stored)
          (usable token)
          (ensure_enrolled s api_base facts now_ms token m)
  unfolding ensure_enrolled
  ensure_enrolled-Decided token =
      let stored = stored_identity s m.dir in
      on_decision-Decided stored (expiry_of s stored) (usable token)
