-- ===== src/Enrolment/Effect.antt =====
-- Which request an enrolment sends, and what the whole of it does: `enroll` of
-- client/sentinel-service/src/enroll.rs.
use magick_sentinel.Prelude.{
  ◌≡◌, ◌==◌, refl, Bool, true, false, ◌⊎◌, inl, inr, Option, none, some, [], ◌∷◌, ◌++◌, ◌∙◌, ◌≢◌,
  Text, text, text_eq, text_eq_iff, Bool-cases,
}
use magick_sentinel.Whitespace.{trim, is_empty}
use magick_sentinel.DeviceKey as DeviceKey
use magick_sentinel.DeviceKey.{KeyAnswer}
use magick_sentinel.Csr.{build_csr_pem}
use magick_sentinel.Enrolment.{
  MachineFacts, EnrollResponse, no_token, unsupported_tier, key_error, Result, ok, err, Enrolled,
  Machine, Surroundings, persist, enroll_url, request_for, enroll, from_key, Action, continue_with,
  ◌>>=◌, post, send, supported_tier, raise_if, HttpReply, body, undecodable, status_code, other,
}
use magick_sentinel.Enrolment.Exchange.{finish, Ended, persist-Persisted, Persisted-Ended}

some_injective : {t u : Text} → some t ≡ some u → t ≡ u
some_injective e = cc e

module _ (s : Surroundings) (api_base token : Text) (facts : MachineFacts) where
  -- Why an enrolment sends nothing.
  abbrev pub Refused : Result Enrolled → Type 0
  Refused (err no_token) = is_empty (trim token) ≡ true
  Refused (err (unsupported_tier t)) =
      (facts.capture_tier ≡ t) × (t ≢ some (text "A")) × (t ≢ some (text "B"))
  Refused (err (key_error k)) = build_csr_pem s.base64 s.key facts.machine_guid ≡ DeviceKey.failed k
  Refused _ = ⊥

  -- The one request of an enrolment, with what the answer to it leads to.
  abbrev pub SentOne : Machine → Result Enrolled × Machine → Type 0
  SentOne m (r, m') =
      (tier : Text) × (csr : Text) × (is_empty (trim token) ≡ false)
      × (facts.capture_tier ≡ some tier)
      × ((tier ≡ text "A") ⊎ (tier ≡ text "B"))
      × (build_csr_pem s.base64 s.key facts.machine_guid ≡ DeviceKey.done csr)
      × (m'.posts
          ≡ m.posts ++ ((enroll_url api_base, request_for (trim token) facts csr tier) ∷ []))
      × Ended s facts
          (post (s.exchange (enroll_url api_base) (request_for (trim token) facts csr tier))) m.dir
          r m'.dir

  abbrev pub EnrollEffect : Machine → Result Enrolled × Machine → Type 0
  EnrollEffect m (r, m') = (Refused r × (m' ≡ m)) ⊎ SentOne m (r, m')

  abbrev received : EnrollResponse → Action Enrolled
  received response m = continue_with (persist s facts response m) (finish s facts response)

  received-Ended :
      (response : EnrollResponse) (m : Machine)
      → let (r, m') = received response m in
        Ended s facts (ok response) m.dir r m'.dir × (m'.posts ≡ m.posts)
  received-Ended response m =
      let (done_with, posts) = persist-Persisted s facts response m in
      let (r, m') = persist s facts response m in
      let (ended, more) =
        Persisted-Ended s facts response (ok response) refl m.dir r m' done_with in
      (ended, more ∙ posts)

  answered-Ended :
      (reply : HttpReply) (m : Machine)
      → let (r, m') = continue_with (post reply, m) received in
        Ended s facts (post reply) m.dir r m'.dir × (m'.posts ≡ m.posts)
  unfolding post
  answered-Ended (body response) m = received-Ended response m
  answered-Ended (undecodable e) m = ((refl, refl), refl)
  answered-Ended (other e) m = ((refl, refl), refl)
  answered-Ended (status_code n) m = elim (Bool-cases (n == 401)) [
    | inl e ↦ rw e ((refl, refl), refl)
    | inr e ↦ elim (Bool-cases (n == 503)) [
      | inl k ↦ rw (e, k) ((refl, refl), refl)
      | inr k ↦ rw (e, k) ((refl, refl), refl)
    ]
  ]

  abbrev from_csr : Text → Text → Action Enrolled
  from_csr tier csr = do
    response ← send s.exchange (enroll_url api_base) (request_for (trim token) facts csr tier)
    received response

  keyed-Effect :
      (tier : Text) (answer : KeyAnswer Text) (m : Machine)
      → is_empty (trim token) ≡ false
      → facts.capture_tier ≡ some tier
      → (tier ≡ text "A") ⊎ (tier ≡ text "B")
      → build_csr_pem s.base64 s.key facts.machine_guid ≡ answer
      → EnrollEffect m (continue_with (from_key answer m) (from_csr tier))
  keyed-Effect tier (DeviceKey.failed k) m some_token stated known built = inl (built, refl)
  keyed-Effect tier (DeviceKey.done csr) m some_token stated known built =
      let request = request_for (trim token) facts csr tier in
      let sent = record m { posts = m.posts ++ ((enroll_url api_base, request) ∷ []) } in
      let (ended, posts) = answered-Ended (s.exchange (enroll_url api_base) request) sent in
      inr (tier, csr, some_token, stated, known, built, posts, ended)

  abbrev from_tier : Text → Action Enrolled
  from_tier tier = from_key (build_csr_pem s.base64 s.key facts.machine_guid) >>= from_csr tier

  tier-Effect :
      (tier : Option Text) (m : Machine)
      → is_empty (trim token) ≡ false
      → facts.capture_tier ≡ tier
      → EnrollEffect m (continue_with (supported_tier tier m) from_tier)
  tier-Effect none m some_token stated = inl ((stated, λ e. cc, λ e. cc), refl)
  tier-Effect (some t) m some_token stated = elim (Bool-cases (text_eq t (text "A"))) [
    | inl e ↦ rw e (
        keyed-Effect t (build_csr_pem s.base64 s.key facts.machine_guid) m some_token stated
          (inl ((text_eq_iff t (text "A")).0 e)) refl)
    | inr not_a ↦ elim (Bool-cases (text_eq t (text "B"))) [
      | inl e ↦
          rw (not_a, e)
            (keyed-Effect t (build_csr_pem s.base64 s.key facts.machine_guid) m some_token stated
              (inr ((text_eq_iff t (text "B")).0 e)) refl)
      | inr not_b ↦
          rw (not_a, not_b)
            (inl ((stated, differs t (text "A") not_a, differs t (text "B") not_b), refl))
    ]
  ]
    where
      differs : (t u : Text) → text_eq t u ≡ false → some t ≢ some u
      differs t u h e = cc (h, (text_eq_iff t u).1 (some_injective e))

  token-Effect :
      (empty : Bool) (m : Machine)
      → is_empty (trim token) ≡ empty
      → EnrollEffect m (
          continue_with
            (raise_if empty no_token m)
            (λ _. supported_tier facts.capture_tier >>= from_tier))
  token-Effect true m e = inl (e, refl)
  token-Effect false m e = tier-Effect facts.capture_tier m e refl

  -- An enrolment without a token, without a tier that can capture or without a key that signs does
  -- nothing at all. Any other sends exactly one request, with the trimmed token, the tier and the
  -- signed request of this machine. If it succeeds, that request was answered with a response, and
  -- the directory holds the certificate, the chain and the identity of this response and the wrapped
  -- new key. If a write fails, a first part of these has been written, in this order; if the spool
  -- key fails, all but it. After any other error, that of the answer or a certificate of the
  -- response that is none, the directory is as it was.
  pub enroll-Effect : (m : Machine) → EnrollEffect m (enroll s api_base token facts m)
  unfolding enroll
  enroll-Effect m = token-Effect (is_empty (trim token)) m refl
