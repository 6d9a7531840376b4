-- ===== src/Enrolment/Flaws.antt =====
-- What becomes of the spool key when an enrolment half fails and when it is renewed:
-- client/sentinel-service/src/enroll.rs and spoolkey.rs.
use magick_sentinel.Prelude.{
  ℕ, ◌+◌, ◌<◌, ◌≡◌, ◌≢◌, refl, sym, ◌∙◌, true, false, inl, inr, Option, none, some, Text, Bytes,
  arith, length, ◌==◌, leb,
}
use magick_sentinel.Update.{hex_lower}
use magick_sentinel.SpoolKey as SpoolKey
use magick_sentinel.SpoolKey.{KeyWrapper, SpoolKeyError, key_bytes, resolve}
use magick_sentinel.DeviceKey.{KeyKind}
use magick_sentinel.Enrolment.{
  DeviceIdentity, MachineFacts, spool_key_error, ok, err, Enrolled, Machine, Surroundings,
  renew_when_remaining_ms, needs_renewal, renewal_decision, issued, enroll,
}
use magick_sentinel.Enrolment.Effect.{enroll-Effect}
use magick_sentinel.Enrolment.Decision.{ensure_enrolled-Decided}
use magick_sentinel.Enrolment.Service.{
  already_enrolled, enrolled, stored_identity, load_identity, expiry_of, on_decision,
  ensure_enrolled,
}

resolve-wrapped :
    (w : KeyWrapper) (material blob : Bytes)
    → w.unwrap_blob blob ≡ SpoolKey.ok material
    → length material ≡ key_bytes
    → resolve w (some blob) ≡ SpoolKey.ok (hex_lower material)
unfolding resolve
resolve-wrapped w material blob back size =
    let whole : (length material == key_bytes) ≡ true = ground (arith, size) in
    rw (back, whole) refl

enrolled_key :
    (s : Surroundings) (api_base token : Text) (facts : MachineFacts) (m m' : Machine)
    (e : Enrolled)
    → enroll s api_base token facts m ≡ (ok e, m')
    → ((blob : Bytes)
        → s.key_wrapper.wrap s.material ≡ SpoolKey.ok blob
        → s.key_wrapper.unwrap_blob blob ≡ SpoolKey.ok s.material)
    → length s.material ≡ key_bytes
    → resolve s.key_wrapper m'.dir.spool_key ≡ SpoolKey.ok (hex_lower s.material)
enrolled_key s api_base token facts m m' e ran back size =
    elim (rw ran at (enroll-Effect s api_base token facts m)) [
      | inl (why, same) ↦ absurd why
      | inr
            (
              tier,
              csr,
              t,
              c,
              a,
              b,
              posts,
              (response, blob, got, looks, wrapped, named, keyed, same),
            ) ↦
          rw same (resolve-wrapped s.key_wrapper s.material blob (back blob wrapped) size)
    ]

-- A renewal that succeeds replaces the spool key, unless the new random material gives the old one:
-- the key that is resolved afterwards is the new one and not the one that was resolved before, if
-- the wrapper turns back what it has made of the new material, which has the length of a key.
pub renewal_replaces_key :
    (s : Surroundings) (api_base : Text) (facts : MachineFacts) (now_ms : ℕ) (token : Option Text)
    (m m' : Machine) (d n old : Text) (kind : KeyKind)
    → ensure_enrolled s api_base facts now_ms token m ≡ (some (enrolled d n true kind), m')
    → ((blob : Bytes)
        → s.key_wrapper.wrap s.material ≡ SpoolKey.ok blob
        → s.key_wrapper.unwrap_blob blob ≡ SpoolKey.ok s.material)
    → length s.material ≡ key_bytes
    → resolve s.key_wrapper m.dir.spool_key ≡ SpoolKey.ok old
    → hex_lower s.material ≢ old
    → (resolve s.key_wrapper m'.dir.spool_key ≡ SpoolKey.ok (hex_lower s.material))
      × (resolve s.key_wrapper m'.dir.spool_key ≢ resolve s.key_wrapper m.dir.spool_key)
renewal_replaces_key s api_base facts now_ms token m m' d n old kind ran back size before other =
    let (t, e, given, exchanged, p, q, k, wanted) =
      rw ran at (ensure_enrolled-Decided s api_base facts now_ms m token) in
    let after = enrolled_key s api_base t facts m m' e exchanged back size in
    (after, λ same. other (same_key (sym after ∙ same ∙ before)))
  where
    same_key : {k l : Text} → SpoolKey.ok k ≡ SpoolKey.ok l → k ≡ l
    same_key e = cc e

current_kept :
    (s : Surroundings) (api_base : Text) (facts : MachineFacts) (m : Machine) (id : DeviceIdentity)
    (exp now_ms : ℕ) (token : Option Text)
    → stored_identity s m.dir ≡ some id
    → expiry_of s (stored_identity s m.dir) ≡ some exp
    → now_ms + renew_when_remaining_ms < exp
    → ensure_enrolled s api_base facts now_ms token m
      ≡ (some (already_enrolled id.device_id id.not_after), m)
unfolding ensure_enrolled renewal_decision needs_renewal on_decision
current_kept s api_base facts m id exp now_ms token stored expiry far =
    let late : leb exp (now_ms + renew_when_remaining_ms) ≡ false = ground (arith, far) in
    rw expiry (rw stored (rw late refl))

-- When an enrolment fails because of the spool key, the identity has been written. While its
-- certificate has more than thirty days left, a later run whatever its token only reports that the
-- machine is enrolled, and leaves it without a spool key if it had none.
pub key_failure_strands :
    (s s' : Surroundings) (api_base api_base' token : Text) (facts facts' : MachineFacts)
    (m m' : Machine) (k : SpoolKeyError) (now_ms exp : ℕ) (token' : Option Text)
    → enroll s api_base token facts m ≡ (err (spool_key_error k), m')
    → m.dir.spool_key ≡ none
    → s'.reads_identity ≡ true
    → ((id : DeviceIdentity) → s'.from_json (s.to_json id) ≡ some id)
    → expiry_of s' (stored_identity s' m'.dir) ≡ some exp
    → now_ms + renew_when_remaining_ms < exp
    → (id : DeviceIdentity) × (ensure_enrolled s' api_base' facts' now_ms token' m'
        ≡ (some (already_enrolled id.device_id id.not_after), m'))
      × (resolve s'.key_wrapper m'.dir.spool_key ≡ SpoolKey.err SpoolKey.not_found)
unfolding resolve load_identity
key_failure_strands s s' api_base api_base' token facts facts' m m' k now_ms exp token' ran bare
      reads law expiry far =
    elim (rw ran at (enroll-Effect s api_base token facts m)) [
      | inl (why, same) ↦ absurd why
      | inr (tier, csr, t, c, a, b, posts, (response, got, looks, same)) ↦
          let id = issued facts response in
          let stored : stored_identity s' m'.dir ≡ some id = rw (same, reads) (rw (law id) refl) in
          let current =
            current_kept s' api_base' facts' m' id exp now_ms token' stored expiry far in
          (id, current, rw (same, bare) refl)
    ]
