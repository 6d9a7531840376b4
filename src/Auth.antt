-- ===== src/Auth.antt =====
-- The user's identity: client/sentinel-agent/src/auth/mod.rs.
-- The identity provider's token endpoint is a parameter, with the browser flow's callback. The
-- token store is the refresh token that it holds; `Disk` says which of its operations succeed.
use magick_sentinel.Prelude.{
  ℕ, ◌+◌, ◌-◌, ◌*◌, ◌<◌, ◌≤◌, ◌≡◌, refl, Bool, true, false, Option, none, some, List, [], ◌∷◌, ◌++◌,
  ◌⊎◌, inl, inr, append_assoc, Bool-cases, if◌then◌else◌, Text, arith, saturating_add_u64,
  saturating_mul_u64, u64_mod, min,
}

pub record TokenSet : Type 0 where
  pub id_token : Text
  pub refresh_token : Option Text
  pub expires_in_s : ℕ
  pub uid : Text

pub record Credentials : Type 0 where
  pub uid : Text
  pub id_token : Text
  pub expires_at_ms : ℕ
  pub refresh_at_ms : ℕ

abbrev pub refresh_at : ℕ
refresh_at = 3_000_000

abbrev pub min_refresh_margin : ℕ
min_refresh_margin = 60_000

unfoldable pub refresh_at_ms : ℕ → ℕ → ℕ
refresh_at_ms issued_ms expires_in_s =
    saturating_add_u64 issued_ms
      (min refresh_at (saturating_mul_u64 expires_in_s 1_000 - min_refresh_margin))

pub data AuthState : Type 0 where
  signed_out : AuthState
  signed_in : Credentials → AuthState

abbrev pub id_token : AuthState → Option Text
id_token signed_out = none
id_token (signed_in c) = some c.id_token

abbrev pub is_signed_in : AuthState → Bool
is_signed_in signed_out = false
is_signed_in (signed_in c) = true

pub data SignOutStep : Type 0 where
  stop_capture flush_spool clear_tokens end_server_session : SignOutStep

pub record AuthService : Type 0 where
  pub store : Option Text
  pub state : AuthState
  pub last_signout : List SignOutStep

pub record Disk : Type 0 where
  pub loads : Bool
  pub saves : Bool
  pub clears : Bool

pub data AuthError : Type 0 where
  token not_signed_in store callback : AuthError

pub data AuthResult {ℓ} (A : Type ℓ) : Type ℓ where
  ok : A → AuthResult A
  err : AuthError → AuthResult A

abbrev pub new : AuthService
new = record { store = none; state = signed_out; last_signout = [] }

abbrev pub credentials : TokenSet → ℕ → Credentials
credentials tokens now_ms = record {
  uid = tokens.uid;
  id_token = tokens.id_token;
  expires_at_ms = saturating_add_u64 now_ms (saturating_mul_u64 tokens.expires_in_s 1_000);
  refresh_at_ms = refresh_at_ms now_ms tokens.expires_in_s;
}

-- The part of `adopt` once the token that came, if any, is saved.
abbrev pub publish : TokenSet → ℕ → AuthService → AuthService × AuthResult Credentials
publish tokens now_ms svc =
    (record svc { state = signed_in (credentials tokens now_ms) }, ok (credentials tokens now_ms))

abbrev pub adopt_token :
    Disk → Option Text → TokenSet → ℕ → AuthService → AuthService × AuthResult Credentials
adopt_token disk none tokens now_ms svc = publish tokens now_ms svc
adopt_token disk (some rt) tokens now_ms svc =
    if disk.saves then publish tokens now_ms (record svc { store = some rt }) else (svc, err store)

unfoldable pub adopt : Disk → TokenSet → ℕ → AuthService → AuthService × AuthResult Credentials
unfolding refresh_at_ms
adopt disk tokens now_ms svc = adopt_token disk tokens.refresh_token tokens now_ms svc

-- The part of `sign_in_interactive` after the callback: its validated code, or none, and the
-- exchange of the code.
unfoldable pub sign_in_with :
    Disk
    → (Text → Option TokenSet)
    → Option Text
    → ℕ
    → AuthService
    → AuthService × AuthResult Credentials
unfolding adopt
sign_in_with disk exchange none now_ms svc = (svc, err callback)
sign_in_with disk exchange (some code) now_ms svc = elim (exchange code) [
  | none ↦ (svc, err token)
  | some tokens ↦ adopt disk tokens now_ms svc
]

abbrev pub some_result :
    AuthService × AuthResult Credentials → AuthService × AuthResult (Option Credentials)
some_result (svc, ok c) = (svc, ok (some c))
some_result (svc, err e) = (svc, err e)

abbrev pub restore_from :
    Disk
    → (Text → Option TokenSet)
    → Option Text
    → ℕ
    → AuthService
    → AuthService × AuthResult (Option Credentials)
restore_from disk refresh none now_ms svc = (svc, ok none)
restore_from disk refresh (some rt) now_ms svc = elim (refresh rt) [
  | none ↦ (svc, ok none)
  | some tokens ↦ some_result (adopt disk tokens now_ms svc)
]

unfoldable pub restore :
    Disk
    → (Text → Option TokenSet)
    → ℕ
    → AuthService
    → AuthService × AuthResult (Option Credentials)
unfolding adopt
restore disk refresh now_ms svc =
    if disk.loads then restore_from disk refresh svc.store now_ms svc else (svc, err store)

abbrev pub refresh_with :
    Disk
    → (Text → Option TokenSet)
    → Option Text
    → ℕ
    → AuthService
    → AuthService × AuthResult Credentials
refresh_with disk refresh none now_ms svc = (svc, err not_signed_in)
refresh_with disk refresh (some rt) now_ms svc = elim (refresh rt) [
  | none ↦ (svc, err token)
  | some tokens ↦ adopt disk tokens now_ms svc
]

unfoldable pub refresh_now :
    Disk → (Text → Option TokenSet) → ℕ → AuthService → AuthService × AuthResult Credentials
unfolding adopt
refresh_now disk refresh now_ms svc =
    if disk.loads then refresh_with disk refresh svc.store now_ms svc else (svc, err store)

-- `clear` of the token store: it holds no token afterwards, unless it fails.
abbrev pub clear_store : Disk → AuthService → AuthService × Bool
clear_store disk svc = if disk.clears then (record svc { store = none }, true) else (svc, false)

-- The part of `sign_out` after the flush, with the steps taken so far.
abbrev pub clear_tokens_after :
    List SignOutStep → ℕ → AuthService × Bool → AuthService × AuthResult ℕ
clear_tokens_after steps n (svc, true) = (
  record svc {
    state = signed_out;
    last_signout = (steps ++ (clear_tokens ∷ [])) ++ (end_server_session ∷ []);
  },
  ok n,
)
clear_tokens_after steps n (svc, false) = (svc, err store)

abbrev pub remaining : Option ℕ → ℕ
remaining none = u64_mod - 1
remaining (some n) = n

-- `stop` and `flush` act on a state of the caller's; the flush finds the service, its store and its
-- credentials, as they are when it runs, and returns the number of segments left, or fails.
unfoldable pub sign_out {ℓ} :
    {S : Type ℓ}
    → Disk
    → (S → S)
    → (AuthService → S → S × Option ℕ)
    → AuthService
    → S
    → AuthService × S × AuthResult ℕ
sign_out disk stop flush svc s =
    let stopped = stop s in
    let steps : List SignOutStep = [] ++ (stop_capture ∷ []) in
    let (flushed, left) = flush svc stopped in
    let (svc', r) =
      clear_tokens_after (steps ++ (flush_spool ∷ [])) (remaining left) (clear_store disk svc) in
    (svc', flushed, r)

-- For a token that lives a minute or more and expires before the clock's end, a refresh is due from
-- the moment of issue on, at most fifty minutes later, and at least a minute before the expiry.
pub refresh_at_ms-bounds :
    (issued_ms expires_in_s : ℕ)
    → 60 ≤ expires_in_s
    → issued_ms + expires_in_s * 1_000 < u64_mod
    → let due = refresh_at_ms issued_ms expires_in_s in
      (issued_ms ≤ due)
      × (due ≤ issued_ms + refresh_at)
      × (due + min_refresh_margin ≤ issued_ms + expires_in_s * 1_000)
unfolding refresh_at_ms
refresh_at_ms-bounds issued_ms expires_in_s long fits = ground (arith, long, fits)

-- What the service does by itself: it restores a session, and it refreshes one.
pub data Background : Type 0 where
  restoring refreshing : Disk → (Text → Option TokenSet) → ℕ → Background

unfoldable pub background : Background → AuthService → AuthService
unfolding restore refresh_now
background (restoring disk refresh now_ms) svc = (restore disk refresh now_ms svc).0
background (refreshing disk refresh now_ms) svc = (refresh_now disk refresh now_ms svc).0

abbrev pub run_background : List Background → AuthService → AuthService
run_background [] svc = svc
run_background (b ∷ bs) svc = run_background bs (background b svc)

empty_stays : (b : Background) (svc : AuthService) → svc.store ≡ none → background b svc ≡ svc
unfolding background restore refresh_now
empty_stays (restoring disk refresh now_ms) svc e = rw e (ground arith)
empty_stays (refreshing disk refresh now_ms) svc e = rw e (ground arith)

empty_stays_on :
    (bs : List Background) (svc : AuthService) → svc.store ≡ none → run_background bs svc ≡ svc
empty_stays_on [] svc e = refl
empty_stays_on (b ∷ bs) svc e = rw (empty_stays b svc e) (empty_stays_on bs svc e)

-- What the flush finds of the service.
abbrev pub Seen : Type 0
Seen = Option Text × AuthState

-- A sign-out always stops capture and then flushes, once each, and the flush finds the stored token
-- and the credentials as they were before. If the token cannot be cleared, the sign-out fails and
-- the service is as it was. Else it returns what the flush has left, no token is stored, the four
-- steps are recorded in this order, and no restoring or refreshing afterwards, however many and with
-- whatever answers, signs the user in again.
pub sign_out_lem :
    (left : Seen → Option ℕ) (disk : Disk) (svc : AuthService) (calls : List (Option Seen))
    (bs : List Background)
    → let stop : List (Option Seen) → List (Option Seen) = λ done. done ++ (none ∷ []) in
      let flush : AuthService → List (Option Seen) → List (Option Seen) × Option ℕ =
        λ v done. (done ++ (some (v.store, v.state) ∷ []), left (v.store, v.state)) in
      let (svc', calls', r) = sign_out disk stop flush svc calls in
      (calls' ≡ calls ++ (none ∷ some (svc.store, svc.state) ∷ []))
      × ((disk.clears ≡ false) × (svc' ≡ svc) × (r ≡ err store)
          ⊎ ((disk.clears ≡ true)
              × (r ≡ ok (remaining (left (svc.store, svc.state))))
              × (svc'.store ≡ none)
              × ((run_background bs svc').state ≡ signed_out)
              × ((run_background bs svc').last_signout
                  ≡ stop_capture ∷ flush_spool ∷ clear_tokens ∷ end_server_session ∷ [])))
unfolding sign_out
sign_out_lem left disk svc calls bs =
    let steps = stop_capture ∷ flush_spool ∷ clear_tokens ∷ end_server_session ∷ [] in
    let out : AuthService = record { store = none; state = signed_out; last_signout = steps } in
    let order = append_assoc calls (none ∷ []) (some (svc.store, svc.state) ∷ []) in
    elim (Bool-cases disk.clears) [
      | inl e ↦ (
        order,
        rw e (
            inr (
              refl,
              refl,
              refl,
              rw (empty_stays_on bs out refl) refl,
              rw (empty_stays_on bs out refl) refl,
            )),
      )
      | inr e ↦ (order, rw e (inl (refl, refl, refl)))
    ]
