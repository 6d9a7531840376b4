-- ===== src/Config/Endpoints.antt =====
-- Which addresses the configuration leads to: client/sentinel-core/src/config.rs, and
-- `authorize_url` of client/sentinel-agent/src/auth/pkce.rs.
use magick_sentinel.Prelude.{
  ℕ, ◌≡◌, ◌≤◌, refl, true, false, Option, none, some, [], ◌∷◌, ◌++◌, if◌then◌else◌, Text, text, All,
  arith, ◌↔◌,
}
use magick_sentinel.Whitespace.{trim, trim_end, trim_start-visible, trim_end-visible}
use magick_sentinel.Config.{
  LocalConfig, AuthAttempt, starts_with, oidc_problem, from_local, authorize_url,
  otlp_logs_url_with_env, set_to, logs_below, api_base, otlp_relay_path,
}

-- Visible ASCII characters.
abbrev AllVisible : Text → Type 0
AllVisible s = All (λ c. (33 ≤ c) × (c ≤ 127)) s

trim_end-starts_with :
    (p s : Text) → AllVisible p → starts_with p s ≡ true → starts_with p (trim_end s) ≡ true
unfolding starts_with
trim_end-starts_with [] s h k = refl
trim_end-starts_with (c ∷ p) [] h k = cc
trim_end-starts_with (c ∷ p) (d ∷ s) ((low, high), h) k =
    let same : c ≡ d = ground (arith, k) in
    let rest : starts_with p s ≡ true = ground (arith, k) in
    let visible = trim_end-visible d s (omega (arith, low, same)) (omega (arith, high, same)) in
    rw visible (ground (arith, same, trim_end-starts_with p s h rest))

trim-starts_with :
    (c : ℕ) (p s : Text)
    → AllVisible (c ∷ p)
    → starts_with (c ∷ p) s ≡ true
    → starts_with (c ∷ p) (trim s) ≡ true
unfolding trim
trim-starts_with c p [] h k = unfold starts_with in cc
trim-starts_with c p (d ∷ s) ((low, high), h) k =
    let same : c ≡ d = unfold starts_with in ground (arith, k) in
    let visible = trim_start-visible d s (omega (arith, low, same)) (omega (arith, high, same)) in
    rw visible (trim_end-starts_with (c ∷ p) (d ∷ s) ((low, high), h) k)

append-starts_with : (p s t : Text) → starts_with p s ≡ true → starts_with p (s ++ t) ≡ true
unfolding starts_with
append-starts_with [] s t h = refl
append-starts_with (c ∷ p) [] t h = cc
append-starts_with (c ∷ p) (d ∷ s) t h = ground (arith, h, append-starts_with p s t)

-- Where the configuration is found to have no problem, the URL that is opened in the browser, with
-- the challenge and the state in it, starts with `https://`, whatever the attempt is.
pub authorize_url-starts_with :
    (local : LocalConfig) (attempt : AuthAttempt)
    → oidc_problem local ≡ none
    → starts_with (text "https://") (authorize_url (from_local local) attempt) ≡ true
unfolding authorize_url from_local oidc_problem
authorize_url-starts_with local attempt h =
    let secure : starts_with (text "https://") local.oidc.authorize_endpoint ≡ true =
      ground (arith, h) in
    append-starts_with (text "https://") (trim local.oidc.authorize_endpoint) _
      (trim-starts_with 104 (text "ttps://") local.oidc.authorize_endpoint (omega arith) secure)

-- Log records are sent nowhere exactly when telemetry is off and neither the environment nor the
-- configuration names an endpoint; a name of white space is none.
pub otlp_logs_url_iff :
    (local : LocalConfig) (env_endpoint : Option Text)
    → (otlp_logs_url_with_env local env_endpoint ≡ none) ↔ (
        (local.telemetry.enabled ≡ false)
        × (set_to env_endpoint ≡ none)
        × (set_to local.telemetry.otlp_endpoint ≡ none))
unfolding otlp_logs_url_with_env
otlp_logs_url_iff local env_endpoint =
    below (set_to env_endpoint) (set_to local.telemetry.otlp_endpoint)
  where
    below :
        (e t : Option Text)
        → (logs_below e (
              logs_below t (
                if local.telemetry.enabled then some (api_base local ++ otlp_relay_path) else none))
            ≡ none)
          ↔ ((local.telemetry.enabled ≡ false) × (e ≡ none) × (t ≡ none))
    below e t = ground arith
