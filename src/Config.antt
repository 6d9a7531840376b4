-- ===== src/Config.antt =====
-- The local configuration: `LocalConfig` of client/sentinel-core/src/config.rs, and what
-- client/sentinel-agent/src/auth/pkce.rs makes of it: `OidcConfig` and `authorize_url`.
pub mod Endpoints
use magick_sentinel.Prelude.{
  ℕ, ◌+◌, ◌≡◌, ◌≤◌, refl, sym, ◌∙◌, ap, Bool, true, false, not, ◌&&◌, ◌||◌, Option, none, some,
  List, [], ◌∷◌, ◌++◌, if◌then◌else◌, ltb, leb, ◌==◌, Text, text, text_eq, arith, Bool-cases, inl,
  inr, ◌↔◌, any, append_assoc,
}
use magick_sentinel.Whitespace.{trim, trim_start, trim_end, trim_start-visible, trim_end-visible}
use magick_sentinel.Pkce.{percent_encode}

pub record OidcSettings : Type 0 where
  pub authorize_endpoint : Text
  pub token_endpoint : Option Text
  pub client_id : Text
  pub identity_platform_tenant : Option Text
  pub scopes : List Text

pub record TelemetrySettings : Type 0 where
  pub enabled : Bool
  pub otlp_endpoint : Option Text

-- The fields that the addresses are made of.
pub record LocalConfig : Type 0 where
  pub api_base_url : Text
  pub tenant_hint : Option Text
  pub oidc : OidcSettings
  pub telemetry : TelemetrySettings

abbrev pub otlp_relay_path : Text
otlp_relay_path = text "/v1/telemetry/otlp/v1/logs"

abbrev pub is_blank : Text → Bool
is_blank [] = true
is_blank (c ∷ cs) = false

-- `trim_end_matches('/')`.
unfoldable pub trim_slashes : Text → Text
trim_slashes [] = []
trim_slashes (c ∷ cs) =
    let rest = trim_slashes cs in if (c == 47) && is_blank rest then [] else c ∷ rest

unfoldable pub api_base : LocalConfig → Text
unfolding trim_slashes
api_base local = trim_slashes local.api_base_url

-- A setting with what it says, or none where it is missing or white space.
abbrev pub set_to : Option Text → Option Text
set_to none = none
set_to (some s) = if is_blank (trim s) then none else some (trim s)

abbrev pub or_text : Option Text → Text → Text
or_text none t = t
or_text (some s) t = s

unfoldable pub token_endpoint : LocalConfig → Text
unfolding api_base trim
token_endpoint local =
    or_text (set_to local.oidc.token_endpoint) (api_base local ++ text "/v1/oauth/token")

abbrev pub logs_below : Option Text → Option Text → Option Text
logs_below none next = next
logs_below (some base) next = some (trim_slashes base ++ text "/v1/logs")

unfoldable pub otlp_logs_url_with_env : LocalConfig → Option Text → Option Text
unfolding api_base trim trim_slashes
otlp_logs_url_with_env local env_endpoint = logs_below (set_to env_endpoint) (
    logs_below (set_to local.telemetry.otlp_endpoint)
      (if local.telemetry.enabled then some (api_base local ++ otlp_relay_path) else none))

unfoldable pub otlp_goes_via_gateway : LocalConfig → Text → Bool
unfolding api_base text_eq
otlp_goes_via_gateway local url = text_eq url (api_base local ++ otlp_relay_path)

unfoldable pub starts_with : Text → Text → Bool
starts_with [] s = true
starts_with (p ∷ ps) [] = false
starts_with (p ∷ ps) (c ∷ cs) = (p == c) && starts_with ps cs

unfoldable pub oidc_problem : LocalConfig → Option Text
unfolding trim starts_with
oidc_problem local =
    if is_blank (trim local.oidc.authorize_endpoint)
    then some (text "no OIDC authorize endpoint is configured for this tenant")
    else if is_blank (trim local.oidc.client_id)
    then some (text "no OAuth client id is configured for this tenant")
    else if not (starts_with (text "https://") local.oidc.authorize_endpoint)
    then some (text "the OIDC authorize endpoint must be https")
    else none

pub record OidcConfig : Type 0 where
  pub authorize_endpoint : Text
  pub token_endpoint : Text
  pub client_id : Text
  pub tenant_id : Option Text
  pub scopes : List Text

-- `filter(|t| !t.trim().is_empty())`.
abbrev pub not_blank : Option Text → Option Text
not_blank none = none
not_blank (some s) = if is_blank (trim s) then none else some s

abbrev pub or_option : Option Text → Option Text → Option Text
or_option none t = t
or_option (some s) t = some s

unfoldable pub from_local : LocalConfig → OidcConfig
unfolding trim token_endpoint
from_local local = record {
  authorize_endpoint = trim local.oidc.authorize_endpoint;
  token_endpoint = token_endpoint local;
  client_id = trim local.oidc.client_id;
  tenant_id =
      or_option (not_blank local.oidc.identity_platform_tenant) (not_blank local.tenant_hint);
  scopes = local.oidc.scopes;
}

pub record AuthAttempt : Type 0 where
  pub challenge : Text
  pub state : Text
  pub nonce : Text
  pub redirect_uri : Text

-- `join`.
unfoldable pub join : Text → List Text → Text
join sep [] = []
join sep (t ∷ []) = t
join sep (t ∷ u ∷ ts) = t ++ (sep ++ join sep (u ∷ ts))

abbrev pub tenant_param : Option Text → List (Text × Text)
tenant_param none = []
tenant_param (some t) = (text "tenantId", t) ∷ []

unfoldable pub params : OidcConfig → AuthAttempt → List (Text × Text)
unfolding join
params cfg attempt =
    (text "response_type", text "code")
    ∷ (text "client_id", cfg.client_id)
    ∷ (text "redirect_uri", attempt.redirect_uri)
    ∷ (text "scope", join (text " ") cfg.scopes)
    ∷ (text "state", attempt.state)
    ∷ (text "nonce", attempt.nonce)
    ∷ (text "code_challenge", attempt.challenge)
    ∷ (text "code_challenge_method", text "S256")
    ∷ tenant_param cfg.tenant_id

unfoldable pub write_params : List (Text × Text) → List Text
unfolding percent_encode
write_params [] = []
write_params ((k, v) ∷ ps) = (percent_encode k ++ (text "=" ++ percent_encode v)) ∷ write_params ps

unfoldable pub authorize_url : OidcConfig → AuthAttempt → Text
unfolding params write_params join
authorize_url cfg attempt =
    let sep = if any (λ c. c == 63) cfg.authorize_endpoint then text "&" else text "?" in
    cfg.authorize_endpoint ++ (sep ++ join (text "&") (write_params (params cfg attempt)))
