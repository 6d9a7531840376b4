-- ===== src/Examples/Machine.antt =====
-- The machine's configuration on concrete values.
use magick_sentinel.Prelude.{◌≡◌, refl, false, none, some, [], ◌∷◌, text}
use magick_sentinel.Config.{LocalConfig, token_endpoint}

abbrev local : LocalConfig
local = record {
  api_base_url = text "https://api.example.com//";
  tenant_hint = some (text "bpo-1");
  oidc = record {
    authorize_endpoint = text "https://idp.example.com/auth ";
    token_endpoint = none;
    client_id = text "client";
    identity_platform_tenant = some (text " ");
    scopes = text "openid" ∷ text "email" ∷ [];
  };
  telemetry = record { enabled = false; otlp_endpoint = none };
}

token_endpoint_test : token_endpoint local ≡ text "https://api.example.com/v1/oauth/token"
unfolding token_endpoint
token_endpoint_test = refl
