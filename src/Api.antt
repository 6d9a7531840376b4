-- ===== src/Api.antt =====
-- The REST client of the agent, as far as it is the repository's: client/sentinel-agent/src/api.rs.
-- The HTTP library's answer and the reading of a token's subject are parameters.
pub mod Forms
use magick_sentinel.Prelude.{
  ℕ, Option, none, some, List, [], ◌∷◌, ◌++◌, ◌==◌, if◌then◌else◌, or_else, Text, text,
}
use magick_sentinel.Config.{OidcConfig, join}
use magick_sentinel.Pkce.{percent_encode}
use magick_sentinel.Auth.{TokenSet}

pub data ApiError : Type 0 where
  transport : Text → ApiError
  unauthorized forbidden : ApiError
  status : ℕ → ApiError
  decode : Text → ApiError

-- An error of the HTTP library.
pub data HttpError : Type 0 where
  status_code : ℕ → HttpError
  other : Text → HttpError

unfoldable pub map_error : HttpError → ApiError
map_error (status_code s) =
    if s == 401 then unauthorized else if s == 403 then forbidden else status s
map_error (other e) = transport e

unfoldable pub encode_pairs : List (Text × Text) → List Text
unfolding percent_encode
encode_pairs [] = []
encode_pairs ((k, v) ∷ pairs) =
    (percent_encode k ++ (text "=" ++ percent_encode v)) ∷ encode_pairs pairs

unfoldable pub encode_form : List (Text × Text) → Text
unfolding encode_pairs join
encode_form pairs = join (text "&") (encode_pairs pairs)

pub record TokenResponse : Type 0 where
  pub id_token : Option Text
  pub access_token : Option Text
  pub refresh_token : Option Text
  pub expires_in : Option ℕ

pub data TokenError : Type 0 where
  no_id_token no_subject : TokenError

pub data TokenAnswer : Type 0 where
  ok : TokenSet → TokenAnswer
  err : TokenError → TokenAnswer

abbrev pub or_access : Option Text → Option Text → Option Text
or_access (some t) access = some t
or_access none access = access

abbrev pub with_subject : TokenResponse → Text → Option Text → TokenAnswer
with_subject r id_token none = err no_subject
with_subject r id_token (some uid) = ok (record {
  id_token = id_token;
  refresh_token = r.refresh_token;
  expires_in_s = or_else r.expires_in 3600;
  uid = uid;
})

abbrev pub with_token : (Text → Option Text) → TokenResponse → Option Text → TokenAnswer
with_token subject_of r none = err no_id_token
with_token subject_of r (some t) = with_subject r t (subject_of t)

unfoldable pub into_token_set : (Text → Option Text) → TokenResponse → TokenAnswer
into_token_set subject_of r = with_token subject_of r (or_access r.id_token r.access_token)

unfoldable pub exchange_form : OidcConfig → Text → Text → Text → List (Text × Text)
exchange_form cfg code verifier redirect_uri =
    (text "grant_type", text "authorization_code")
    ∷ (text "code", code)
    ∷ (text "redirect_uri", redirect_uri)
    ∷ (text "client_id", cfg.client_id)
    ∷ (text "code_verifier", verifier)
    ∷ []

unfoldable pub refresh_form : OidcConfig → Text → List (Text × Text)
refresh_form cfg refresh_token =
    (text "grant_type", text "refresh_token")
    ∷ (text "refresh_token", refresh_token)
    ∷ (text "client_id", cfg.client_id)
    ∷ []
