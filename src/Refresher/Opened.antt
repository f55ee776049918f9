-- ===== src/Refresher/Opened.antt =====
-- server/src/http/refresher/feature_refresher.rs: opening the streams, the record of a registration, and the
-- refresher that is there by default. What the event source library makes of a URL is a parameter.
use mathlib.Core.Option
use Prim.Native.String.{◌++◌ as append_text}
use unleash_edge.Prelude.{
  ◌≡◌, ◌≢◌, sym, ◌∙◌, ap, ℕ, ◌%◌, ◌^◌, String, Bool, true, false, Option, none, some, List, [], ◌∷◌,
  ◌++◌, Memᴰ, if◌then◌else◌, string_eq,
}
use unleash_edge.Dict
use unleash_edge.Dict.{Dict}
use unleash_edge.Panics.{◌>>=◌, bind-some}
use unleash_edge.Types.{EdgeToken, Millis}
use unleash_edge.Features.{UnleashTypes, Engine}
use unleash_edge.Urls.{UrlCrate}
use unleash_edge.UnleashClient.Connecting.{ClientMetaInformation}
use unleash_edge.UnleashClient.Requests.{
  HeaderCrate, HeaderMap, UnleashClient, insert_header, insert_headers,
}
use unleash_edge.UnleashClient.Sent.{
  of_some, insert_header_other, insert_headers_other, insert_header_here,
}
use unleash_edge.Metrics.Data.{MetricsTypes, ClientApplication}
use unleash_edge.Refresher.State.{Refresher}

-- `FeatureRefresher::default()`
unfoldable pub default_refresher : (u : UnleashTypes) (e : Engine u) → Refresher u e
default_refresher u e = record {
  tokens_to_refresh = [];
  features_cache = record { features = []; sent = [] };
  engine_cache = [];
  refresh_interval = 10000;
  strict = true;
  streaming = false;
  delta = false;
}

-- the fields of an application that are set besides its name, instance and environment
pub record SetDetails : Type 0 where
  pub interval : ℕ  -- u32
  pub started : Millis
  pub strategies : List String
  pub sdk_version : Option String

unfoldable pub client_application_from_token_and_name :
    (t : MetricsTypes)
    → (SetDetails → t.AppDetails)
    → String
    → Millis
    → EdgeToken
    → ℕ
    → ClientMetaInformation
    → ClientApplication t
client_application_from_token_and_name t details package_version now token refresh_interval meta =
    record {
      app_name = meta.app_name;
      instance_id = some meta.instance_id;
      environment = token.environment;
      details = details (record {
        interval = refresh_interval % 2 ^ 32;
        started = now;
        strategies = [];
        sdk_version = some (append_text "unleash-edge:" package_version);
      });
    }

-- `ReconnectOptions`, with the delays in milliseconds
pub record ReconnectOptions : Type 0 where
  pub retry_initial : Bool
  pub delay : Millis
  pub delay_max : Millis
  pub backoff_factor : ℕ

pub record StreamRequest : Type 0 where
  pub url : String
  pub headers : HeaderMap
  pub reconnect : ReconnectOptions

module _ (c : UrlCrate) (h : HeaderCrate) (for_url : String → Bool) (spec_version : String) where
  abbrev pub own_headers : ClientMetaInformation → List (String × String)
  own_headers meta =
      ("UNLEASH-APPNAME", meta.app_name)
      ∷ ("UNLEASH-INSTANCEID", meta.instance_id)
      ∷ ("Unleash-Client-Spec", spec_version)
      ∷ []

  -- `ClientBuilder::for_url`
  abbrev pub builder_url : String → Option String
  builder_url url = if for_url url then some url else none

  -- the client of one stream; `none` is an error of the builder
  unfoldable pub stream_request :
      ClientMetaInformation
      → List (String × String)
      → UnleashClient c h
      → EdgeToken
      → Option StreamRequest
  stream_request meta custom_headers self token = do
    url ← builder_url (c.to_text self.urls.client_features_stream_url)
    authorized ← insert_header c h "Authorization" token.token []
    headers ← insert_headers c h (own_headers meta ++ custom_headers) authorized
    some (record {
      url = url;
      headers = headers;
      reconnect = record {
        retry_initial = true;
        delay = 5000;
        delay_max = 30000;
        backoff_factor = 2;
      };
    })

  -- the loop over the tokens: the streams that are started, and whether the loop got to its end
  unfoldable pub open_streams :
      ClientMetaInformation
      → List (String × String)
      → UnleashClient c h
      → List EdgeToken
      → List (EdgeToken × StreamRequest) × Bool
  open_streams meta custom_headers self [] = ([], true)
  open_streams meta custom_headers self (token ∷ tokens) =
      let (rest, done) = open_streams meta custom_headers self tokens in
      elim (stream_request meta custom_headers self token) [
        | none ↦ ([], false)
        | some r ↦ ((token, r) ∷ rest, done)
      ]

  -- The request of a stream carries its token under `Authorization`, and nothing under the configured token
  -- header where that has another name, in case neither is the name of another header that is sent.
  pub stream_request_token :
      (meta : ClientMetaInformation) (custom_headers : List (String × String))
      (self : UnleashClient c h) (token : EdgeToken) (k j value : String) (r : StreamRequest)
      → h.name "Authorization" ≡ some k
      → h.name self.token_header ≡ some j
      → k ≢ j
      → h.value token.token ≡ some value
      → ((name v : String)
          → Memᴰ (name, v) (own_headers meta ++ custom_headers)
          → (h.name name ≢ some k) × (h.name name ≢ some j))
      → stream_request meta custom_headers self token ≡ some r
      → (Dict.get k r.headers ≡ some value) × (Dict.get j r.headers ≡ none)
  unfolding stream_request Dict.get
  stream_request_token meta custom_headers self token k j value r named configured differ read other
        sent =
      let sent_headers = own_headers meta ++ custom_headers in
      let (url, u, rest) =
        bind-some (builder_url (c.to_text self.urls.client_features_stream_url)) _ r sent in
      let (start, s, rest1) =
        bind-some (insert_header c h "Authorization" token.token []) _ r rest in
      let (headers, made, same) = bind-some (insert_headers c h sent_headers start) _ r rest1 in
      let kept : headers ≡ r.headers =
        ap (of_some []) (ap (Option.map (λ (x : StreamRequest). x.headers)) same) in
      (
        ap (Dict.get k) (sym kept)
            ∙ insert_headers_other c h k sent_headers start headers (λ n v o. (other n v o).0) made
            ∙ insert_header_here c h k "Authorization" token.token value [] start named read s,
        ap (Dict.get j) (sym kept)
            ∙ insert_headers_other c h j sent_headers start headers (λ n v o. (other n v o).1) made
            ∙ insert_header_other c h j "Authorization" token.token [] start
                (λ e. differ (ap (of_some "") (sym named ∙ e))) s,
      )
