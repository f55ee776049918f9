-- ===== src/Examples/Upstream.antt =====
-- The theorems on upstream's answers at concrete inputs.
use unleash_edge.Prelude.{
  ◌≡◌, ◌≢◌, refl, sym, ap, ◌∙◌, String, true, false, Option, none, some, [], ◌∷◌, ◌++◌, Memᴰ, inl,
  inr, string_eq, ◌==◌, eq_iff, arith,
}
use unleash_edge.Types.{EdgeToken, TokenValidationStatus}
use unleash_edge.UnleashClient.Connecting.{ClientMetaInformation}
use unleash_edge.Refresher.Opened.{StreamRequest, own_headers, stream_request, stream_request_token}
use mathlib.Core.Bool.{true≢false}
use Prim.Native.String.{◌++◌ as append_text}
use unleash_edge.Dict
use unleash_edge.Error.{ok}
use unleash_edge.Urls.{UrlCrate, UnleashUrls, from_base_url}
use unleash_edge.UnleashClient.Requests.{
  HeaderCrate, Method, Request, UnleashClient, insert_header, insert_headers, header_map,
  client_features_req,
}
use unleash_edge.UnleashClient.Sent.{client_features_req_sends}
use unleash_edge.UnleashClient.{Outcome, ClientFeaturesRequest, get_features, validate_tokens}
use unleash_edge.UnleashClient.Answers.{get_features_panics_iff}

abbrev request : ClientFeaturesRequest
request = record { api_key = "a:development.2222222"; etag = none }

abbrev not_modified : Outcome String
not_modified = Outcome.response 304 none (inr "no body")

abbrev forbidden : Outcome String
forbidden = Outcome.response 403 none (inr "no body")

get_features_panics_iff_example : get_features some request not_modified ≡ none
get_features_panics_iff_example =
    (get_features_panics_iff some request not_modified).1
      (304, none, inr "no body", refl, inl (refl, refl))

answered : validate_tokens (Outcome.response 200 none (inl [])) ≡ ok []
unfolding validate_tokens
answered = refl

-- URLs as texts
abbrev text_urls : UrlCrate
text_urls = record {
  Url = String;
  parse = some;
  push = λ s u. some (append_text u (append_text "/" s));
  pop_if_empty = some;
  to_text = λ u. u;
}

abbrev any_header : HeaderCrate
any_header = record { name = some; value = some }

abbrev addresses : UnleashUrls text_urls
addresses = record {
  base_url = "http://u";
  api_url = "http://u/api";
  client_api_url = "http://u/api/client";
  client_features_url = "http://u/api/client/features";
  client_features_delta_url = "http://u/api/client/delta";
  client_register_app_url = "http://u/api/client/register";
  client_metrics_url = "http://u/api/client/metrics";
  client_bulk_metrics_url = "http://u/api/client/metrics/bulk";
  edge_api_url = "http://u/edge";
  edge_validate_url = "http://u/edge/validate";
  edge_metrics_url = "http://u/edge/metrics";
  new_api_token_url = "http://u/api/admin/api-tokens";
  client_features_stream_url = "http://u/api/client/streaming";
}

abbrev client : UnleashClient text_urls any_header
client = record {
  urls = addresses;
  custom_headers = ("x-team", "edge") ∷ [];
  token_header = "authorization";
}

built_addresses : from_base_url text_urls "http://u" ≡ some addresses
unfolding from_base_url
built_addresses = refl

abbrev sent : Request String
sent = record {
  method = Method.get_method;
  url = "http://u/api/client/features";
  headers = ("authorization", "a:development.2222222") ∷ ("x-team", "edge") ∷ [];
  if_none_match = none;
  body = none;
}

sent_by_client : client_features_req text_urls any_header request client ≡ some sent
unfolding client_features_req header_map insert_headers insert_header Dict.insert Dict.upsert
sent_by_client = refl

abbrev header_name : Option String → String
header_name none = ""
header_name (some name) = name

not_team : ◌≢◌ {A = String} "x-team" "authorization"
not_team h = true≢false (ap (λ k. k == "x-team") h)

other_header :
    (name v : String)
    → Memᴰ {A = String × String} (name, v) (("x-team", "edge") ∷ [])
    → ◌≢◌ {A = Option String} (some name) (some "authorization")
other_header name v (Memᴰ.head e) h =
    not_team (sym (ap (λ (p : String × String). p.0) e) ∙ ap header_name h)
other_header name v (Memᴰ.tail m) h = elim m [ ]

client_features_req_sends_example :
    (Dict.get "authorization" sent.headers ≡ some "a:development.2222222")
    × (sent.method ≡ Method.get_method)
    × (sent.url ≡ "http://u/api/client/features")
    × (sent.if_none_match ≡ none)
client_features_req_sends_example =
    client_features_req_sends text_urls any_header String client request "authorization"
      "a:development.2222222" sent refl refl other_header sent_by_client

abbrev streaming_client : UnleashClient text_urls any_header
streaming_client = record client { token_header = "x-unleash" }

abbrev token : EdgeToken
token = record {
  token = "a:development.2222222";
  token_type = none;
  environment = some "development";
  projects = "a" ∷ [];
  status = TokenValidationStatus.validated;
}

abbrev meta : ClientMetaInformation
meta = record { app_name = "edge"; instance_id = "edge-1" }

abbrev opened : StreamRequest
opened = record {
  url = "http://u/api/client/streaming";
  headers =
      ("Authorization", "a:development.2222222")
      ∷ ("UNLEASH-APPNAME", "edge")
      ∷ ("UNLEASH-INSTANCEID", "edge-1")
      ∷ ("Unleash-Client-Spec", "5.1.9")
      ∷ ("x-team", "edge")
      ∷ [];
  reconnect = record { retry_initial = true; delay = 5000; delay_max = 30000; backoff_factor = 2 };
}

opened_by_client :
    stream_request text_urls any_header
      (λ _. true)
      "5.1.9"
      meta
      (("x-team", "edge") ∷ [])
      streaming_client
      token
    ≡ some opened
unfolding stream_request insert_headers insert_header Dict.insert Dict.upsert
opened_by_client = refl

apart :
    (name a b : String) → a == b ≡ false → name ≡ a → ◌≢◌ {A = Option String} (some name) (some b)
apart name a b d e h = true≢false (sym (ground (arith, eq_iff a b, d, sym e ∙ ap header_name h)))

both_apart :
    (name v a w : String)
    → a == "Authorization" ≡ false
    → a == "x-unleash" ≡ false
    → ◌≡◌ {A = String × String} (name, v) (a, w)
    → (◌≢◌ {A = Option String} (some name) (some "Authorization"))
      × (◌≢◌ {A = Option String} (some name) (some "x-unleash"))
both_apart name v a w d f e =
    let same = ap (λ (p : String × String). p.0) e in
    (apart name a "Authorization" d same, apart name a "x-unleash" f same)

others_apart :
    (name v : String)
    → Memᴰ {A = String × String}
        (name, v)
        (own_headers text_urls any_header (λ _. true) "5.1.9" meta ++ ("x-team", "edge") ∷ [])
    → (◌≢◌ {A = Option String} (some name) (some "Authorization"))
      × (◌≢◌ {A = Option String} (some name) (some "x-unleash"))
others_apart name v (Memᴰ.head e) = both_apart name v "UNLEASH-APPNAME" "edge" refl refl e
others_apart name v (Memᴰ.tail (Memᴰ.head e)) =
    both_apart name v "UNLEASH-INSTANCEID" "edge-1" refl refl e
others_apart name v (Memᴰ.tail (Memᴰ.tail (Memᴰ.head e))) =
    both_apart name v "Unleash-Client-Spec" "5.1.9" refl refl e
others_apart name v (Memᴰ.tail (Memᴰ.tail (Memᴰ.tail (Memᴰ.head e)))) =
    both_apart name v "x-team" "edge" refl refl e
others_apart name v (Memᴰ.tail (Memᴰ.tail (Memᴰ.tail (Memᴰ.tail m)))) = elim m [ ]

names_differ : ◌≢◌ {A = String} "Authorization" "x-unleash"
names_differ h = true≢false (ap (λ k. k == "Authorization") h)

stream_request_token_example :
    (Dict.get "Authorization" opened.headers ≡ some "a:development.2222222")
    × (Dict.get "x-unleash" opened.headers ≡ none)
stream_request_token_example =
    stream_request_token text_urls any_header (λ _. true) "5.1.9" meta (("x-team", "edge") ∷ [])
      streaming_client token "Authorization" "x-unleash" "a:development.2222222" opened refl refl
      names_differ refl others_apart opened_by_client
