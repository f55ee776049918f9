-- ===== src/UnleashClient/Requests.antt =====
-- server/src/http/unleash_client.rs: the requests that the client sends. The HTTP library's reading of
-- header names and values is a parameter; a panic is `none`.

use unleash_edge.Prelude.{String, Option, none, some, List, [], ◌∷◌, string_eq}
use unleash_edge.Dict
use unleash_edge.Dict.{Dict, extend}
use unleash_edge.Panics.{◌>>=◌}
use unleash_edge.Types.{EntityTag}
use unleash_edge.UnleashClient.{ClientFeaturesRequest}
use unleash_edge.Urls.{UrlCrate, UnleashUrls, from_base_url}

-- `HeaderName::from_str`, which gives the name in lower case, and the parsing of a value
pub record HeaderCrate : Type 0 where
  pub name : String → Option String
  pub value : String → Option String

-- A table of headers by name; `insert` replaces.
abbrev pub HeaderMap : Type 0
HeaderMap = Dict String String

pub data Method : Type 0 where
  get_method post_method : Method

pub record Request (Body : Type 0) : Type 0 where
  pub method : Method
  pub url : String
  pub headers : HeaderMap
  pub if_none_match : Option EntityTag
  pub body : Option Body

module _ (c : UrlCrate) (h : HeaderCrate) where
  -- without the HTTP client that sends the requests
  pub record UnleashClient : Type 0 where
    pub urls : UnleashUrls c
    pub custom_headers : Dict String String
    pub token_header : String

  unfoldable pub from_url : c.Url → String → Option UnleashClient
  from_url server_url token_header = do
    urls ← from_base_url c server_url
    some (record { urls = urls; custom_headers = []; token_header = token_header })

  unfoldable pub with_custom_client_headers : List (String × String) → UnleashClient → UnleashClient
  with_custom_client_headers custom_headers self = record self {
    custom_headers = extend [] custom_headers;
  }

  -- `header_map.insert` of a name and a value that are parsed
  unfoldable pub insert_header : String → String → HeaderMap → Option HeaderMap
  insert_header name value header_map = do
    key ← h.name name
    parsed ← h.value value
    some (Dict.insert key parsed header_map)

  -- the loop over the custom headers
  unfoldable pub insert_headers : List (String × String) → HeaderMap → Option HeaderMap
  insert_headers [] header_map = some header_map
  insert_headers ((name, value) ∷ rest) header_map =
      insert_header name value header_map >>= insert_headers rest

  unfoldable pub header_map : Option String → UnleashClient → Option HeaderMap
  header_map api_key self = do
    token_header ← h.name self.token_header
    first ← elim api_key [
      | none ↦ some []
      | some key ↦ h.value key >>= (λ v. some (Dict.insert token_header v []))
    ]
    insert_headers self.custom_headers first

  module _ {Body : Type 0} where
    unfoldable pub client_features_req :
        ClientFeaturesRequest → UnleashClient → Option (Request Body)
    client_features_req req self = do
      headers ← header_map (some req.api_key) self
      some (record {
        method = Method.get_method;
        url = c.to_text self.urls.client_features_url;
        headers = headers;
        if_none_match = req.etag;
        body = none;
      })

    unfoldable pub client_features_delta_req :
        ClientFeaturesRequest → UnleashClient → Option (Request Body)
    client_features_delta_req req self = do
      headers ← header_map (some req.api_key) self
      some (record {
        method = Method.get_method;
        url = c.to_text self.urls.client_features_delta_url;
        headers = headers;
        if_none_match = req.etag;
        body = none;
      })

    -- a POST of a body as JSON
    unfoldable pub post : c.Url → Option String → Body → UnleashClient → Option (Request Body)
    post url api_key body self = do
      headers ← header_map api_key self
      some (record {
        method = Method.post_method;
        url = c.to_text url;
        headers = headers;
        if_none_match = none;
        body = some body;
      })

    unfoldable pub register_request : String → Body → UnleashClient → Option (Request Body)
    register_request api_key application self =
        post self.urls.client_register_app_url (some api_key) application self

    unfoldable pub batch_metrics_request : Body → UnleashClient → Option (Request Body)
    batch_metrics_request request self = post self.urls.edge_metrics_url none request self

    unfoldable pub bulk_metrics_request : Body → String → UnleashClient → Option (Request Body)
    bulk_metrics_request request token self =
        post self.urls.client_bulk_metrics_url (some token) request self

    unfoldable pub validate_request : Body → UnleashClient → Option (Request Body)
    validate_request request self = post self.urls.edge_validate_url none request self
