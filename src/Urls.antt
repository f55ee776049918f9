-- ===== src/Urls.antt =====
-- server/src/urls.rs: the addresses of upstream's endpoints. The url crate is a parameter; a panic is `none`.
pub mod Paths
use unleash_edge.Prelude.{String, Option, none, some}
use unleash_edge.Panics.{◌>>=◌}
use unleash_edge.Error.{EdgeError, Result, ok, err}

-- What the program asks of `url::Url`. A path is changed only in a URL that can be a base.
pub record UrlCrate : Type 1 where
  pub Url : Type 0
  pub parse : String → Option Url
  -- `path_segments_mut()` followed by `push` or `pop_if_empty`
  pub push : String → Url → Option Url
  pub pop_if_empty : Url → Option Url
  pub to_text : Url → String

module _ (c : UrlCrate) where
  open c use {Url, parse, push, pop_if_empty}

  pub record UnleashUrls : Type 0 where
    pub base_url : Url
    pub api_url : Url
    pub client_api_url : Url
    pub client_features_url : Url
    pub client_features_delta_url : Url
    pub client_register_app_url : Url
    pub client_metrics_url : Url
    pub client_bulk_metrics_url : Url
    pub edge_api_url : Url
    pub edge_validate_url : Url
    pub edge_metrics_url : Url
    pub new_api_token_url : Url
    pub client_features_stream_url : Url

  unfoldable pub from_base_url : Url → Option UnleashUrls
  from_base_url base_url = do
    api_url ← push "api" base_url
    client_api_url ← push "client" api_url
    client_features_url ← push "features" client_api_url
    client_features_delta_url ← push "delta" client_api_url
    client_features_stream_url ← push "streaming" client_api_url
    client_register_app_url ← push "register" client_api_url
    client_metrics_url ← push "metrics" client_api_url
    edge_api_url ← push "edge" base_url
    edge_validate_url ← push "validate" edge_api_url
    edge_metrics_url ← push "metrics" edge_api_url
    token_api_url ← push "api" base_url
    token_admin_url ← push "admin" token_api_url
    new_api_token_url ← push "api-tokens" token_admin_url
    client_bulk_metrics_url ← push "bulk" client_metrics_url
    some (record {
      base_url = base_url;
      api_url = api_url;
      client_api_url = client_api_url;
      client_features_url = client_features_url;
      client_features_delta_url = client_features_delta_url;
      client_register_app_url = client_register_app_url;
      client_metrics_url = client_metrics_url;
      client_bulk_metrics_url = client_bulk_metrics_url;
      edge_api_url = edge_api_url;
      edge_validate_url = edge_validate_url;
      edge_metrics_url = edge_metrics_url;
      new_api_token_url = new_api_token_url;
      client_features_stream_url = client_features_stream_url;
    })

  unfoldable pub from_text : String → Option (Result UnleashUrls)
  from_text base_url = elim (parse base_url) [
    | none ↦ some (err (EdgeError.invalid_server_url base_url))
    | some base ↦ do trimmed ← pop_if_empty base; urls ← from_base_url trimmed; some (ok urls)
  ]

  -- `UnleashUrls::default()`
  unfoldable pub default_urls : Option UnleashUrls
  default_urls = elim (from_text "http://localhost:4242") [
    | some (ok urls) ↦ some urls
    | some (err _) ↦ none
    | none ↦ none
  ]
