-- ===== src/UnleashClient/Sent.antt =====
-- What a request carries.
use mathlib.Core.Option
use unleash_edge.Prelude.{
  ◌≡◌, ◌≢◌, refl, sym, ◌∙◌, ap, String, Option, none, some, List, [], ◌∷◌, Memᴰ, string_eq, arith,
  ◌==◌, eq_iff, Bool-cases, inl, inr,
}
use unleash_edge.Dict
use unleash_edge.Dict.{Dict}
use unleash_edge.Dict.Laws.{get-insert}
use unleash_edge.Panics.{◌>>=◌, bind-some}
use unleash_edge.UnleashClient.{ClientFeaturesRequest}
use unleash_edge.Urls.{UrlCrate}
use unleash_edge.UnleashClient.Requests.{
  HeaderCrate, HeaderMap, Method, Request, UnleashClient, insert_header, insert_headers, header_map,
  client_features_req,
}

abbrev pub of_some : {A : Type 0} → A → Option A → A
of_some d none = d
of_some d (some a) = a

abbrev pub found_in : String → Option HeaderMap → Option String
found_in k none = none
found_in k (some m) = Dict.get k m

module _ (c : UrlCrate) (h : HeaderCrate) where
  pub insert_header_other :
      (k name value : String) (m out : HeaderMap)
      → h.name name ≢ some k
      → insert_header c h name value m ≡ some out
      → Dict.get k out ≡ Dict.get k m
  unfolding insert_header
  insert_header_other k name value m out other done =
      let (key, named, rest) = bind-some (h.name name) _ out done in
      let (parsed, read, same) = bind-some (h.value value) _ out rest in
      elim (Bool-cases (key == k)) [
        | inl y ↦ absurd (other (named ∙ ap some ((eq_iff key k).0 y)))
        | inr n ↦ ap (found_in k) (sym same) ∙ ground (arith, get-insert k key parsed m, n)
      ]

  pub insert_header_here :
      (k name text value : String) (m out : HeaderMap)
      → h.name name ≡ some k
      → h.value text ≡ some value
      → insert_header c h name text m ≡ some out
      → Dict.get k out ≡ some value
  unfolding insert_header
  insert_header_here k name text value m out named read done =
      let (key, n, rest) = bind-some (h.name name) _ out done in
      let (parsed, p, same) = bind-some (h.value text) _ out rest in
      let as_key : some key ≡ some k = sym n ∙ named in
      let as_value : some parsed ≡ some value = sym p ∙ read in
      ap (found_in k) (sym same)
      ∙ ground (arith, get-insert k key parsed m, eq_iff key k, as_key, as_value)

  pub insert_headers_other :
      (k : String) (l : List (String × String)) (m out : HeaderMap)
      → ((name value : String) → Memᴰ (name, value) l → h.name name ≢ some k)
      → insert_headers c h l m ≡ some out
      → Dict.get k out ≡ Dict.get k m
  unfolding insert_headers
  insert_headers_other k [] m out other done = ap (found_in k) (sym done)
  insert_headers_other k ((name, value) ∷ l) m out other done =
      let (mid, first, rest) = bind-some (insert_header c h name value m) _ out done in
      insert_headers_other k l mid out (λ n v o. other n v (Memᴰ.tail o)) rest
      ∙ insert_header_other k name value m mid (other name value (Memᴰ.head refl)) first

  -- A request for features that does not panic is a GET of the address for features that carries the API
  -- key in the token header, in case none of the custom headers has that name, and asks for what is newer
  -- than the entity tag.
  pub client_features_req_sends :
      (Body : Type 0) (self : UnleashClient c h) (req : ClientFeaturesRequest) (k value : String)
      (r : Request Body)
      → h.name self.token_header ≡ some k
      → h.value req.api_key ≡ some value
      → ((name v : String) → Memᴰ (name, v) self.custom_headers → h.name name ≢ some k)
      → client_features_req c h req self ≡ some r
      → (Dict.get k r.headers ≡ some value)
        × (r.method ≡ Method.get_method)
        × (r.url ≡ c.to_text self.urls.client_features_url)
        × (r.if_none_match ≡ req.etag)
  unfolding client_features_req header_map
  client_features_req_sends Body self req k value r named read other sent =
      let (headers, made, same) = bind-some (header_map c h (some req.api_key) self) _ r sent in
      let (name, n, rest) = bind-some (h.name self.token_header) _ headers made in
      let (start, s, inserted) =
        bind-some (h.value req.api_key >>= (λ v. some (Dict.insert name v []))) _ headers rest in
      let kept = insert_headers_other k self.custom_headers start headers other inserted in
      let begun : some (Dict.insert name value []) ≡ some start = rw read at s in
      let key : some name ≡ some k = sym n ∙ named in
      let here : Dict.get k start ≡ some value =
        ap (found_in k) (sym begun)
        ∙ ground (arith, get-insert k name value [], eq_iff name k, key) in
      (
        ap (λ l. Dict.get k l)
              (sym (ap (of_some []) (ap (Option.map (λ (x : Request Body). x.headers)) same)))
            ∙ (kept ∙ here),
        sym (
            ap (of_some Method.get_method) (ap (Option.map (λ (x : Request Body). x.method)) same)),
        sym (ap (of_some "") (ap (Option.map (λ (x : Request Body). x.url)) same)),
        sym (ap (of_some none) (ap (Option.map (λ (x : Request Body). x.if_none_match)) same)),
      )
