-- ===== src/Urls/Paths.antt =====
-- The paths of the addresses.
use Prim.Native.Char.{code}
use mathlib.Core.List.{append_assoc}
use unleash_edge.Prelude.{
  ◌≡◌, refl, ◌∙◌, ap, String, Bool, true, some, List, [], ◌∷◌, ◌++◌, arith, ℕ, Bool, true, ◌&&◌,
  ◌||◌, leb, ◌=ℕ◌,
}
use unleash_edge.Panics.{bind-some}
use unleash_edge.Urls.{UrlCrate, UnleashUrls, from_base_url}

some_same : {A : Type 0} {a b : A} → some a ≡ some b → a ≡ b
some_same {A} {a} {b} h = ground (arith, h)

-- letters and dashes only, which stand in a path as they are
abbrev plain_char : ℕ → Bool
plain_char c = (leb 97 c && leb c 122) || c =ℕ 45

unfoldable pub plain : String → Bool
plain String.[] = true
plain (String.◌∷◌ c s) = plain_char (code c) && plain s

-- What is assumed of the url crate: a plain segment that is pushed is the last one, and is the only change.
-- The root has no segments; a slash at the end of any other path is an empty last one.
pub record UrlLaws (c : UrlCrate) : Type 0 where
  pub segments : c.Url → List String
  pub origin : c.Url → String
  pub pushed :
      (s : String) (a b : c.Url)
      → plain s ≡ true
      → c.push s a ≡ some b
      → (segments b ≡ segments a ++ s ∷ []) × (origin b ≡ origin a)

module _ (c : UrlCrate) (laws : UrlLaws c) where
  open c use {Url}
  open laws use {segments, origin, pushed}

  -- the URL of a path below another one
  abbrev pub IsBelow : Url → List String → Url → Type 0
  IsBelow base path url = (segments url ≡ segments base ++ path) × (origin url ≡ origin base)

  below : (s : String) (a b : Url) → plain s ≡ true → c.push s a ≡ some b → IsBelow a (s ∷ []) b
  below s a b p h = pushed s a b p h

  further :
      (base : Url) (path : List String) (s : String) (a b : Url)
      → plain s ≡ true
      → IsBelow base path a
      → c.push s a ≡ some b
      → IsBelow base (path ++ s ∷ []) b
  further base path s a b p (seg, same) h =
      let (last, kept) = pushed s a b p h in
      (last ∙ (ap (λ l. l ++ s ∷ []) seg ∙ append_assoc (segments base) path (s ∷ [])), kept ∙ same)

  -- The addresses that are made of a base are below it, each at the path that upstream's API has for it
  -- after all segments of the base, an empty last one included.
  pub from_base_url_paths :
      (base : Url) (urls : UnleashUrls c)
      → from_base_url c base ≡ some urls
      → IsBelow base ("api" ∷ "client" ∷ "features" ∷ []) urls.client_features_url
        × IsBelow base ("api" ∷ "client" ∷ "delta" ∷ []) urls.client_features_delta_url
        × IsBelow base ("api" ∷ "client" ∷ "streaming" ∷ []) urls.client_features_stream_url
        × IsBelow base ("api" ∷ "client" ∷ "register" ∷ []) urls.client_register_app_url
        × IsBelow base ("api" ∷ "client" ∷ "metrics" ∷ "bulk" ∷ []) urls.client_bulk_metrics_url
        × IsBelow base ("edge" ∷ "validate" ∷ []) urls.edge_validate_url
        × IsBelow base ("edge" ∷ "metrics" ∷ []) urls.edge_metrics_url
        × IsBelow base ("api" ∷ "admin" ∷ "api-tokens" ∷ []) urls.new_api_token_url
  unfolding from_base_url plain
  from_base_url_paths base urls h =
      let (api, a, h1) = bind-some (c.push "api" base) _ urls h in
      let (client, b, h2) = bind-some (c.push "client" api) _ urls h1 in
      let (features, f, h3) = bind-some (c.push "features" client) _ urls h2 in
      let (delta, d, h4) = bind-some (c.push "delta" client) _ urls h3 in
      let (stream, s, h5) = bind-some (c.push "streaming" client) _ urls h4 in
      let (register, r, h6) = bind-some (c.push "register" client) _ urls h5 in
      let (metrics, m, h7) = bind-some (c.push "metrics" client) _ urls h6 in
      let (edge, e, h8) = bind-some (c.push "edge" base) _ urls h7 in
      let (validate, v, h9) = bind-some (c.push "validate" edge) _ urls h8 in
      let (edge_metrics, em, h10) = bind-some (c.push "metrics" edge) _ urls h9 in
      let (token_api, t, h11) = bind-some (c.push "api" base) _ urls h10 in
      let (admin, ad, h12) = bind-some (c.push "admin" token_api) _ urls h11 in
      let (tokens, tk, h13) = bind-some (c.push "api-tokens" admin) _ urls h12 in
      let (bulk, bk, same) = bind-some (c.push "bulk" metrics) _ urls h13 in
      let at_client =
        further base ("api" ∷ []) "client" api client refl (below "api" base api refl a) b in
      let at_edge = below "edge" base edge refl e in
      rw (← some_same same) (
        further base ("api" ∷ "client" ∷ []) "features" client features refl at_client f,
        further base ("api" ∷ "client" ∷ []) "delta" client delta refl at_client d,
        further base ("api" ∷ "client" ∷ []) "streaming" client stream refl at_client s,
        further base ("api" ∷ "client" ∷ []) "register" client register refl at_client r,
        further base ("api" ∷ "client" ∷ "metrics" ∷ []) "bulk" metrics bulk refl
            (further base ("api" ∷ "client" ∷ []) "metrics" client metrics refl at_client m) bk,
        further base ("edge" ∷ []) "validate" edge validate refl at_edge v,
        further base ("edge" ∷ []) "metrics" edge edge_metrics refl at_edge em,
        further base ("api" ∷ "admin" ∷ []) "api-tokens" admin tokens refl
            (further base ("api" ∷ []) "admin" token_api admin refl
              (below "api" base token_api refl t) ad)
            tk,
      )
