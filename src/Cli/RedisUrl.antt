-- ===== src/Cli/RedisUrl.antt =====
-- The URL of Redis.

use unleash_edge.Prelude.{
  ℕ, ◌≡◌, sym, ◌∙◌, ap, String, Bool, true, false, Option, none, some, arith, Option-cases, inl,
  inr, if◌then◌else◌,
}
use unleash_edge.Panics.{◌>>=◌, bind-some}
use unleash_edge.Cli.{RedisArgs, RedisUrls, base_url, with_arguments, set_given, to_url}

-- What is assumed of the url crate: a URL whose port is taken away has none, and keeps none under
-- another scheme.
pub record PortLaws (c : RedisUrls) : Type 0 where
  pub port : c.Url → Option ℕ
  pub port_removed : (u v : c.Url) → c.set_port none u ≡ some v → port v ≡ none
  pub scheme_kept :
      (s : String) (u v : c.Url) → c.set_scheme s u ≡ some v → port u ≡ none → port v ≡ none

module _ (c : RedisUrls) (laws : PortLaws c) where
  open laws use {port, port_removed, scheme_kept}

  secured_port :
      (secure : Bool) (u v : c.Url)
      → (if secure then c.set_scheme "rediss" u else some u) ≡ some v
      → port u ≡ none
      → port v ≡ none
  secured_port true u v h p = scheme_kept "rediss" u v h p
  secured_port false u v h p = ap (λ (o : Option (c.Url)). o >>= port) (sym h) ∙ p

  -- Where no port is given as an argument, the URL of Redis has none, whatever port was written in it.
  pub to_url_port :
      (args : RedisArgs) (text : String)
      → args.redis_port ≡ none
      → to_url c args ≡ some (some text)
      → (v : c.Url) × (text ≡ c.to_text v) × (port v ≡ none)
  unfolding to_url with_arguments
  to_url_port args text no_port h =
      let (base, b, rest) = bind-some (base_url c args) _ (some text) h in
      elim (Option-cases base) [
        | inl e ↦ absurd (ground (arith, rw e at rest))
        | inr (url, e) ↦
            let (v, made, same) =
              bind-some (with_arguments c args url) _ (some text) (rw e at rest) in
            let (authorized, a, rest1) =
              bind-some (set_given c c.set_password args.redis_password url) _ v made in
            let (named, n, rest2) =
              bind-some (set_given c c.set_username args.redis_username authorized) _ v rest1 in
            let (finished, f, rest3) = bind-some (c.set_port args.redis_port named) _ v rest2 in
            (
              v,
              ground (arith, same),
              secured_port args.redis_secure finished v rest3
                  (port_removed named finished (ap (λ p. c.set_port p named) (sym no_port) ∙ f)),
            )
      ]
