-- ===== src/Contexts/Precedence.antt =====
-- Which value a property of a request's context has.
use unleash_edge.Prelude.{
  ◌≡◌, ◌∙◌, ap, String, Option, none, some, [], arith, string_eq, unwrap_or, or_option, is_empty,
  nil_of_is_empty, sym, Bool-cases, Option-cases, inl, inr,
}
use unleash_edge.Dict
use unleash_edge.Dict.{Dict}
use unleash_edge.Dict.Unique.{IsUnique, get-extend, or_none}
use unleash_edge.Contexts.{Context, IncomingContext, PostContext, from_incoming, from_post}

-- the value of a property, if the context has one
abbrev pub property : {Other : Type 0} → String → Context Other → Option String
property k c = Dict.get k (unwrap_or c.properties [])

module _ {Other : Type 0} where
  property-from_incoming :
      (k : String) (input : IncomingContext Other)
      → IsUnique (unwrap_or input.context.properties [])
      → property k (from_incoming Other input)
        ≡ or_option (property k input.context) (Dict.get k input.extra_properties)
  unfolding from_incoming Dict.get
  property-from_incoming k input h = elim (Bool-cases (is_empty input.extra_properties)) [
    | inl y ↦
        let o = Dict.get k (unwrap_or input.context.properties []) in
        let nothing = ap (Dict.get k) (nil_of_is_empty input.extra_properties y) in
        rw y (sym (ap (or_option o) nothing ∙ or_none o))
    | inr n ↦ rw n (get-extend k input.extra_properties (unwrap_or input.context.properties []) h)
  ]

  -- what a request without a context of its own carries: the flattened fields, or the default
  abbrev pub flat : Context Other → PostContext Other → Context Other
  flat default input = unwrap_or input.flattened_context default

  -- The context that a request is evaluated with: the one it carries as `context`, untouched; else the
  -- flattened one, or the default, of which only the properties may change: a property of its own wins
  -- over one of the same name among the other fields of the request. A table of properties has each
  -- key once.
  pub from_post_fields :
      (default : Context Other) (input : PostContext Other) (k : String)
      → IsUnique (unwrap_or (flat default input).properties [])
      → (property k (from_post Other default input) ≡ elim input.context [
        | some c ↦ property k c
        | none ↦ or_option (property k (flat default input)) (Dict.get k input.extra_properties)
      ])
        × ((from_post Other default input).remote_address
            ≡ (unwrap_or input.context (flat default input)).remote_address)
        × ((from_post Other default input).other
            ≡ (unwrap_or input.context (flat default input)).other)
  unfolding from_post from_incoming
  from_post_fields default input k h = elim (Option-cases input.context) [
    | inl e ↦
        let i : IncomingContext Other = record {
          context = flat default input;
          extra_properties = input.extra_properties;
        } in
        (ground (arith, e, property-from_incoming k i h), ground (arith, e), ground (arith, e))
    | inr (c, e) ↦ (ground (arith, e), ground (arith, e), ground (arith, e))
  ]
