-- ===== src/Contexts.antt =====
-- server/src/types.rs: the contexts that requests carry. `Context` of unleash_types is a record of the
-- fields that the program reads or writes; `other` stands for the others.
pub mod Precedence
use unleash_edge.Prelude.{
  String, Option, none, some, List, [], string_eq, unwrap_or, is_empty, if◌then◌else◌,
}
use unleash_edge.Dict
use unleash_edge.Dict.{Dict}

module _ (Other : Type 0) where
  pub record Context : Type 0 where
    pub properties : Option (Dict String String)
    pub remote_address : Option String
    pub other : Other

  pub record IncomingContext : Type 0 where
    pub context : Context
    pub extra_properties : Dict String String

  pub record PostContext : Type 0 where
    pub context : Option Context
    pub flattened_context : Option Context
    pub extra_properties : Dict String String

  -- `From<IncomingContext> for Context`
  unfoldable pub from_incoming : IncomingContext → Context
  from_incoming input = record input.context {
    properties =
        if is_empty input.extra_properties
        then input.context.properties
        else some (Dict.extend input.extra_properties (unwrap_or input.context.properties []));
  }

  -- `From<PostContext> for Context`; `default` is `Context::default()`
  unfoldable pub from_post : Context → PostContext → Context
  unfolding from_incoming
  from_post default input = elim input.context [
    | some context ↦ context
    | none ↦ from_incoming (record {
      context = unwrap_or input.flattened_context default;
      extra_properties = input.extra_properties;
    })
  ]
