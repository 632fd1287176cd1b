-- ===== src/Server/Dispatch/Schemas.antt =====
-- The numbers that `_defineSchema` (object_database/server.py) gives and announces.
use object_database.Prelude.{
  ◌≡◌, refl, sym, ap, ◌∙◌, subst, String, Bool, false, ◌||◌, map, Option, some, List, [], ◌∷◌, ◌++◌,
  arith, dec_eq, string_eq, nat_eq,
}
use object_database.Collections.Dict.{get, has, insert, get-insert, get-insert_ne, has-insert}
use object_database.Collections.Set.{member}
use object_database.Schema.{FieldId, FieldDefinition, field_definition_eq}
use object_database.Server.Messages.{SchemaDefinition, schema_mapping}
use object_database.Server.TypeMap.{
  TypeMap, IsValid, definition, lookup_or_add, lookup_or_add-IsValid,
}
use object_database.Server.State.{ChannelId, ConnectedChannel, Routing, Server, write, modify}
use object_database.Server.Dispatch.{Mapping, number_names, number_types, announce_schema}

-- Every field of the mapping has a number, and it is that of the type map.
abbrev pub Agrees : TypeMap → Mapping → Type 0
Agrees t m =
    (d : FieldDefinition) (o : Option FieldId)
    → get m d ≡ some o
    → (i : FieldId) × (o ≡ some i) × (get t.field_def_to_id d ≡ some i)

-- No number is taken back.
abbrev pub Extends : TypeMap → TypeMap → Type 0
Extends t t' =
    (d : FieldDefinition) (i : FieldId)
    → get t.field_def_to_id d ≡ some i
    → get t'.field_def_to_id d ≡ some i

abbrev Numbered : TypeMap → TypeMap × Mapping → Type 0
Numbered t done = IsValid done.0 × Agrees done.0 done.1 × Extends t done.0

number_one :
    (t : TypeMap) (key : FieldDefinition) (done : TypeMap × Mapping)
    → Numbered t done
    → Numbered t ((lookup_or_add done.0 key).0, insert key (lookup_or_add done.0 key).1 done.1)
number_one t key done (valid, agrees, extends) =
    (after.0, agree, λ d i h. after.2 d i (extends d i h))
  where
    after :
        IsValid (lookup_or_add done.0 key).0
        × ((i : FieldId) × ((lookup_or_add done.0 key).1 ≡ some i)
            × (get (lookup_or_add done.0 key).0.field_id_to_def i ≡ some key))
        × Extends done.0 (lookup_or_add done.0 key).0
    after = lookup_or_add-IsValid done.0 key valid

    agree : Agrees (lookup_or_add done.0 key).0 (insert key (lookup_or_add done.0 key).1 done.1)
    agree d o h = elim (dec_eq key d) [
      | yes e ↦ (
        after.1.0,
        ground (arith, get-insert done.1 key d (lookup_or_add done.0 key).1, after.1.1),
        subst (λ x. get (lookup_or_add done.0 key).0.field_def_to_id x ≡ some after.1.0) e
            (after.0.back key after.1.0 after.1.2),
      )
      | no ne ↦
          let (i, a, b) =
            agrees d o (sym (get-insert_ne done.1 key d (lookup_or_add done.0 key).1 ne) ∙ h) in
          (i, a, after.2 d i b)
    ]

number_names-Numbered :
    (t : TypeMap) (schema typename : String) (names : List String) (done : TypeMap × Mapping)
    → Numbered t done
    → Numbered t (number_names schema typename names done)
unfolding number_names
number_names-Numbered t schema typename [] done h = h
number_names-Numbered t schema typename (name ∷ names) done h =
    number_names-Numbered t schema typename names _
      (number_one t (definition schema typename name) done h)

number_types-Numbered :
    (t : TypeMap) (schema : String) (types : SchemaDefinition) (done : TypeMap × Mapping)
    → Numbered t done
    → Numbered t (number_types schema types done)
unfolding number_types
number_types-Numbered t schema [] done h = h
number_types-Numbered t schema ((typename, typedef) ∷ types) done h =
    number_types-Numbered t schema types _ (
      number_names-Numbered t schema typename typedef.indices _
        (number_names-Numbered t schema typename typedef.fields done h))

-- Is it a field or an index of one of the types?
unfoldable pub is_defined : String → SchemaDefinition → FieldDefinition → Bool
is_defined schema [] d = false
is_defined schema ((typename, typedef) ∷ types) d =
    member (map (definition schema typename) typedef.fields) d
    || member (map (definition schema typename) typedef.indices) d
    || is_defined schema types d

has-number_names :
    (schema typename : String) (names : List String) (done : TypeMap × Mapping)
    (d : FieldDefinition)
    → has (number_names schema typename names done).1 d
      ≡ (member (map (definition schema typename) names) d || has done.1 d)
unfolding number_names member
has-number_names schema typename [] done d = refl
has-number_names schema typename (name ∷ names) done d =
    let key = definition schema typename name in
    let found = lookup_or_add done.0 key in
    ground (
      arith,
      has-number_names schema typename names (found.0, insert key found.1 done.1) d,
      has-insert done.1 key d found.1,
    )

has-number_types :
    (schema : String) (types : SchemaDefinition) (done : TypeMap × Mapping) (d : FieldDefinition)
    → has (number_types schema types done).1 d ≡ (is_defined schema types d || has done.1 d)
unfolding number_types is_defined
has-number_types schema [] done d = refl
has-number_types schema ((typename, typedef) ∷ types) done d =
    let fields = number_names schema typename typedef.fields done in
    ground (
      arith,
      has-number_types schema types (number_names schema typename typedef.indices fields) d,
      has-number_names schema typename typedef.indices fields d,
      has-number_names schema typename typedef.fields done d,
    )

sent-modify :
    (c : ChannelId) (f : ConnectedChannel → ConnectedChannel) (r : Routing)
    → (modify c f r).sent ≡ r.sent
unfolding modify
sent-modify c f r = ground arith

-- A schema definition keeps the numbering one-to-one and changes no number given before. The mapping
-- that the client is sent has just the fields and the indices of the schema's types, and gives each
-- of them the number that the server uses.
pub announce_schema-Agrees :
    (c : ChannelId) (name : String) (types : SchemaDefinition) (s : Server)
    → IsValid s.type_map
    → (mapping : Mapping) × ((announce_schema c name types s).routing.sent
        ≡ s.routing.sent ++ (c, schema_mapping name mapping) ∷ [])
      × ((d : FieldDefinition) → has mapping d ≡ is_defined name types d)
      × IsValid (announce_schema c name types s).type_map
      × Agrees (announce_schema c name types s).type_map mapping
      × Extends s.type_map (announce_schema c name types s).type_map
unfolding announce_schema write get has
announce_schema-Agrees c name types s valid =
    let done = number_types name types (s.type_map, []) in
    let h =
      number_types-Numbered s.type_map name types (s.type_map, [])
        (valid, (λ d o e. cc), λ d i e. e) in
    (
      done.1,
      ap (λ l. l ++ (c, schema_mapping name done.1) ∷ [])
          (sent-modify c (λ x. record x { defined_schemas = insert name types x.defined_schemas })
            s.routing),
      (λ d. ground (arith, has-number_types name types (s.type_map, []) d)),
      h.0,
      h.1,
      h.2,
    )
