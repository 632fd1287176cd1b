-- ===== src/Server/TypeMap.antt =====
-- `TypeMap` of object_database/server.py: the numbers of the fields.
use object_database.Prelude.{
  ℕ, refl, string_discrete, ◌<◌, ◌≡◌, [], true, ◌≢◌, String, false, Option, some, arith, length,
  if◌then◌else◌, Bool-cases, inl, inr, nat_eq,
}
use object_database.Collections.Dict.{
  Dict, get, has, insert, get-insert, has-eq-false, has-get, has_of_get, length-insert_new,
}
use object_database.Schema.{
  FieldId, FieldDefinition, field_definition_eq, field_definition_discrete,
}

pub record TypeMap : Type 0 where
  pub field_def_to_id : Dict FieldDefinition FieldId
  pub field_id_to_def : Dict FieldId FieldDefinition

-- __len__
unfoldable pub size : TypeMap → ℕ
size t = length t.field_def_to_id

abbrev pub definition : String → String → String → FieldDefinition
definition s t f = record { schema = s; typename = t; fieldname = f }

unfoldable pub lookup_or_add : TypeMap → FieldDefinition → TypeMap × Option FieldId
unfolding size
lookup_or_add t key =
    let t' = if has t.field_def_to_id key then t else record t {
      field_def_to_id = insert key (size t) t.field_def_to_id;
      field_id_to_def = insert (size t) key t.field_id_to_def;
    } in
    (t', get t'.field_def_to_id key)

unfoldable pub field_id_for : TypeMap → FieldDefinition → Option FieldId
field_id_for t key = get t.field_def_to_id key

-- The map that `_currentTypeMap` makes when the store has none.
unfoldable pub initial_type_map : TypeMap
unfolding lookup_or_add
initial_type_map =
    (lookup_or_add
      (lookup_or_add (record { field_def_to_id = []; field_id_to_def = [] })
        (definition "core" "Connection" " exists")).0
      (definition "core" "Connection" "heartbeats_suspended")).0

-- The two dictionaries are inverse to one another, and the numbers in use lie below the size.
pub record IsValid (t : TypeMap) : Type 0 where
  pub forth :
      (d : FieldDefinition) (i : ℕ)
      → get t.field_def_to_id d ≡ some i
      → get t.field_id_to_def i ≡ some d
  pub back :
      (d : FieldDefinition) (i : ℕ)
      → get t.field_id_to_def i ≡ some d
      → get t.field_def_to_id d ≡ some i
  pub below :
      (d : FieldDefinition) (i : ℕ)
      → get t.field_def_to_id d ≡ some i
      → i < length t.field_def_to_id

module _ (t : TypeMap) (key : FieldDefinition) (v : IsValid t)
    (absent : has t.field_def_to_id key ≡ false) where
  added : TypeMap
  unfolding lookup_or_add size
  added = record t {
    field_def_to_id = insert key (length t.field_def_to_id) t.field_def_to_id;
    field_id_to_def = insert (length t.field_def_to_id) key t.field_id_to_def;
  }

  fresh :
      (i : ℕ) (d : FieldDefinition)
      → get t.field_id_to_def i ≡ some d
      → i ≢ length t.field_def_to_id
  fresh i d h e = omega (arith, v.below d i (v.back d i h))

  added-IsValid : IsValid added
  unfolding added
  added-IsValid = record {
    forth = λ d i h. ground (
      arith,
      get-insert t.field_def_to_id key d (length t.field_def_to_id),
      get-insert t.field_id_to_def (length t.field_def_to_id) i key,
      v.forth d i,
      v.below d i,
    );
    back = λ d i h. ground (
      arith,
      get-insert t.field_def_to_id key d (length t.field_def_to_id),
      get-insert t.field_id_to_def (length t.field_def_to_id) i key,
      v.back d i,
      has-eq-false t.field_def_to_id key absent,
    );
    below = λ d i h. ground (
      arith,
      get-insert t.field_def_to_id key d (length t.field_def_to_id),
      v.below d i,
      length-insert_new t.field_def_to_id key (length t.field_def_to_id) absent,
    );
  }

-- `lookupOrAdd` keeps the numbering one-to-one, answers with the number that the map now gives the
-- field, and changes no number given before.
pub lookup_or_add-IsValid :
    (t : TypeMap) (key : FieldDefinition)
    → IsValid t
    → IsValid (lookup_or_add t key).0
      × ((i : FieldId) × ((lookup_or_add t key).1 ≡ some i)
          × (get (lookup_or_add t key).0.field_id_to_def i ≡ some key))
      × ((d : FieldDefinition) (i : FieldId)
          → get t.field_def_to_id d ≡ some i
          → get (lookup_or_add t key).0.field_def_to_id d ≡ some i)
unfolding lookup_or_add size added
lookup_or_add-IsValid t key v = elim (Bool-cases (has t.field_def_to_id key)) [
  | inl old ↦
      let (i, e) = has-get t.field_def_to_id key old in
      rw old (v, (i, e, v.forth key i e), λ d j h. h)
  | inr new ↦ rw new (
    added-IsValid t key v new,
    (
      length t.field_def_to_id,
      ground (arith, get-insert t.field_def_to_id key key (length t.field_def_to_id)),
      ground (
        arith,
        get-insert t.field_id_to_def (length t.field_def_to_id) (length t.field_def_to_id) key,
      ),
    ),
    λ d i h. ground (
      arith,
      get-insert t.field_def_to_id key d (length t.field_def_to_id),
      has_of_get t.field_def_to_id d i,
    ),
  )
]

no_types-IsValid : IsValid (record { field_def_to_id = []; field_id_to_def = [] })
unfolding get
no_types-IsValid = record { forth = λ d i h. cc; back = λ d i h. cc; below = λ d i h. ground arith }

-- The type map of a server with an empty store is a one-to-one numbering that has numbers for the
-- two fields of connections.
pub initial_type_map-IsValid :
    IsValid initial_type_map
    × (has initial_type_map.field_def_to_id (definition "core" "Connection" " exists") ≡ true)
    × (has initial_type_map.field_def_to_id (definition "core" "Connection" "heartbeats_suspended")
        ≡ true)
unfolding initial_type_map lookup_or_add size has get insert field_definition_discrete
    string_discrete
initial_type_map-IsValid = (
  (lookup_or_add-IsValid _ (definition "core" "Connection" "heartbeats_suspended")
      (lookup_or_add-IsValid _ (definition "core" "Connection" " exists") no_types-IsValid).0).0,
  refl,
  refl,
)
