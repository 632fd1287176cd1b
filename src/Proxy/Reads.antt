-- ===== src/Proxy/Reads.antt =====
-- What `SubscriptionState` (object_database/proxy_server.py) looks up in its copy of the objects.
use object_database.Prelude.{
  String, Bool, true, false, Option, none, some, List, [], ◌∷◌, map, if◌then◌else◌, beq, nat_eq,
  string_eq, list_eq,
}
use object_database.Collections.Dict.{Dict, get, insert}
use object_database.Collections.Set.{add_all}
use object_database.Schema.{
  Bytes, ObjectId, FieldId, IndexValue, object_field_eq, field_definition_eq,
}
use object_database.Server.Messages.{Writes}
use object_database.Proxy.State.{SubscriptionKey, Schemas, Values, SubscriptionState, at}

-- fieldIdFor
unfoldable pub field_id_for : Schemas → String → String → String → Option FieldId
field_id_for s schema typename fieldname =
    get s.field_def_to_id (record { schema = schema; typename = typename; fieldname = fieldname })

-- self.schemaTypeAndNameToFieldId[schema][typename], and nothing where there is no such type.
unfoldable pub type_fields : Schemas → String → String → Option (Dict String FieldId)
type_fields s schema typename = elim (get s.schema_type_and_name_to_field_id schema) [
  | none ↦ none
  | some types ↦ get types typename
]

-- d.values(), of the fields of a type
unfoldable pub field_ids_of : Option (Dict String FieldId) → List FieldId
field_ids_of none = []
field_ids_of (some fields) = map (λ e. e.1) fields

-- getObjectValue
unfoldable pub get_object_value : Values → FieldId → ObjectId → Option Bytes
unfolding at
get_object_value v f i = get (at v.object_values f) i

-- The objects that have a value for one of the fields.
unfoldable pub objects_with_fields : Values → List FieldId → List ObjectId
unfolding at
objects_with_fields v [] = []
objects_with_fields v (f ∷ fs) =
    add_all (map (λ e. e.0) (at v.object_values f)) (objects_with_fields v fs)

unfoldable pub objects_with_index : Values → Option FieldId → IndexValue → List ObjectId
unfolding at
objects_with_index v none value = []
objects_with_index v (some f) value = at (at v.reverse_index_values f) value

unfoldable pub named_field : Option (Dict String FieldId) → String → Option FieldId
named_field none name = none
named_field (some fields) name = get fields name

-- objectIndentitiesForSubscriptionKey. `to_identity` is the deserialization of an object; `none` says
-- that it raises.
unfoldable pub object_identities_for :
    (IndexValue → Option ObjectId) → SubscriptionState → SubscriptionKey → Option (List ObjectId)
unfolding objects_with_fields objects_with_index field_ids_of named_field type_fields
object_identities_for to_identity s key = elim key.fieldname_and_value [
  | none ↦
      some (
        objects_with_fields s.values (field_ids_of (type_fields s.schemas key.schema key.typename)))
  | some (name, value) ↦
      if beq name "_identity"
      then (elim (to_identity value) [ none ↦ none | some i ↦ some (i ∷ []) ])
      else some (
          objects_with_index s.values
            (named_field (type_fields s.schemas key.schema key.typename) name) value)
]

-- The loops of `objectValuesForOids` and `indexValuesForOids`.
unfoldable pub collect_field :
    Bool → FieldId → Dict ObjectId Bytes → List ObjectId → Writes → Writes
collect_field is_index f values [] res = res
collect_field is_index f values (i ∷ ids) res =
    collect_field is_index f values ids (elim (get values i) [
      | none ↦ res
      | some b ↦
          insert (record { obj_id = i; field_id = f; is_index_value = is_index }) (some b) res
    ])

unfoldable pub collect_fields :
    Bool → Dict FieldId (Dict ObjectId Bytes) → List FieldId → List ObjectId → Writes → Writes
unfolding collect_field at
collect_fields is_index table [] ids res = res
collect_fields is_index table (f ∷ fs) ids res =
    collect_fields is_index table fs ids (collect_field is_index f (at table f) ids res)

-- objectValuesForOids
unfoldable pub object_values_for_oids : SubscriptionState → String → String → List ObjectId → Writes
unfolding collect_fields field_ids_of type_fields
object_values_for_oids s schema typename ids =
    collect_fields false s.values.object_values
      (field_ids_of (type_fields s.schemas schema typename)) ids []

-- indexValuesForOids
unfoldable pub index_values_for_oids : SubscriptionState → String → String → List ObjectId → Writes
unfolding collect_fields field_ids_of type_fields
index_values_for_oids s schema typename ids =
    collect_fields true s.values.index_values (field_ids_of (type_fields s.schemas schema typename))
      ids []

-- The loops of `objectValuesForSubscriptionKey` and `indexValuesForSubscriptionKey`.
unfoldable pub collect_values : Bool → FieldId → Dict ObjectId Bytes → Writes → Writes
collect_values is_index f [] res = res
collect_values is_index f ((i, b) ∷ values) res =
    collect_values is_index f values
      (insert (record { obj_id = i; field_id = f; is_index_value = is_index }) (some b) res)

unfoldable pub collect_type :
    Bool → Dict FieldId (Dict ObjectId Bytes) → List FieldId → Writes → Writes
unfolding collect_values at
collect_type is_index table [] res = res
collect_type is_index table (f ∷ fs) res =
    collect_type is_index table fs (collect_values is_index f (at table f) res)

-- objectValuesForSubscriptionKey
unfoldable pub object_values_for_subscription_key : SubscriptionState → SubscriptionKey → Writes
unfolding collect_type field_ids_of type_fields
object_values_for_subscription_key s key =
    collect_type false s.values.object_values
      (field_ids_of (type_fields s.schemas key.schema key.typename)) []

-- indexValuesForSubscriptionKey
unfoldable pub index_values_for_subscription_key : SubscriptionState → SubscriptionKey → Writes
unfolding collect_type field_ids_of type_fields
index_values_for_subscription_key s key =
    collect_type true s.values.index_values
      (field_ids_of (type_fields s.schemas key.schema key.typename)) []
