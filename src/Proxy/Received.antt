-- ===== src/Proxy/Received.antt =====
-- What a proxy takes over from the main server: `mapSchema` and `handleSubscriptionData` of
-- `SubscriptionState` (object_database/proxy_server.py).
use object_database.Prelude.{
  String, Option, none, some, [], ◌∷◌, if◌then◌else◌, nat_eq, string_eq, list_eq, pair_eq,
}
use object_database.Prelude.Exec.{assertion_error, ok, raised, Exec, ◌>>◌, for_each}
use object_database.Collections.Dict.{Dict, get, insert, delete}
use object_database.Schema.{
  Bytes, ObjectId, FieldId, IndexValue, ObjectFieldId, FieldDefinition, index_eq,
  field_definition_eq,
}
use object_database.Server.Messages.{Writes, subscription_eq}
use object_database.Proxy.State.{Mapping, Schemas, Values, SubscriptionState, at, add_at}

-- mapSchema
unfoldable pub map_field : FieldDefinition → FieldId → Schemas → Schemas
map_field d f s =
    let types : Dict String (Dict String FieldId) =
      elim (get s.schema_type_and_name_to_field_id d.schema) [ none ↦ [] | some t ↦ t ] in
    let fields : Dict String FieldId = elim (get types d.typename) [ none ↦ [] | some t ↦ t ] in
    record s {
      schema_type_and_name_to_field_id =
          insert d.schema (insert d.typename (insert d.fieldname f fields) types)
            s.schema_type_and_name_to_field_id;
      field_id_to_def = insert f d s.field_id_to_def;
      field_def_to_id = insert d f s.field_def_to_id;
    }

unfoldable pub map_fields : Mapping → Schemas → Schemas
unfolding map_field
map_fields [] s = s
map_fields ((d, none) ∷ mapping) s = map_fields mapping s
map_fields ((d, some f) ∷ mapping) s = map_fields mapping (map_field d f s)

unfoldable pub map_schema : String → Mapping → SubscriptionState → SubscriptionState
unfolding map_fields
map_schema name mapping s = record s {
  schemas =
      map_fields mapping
        (record (s.schemas) { schema_defs = insert name mapping s.schemas.schema_defs });
}

-- The local function `update` of `handleSubscriptionData`.
unfoldable pub update_value :
    FieldId
    → ObjectId
    → Option Bytes
    → Dict FieldId (Dict ObjectId Bytes)
    → Dict FieldId (Dict ObjectId Bytes)
unfolding at
update_value f i none table = insert f (delete i (at table f)) table
update_value f i (some b) table = insert f (insert i b (at table f)) table

unfoldable pub receive_value : ObjectFieldId × Option Bytes → Exec Values (Unit {0})
unfolding update_value
receive_value (k, b) v =
    if k.is_index_value
    then raised assertion_error v
    else ok tt (record v { object_values = update_value k.field_id k.obj_id b v.object_values })

-- reverse.setdefault(f).setdefault(value).add(i)
unfoldable pub add_reverse : FieldId → IndexValue → ObjectId → Values → Values
unfolding at add_at
add_reverse f value i v = record v {
  reverse_index_values =
      insert f (add_at value i (at v.reverse_index_values f)) v.reverse_index_values;
}

unfoldable pub note_reverse : ObjectFieldId → Option IndexValue → Values → Values
unfolding add_reverse at
note_reverse k none v = record v {
  reverse_index_values =
      insert k.field_id (at v.reverse_index_values k.field_id) v.reverse_index_values;
}
note_reverse k (some b) v = add_reverse k.field_id b k.obj_id v

unfoldable pub receive_index_value : ObjectFieldId × Option Bytes → Exec Values (Unit {0})
unfolding update_value note_reverse
receive_index_value (k, b) v =
    if k.is_index_value
    then ok tt (
        note_reverse k b
          (record v { index_values = update_value k.field_id k.obj_id b v.index_values }))
    else raised assertion_error v

unfoldable pub on_values : {A : Type 0} → Exec Values A → Exec SubscriptionState A
on_values m s = elim (m s.values) [
  | ok a t ↦ ok a (record s { values = t })
  | raised e t ↦ raised e (record s { values = t })
]

-- handleSubscriptionData
unfoldable pub handle_subscription_data : Writes → Writes → Exec SubscriptionState (Unit {0})
unfolding receive_value receive_index_value on_values for_each
handle_subscription_data values index_values = do
  on_values (for_each values receive_value)
  on_values (for_each index_values receive_index_value)
