-- ===== src/Proxy/Values.antt =====
-- What a transaction does to a proxy's copy of the objects: the three loops of `handleTransaction`
-- (object_database/proxy_server.py) that change `objectValues`, `indexValues` and
-- `reverseIndexValues`.
pub mod Frame
pub mod Overwrites
pub mod Index
use object_database.Prelude.{
  ℕ, Bool, false, Option, none, some, List, [], ◌∷◌, Eq, nat_eq, list_eq, if◌then◌else◌,
}
use object_database.Collections.Dict.{Dict, get, insert, delete}
use object_database.Collections.Set.{add_all, discard}
use object_database.Schema.{
  Bytes, ObjectId, FieldId, IndexValue, ObjectFieldId, IndexId, object_field_eq,
}
use object_database.Server.Messages.{Writes, SetChanges}
use object_database.Proxy.State.{Values, at}
use object_database.Proxy.Reads.{get_object_value}
use object_database.Proxy.Received.{update_value}

-- priorValues
unfoldable pub prior_values : Values → Writes → Writes
unfolding get_object_value
prior_values v [] = []
prior_values v ((k, b) ∷ writes) =
    (k, get_object_value v k.field_id k.obj_id) ∷ prior_values v writes

unfoldable pub apply_write : ObjectFieldId → Option Bytes → Values → Values
unfolding update_value
apply_write k b v = record v { object_values = update_value k.field_id k.obj_id b v.object_values }

unfoldable pub apply_writes : Writes → Values → Values
unfolding apply_write
apply_writes [] v = v
apply_writes ((k, b) ∷ writes) v = apply_writes writes (apply_write k b v)

-- for oid in oids: if oid in vals: vals.pop(oid)
unfoldable pub delete_all : List ObjectId → Dict ObjectId IndexValue → Dict ObjectId IndexValue
delete_all [] vals = vals
delete_all (i ∷ ids) vals = delete_all ids (delete i vals)

unfoldable pub discard_all : List ObjectId → List ObjectId → List ObjectId
discard_all [] s = s
discard_all (i ∷ ids) s = discard_all ids (discard i s)

-- An index value that no object has is taken off the table.
unfoldable pub keep_objects :
    IndexValue → List ObjectId → Dict IndexValue (List ObjectId) → Dict IndexValue (List ObjectId)
keep_objects value [] d = delete value d
keep_objects value (i ∷ ids) d = insert value (i ∷ ids) d

unfoldable pub apply_remove : IndexId → List ObjectId → Values → Values
unfolding delete_all discard_all keep_objects at
apply_remove k ids v = record v {
  index_values = insert k.field_id (delete_all ids (at v.index_values k.field_id)) v.index_values;
  reverse_index_values =
      insert k.field_id
        (keep_objects k.index_value
          (discard_all ids (at (at v.reverse_index_values k.field_id) k.index_value))
          (at v.reverse_index_values k.field_id))
        v.reverse_index_values;
}

unfoldable pub apply_removes : SetChanges → Values → Values
unfolding apply_remove
apply_removes [] v = v
apply_removes ((k, ids) ∷ removes) v = apply_removes removes (apply_remove k ids v)

-- for oid in oids: vals[oid] = indexId.indexValue
unfoldable pub put_all :
    IndexValue → List ObjectId → Dict ObjectId IndexValue → Dict ObjectId IndexValue
put_all value [] vals = vals
put_all value (i ∷ ids) vals = put_all value ids (insert i value vals)

unfoldable pub apply_add : IndexId → List ObjectId → Values → Values
unfolding put_all at
apply_add k ids v = record v {
  index_values =
      insert k.field_id (put_all k.index_value ids (at v.index_values k.field_id)) v.index_values;
  reverse_index_values =
      insert k.field_id
        (insert k.index_value
          (add_all ids (at (at v.reverse_index_values k.field_id) k.index_value))
          (at v.reverse_index_values k.field_id))
        v.reverse_index_values;
}
