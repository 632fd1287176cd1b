-- ===== src/Server/Commit.antt =====
-- `_commitAndBroadcastNewTransaction` of object_database/server.py, in the stages in which it runs.
pub mod Frames
pub mod Effect
pub mod Attempt
pub mod Include
use object_database.Prelude.{
  ℕ, zero, suc, ◌+◌, ◌≡◌, String, Bool, true, false, not, ◌||◌, Option, none, some, List, [], ◌∷◌,
  ◌++◌, map, if◌then◌else◌, beq, Eq, nat_eq, string_eq,
}
use object_database.Prelude.Int.{ℤ, pos}
use object_database.Prelude.Exec.{
  Error, attribute_error, key_error, type_error, transaction_error, Outcome, ok, raised, Exec,
  ◌>>=◌, ◌>>◌, pure, raise,
}
use object_database.Collections.Dict.{Dict, get, has, insert, update}
use object_database.Collections.Set.{add, add_all}
use object_database.Schema.{
  Bytes, ObjectId, FieldId, IndexId, ObjectFieldId, FieldDefinition, TypeDefinition,
  object_field_eq, index_eq, field_definition_eq,
}
use object_database.Persistence.Value.{Key, object_field}
use object_database.Persistence.{Store, IndexCodec, get_several, set_several}
use object_database.Server.Messages.{Writes, SetChanges, TransactionMessage, SchemaDefinition}
use object_database.Server.TypeMap.{TypeMap, definition, field_id_for}
use object_database.Server.State.{
  ChannelId, ConnectedChannel, Versions, Routing, Server, on_store, on_versions, on_routing,
}
use object_database.Server.Versions.{
  Times, begin_transaction, conflicting, stamp, garbage_collect, is_gone,
}
use object_database.Server.Routing.{
  register_created, extend_channels, channels_at, broadcast, channel_of,
}
use object_database.Server.Request.{
  Request, Result, committed, conflict, nonempty, keys, written_keys, written_fields, mentioned,
  checked_keys, zip_values, has_bad_value, value_at, index_reverse_lookup_kvs, store_writes,
  store_sets, by_field, field_sets,
}
use object_database.Server.Growth.{values_of, current_type_map, grow_subscriptions}

module _ (codec : IndexCodec) where
  -- What changes the store: the values, the reverse values of the indices, the index sets, and then
  -- the sets of index values by field.
  unfoldable pub write_store : Writes → SetChanges → SetChanges → Exec Server (Unit {0})
  unfolding set_several index_reverse_lookup_kvs by_field
  write_store key_value adds removes = do
    (new_sets, dropped_sets) ← on_store (
        set_several codec (store_writes (update key_value (index_reverse_lookup_kvs adds removes)))
          (store_sets adds) (store_sets removes))
    on_store
        (set_several codec [] (field_sets (by_field new_sets)) (field_sets (by_field dropped_sets)))
    pure tt

  -- Everything after the version numbers are set.
  unfoldable pub publish :
      Times → ℕ → Writes → SetChanges → SetChanges → Writes → Exec Server Result
  unfolding grow_subscriptions broadcast written_fields mentioned garbage_collect
  publish times tid key_value adds removes priors = do
    (lazy, key_value', adds') ← grow_subscriptions codec tid adds [] key_value adds
    _ ← on_routing (
        broadcast (written_fields key_value adds removes) (mentioned key_value adds removes) lazy
          priors
          (record {
            writes = key_value';
            set_adds = adds';
            set_removes = removes;
            transaction_id = tid;
          }))
    λ s. (on_versions (garbage_collect (is_gone codec s.kvstore) times) >> pure (committed tid)) s

  unfoldable pub stamp_and_write :
      Times → ℕ → Writes → SetChanges → SetChanges → Writes → Exec Server Result
  unfolding stamp written_keys write_store publish
  stamp_and_write times tid key_value adds removes priors = do
    on_versions (λ v. ok tt (stamp tid times.committed (written_keys key_value adds removes) v))
    write_store key_value adds removes
    publish times tid key_value adds removes priors

  -- The transaction, once no version conflicts with it.
  unfoldable pub apply_transaction :
      Times → ℕ → Writes → Writes → SetChanges → SetChanges → Exec Server Result
  unfolding values_of has_bad_value stamp_and_write
  apply_transaction times tid key_value prerequisites adds removes = do
    priors ← values_of codec (keys key_value)
    if has_bad_value priors prerequisites
        then raise transaction_error
        else stamp_and_write times tid key_value adds removes priors

  unfoldable pub register_source : Option ChannelId → ℕ → SetChanges → Exec Server (Unit {0})
  unfolding on_routing register_created current_type_map
  register_source none tid adds = pure tt
  register_source (some c) tid adds = do
    types ← current_type_map
    on_routing (register_created types c tid adds)

  -- The test of the version numbers decides.
  unfoldable pub settle : Times → ℕ → Request → Option Key → Exec Server Result
  unfolding apply_transaction nonempty
  settle times tid q (some k) = pure (conflict k tid)
  settle times tid q none =
      apply_transaction times tid q.key_value q.prerequisites (nonempty q.set_adds)
        (nonempty q.set_removes)

  unfoldable pub decide : Times → ℕ → Request → Exec Server Result
  unfolding conflicting checked_keys settle
  decide times tid q s =
      settle times tid q (conflicting s.versions q.as_of_version (checked_keys q)) s

  -- _commitAndBroadcastNewTransaction
  unfoldable pub commit_and_broadcast_new_transaction : Times → Request → Exec Server Result
  unfolding begin_transaction register_source nonempty decide
  commit_and_broadcast_new_transaction times q = do
    tid ← on_versions (begin_transaction q.as_of_version)
    register_source q.source tid (nonempty q.set_adds)
    decide times tid q
