-- ===== src/Proxy/Transactions.antt =====
-- `handleTransaction`, `_increaseBroadcastTransactionToInclude`, `increaseSubscriptionIfNecessary`,
-- `lazyLoadObject` and `getChannelsForSchemaAndTypename` of `SubscriptionState`
-- (object_database/proxy_server.py).
use object_database.Prelude.{
  ℕ, String, false, none, some, List, [], ◌∷◌, if◌then◌else◌, nat_eq, string_eq, list_eq,
}
use object_database.Prelude.Exec.{key_error, ok, raised, Exec, ◌>>=◌, ◌>>◌, pure, raise}
use object_database.Collections.Dict.{Dict, get}
use object_database.Collections.Set.{member, add, difference}
use object_database.Schema.{
  ObjectId, FieldId, IndexValue, IndexId, FieldDefinition, TypeDefinition, index_eq,
  object_field_eq,
}
use object_database.Server.Messages.{Writes, SetChanges, subscription_increase}
use object_database.Server.State.{ChannelId}
use object_database.Proxy.State.{
  Subscribers, Values, SubscriptionState, at, add_at, update_at, send,
}
use object_database.Proxy.Reads.{collect_field}
use object_database.Proxy.Subscriptions.{register_oids, fields_of_type}
use object_database.Proxy.Values.{apply_add}

-- The variables of `handleTransaction` that its loops change: `writes`, `set_adds`,
-- `channelsTriggeredForPriors` and `idsToAddToTransaction`.
pub record Broadcast : Type 0 where
  pub writes : Writes
  pub set_adds : SetChanges
  pub triggered : List ChannelId
  pub increased : SetChanges

-- self.channelToSubscribedOids.setdefault(channel).update(newOids), and its loop
unfoldable pub grow_oids : ChannelId → List ObjectId → Subscribers → Subscribers
unfolding update_at register_oids
grow_oids c ids s = record s {
  channel_to_subscribed_oids = update_at c ids s.channel_to_subscribed_oids;
  oid_to_subscribed_channels = register_oids c ids s.oid_to_subscribed_channels;
}

-- self.fieldIdToDef[f]
unfoldable pub def_of_field : FieldId → Exec SubscriptionState FieldDefinition
def_of_field f s = elim (get s.schemas.field_id_to_def f) [
  | none ↦ raised key_error s
  | some d ↦ ok d s
]

-- A `SubscriptionIncrease` to a channel, for objects that are registered for it first.
unfoldable pub send_increase :
    ℕ → IndexId → List ObjectId → ChannelId → Exec SubscriptionState (Unit {0})
unfolding def_of_field send
send_increase tid k ids c = do
  d ← def_of_field k.field_id
  (λ s.
      ok tt
        (send c (subscription_increase d.schema d.typename (d.fieldname, k.index_value) ids tid) s))

unfoldable pub on_oids : (Subscribers → Subscribers) → SubscriptionState → SubscriptionState
on_oids f s = record s { subscribers = f s.subscribers }

-- The ids that the channel does not have yet.
unfoldable pub new_oids : Subscribers → ChannelId → List ObjectId → List ObjectId
new_oids s c ids = elim (get s.channel_to_subscribed_oids c) [
  | none ↦ ids
  | some existing ↦ difference ids existing
]

unfoldable pub trigger_index : SubscriptionState → IndexId → ChannelId → Broadcast → Broadcast
unfolding at
trigger_index s k c b =
    if member (at s.subscribers.channel_to_lazily_subscribed_index_ids c) k
    then record b { triggered = add c b.triggered }
    else b

unfoldable pub increase_new :
    ℕ → IndexId → List ObjectId → ChannelId → Broadcast → Exec SubscriptionState Broadcast
unfolding grow_oids send_increase on_oids update_at
increase_new tid k [] c b s = ok b s
increase_new tid k (i ∷ ids) c b s =
    (send_increase tid k (i ∷ ids) c
        >> pure (record b { increased = update_at k (i ∷ ids) b.increased }))
      (on_oids (grow_oids c (i ∷ ids)) s)

unfoldable pub increase_channel :
    ℕ → IndexId → List ObjectId → ChannelId → Broadcast → Exec SubscriptionState Broadcast
unfolding increase_new trigger_index new_oids
increase_channel tid k ids c b s =
    increase_new tid k (new_oids s.subscribers c ids) c (trigger_index s k c b) s

unfoldable pub increase_channels :
    ℕ → IndexId → List ObjectId → List ChannelId → Broadcast → Exec SubscriptionState Broadcast
unfolding increase_channel
increase_channels tid k ids [] b = pure b
increase_channels tid k ids (c ∷ cs) b = do
  b' ← increase_channel tid k ids c b
  increase_channels tid k ids cs b'

-- The loop over `set_adds`.
unfoldable pub add_sets : ℕ → SetChanges → Broadcast → Exec SubscriptionState Broadcast
unfolding increase_channels apply_add at
add_sets tid [] b s = ok b s
add_sets tid ((k, ids) ∷ adds) b s =
    (do
      b' ← increase_channels tid k ids (at s.subscribers.index_id_to_subscribed_channels k) b
      (λ t. ok tt (record t { values = apply_add k ids t.values }))
      add_sets tid adds b')
      s

-- The names of a type's fields, or of its indices, as ids.
unfoldable pub resolve : Dict String FieldId → List String → Exec SubscriptionState (List FieldId)
resolve fields [] = pure []
resolve fields (name ∷ names) = do
  f ← elim (get fields name) [ none ↦ raise key_error | some f ↦ pure f ]
  fs ← resolve fields names
  pure (f ∷ fs)

unfoldable pub include_fields : Values → List FieldId → List ObjectId → Writes → Writes
unfolding collect_field at
include_fields v [] ids writes = writes
include_fields v (f ∷ fs) ids writes =
    include_fields v fs ids (collect_field false f (at v.object_values f) ids writes)

unfoldable pub include_index :
    Dict ObjectId IndexValue → FieldId → List ObjectId → SetChanges → SetChanges
unfolding add_at
include_index vals f [] adds = adds
include_index vals f (i ∷ ids) adds = include_index vals f ids (elim (get vals i) [
  | none ↦ adds
  | some value ↦ add_at (record { field_id = f; index_value = value }) i adds
])

unfoldable pub include_indices : Values → List FieldId → List ObjectId → SetChanges → SetChanges
unfolding include_index at
include_indices v [] ids adds = adds
include_indices v (f ∷ fs) ids adds =
    include_indices v fs ids (include_index (at v.object_values f) f ids adds)

-- self._definedSchemas[schema][typename]
unfoldable pub defined_type : String → String → Exec SubscriptionState TypeDefinition
defined_type schema typename s = elim (get s.schemas.defined_schemas schema) [
  | none ↦ raised key_error s
  | some types ↦ elim (get types typename) [ none ↦ raised key_error s | some t ↦ ok t s ]
]

-- _increaseBroadcastTransactionToInclude
unfoldable pub increase_broadcast :
    IndexId → List ObjectId → Broadcast → Exec SubscriptionState Broadcast
unfolding def_of_field fields_of_type defined_type resolve include_fields include_indices
increase_broadcast k ids b = do
  d ← def_of_field k.field_id
  names ← fields_of_type d.schema d.typename
  t ← defined_type d.schema d.typename
  fields ← resolve names t.fields
  indices ← resolve names t.indices
  (λ s.
      ok
        (record b {
          writes = include_fields s.values fields ids b.writes;
          set_adds = include_indices s.values indices ids b.set_adds;
        })
        s)

unfoldable pub increase_broadcasts : SetChanges → Broadcast → Exec SubscriptionState Broadcast
unfolding increase_broadcast
increase_broadcasts [] b = pure b
increase_broadcasts ((k, ids) ∷ increased) b = do
  b' ← increase_broadcast k ids b
  increase_broadcasts increased b'
