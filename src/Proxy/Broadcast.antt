-- ===== src/Proxy/Broadcast.antt =====
-- The second half of `handleTransaction` of `SubscriptionState` (object_database/proxy_server.py): whom
-- a transaction goes to. Then the methods that a client's own transaction and a lazy load call.
pub mod Receivers
use object_database.Prelude.{
  ℕ, String, List, [], ◌∷◌, if◌then◌else◌, beq, not, ◌&&◌, nat_eq, string_eq, list_eq,
}
use object_database.Prelude.Int.{pos, ltb_ℤ}
use object_database.Prelude.Exec.{ok, Exec, ◌>>=◌, ◌>>◌, pure}
use object_database.Collections.Set.{member, add, add_all, difference}
use object_database.Schema.{ObjectId, FieldId, IndexId, index_eq}
use object_database.Server.Messages.{
  Writes, SetChanges, TransactionMessage, ServerToClient, transaction, lazy_transaction_priors,
  lazy_load_response,
}
use object_database.Server.State.{ChannelId}
use object_database.Proxy.State.{Subscribers, SubscriptionState, at, send}
use object_database.Proxy.Reads.{object_values_for_oids, field_ids_of, type_fields}
use object_database.Proxy.Values.{prior_values, apply_writes, apply_removes}
use object_database.Proxy.Transactions.{
  Broadcast, add_sets, increase_broadcasts, def_of_field, grow_oids, on_oids, send_increase,
}

-- oidsMentioned
unfoldable pub ids_of_writes : Writes → List ObjectId
ids_of_writes [] = []
ids_of_writes ((k, b) ∷ writes) = add k.obj_id (ids_of_writes writes)

unfoldable pub ids_of_sets : SetChanges → List ObjectId
ids_of_sets [] = []
ids_of_sets ((k, ids) ∷ sets) = add_all ids (ids_of_sets sets)

unfoldable pub oids_mentioned : Writes → SetChanges → SetChanges → List ObjectId
unfolding ids_of_writes ids_of_sets
oids_mentioned writes adds removes =
    add_all (ids_of_writes writes) (add_all (ids_of_sets removes) (ids_of_sets adds))

-- fieldIds
unfoldable pub fields_of_writes : Writes → List FieldId
fields_of_writes [] = []
fields_of_writes ((k, b) ∷ writes) = add k.field_id (fields_of_writes writes)

unfoldable pub fields_of_sets : SetChanges → List FieldId
fields_of_sets [] = []
fields_of_sets ((k, ids) ∷ sets) = add k.field_id (fields_of_sets sets)

unfoldable pub field_ids_mentioned : Writes → SetChanges → SetChanges → List FieldId
unfolding fields_of_writes fields_of_sets
field_ids_mentioned writes adds removes =
    add_all (fields_of_writes writes) (add_all (fields_of_sets adds) (fields_of_sets removes))

-- The channels subscribed to one of the fields.
unfoldable pub field_channels : Subscribers → List FieldId → List ChannelId
unfolding at
field_channels s [] = []
field_channels s (f ∷ fs) = add_all (at s.field_id_to_subscribed_channels f) (field_channels s fs)

-- The channels subscribed to one of the objects.
unfoldable pub oid_channels : Subscribers → List ObjectId → List ChannelId
unfolding at
oid_channels s [] = []
oid_channels s (i ∷ ids) = add_all (at s.oid_to_subscribed_channels i) (oid_channels s ids)

-- Those of a list that subscribe lazily to a field.
unfoldable pub lazy_channels : Subscribers → FieldId → List ChannelId → List ChannelId
unfolding at
lazy_channels s f [] = []
lazy_channels s f (c ∷ cs) =
    let rest = lazy_channels s f cs in
    if member (at s.channel_to_lazily_subscribed_field_ids c) f then c ∷ rest else rest

unfoldable pub trigger_fields : Subscribers → List FieldId → List ChannelId → List ChannelId
unfolding lazy_channels at
trigger_fields s [] triggered = triggered
trigger_fields s (f ∷ fs) triggered =
    trigger_fields s fs
      (add_all (lazy_channels s f (at s.field_id_to_subscribed_channels f)) triggered)

unfoldable pub send_all : ServerToClient → List ChannelId → SubscriptionState → SubscriptionState
unfolding send
send_all msg [] s = s
send_all msg (c ∷ cs) s = send_all msg cs (send c msg s)

-- What follows the loops: the transaction's number, the prior values for the channels that are lazy, and
-- the transaction for all that are affected.
unfoldable pub deliver :
    ℕ
    → Writes
    → List ChannelId
    → List ChannelId
    → TransactionMessage
    → SubscriptionState
    → SubscriptionState
unfolding send_all
deliver tid priors triggered channels msg s = send_all (transaction msg) channels (
    send_all (lazy_transaction_priors priors) triggered (record s {
      transaction_id = if ltb_ℤ s.transaction_id (pos tid) then pos tid else s.transaction_id;
    }))

unfoldable pub broadcast :
    ℕ
    → Writes
    → List ObjectId
    → Writes
    → SetChanges
    → Broadcast
    → SubscriptionState
    → SubscriptionState
unfolding deliver field_ids_mentioned field_channels oid_channels trigger_fields
broadcast tid priors oids writes removes b s =
    let fields = field_ids_mentioned writes b.set_adds removes in
    deliver tid priors (trigger_fields s.subscribers fields b.triggered)
      (add_all (oid_channels s.subscribers oids) (field_channels s.subscribers fields))
      (record {
        writes = b.writes;
        set_adds = b.set_adds;
        set_removes = removes;
        transaction_id = tid;
      })
      s

-- handleTransaction
unfoldable pub handle_transaction :
    Writes → SetChanges → SetChanges → ℕ → Exec SubscriptionState (Unit {0})
unfolding prior_values apply_writes apply_removes add_sets increase_broadcasts broadcast
    oids_mentioned
handle_transaction writes adds removes tid s =
    (do
      b ←
          add_sets tid adds
            (record { writes = writes; set_adds = adds; triggered = []; increased = [] })
      b' ← increase_broadcasts b.increased b
      (λ t. ok tt (
          broadcast tid (prior_values s.values writes) (oids_mentioned writes adds removes) writes
            removes b' t)))
      (record s { values = apply_removes removes (apply_writes writes s.values) })

-- One round of `increaseSubscriptionIfNecessary`, for a new object's ` exists` index.
unfoldable pub track_new :
    ℕ → IndexId → List ObjectId → ChannelId → Exec SubscriptionState (Unit {0})
unfolding grow_oids on_oids send_increase
track_new tid k [] c s = ok tt s
track_new tid k (i ∷ ids) c s = send_increase tid k (i ∷ ids) c (on_oids (grow_oids c (i ∷ ids)) s)

unfoldable pub track_index :
    ℕ → ChannelId → IndexId → List ObjectId → Exec SubscriptionState (Unit {0})
unfolding track_new def_of_field at
track_index tid c k ids = do
  d ← def_of_field k.field_id
  (λ s.
      if beq d.fieldname " exists"
        && not (member (at s.subscribers.field_id_to_subscribed_channels k.field_id) c)
      then track_new tid k (difference ids (at s.subscribers.channel_to_subscribed_oids c)) c s
      else ok tt s)

-- increaseSubscriptionIfNecessary
unfoldable pub increase_subscription_if_necessary :
    ChannelId → SetChanges → ℕ → Exec SubscriptionState (Unit {0})
unfolding track_index
increase_subscription_if_necessary c [] tid = pure tt
increase_subscription_if_necessary c ((k, ids) ∷ adds) tid =
    track_index tid c k ids >> increase_subscription_if_necessary c adds tid

-- lazyLoadObject
unfoldable pub lazy_load_object :
    ChannelId → String → String → ObjectId → SubscriptionState → SubscriptionState
unfolding send object_values_for_oids
lazy_load_object c schema typename i s =
    send c (lazy_load_response i (object_values_for_oids s schema typename (i ∷ []))) s

-- getChannelsForSchemaAndTypename
unfoldable pub channels_for_type : SubscriptionState → String → String → List ChannelId
unfolding field_channels field_ids_of type_fields
channels_for_type s schema typename =
    field_channels s.subscribers (field_ids_of (type_fields s.schemas schema typename))
