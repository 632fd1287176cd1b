-- ===== src/Proxy/Subscriptions.antt =====
-- Subscriptions of a proxy's clients: `addSubscription`, `sendDataForSubscription` and
-- `handleSubscriptionComplete` of `SubscriptionState`
-- (object_database/proxy_server.py).
use object_database.Prelude.{
  String, Bool, Option, none, some, List, [], ◌∷◌, map, if◌then◌else◌, beq, nat_eq, string_eq,
  list_eq, pair_eq,
}
use object_database.Prelude.Int.{ℤ, ltb_ℤ}
use object_database.Prelude.Exec.{
  key_error, type_error, wrong_kind, ok, raised, Exec, ◌>>=◌, ◌>>◌, pure, raise,
}
use object_database.Collections.Dict.{Dict, get, insert, delete}
use object_database.Collections.Set.{member, add, discard}
use object_database.Schema.{ObjectId, FieldId, IndexValue, IndexId, index_eq, field_definition_eq}
use object_database.Server.Messages.{
  ClientToServer, ServerToClient, subscription_eq, FieldAndValue, subscription_data,
  lazy_subscription_data, subscription_complete,
}
use object_database.Server.State.{ChannelId}
use object_database.Proxy.State.{
  SubscriptionKey, Subscribers, Pending, SubscriptionState, at, add_at, send,
}
use object_database.Proxy.Reads.{
  type_fields, object_identities_for, object_values_for_oids, index_values_for_oids,
}
use object_database.Proxy.Departure.{on_subscribers, on_pending}

unfoldable pub join_field : ChannelId → Bool → FieldId → Subscribers → Subscribers
unfolding add_at
join_field c is_lazy f s = record s {
  field_id_to_subscribed_channels = add_at f c s.field_id_to_subscribed_channels;
  channel_to_subscribed_field_ids = add_at c f s.channel_to_subscribed_field_ids;
  channel_to_lazily_subscribed_field_ids =
      if is_lazy
      then add_at c f s.channel_to_lazily_subscribed_field_ids
      else s.channel_to_lazily_subscribed_field_ids;
}

unfoldable pub join_index : ChannelId → Bool → IndexId → Subscribers → Subscribers
unfolding add_at
join_index c is_lazy k s = record s {
  index_id_to_subscribed_channels = add_at k c s.index_id_to_subscribed_channels;
  channel_to_subscribed_index_ids = add_at c k s.channel_to_subscribed_index_ids;
  channel_to_lazily_subscribed_index_ids =
      if is_lazy
      then add_at c k s.channel_to_lazily_subscribed_index_ids
      else s.channel_to_lazily_subscribed_index_ids;
}

unfoldable pub join_fields : ChannelId → Bool → List FieldId → Subscribers → Subscribers
unfolding join_field
join_fields c is_lazy [] s = s
join_fields c is_lazy (f ∷ fs) s = join_fields c is_lazy fs (join_field c is_lazy f s)

unfoldable pub register_oids :
    ChannelId → List ObjectId → Dict ObjectId (List ChannelId) → Dict ObjectId (List ChannelId)
unfolding add_at
register_oids c [] d = d
register_oids c (i ∷ ids) d = register_oids c ids (add_at i c d)

-- `self.channelToSubscribedOids[channel] = oids`, which replaces what was there, and its loop.
unfoldable pub set_oids : ChannelId → List ObjectId → Subscribers → Subscribers
unfolding register_oids
set_oids c ids s = record s {
  channel_to_subscribed_oids = insert c ids s.channel_to_subscribed_oids;
  oid_to_subscribed_channels = register_oids c ids s.oid_to_subscribed_channels;
}

-- self.schemaTypeAndNameToFieldId[schema][typename]
unfoldable pub fields_of_type : String → String → Exec SubscriptionState (Dict String FieldId)
unfolding type_fields
fields_of_type schema typename s = elim (type_fields s.schemas schema typename) [
  | none ↦ raised key_error s
  | some fields ↦ ok fields s
]

unfoldable pub field_of_type : String → String → String → Exec SubscriptionState FieldId
unfolding fields_of_type
field_of_type schema typename name = do
  fields ← fields_of_type schema typename
  elim (get fields name) [ none ↦ raise key_error | some f ↦ pure f ]

-- The first part of `sendDataForSubscription`: the tables.
unfoldable pub subscribe_index :
    ChannelId
    → SubscriptionKey
    → String × IndexValue
    → List ObjectId
    → Exec SubscriptionState (Unit {0})
unfolding field_of_type join_index set_oids on_subscribers
subscribe_index c key (name, value) ids =
    if beq name "_identity" then on_subscribers (λ s. ok tt (set_oids c ids s)) else (do
      f ← field_of_type key.schema key.typename name
      on_subscribers
          (λ s. ok tt (join_index c key.is_lazy (record { field_id = f; index_value = value }) s))
      on_subscribers (λ s. ok tt (set_oids c ids s)))

unfoldable pub subscribe_type : ChannelId → SubscriptionKey → Exec SubscriptionState (Unit {0})
unfolding fields_of_type join_fields on_subscribers
subscribe_type c key = do
  fields ← fields_of_type key.schema key.typename
  on_subscribers (λ s. ok tt (join_fields c key.is_lazy (map (λ e. e.1) fields) s))

unfoldable pub subscribe_key :
    ChannelId → SubscriptionKey → FieldAndValue → List ObjectId → Exec SubscriptionState (Unit {0})
unfolding subscribe_index subscribe_type
subscribe_key c key none ids = subscribe_type c key
subscribe_key c key (some fv) ids = subscribe_index c key fv ids

-- The second part: the messages.
unfoldable pub data_message : SubscriptionState → SubscriptionKey → List ObjectId → ServerToClient
unfolding object_values_for_oids index_values_for_oids
data_message s key ids =
    let index_vals = index_values_for_oids s key.schema key.typename ids in
    if key.is_lazy
    then lazy_subscription_data key.schema key.typename key.fieldname_and_value ids index_vals
    else subscription_data key.schema key.typename key.fieldname_and_value
        (object_values_for_oids s key.schema key.typename ids) index_vals
        (elim key.fieldname_and_value [ none ↦ none | some _ ↦ some ids ])

unfoldable pub send_data :
    ChannelId → SubscriptionKey → List ObjectId → SubscriptionState → SubscriptionState
unfolding data_message send
send_data c key ids s =
    send c (subscription_complete key.schema key.typename key.fieldname_and_value s.transaction_id)
      (send c (data_message s key ids) s)

-- The second branch of `addSubscription`: the subscription waits for its type.
unfoldable pub await_type : ChannelId → SubscriptionKey → Pending → Pending
unfolding add_at
await_type c key p = record p {
  subscriptions_pending_on_server =
      add_at (key.schema, key.typename) (c, key) p.subscriptions_pending_on_server;
  channel_to_pending_subscriptions = add_at c key p.channel_to_pending_subscriptions;
}

unfoldable pub note_subscription : ChannelId → SubscriptionKey → Subscribers → Subscribers
unfolding add_at
note_subscription c key s = record s {
  channel_subscriptions = add_at c key s.channel_subscriptions;
}

-- self.channelToPendingSubscriptions[channel].discard(subscriptionKey)
unfoldable pub no_longer_pending : ChannelId → SubscriptionKey → Exec Pending (Unit {0})
no_longer_pending c key p = elim (get p.channel_to_pending_subscriptions c) [
  | none ↦ raised key_error p
  | some keys ↦ ok tt (record p {
    channel_to_pending_subscriptions =
        insert c (discard key keys) p.channel_to_pending_subscriptions;
  })
]

-- A channel for which nothing is pending any more is taken off the table, and its messages, if it
-- has sent any, are handed over.
unfoldable pub release_messages : ChannelId → Pending → Pending × Option (List ClientToServer)
unfolding at
release_messages c p = elim (at p.channel_to_pending_subscriptions c) [
  | _ ∷ _ ↦ (p, none)
  | [] ↦ (
    record p {
      channel_to_pending_subscriptions = delete c p.channel_to_pending_subscriptions;
      channel_to_pending_transactions = delete c p.channel_to_pending_transactions;
    },
    get p.channel_to_pending_transactions c,
  )
]

abbrev pub Replay : Type 0
Replay = Dict ChannelId (List ClientToServer)

-- What a list of a client's messages becomes as a value of `Dict(ServerToClientChannel,
-- ListOf(ServerToClient))` of typed_python; `none` says that the assignment raises.
abbrev pub Conversion : Type 0
Conversion = List ClientToServer → Option (List ClientToServer)

unfoldable pub hand_over :
    Conversion → ChannelId → Option (List ClientToServer) → Replay → Exec SubscriptionState Replay
hand_over convert c none replay s = ok replay s
hand_over convert c (some msgs) replay s = elim (convert msgs) [
  | none ↦ raised type_error s
  | some held ↦ ok (insert c held replay) s
]

unfoldable pub release : Conversion → ChannelId → Replay → Exec SubscriptionState Replay
unfolding release_messages hand_over
release convert c replay s =
    let released = release_messages c s.pending in
    hand_over convert c (released.1) replay (record s { pending = released.0 })

module _ (to_identity : IndexValue → Option ObjectId) where
  -- sendDataForSubscription
  unfoldable pub send_data_for_subscription :
      ChannelId → SubscriptionKey → Exec SubscriptionState (Unit {0})
  unfolding object_identities_for subscribe_key send_data
  send_data_for_subscription c key s = elim (object_identities_for to_identity s key) [
    | none ↦ raised wrong_kind s
    | some ids ↦
        (subscribe_key c key key.fieldname_and_value ids >> (λ t. ok tt (send_data c key ids t))) s
  ]

  -- addSubscription
  unfoldable pub add_subscription : ChannelId → SubscriptionKey → Exec SubscriptionState (Unit {0})
  unfolding send_data_for_subscription note_subscription await_type on_subscribers on_pending
  add_subscription c key s =
      let s' = record s { subscribers = note_subscription c key s.subscribers } in
      if member s.completed_types (key.schema, key.typename)
      then send_data_for_subscription c key s'
      else ok tt (record s' { pending = await_type c key s.pending })

module _ (to_identity : IndexValue → Option ObjectId) (convert : Conversion) where
  -- The loop of `handleSubscriptionComplete`.
  unfoldable pub complete_each :
      List (ChannelId × SubscriptionKey) → Replay → Exec SubscriptionState Replay
  unfolding no_longer_pending send_data_for_subscription release on_pending
  complete_each [] replay = pure replay
  complete_each ((c, key) ∷ waiting) replay = do
    on_pending (no_longer_pending c key)
    send_data_for_subscription to_identity c key
    replay' ← release convert c replay
    complete_each waiting replay'

  -- handleSubscriptionComplete: with the messages to handle again, by channel.
  unfoldable pub handle_subscription_complete : String → String → ℤ → Exec SubscriptionState Replay
  unfolding complete_each at
  handle_subscription_complete schema typename tid s =
      complete_each (at s.pending.subscriptions_pending_on_server (schema, typename)) [] (record s {
        transaction_id = if ltb_ℤ s.transaction_id tid then tid else s.transaction_id;
        completed_types = add (schema, typename) s.completed_types;
        pending = record (s.pending) {
          subscriptions_pending_on_server =
              delete (schema, typename) s.pending.subscriptions_pending_on_server;
        };
      })
