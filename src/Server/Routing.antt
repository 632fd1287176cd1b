-- ===== src/Server/Routing.antt =====
-- Who is told of a transaction: the parts of `_commitAndBroadcastNewTransaction`
-- (object_database/server.py) that work on the subscriptions.
use object_database.Prelude.{
  ℕ, Bool, false, Option, none, some, List, [], ◌∷◌, ◌++◌, if◌then◌else◌, beq, nat_eq, string_eq,
}
use object_database.Prelude.Int.{pos, leb_ℤ}
use object_database.Prelude.Exec.{
  attribute_error, key_error, ok, raised, Exec, ◌>>=◌, ◌>>◌, pure, raise,
}
use object_database.Collections.Dict.{get, has, insert}
use object_database.Collections.Set.{add, add_all, difference}
use object_database.Schema.{ObjectId, FieldId, IndexId, index_eq}
use object_database.Server.Messages.{
  TransactionMessage, Writes, ServerToClient, subscription_increase, transaction,
  lazy_transaction_priors,
}
use object_database.Server.TypeMap.{TypeMap}
use object_database.Server.State.{ChannelId, ConnectedChannel, Routing, write, modify}

-- d.get(k, set())
unfoldable pub channels_at : Option (List ChannelId) → List ChannelId
channels_at none = []
channels_at (some cs) = cs

-- self._id_to_channel.setdefault(identity, set()).add(channel)
unfoldable pub subscribe_id : ChannelId → ObjectId → Routing → Routing
subscribe_id c i r = record r {
  id_to_channel = insert i (add c (channels_at (get r.id_to_channel i))) r.id_to_channel;
}

unfoldable pub subscribe_ids : ChannelId → List ObjectId → Routing → Routing
unfolding subscribe_id
subscribe_ids c [] r = r
subscribe_ids c (i ∷ is) r = subscribe_ids c is (subscribe_id c i r)

-- channel.subscribedIds.update(ids)
unfoldable pub note_ids : ChannelId → List ObjectId → Routing → Routing
unfolding modify
note_ids c ids = modify c (λ cc. record cc { subscribed_ids = add_all ids cc.subscribed_ids })

unfoldable pub channel_of : ChannelId → Exec Routing ConnectedChannel
channel_of c r = elim (get r.channels c) [ none ↦ raised key_error r | some cc ↦ ok cc r ]

unfoldable pub tell : ChannelId → ServerToClient → Exec Routing (Unit {0})
unfolding write
tell c msg r = ok tt (write c msg r)

-- _broadcastSubscriptionIncrease
unfoldable pub broadcast_subscription_increase :
    TypeMap → ChannelId → IndexId → ℕ → List ObjectId → Exec Routing (Unit {0})
unfolding tell
broadcast_subscription_increase types c index_key tid new_ids =
    elim (get types.field_id_to_def index_key.field_id) [
      | none ↦ raise key_error
      | some d ↦ tell c (
          subscription_increase d.schema d.typename (d.fieldname, index_key.index_value) new_ids
            tid)
    ]

-- The source of a transaction that makes new objects of a type to which it is not subscribed
-- becomes subscribed to those objects.
unfoldable pub register_created :
    TypeMap → ChannelId → ℕ → List (IndexId × List ObjectId) → Exec Routing (Unit {0})
unfolding subscribe_ids note_ids channel_of broadcast_subscription_increase
register_created types source tid [] = pure tt
register_created types source tid ((add_index, ids) ∷ adds) =
    let rest = register_created types source tid adds in
    elim (get types.field_id_to_def add_index.field_id) [
      | none ↦ raise attribute_error
      | some d ↦
          if beq d.fieldname " exists"
          then (do
            cc ← channel_of source
            (if has cc.subscribed_fields add_index.field_id then rest else (do
              (λ r. ok tt (subscribe_ids source ids (note_ids source ids r)))
              broadcast_subscription_increase types source add_index tid ids
              rest)))
          else rest
    ]

-- channel.subscribedIndexKeys[index_key] >= 0
unfoldable pub is_lazy_index : ConnectedChannel → IndexId → Bool
is_lazy_index cc k = elim (get cc.subscribed_index_keys k) [
  | none ↦ false
  | some z ↦ leb_ℤ (pos 0) z
]

-- The loop over the channels of one index key: those with a lazy subscription, and the identities
-- that are new to some channel.
unfoldable pub extend_channels :
    TypeMap
    → ℕ
    → IndexId
    → List ObjectId
    → List ChannelId
    → List ChannelId
    → List ObjectId
    → Exec Routing (List ChannelId × List ObjectId)
unfolding channel_of is_lazy_index subscribe_ids note_ids broadcast_subscription_increase
extend_channels types tid k adds [] lazy found = pure (lazy, found)
extend_channels types tid k adds (c ∷ cs) lazy found = do
  cc ← channel_of c
  let new_ids = difference adds cc.subscribed_ids
  (λ r. ok tt (note_ids c new_ids (subscribe_ids c new_ids r)))
  broadcast_subscription_increase types c k tid new_ids
  extend_channels types tid k adds cs (if is_lazy_index cc k then add c lazy else lazy)
      (add_all new_ids found)

-- The loop over the channels that are subscribed to one written field.
unfoldable pub trigger_field :
    FieldId
    → List ChannelId
    → List ChannelId
    → List ChannelId
    → Exec Routing (List ChannelId × List ChannelId)
unfolding channel_of
trigger_field f [] priors triggered = pure (priors, triggered)
trigger_field f (c ∷ cs) priors triggered = do
  cc ← channel_of c
  elim (get cc.subscribed_fields f) [
    | none ↦ raise key_error
    | some z ↦
        trigger_field f cs (if leb_ℤ (pos 0) z then add c priors else priors) (add c triggered)
  ]

unfoldable pub trigger_fields :
    List FieldId → List ChannelId → List ChannelId → Exec Routing (List ChannelId × List ChannelId)
unfolding trigger_field channels_at
trigger_fields [] priors triggered r = ok (priors, triggered) r
trigger_fields (f ∷ fs) priors triggered r =
    (do
      (priors', triggered') ←
          trigger_field f (channels_at (get r.field_id_to_channel f)) priors triggered
      trigger_fields fs priors' triggered')
      r

unfoldable pub trigger_ids : List ObjectId → Routing → List ChannelId → List ChannelId
unfolding channels_at
trigger_ids [] r triggered = triggered
trigger_ids (i ∷ is) r triggered =
    trigger_ids is r (add_all (channels_at (get r.id_to_channel i)) triggered)

unfoldable pub tell_all : List ChannelId → ServerToClient → Routing → Routing
unfolding write
tell_all [] msg r = r
tell_all (c ∷ cs) msg r = tell_all cs msg (write c msg r)

-- The end of the method: who hears of the old values, the subscription in progress, and who hears
-- of the transaction.
unfoldable pub broadcast :
    List FieldId
    → List ObjectId
    → List ChannelId
    → Writes
    → TransactionMessage
    → Exec Routing (List ChannelId)
unfolding trigger_fields trigger_ids tell_all
broadcast fields ids lazy priors msg = do
  (for_priors, by_field) ← trigger_fields fields lazy []
  λ r.
      let triggered = trigger_ids ids r by_field in
      let told = tell_all for_priors (lazy_transaction_priors priors) r in
      let noted = record told {
        pending_subscription_recheck = elim told.pending_subscription_recheck [
          | none ↦ none
          | some ms ↦ some (ms ++ msg ∷ [])
        ];
      } in
      ok triggered (tell_all triggered (transaction msg) noted)
