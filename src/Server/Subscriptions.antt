-- ===== src/Server/Subscriptions.antt =====
-- Subscriptions that `Server` (object_database/server.py) answers at once, on the thread of the
-- message. A large one is put on the queue of the subscription thread.
use object_database.Prelude.{
  ℕ, String, Bool, true, false, not, ◌&&◌, ◌||◌, none, some, List, [], ◌∷◌, ◌++◌, map,
  if◌then◌else◌, ltb, length, nat_eq, string_eq, beq,
}
use object_database.Prelude.Int.{ℤ, pos, negsuc}
use object_database.Prelude.Exec.{
  assertion_error, key_error, type_error, wrong_kind, ok, raised, Exec, ◌>>=◌, ◌>>◌, pure, raise,
  ensure, for_each,
}
use object_database.Collections.Dict.{get, insert, update}
use object_database.Collections.Set.{add}
use object_database.Schema.{
  ObjectId, FieldId, IndexValue, IndexId, TypeDefinition, index_eq, object_field_eq,
}
use object_database.Persistence.Value.{index, SetValue, identity, value}
use object_database.Persistence.{IndexCodec, get_set_members}
use object_database.Server.Messages.{
  FieldAndValue, Subscription, Writes, subscription_data, lazy_subscription_data,
  subscription_complete,
}
use object_database.Server.TypeMap.{definition, lookup_or_add, field_id_for}
use object_database.Server.State.{ChannelId, Routing, Server, write, modify, on_store, on_routing}
use object_database.Server.Routing.{channels_at, channel_of, subscribe_ids, note_ids}
use object_database.Server.Growth.{current_type_map, typedef_of, values_of, all_field_keys}
use object_database.Server.Connections.{Serialization}

abbrev pub max_normal_to_send_synchronously : ℕ
max_normal_to_send_synchronously = 1000

abbrev pub max_lazy_to_send_synchronously : ℕ
max_lazy_to_send_synchronously = 10000

-- lookupOrAdd on the type map of the server.
unfoldable pub look_up : String → String → String → Exec Server FieldId
unfolding lookup_or_add
look_up schema typename name s =
    let found = lookup_or_add s.type_map (definition schema typename name) in
    elim found.1 [
      | none ↦ raised key_error (record s { type_map = found.0 })
      | some f ↦ ok f (record s { type_map = found.0 })
    ]

-- The identities in a stored index set.
unfoldable pub identities_in : List SetValue → List ObjectId
identities_in [] = []
identities_in (identity i ∷ vs) = i ∷ identities_in vs
identities_in (value b ∷ vs) = identities_in vs

-- The field and the value of a subscription; that of a type is one to its `exists` field.
unfoldable pub field_and_value : IndexValue → FieldAndValue → String × IndexValue
field_and_value index_true none = (" exists", index_true)
field_and_value index_true (some fv) = fv

unfoldable pub lazy_transaction : Bool → Server → ℤ
lazy_transaction is_lazy s = if is_lazy then pos s.versions.cur_transaction_num else negsuc 0

-- A number that `_defineSchema` gave to the field; a field that has none does not get here.
unfoldable pub numbered : String → String → String → Exec Server FieldId
unfolding current_type_map
numbered schema typename name = do
  types ← current_type_map
  elim (field_id_for types (definition schema typename name)) [
    | none ↦ raise type_error
    | some f ↦ pure f
  ]

-- The last lines of `_markSubscriptionComplete`, for one index key or field.
unfoldable pub join_index : ChannelId → IndexId → ℤ → Routing → Routing
unfolding channels_at modify
join_index c k tid r =
    modify c (λ cc. record cc { subscribed_index_keys = insert k tid cc.subscribed_index_keys })
      (record r {
        index_to_channel =
            insert k (add c (channels_at (get r.index_to_channel k))) r.index_to_channel;
      })

unfoldable pub join_field : ChannelId → FieldId → ℤ → Routing → Routing
unfolding channels_at modify
join_field c f tid r =
    modify c (λ cc. record cc { subscribed_fields = insert f tid cc.subscribed_fields })
      (record r {
        field_id_to_channel =
            insert f (add c (channels_at (get r.field_id_to_channel f))) r.field_id_to_channel;
      })

unfoldable pub complete_field : ChannelId → String → String → Bool → String → Exec Server (Unit {0})
unfolding numbered join_field lazy_transaction on_routing
complete_field c schema typename is_lazy name = do
  f ← numbered schema typename name
  λ s. on_routing (λ r. ok tt (join_field c f (lazy_transaction is_lazy s) r)) s

unfoldable pub complete_index :
    ChannelId → String → String → Bool → String × IndexValue → Exec Server (Unit {0})
unfolding numbered join_index lazy_transaction on_routing
complete_index c schema typename is_lazy fv =
    if beq fv.0 "_identity" then ensure (not is_lazy) assertion_error else (do
      f ← numbered schema typename fv.0
      λ s.
          on_routing
            (λ r. ok tt (
              join_index c (record { field_id = f; index_value = fv.1 })
                (lazy_transaction is_lazy s) r))
            s)

-- _markSubscriptionComplete
unfoldable pub mark_subscription_complete :
    ChannelId → String → String → FieldAndValue → List ObjectId → Bool → Exec Server (Unit {0})
unfolding complete_field complete_index subscribe_ids note_ids typedef_of channel_of on_routing
    for_each
mark_subscription_complete c schema typename (some fv) ids is_lazy = do
  on_routing (λ r. ok tt (note_ids c ids (subscribe_ids c ids r)))
  complete_index c schema typename is_lazy fv
mark_subscription_complete c schema typename none ids is_lazy = do
  cc ← on_routing (channel_of c)
  typedef ← typedef_of cc schema typename
  for_each typedef.fields (complete_field c schema typename is_lazy)

unfoldable pub tell_complete : ChannelId → Subscription → Exec Server (Unit {0})
unfolding write on_routing
tell_complete c msg s =
    on_routing
      (λ r. ok tt (
        write c
          (subscription_complete msg.schema msg.typename msg.fieldname_and_value
            (pos s.versions.cur_transaction_num))
          r))
      s

module _ (codec : IndexCodec) (ser : Serialization) where
  unfoldable pub subscribed_identities :
      String → String → String × IndexValue → Exec Server (List ObjectId)
  unfolding look_up identities_in on_store
  subscribed_identities schema typename fv =
      if beq fv.0 "_identity"
      then (elim (ser.to_identity fv.1) [ none ↦ raise wrong_kind | some i ↦ pure (i ∷ []) ])
      else (do
        f ← look_up schema typename fv.0
        vs ← on_store (get_set_members (index (record { field_id = f; index_value = fv.1 })))
        pure (identities_in vs))

  -- _parseSubscriptionMsg. Both of its assertions fail with an AssertionError.
  unfoldable pub parse_subscription_msg :
      ChannelId → Subscription → Exec Server (TypeDefinition × List ObjectId)
  unfolding subscribed_identities field_and_value channel_of on_routing
  parse_subscription_msg c msg = do
    cc ← on_routing (channel_of c)
    elim (get cc.defined_schemas msg.schema) [
      | none ↦ raise assertion_error
      | some types ↦ elim (get types msg.typename) [
        | none ↦ raise assertion_error
        | some typedef ↦ do
          ids ←
              subscribed_identities msg.schema msg.typename
                (field_and_value ser.index_true msg.fieldname_and_value)
          pure (typedef, ids)
      ]
    ]

  -- _buildIndexValueMap
  unfoldable pub build_index_value_map :
      String → String → List String → List ObjectId → Writes → Exec Server Writes
  unfolding look_up values_of
  build_index_value_map schema typename [] ids index_vals = pure index_vals
  build_index_value_map schema typename (name ∷ names) ids index_vals = do
    f ← look_up schema typename name
    vs ← values_of codec (map (λ i. record { obj_id = i; field_id = f; is_index_value = true }) ids)
    build_index_value_map schema typename names ids (update index_vals vs)

  -- _completeLazySubscription
  unfoldable pub complete_lazy_subscription :
      ChannelId → Subscription → TypeDefinition → List ObjectId → Exec Server (Unit {0})
  unfolding build_index_value_map mark_subscription_complete tell_complete write on_routing
  complete_lazy_subscription c msg typedef ids = do
    index_vals ← build_index_value_map msg.schema msg.typename typedef.indices ids []
    on_routing (λ r. ok tt (
        write c
          (lazy_subscription_data msg.schema msg.typename msg.fieldname_and_value ids index_vals)
          r))
    mark_subscription_complete c msg.schema msg.typename msg.fieldname_and_value ids true
    tell_complete c msg

  -- `_sendPartialSubscription` with no limit on the batch and no transactions to look through.
  unfoldable pub send_whole_subscription :
      ChannelId → Subscription → TypeDefinition → List ObjectId → Exec Server (Unit {0})
  unfolding all_field_keys values_of build_index_value_map current_type_map write on_routing
  send_whole_subscription c msg typedef ids = do
    types ← current_type_map
    ks ← all_field_keys types msg.schema msg.typename typedef.fields ids
    values ← values_of codec ks
    index_vals ← build_index_value_map msg.schema msg.typename typedef.indices ids []
    on_routing (λ r. ok tt (
        write c
          (subscription_data msg.schema msg.typename msg.fieldname_and_value values index_vals
            (elim msg.fieldname_and_value [ none ↦ none | some _ ↦ some ids ]))
          r))

  unfoldable pub is_synchronous : Bool → ℕ → Bool
  is_synchronous is_lazy n =
      (is_lazy && ltb n max_lazy_to_send_synchronously) || ltb n max_normal_to_send_synchronously

  unfoldable pub answer_subscription :
      ChannelId → Subscription → TypeDefinition → List ObjectId → Exec Server (Unit {0})
  unfolding complete_lazy_subscription send_whole_subscription mark_subscription_complete
      tell_complete
  answer_subscription c msg typedef ids =
      if msg.is_lazy then complete_lazy_subscription c msg typedef ids else (do
        send_whole_subscription c msg typedef ids
        mark_subscription_complete c msg.schema msg.typename msg.fieldname_and_value ids false
        tell_complete c msg)

  -- _handleSubscriptionInForeground
  unfoldable pub handle_subscription_in_foreground :
      ChannelId → Subscription → Exec Server (Unit {0})
  unfolding parse_subscription_msg is_synchronous answer_subscription
  handle_subscription_in_foreground c msg = do
    (typedef, ids) ← parse_subscription_msg c msg
    if is_synchronous msg.is_lazy (length ids)
        then answer_subscription c msg typedef ids
        else (λ s. ok tt (record s { subscription_queue = s.subscription_queue ++ (c, msg) ∷ [] }))
