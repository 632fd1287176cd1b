-- ===== src/Proxy/Departure.antt =====
-- `dropConnection` of `SubscriptionState` (object_database/proxy_server.py).
pub mod Untouched
use object_database.Prelude.{Option, none, some, List, [], ◌∷◌, Eq, nat_eq, string_eq, pair_eq}
use object_database.Prelude.Exec.{key_error, type_error, ok, raised, Exec, ◌>>◌, for_each}
use object_database.Collections.Dict.{Dict, get, insert, delete}
use object_database.Collections.Set.{discard}
use object_database.Schema.{index_eq}
use object_database.Server.State.{ChannelId}
use object_database.Proxy.State.{SubscriptionKey, Subscribers, Pending, SubscriptionState}

-- d[k].discard(channel)
unfoldable pub discard_from :
    {K : Type 0} ⦃e : Eq K⦄ → ChannelId → K → Exec (Dict K (List ChannelId)) (Unit {0})
discard_from c k d = elim (get d k) [
  | none ↦ raised key_error d
  | some cs ↦ ok tt (insert k (discard c cs) d)
]

-- And `d.pop(k)` if nobody is left.
unfoldable pub release_from :
    {K : Type 0} ⦃e : Eq K⦄ → ChannelId → K → Exec (Dict K (List ChannelId)) (Unit {0})
release_from c k d = elim (get d k) [
  | none ↦ raised key_error d
  | some cs ↦ elim (discard c cs) [ [] ↦ ok tt (delete k d) | i ∷ is ↦ ok tt (insert k (i ∷ is) d) ]
]

unfoldable pub drop_fields : ChannelId → Exec Subscribers (Unit {0})
unfolding discard_from for_each
drop_fields c s = elim (get s.channel_to_subscribed_field_ids c) [
  | none ↦ ok tt s
  | some fs ↦ elim (for_each fs (discard_from c) s.field_id_to_subscribed_channels) [
    | raised e d ↦ raised e (record s { field_id_to_subscribed_channels = d })
    | ok _ d ↦ ok tt (record s {
      field_id_to_subscribed_channels = d;
      channel_to_subscribed_field_ids = delete c s.channel_to_subscribed_field_ids;
    })
  ]
]

unfoldable pub drop_indices : ChannelId → Exec Subscribers (Unit {0})
unfolding discard_from for_each
drop_indices c s = elim (get s.channel_to_subscribed_index_ids c) [
  | none ↦ ok tt s
  | some ks ↦ elim (for_each ks (discard_from c) s.index_id_to_subscribed_channels) [
    | raised e d ↦ raised e (record s { index_id_to_subscribed_channels = d })
    | ok _ d ↦ ok tt (record s {
      index_id_to_subscribed_channels = d;
      channel_to_subscribed_index_ids = delete c s.channel_to_subscribed_index_ids;
    })
  ]
]

unfoldable pub drop_oids : ChannelId → Exec Subscribers (Unit {0})
unfolding release_from for_each
drop_oids c s = elim (get s.channel_to_subscribed_oids c) [
  | none ↦ ok tt s
  | some ids ↦ elim (for_each ids (release_from c) s.oid_to_subscribed_channels) [
    | raised e d ↦ raised e (record s { oid_to_subscribed_channels = d })
    | ok _ d ↦ ok tt (record s {
      oid_to_subscribed_channels = d;
      channel_to_subscribed_oids = delete c s.channel_to_subscribed_oids;
    })
  ]
]

unfoldable pub on_subscribers : {A : Type 0} → Exec Subscribers A → Exec SubscriptionState A
on_subscribers m s = elim (m s.subscribers) [
  | ok a t ↦ ok a (record s { subscribers = t })
  | raised e t ↦ raised e (record s { subscribers = t })
]

unfoldable pub on_pending : {A : Type 0} → Exec Pending A → Exec SubscriptionState A
on_pending m s = elim (m s.pending) [
  | ok a t ↦ ok a (record s { pending = t })
  | raised e t ↦ raised e (record s { pending = t })
]

-- The entries that go without a look at their contents.
unfoldable pub forget_subscriptions : ChannelId → Subscribers → Subscribers
forget_subscriptions c s = record s { channel_subscriptions = delete c s.channel_subscriptions }

unfoldable pub forget_transactions : ChannelId → Pending → Pending
forget_transactions c p = record p {
  channel_to_pending_transactions = delete c p.channel_to_pending_transactions;
}

unfoldable pub forget_laziness : ChannelId → Subscribers → Subscribers
forget_laziness c s = record s {
  channel_to_lazily_subscribed_field_ids = delete c s.channel_to_lazily_subscribed_field_ids;
  channel_to_lazily_subscribed_index_ids = delete c s.channel_to_lazily_subscribed_index_ids;
}

-- `pop` of typed_python's Set, called with the element; `none` says that it raises.
abbrev pub SetPop : Type 0
SetPop =
    List (ChannelId × SubscriptionKey)
    → ChannelId × SubscriptionKey
    → Option (List (ChannelId × SubscriptionKey))

module _ (set_pop : SetPop) where
  unfoldable pub withdraw : ChannelId → SubscriptionKey → Exec Pending (Unit {0})
  withdraw c key p = elim (get p.subscriptions_pending_on_server (key.schema, key.typename)) [
    | none ↦ raised key_error p
    | some waiting ↦ elim (set_pop waiting (c, key)) [
      | none ↦ raised type_error p
      | some rest ↦ ok tt (record p {
        subscriptions_pending_on_server =
            insert (key.schema, key.typename) rest p.subscriptions_pending_on_server;
      })
    ]
  ]

  unfoldable pub drop_pending : ChannelId → Exec Pending (Unit {0})
  unfolding withdraw for_each
  drop_pending c p = elim (get p.channel_to_pending_subscriptions c) [
    | none ↦ ok tt p
    | some keys ↦ elim (for_each keys (withdraw c) p) [
      | raised e p' ↦ raised e p'
      | ok _ p' ↦ ok tt (record p' {
        channel_to_pending_subscriptions = delete c p'.channel_to_pending_subscriptions;
      })
    ]
  ]

  -- dropConnection
  unfoldable pub drop_connection : ChannelId → Exec SubscriptionState (Unit {0})
  unfolding drop_fields drop_indices drop_oids drop_pending on_subscribers on_pending
      forget_subscriptions forget_transactions forget_laziness
  drop_connection c = do
    on_subscribers (drop_fields c)
    on_subscribers (drop_indices c)
    on_subscribers (drop_oids c)
    on_subscribers (λ s. ok tt (forget_subscriptions c s))
    on_pending (λ p. ok tt (forget_transactions c p))
    on_pending (drop_pending c)
    on_subscribers (λ s. ok tt (forget_laziness c s))
