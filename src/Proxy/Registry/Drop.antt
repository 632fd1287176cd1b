-- ===== src/Proxy/Registry/Drop.antt =====
-- What `dropConnection` of `SubscriptionState` (object_database/proxy_server.py) leaves of a channel's
-- subscriptions to fields and index values.
use object_database.Prelude.{
  Option, none, some, List, ◌≡◌, refl, sym, subst, ◌∙◌, nat_eq, list_eq, inl, inr, Option-cases,
}
use object_database.Prelude.Exec.{
  Exec, Outcome, ok, raised, state_of, for_each, Preserves, bind-Preserves, bind-ok, ◌>>◌,
}
use object_database.Collections.Dict.{Dict, get, delete}
use object_database.Schema.{ObjectId, index_eq}
use object_database.Server.State.{ChannelId}
use object_database.Proxy.State.{Subscribers, Pending, SubscriptionState}
use object_database.Proxy.Departure.{
  SetPop, release_from, drop_fields, drop_indices, drop_oids, on_subscribers, on_pending,
  forget_subscriptions, forget_transactions, forget_laziness, drop_pending, drop_connection,
}
use object_database.Proxy.Registry.{
  IsRegistered, IsAbsent, discards, for_each-discards, leave-IsMirrored, leave-IsAbsent,
  none-IsAbsent, listed-has,
}

-- The tables are mirrored, and the channel is in none of the sets of a field.
HasNoField : ChannelId → Subscribers → Type 0
HasNoField c s = IsRegistered s × IsAbsent c s.field_id_to_subscribed_channels

-- Nor in one of an index value.
unfoldable pub HasLeft : ChannelId → Subscribers → Type 0
unfolding IsRegistered IsAbsent
HasLeft c s =
    IsRegistered s
    × IsAbsent c s.field_id_to_subscribed_channels
    × IsAbsent c s.index_id_to_subscribed_channels

Leads : (Subscribers → Type 0) → Outcome Subscribers (Unit {0}) → Type 0
Leads Q o = (s : Subscribers) × (o ≡ ok tt s) × Q s

drop_fields-HasNoField :
    (c : ChannelId) (s : Subscribers) → IsRegistered s → Leads (HasNoField c) (drop_fields c s)
unfolding Leads HasNoField IsRegistered drop_fields
drop_fields-HasNoField c s h =
    let own = s.channel_to_subscribed_field_ids in
    let table = s.field_id_to_subscribed_channels in
    elim (Option-cases (get own c)) [
      | inl e ↦ (s, rw (drop_fields, e) refl, ((h.0, h.1), none-IsAbsent c table own e (h.0)))
      | inr (fs, e) ↦ (
        record s {
          field_id_to_subscribed_channels = discards c fs table;
          channel_to_subscribed_field_ids = delete c own;
        },
        rw (drop_fields, e, for_each-discards c fs table (listed-has c fs table own e (h.0))) refl,
        ((leave-IsMirrored c fs table own e (h.0), h.1), leave-IsAbsent c fs table own e (h.0)),
      )
    ]

drop_indices-HasLeft :
    (c : ChannelId) (s : Subscribers) → HasNoField c s → Leads (HasLeft c) (drop_indices c s)
unfolding Leads HasNoField HasLeft IsRegistered drop_indices
drop_indices-HasLeft c s (h, gone) =
    let own = s.channel_to_subscribed_index_ids in
    let table = s.index_id_to_subscribed_channels in
    elim (Option-cases (get own c)) [
      | inl e ↦
          (s, rw (drop_indices, e) refl, ((h.0, h.1), gone, none-IsAbsent c table own e (h.1)))
      | inr (ks, e) ↦ (
        record s {
          index_id_to_subscribed_channels = discards c ks table;
          channel_to_subscribed_index_ids = delete c own;
        },
        rw (drop_indices, e, for_each-discards c ks table (listed-has c ks table own e (h.1))) refl,
        (
          (h.0, leave-IsMirrored c ks table own e (h.1)),
          gone,
          leave-IsAbsent c ks table own e (h.1),
        ),
      )
    ]

-- The rest of `dropConnection` leaves these tables alone.
on_subscribers-HasLeft :
    (c : ChannelId) (m : Exec Subscribers (Unit {0}))
    → Preserves (HasLeft c) m
    → Preserves (λ s. HasLeft c s.subscribers) (on_subscribers m)
unfolding on_subscribers
on_subscribers-HasLeft c m k = record {
  kept = λ s h. go s (m s.subscribers) (k.kept s.subscribers h);
}
  where
    go :
        (s : SubscriptionState) (o : Outcome Subscribers (Unit {0}))
        → HasLeft c (state_of o)
        → HasLeft c
            (state_of {S = SubscriptionState} {A = Unit {0}} (elim o [
              | ok a t ↦ ok a (record s { subscribers = t })
              | raised e t ↦ raised e (record s { subscribers = t })
            ])).subscribers
    go s (ok a t) h = h
    go s (raised e t) h = h

on_pending-HasLeft :
    (c : ChannelId) (m : Exec Pending (Unit {0}))
    → Preserves (λ s. HasLeft c s.subscribers) (on_pending m)
unfolding on_pending
on_pending-HasLeft c m = record { kept = λ s h. go s (m s.pending) h }
  where
    go :
        (s : SubscriptionState) (o : Outcome Pending (Unit {0}))
        → HasLeft c s.subscribers
        → HasLeft c
            (state_of {S = SubscriptionState} {A = Unit {0}} (elim o [
              | ok a t ↦ ok a (record s { pending = t })
              | raised e t ↦ raised e (record s { pending = t })
            ])).subscribers
    go s (ok a t) h = h
    go s (raised e t) h = h

drop_oids-HasLeft : (c : ChannelId) → Preserves (HasLeft c) (drop_oids c)
unfolding drop_oids HasLeft
drop_oids-HasLeft c = record { kept = λ s h. go s h (get s.channel_to_subscribed_oids c) }
  where
    loop :
        (s : Subscribers)
        → HasLeft c s
        → (o : Outcome (Dict ObjectId (List ChannelId)) (Unit {0}))
        → HasLeft c (
            state_of (elim o [
              | raised e d ↦ raised e (record s { oid_to_subscribed_channels = d })
              | ok _ d ↦ ok tt (record s {
                oid_to_subscribed_channels = d;
                channel_to_subscribed_oids = delete c s.channel_to_subscribed_oids;
              })
            ]))
    loop s h (ok a d) = h
    loop s h (raised e d) = h

    go :
        (s : Subscribers)
        → HasLeft c s
        → (o : Option (List ObjectId))
        → HasLeft c (
            state_of (elim o [
              | none ↦ ok tt s
              | some ids ↦ elim (for_each ids (release_from c) s.oid_to_subscribed_channels) [
                | raised e d ↦ raised e (record s { oid_to_subscribed_channels = d })
                | ok _ d ↦ ok tt (record s {
                  oid_to_subscribed_channels = d;
                  channel_to_subscribed_oids = delete c s.channel_to_subscribed_oids;
                })
              ]
            ]))
    go s h none = h
    go s h (some ids) = loop s h (for_each ids (release_from c) s.oid_to_subscribed_channels)

-- The last five steps of `dropConnection`.
unfoldable finish : SetPop → ChannelId → Exec SubscriptionState (Unit {0})
finish set_pop c = do
  on_subscribers (drop_oids c)
  on_subscribers (λ s. ok tt (forget_subscriptions c s))
  on_pending (λ p. ok tt (forget_transactions c p))
  on_pending (drop_pending set_pop c)
  on_subscribers (λ s. ok tt (forget_laziness c s))

forget-HasLeft :
    (c : ChannelId) → Preserves {A = Unit {0}} (HasLeft c) (λ s. ok tt (forget_subscriptions c s))
unfolding forget_subscriptions HasLeft
forget-HasLeft c = record { kept = λ s h. h }

laziness-HasLeft :
    (c : ChannelId) → Preserves {A = Unit {0}} (HasLeft c) (λ s. ok tt (forget_laziness c s))
unfolding forget_laziness HasLeft
laziness-HasLeft c = record { kept = λ s h. h }

finish-HasLeft :
    (set_pop : SetPop) (c : ChannelId) → Preserves (λ s. HasLeft c s.subscribers) (finish set_pop c)
unfolding finish
finish-HasLeft set_pop c =
    bind-Preserves (on_subscribers (drop_oids c)) _
      (on_subscribers-HasLeft c (drop_oids c) (drop_oids-HasLeft c))
      (λ _.
        bind-Preserves (on_subscribers (λ s. ok tt (forget_subscriptions c s))) _
          (on_subscribers-HasLeft c _ (forget-HasLeft c))
          (λ _.
            bind-Preserves (on_pending (λ p. ok tt (forget_transactions c p))) _
              (on_pending-HasLeft c _)
              (λ _.
                bind-Preserves (on_pending (drop_pending set_pop c)) _
                  (on_pending-HasLeft c (drop_pending set_pop c))
                  (λ _. on_subscribers-HasLeft c _ (laziness-HasLeft c)))))

on_subscribers-ok :
    (m : Exec Subscribers (Unit {0})) (s : SubscriptionState) (t : Subscribers)
    → m s.subscribers ≡ ok tt t
    → on_subscribers m s ≡ ok tt (record s { subscribers = t })
unfolding on_subscribers
on_subscribers-ok m s t e = rw (on_subscribers, e) refl

drop_connection-finish :
    (set_pop : SetPop) (c : ChannelId) (s : SubscriptionState) (t u : Subscribers)
    → drop_fields c s.subscribers ≡ ok tt t
    → drop_indices c t ≡ ok tt u
    → drop_connection set_pop c s ≡ finish set_pop c (record s { subscribers = u })
unfolding drop_connection finish
drop_connection-finish set_pop c s t u e f =
    bind-ok (on_subscribers (drop_fields c)) _ s (record s { subscribers = t }) tt
      (on_subscribers-ok (drop_fields c) s t e)
    ∙ bind-ok (on_subscribers (drop_indices c)) _ (record s { subscribers = t })
        (record s { subscribers = u }) tt
        (on_subscribers-ok (drop_indices c) (record s { subscribers = t }) u f)

-- When the tables of fields and of index values are mirrored by those of the channels, `dropConnection` leaves
-- them mirrored and the channel in no set of a field or of an index value, also if a later loop raises.
pub drop_connection-HasLeft :
    (set_pop : SetPop) (c : ChannelId) (s : SubscriptionState)
    → IsRegistered s.subscribers
    → HasLeft c (state_of (drop_connection set_pop c s)).subscribers
unfolding Leads
drop_connection-HasLeft set_pop c s h =
    let (t, e, fields) = drop_fields-HasNoField c s.subscribers h in
    let (u, f, left) = drop_indices-HasLeft c t fields in
    subst (λ (o : Outcome SubscriptionState (Unit {0})). HasLeft c (state_of o).subscribers)
      (sym (drop_connection-finish set_pop c s t u e f))
      ((finish-HasLeft set_pop c).kept (record s { subscribers = u }) left)
