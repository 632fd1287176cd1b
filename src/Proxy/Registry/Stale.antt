-- ===== src/Proxy/Registry/Stale.antt =====
-- Two subscriptions of a channel to index values, and its departure (`sendDataForSubscription` and
-- `dropConnection` of `SubscriptionState` in object_database/proxy_server.py).
use object_database.Prelude.{
  true, false, ◌&&◌, ◌≡◌, refl, if◌then◌else◌, beq, nat_eq, Option, none, some, List, [], ◌∷◌,
  arith,
}
use object_database.Prelude.Exec.{
  Outcome, ok, raised, state_of, for_each, Preserves, bind-Preserves, key_error,
}
use object_database.Collections.Dict.{Dict, get, insert, delete, get-insert_self}
use object_database.Collections.Set.{member, discard}
use object_database.Schema.{ObjectId}
use object_database.Server.State.{ChannelId}
use object_database.Proxy.State.{Subscribers, at, at-insert, add_at}
use object_database.Proxy.Departure.{release_from, drop_oids}
use object_database.Proxy.Subscriptions.{register_oids, set_oids}
use object_database.Proxy.Registry.{member-add_at, at-delete}

-- The channel is registered for each of the objects, and no registration is lost.
member-register_oids :
    (c : ChannelId) (ids : List ObjectId) (d : Dict ObjectId (List ChannelId)) (i : ObjectId)
    (x : ChannelId)
    → member (at (register_oids c ids d) i) x
      ≡ (if member ids i && beq c x then true else member (at d i) x)
unfolding register_oids member
member-register_oids c [] d i x = refl
member-register_oids c (j ∷ ids) d i x =
    ground (arith, member-register_oids c ids (add_at j c d) i x, member-add_at d j i c x)

abbrev Holds : ObjectId → ChannelId → Dict ObjectId (List ChannelId) → Type 0
Holds i c d = member (at d i) c ≡ true

-- A release under one object leaves the others alone.
release_from-Preserves :
    (i : ObjectId) (c : ChannelId) (j : ObjectId)
    → beq j i ≡ false
    → Preserves (Holds i c) (release_from c j)
unfolding release_from
release_from-Preserves i c j other = record { kept = λ d h. go d h (get d j) }
  where
    left :
        (d : Dict ObjectId (List ChannelId))
        → Holds i c d
        → (cs : List ChannelId)
        → Holds i c (
            state_of {A = Unit {0}}
              (elim cs [ [] ↦ ok tt (delete j d) | a ∷ l ↦ ok tt (insert j (a ∷ l) d) ]))
    left d h [] = ground (arith, at-delete d j i, other, h)
    left d h (a ∷ l) = ground (arith, at-insert d j i (a ∷ l), other, h)

    go :
        (d : Dict ObjectId (List ChannelId))
        → Holds i c d
        → (o : Option (List ChannelId))
        → Holds i c (
            state_of (elim o [
              | none ↦ raised key_error d
              | some cs ↦ elim (discard c cs) [
                | [] ↦ ok tt (delete j d)
                | a ∷ l ↦ ok tt (insert j (a ∷ l) d)
              ]
            ]))
    go d h none = h
    go d h (some cs) = left d h (discard c cs)

release_all-Preserves :
    (i : ObjectId) (c : ChannelId) (ids : List ObjectId)
    → member ids i ≡ false
    → Preserves (Holds i c) (for_each ids (release_from c))
unfolding for_each member
release_all-Preserves i c [] absent = record { kept = λ d h. h }
release_all-Preserves i c (j ∷ ids) absent = record {
  kept =
      (bind-Preserves (release_from c j) (λ _. for_each ids (release_from c))
        (release_from-Preserves i c j (ground (arith, absent)))
        (λ _. release_all-Preserves i c ids (ground (arith, absent)))).kept;
}

drop_oids-stale :
    (c : ChannelId) (ids : List ObjectId) (i : ObjectId) (s : Subscribers)
    → get s.channel_to_subscribed_oids c ≡ some ids
    → member ids i ≡ false
    → Holds i c s.oid_to_subscribed_channels
    → Holds i c (state_of (drop_oids c s)).oid_to_subscribed_channels
unfolding drop_oids
drop_oids-stale c ids i s own absent h =
    rw (drop_oids, own)
      (go (for_each ids (release_from c) s.oid_to_subscribed_channels)
        ((release_all-Preserves i c ids absent).kept s.oid_to_subscribed_channels h))
  where
    go :
        (o : Outcome (Dict ObjectId (List ChannelId)) (Unit {0}))
        → Holds i c (state_of o)
        → Holds i c
            (state_of {S = Subscribers} {A = Unit {0}} (elim o [
              | raised e d ↦ raised e (record s { oid_to_subscribed_channels = d })
              | ok _ d ↦ ok tt (record s {
                oid_to_subscribed_channels = d;
                channel_to_subscribed_oids = delete c s.channel_to_subscribed_oids;
              })
            ])).oid_to_subscribed_channels
    go (ok a d) h = h
    go (raised e d) h = h

-- A channel that subscribes to the objects of one index value and then to those of another stays
-- registered under the objects that only the first has, after its connection is dropped.
pub drop_oids-set_oids :
    (c : ChannelId) (first second : List ObjectId) (i : ObjectId) (s : Subscribers)
    → member first i ≡ true
    → member second i ≡ false
    → member
        (at
          (state_of
            (drop_oids c (set_oids c second (set_oids c first s)))).oid_to_subscribed_channels
          i)
        c
      ≡ true
unfolding set_oids
drop_oids-set_oids c first second i s here absent =
    let once = register_oids c first s.oid_to_subscribed_channels in
    let own = insert c first s.channel_to_subscribed_oids in
    drop_oids-stale c second i (set_oids c second (set_oids c first s))
      (get-insert_self own c second) absent
      (ground (
        arith,
        member-register_oids c second once i c,
        member-register_oids c first s.oid_to_subscribed_channels i c,
        here,
      ))
