-- ===== src/Proxy/Server/Steps.antt =====
-- Connections of `ProxyServer` (object_database/proxy_server.py), and its tables before and after.
use object_database.Prelude.{
  ℕ, ◌+◌, String, Bool, true, false, Option, none, some, ◌≡◌, refl, if◌then◌else◌, nat_eq,
  string_eq, pair_eq, inl, inr, Option-cases, leb, sym, ◌∙◌, map,
}
use object_database.Prelude.Exec.{
  Exec, Outcome, ok, raised, pure, state_of, Preserves, bind-Preserves, look-Preserves, state_of-if,
  state_of-lookup, for_each-Preserves, for_each, ◌>>=◌,
}
use object_database.Collections.Dict.{Dict, has_of_get, get, has, delete}
use object_database.Collections.Set.{member, discard}
use object_database.Schema.{Bytes, ObjectId}
use object_database.Server.Messages.{ClientToServer, drop_dependent_connection_id}
use object_database.Server.State.{ChannelId}
use object_database.Proxy.State.{SubscriptionState, at}
use object_database.Proxy.Reads.{field_id_for}
use object_database.Proxy.Departure as Departure
use object_database.Proxy.Departure.{SetPop}
use object_database.Proxy.Server.{
  ProxyServer, send_upstream, on_state, add_connection, forget_channel, drop_connection_id,
  drop_connection, are_heartbeats_suspended, is_true, lookup_identity, count_missed,
  check_connection, check_for_dead_connections,
}
use object_database.Proxy.Server.Sound.{
  IsLive, IsSound, subscribes, is_whole, append-IsPooled, connect-IsLive, forget-IsLive,
  discard-IsLive, count-IsLive,
}

abbrev pub KeepsSound : {A : Type 0} → Exec ProxyServer A → Type 0
KeepsSound m = Preserves IsSound m

pub on_state-KeepsSound : {A : Type 0} (m : Exec SubscriptionState A) → KeepsSound (on_state m)
unfolding on_state IsSound
on_state-KeepsSound {A = A} m = record { kept = λ p h. go p h (m p.subscription_state) }
  where
    go :
        (p : ProxyServer)
        → IsSound p
        → (o : Outcome SubscriptionState A)
        → IsSound (
            state_of (elim o [
              | ok a s ↦ ok a (record p { subscription_state = s })
              | raised e s ↦ raised e (record p { subscription_state = s })
            ]))
    go p h (ok a s) = h
    go p h (raised e s) = h

pub send_upstream-IsSound :
    (msg : ClientToServer)
    → ((t : String × String) → subscribes t msg ≡ 0)
    → is_whole msg ≡ true
    → (p : ProxyServer) → IsSound p
    → IsSound (send_upstream msg p)
unfolding send_upstream IsSound
send_upstream-IsSound msg other whole p (l, n, i) =
    (l, n, append-IsPooled p.iterations.subscribed_types p.upstream msg other whole i)

pub add_connection-IsSound :
    (c : ChannelId) (p : ProxyServer) → IsSound p → IsSound (add_connection c p)
unfolding add_connection IsSound
add_connection-IsSound c p (l, n, i) = (connect-IsLive c p.downstream l, n, i)

drop_connection_id-IsSound :
    (c : ChannelId) (p : ProxyServer) → IsSound p → IsSound (drop_connection_id c p)
unfolding drop_connection_id IsSound
drop_connection_id-IsSound c p (l, n, i) =
    elim (Option-cases (get p.downstream.channel_to_connection_id c)) [
      | inl e ↦ rw (drop_connection_id, e) (l, n, i)
      | inr (j, e) ↦
          rw (drop_connection_id, e)
            (send_upstream-IsSound (drop_dependent_connection_id j) (λ t. refl) refl
              (record p {
                downstream = record (p.downstream) {
                  channel_to_connection_id = delete c p.downstream.channel_to_connection_id;
                };
              })
              (l, n, i))
    ]

-- After the channel has left the subscriptions.
forget-KeepsSound :
    (c : ChannelId) (p : ProxyServer)
    → IsSound p
    → IsSound (drop_connection_id c (record p { downstream = forget_channel c p.downstream }))
unfolding IsSound
forget-KeepsSound c p (l, n, i) =
    drop_connection_id-IsSound c (record p { downstream = forget_channel c p.downstream })
      (forget-IsLive c p.downstream l, n, i)

-- A channel that has no count is not connected.
uncounted-IsSound :
    (c : ChannelId) (p : ProxyServer)
    → IsSound p
    → has p.downstream.missed_heartbeats c ≡ false
    → IsSound (record p {
      downstream = record (p.downstream) { channels = discard c p.downstream.channels };
    })
unfolding IsSound
uncounted-IsSound c p (l, n, i) e = (discard-IsLive c p.downstream e l, n, i)

pub drop_connection-KeepsSound :
    (set_pop : SetPop) (c : ChannelId) → KeepsSound (drop_connection set_pop c)
unfolding drop_connection
drop_connection-KeepsSound set_pop c = record {
  kept = λ p h.
      state_of-if IsSound (member p.downstream.channels c) _ _
        (λ _.
          (bind-Preserves (on_state (Departure.drop_connection set_pop c)) _
              (on_state-KeepsSound (Departure.drop_connection set_pop c))
              (λ _. record {
                kept = λ q i.
                    state_of-if IsSound (has q.downstream.missed_heartbeats c) _ _
                      (λ _. forget-KeepsSound c q i) (λ e. uncounted-IsSound c q i e);
              })).kept
            p h)
        (λ _. h);
}

count_missed-IsSound :
    (c : ChannelId) (m n : ℕ) (p : ProxyServer)
    → get p.downstream.missed_heartbeats c ≡ some m
    → IsSound p
    → IsSound (count_missed c n p)
unfolding IsSound count_missed IsLive
count_missed-IsSound c m n p e (l, k, i) = (
  count-IsLive c n p.downstream (sym (l.0 c) ∙ has_of_get p.downstream.missed_heartbeats c m e) l,
  k,
  i,
)

is_true-KeepsSound :
    (true_bytes : Bytes) (get_of_none : Dict ObjectId Bytes → Option (Option Bytes))
    (o : Option (Option Bytes)) (p : ProxyServer)
    → IsSound p
    → IsSound (state_of (is_true true_bytes get_of_none o p))
unfolding is_true
is_true-KeepsSound true_bytes g none p h = h
is_true-KeepsSound true_bytes g (some none) p h = h
is_true-KeepsSound true_bytes g (some (some b)) p h = h

suspended-KeepsSound :
    (set_pop : SetPop) (c : ChannelId) (b : Bool)
    → KeepsSound (if b then pure tt else drop_connection set_pop c)
suspended-KeepsSound set_pop c true = record { kept = λ p h. h }
suspended-KeepsSound set_pop c false = drop_connection-KeepsSound set_pop c

ended-IsSound :
    (set_pop : SetPop) (c : ChannelId) (m : Exec ProxyServer Bool)
    → KeepsSound m
    → (b : Bool) (p : ProxyServer) → IsSound p
    → IsSound (
        state_of (
          if b
          then (m >>= (λ suspended. if suspended then pure tt else drop_connection set_pop c)) p
          else ok tt p))
ended-IsSound set_pop c m k true p h =
    (bind-Preserves m _ k (suspended-KeepsSound set_pop c)).kept p h
ended-IsSound set_pop c m k false p h = h

module _ (set_pop : SetPop) (true_bytes : Bytes)
    (get_of_none : Dict ObjectId Bytes → Option (Option Bytes)) where
  are_heartbeats_suspended-KeepsSound :
      (i : Option ObjectId) → KeepsSound (are_heartbeats_suspended true_bytes get_of_none i)
  unfolding are_heartbeats_suspended
  are_heartbeats_suspended-KeepsSound i = record {
    kept = λ p h.
        state_of-lookup IsSound
          (field_id_for p.subscription_state.schemas "core" "Connection" "heartbeats_suspended")
          (ok false p)
          (λ f.
            is_true true_bytes get_of_none
              (lookup_identity true_bytes get_of_none
                (at p.subscription_state.values.object_values f) i)
              p)
          (λ _. h) (λ f _. is_true-KeepsSound true_bytes get_of_none _ p h);
  }

  check_connection-KeepsSound :
      (c : ChannelId) → KeepsSound (check_connection set_pop true_bytes get_of_none c)
  unfolding check_connection
  check_connection-KeepsSound c = record {
    kept = λ p h.
        state_of-lookup IsSound (get p.downstream.missed_heartbeats c) _ _ (λ _. h)
          (λ n e.
            ended-IsSound set_pop c
              (are_heartbeats_suspended true_bytes get_of_none
                (get (count_missed c (n + 1) p).downstream.channel_to_connection_id c))
              (are_heartbeats_suspended-KeepsSound _) (leb 4 (n + 1)) (count_missed c (n + 1) p)
              (count_missed-IsSound c n (n + 1) p e h));
  }

  pub check_for_dead_connections-KeepsSound :
      KeepsSound (check_for_dead_connections set_pop true_bytes get_of_none)
  unfolding check_for_dead_connections
  check_for_dead_connections-KeepsSound =
      look-Preserves
        (λ p.
          for_each (map (λ e. e.0) p.downstream.missed_heartbeats)
            (check_connection set_pop true_bytes get_of_none))
        (λ p. for_each-Preserves _ _ check_connection-KeepsSound)

-- The same numbers, schemas' iterations and messages upstream, with what is asked of the rest.
unfoldable pub IsSame : (SubscriptionState → Type 0) → ProxyServer → ProxyServer → Type 0
IsSame R p q =
    (q.guids ≡ p.guids)
    × (q.iterations ≡ p.iterations)
    × (q.upstream ≡ p.upstream)
    × R q.subscription_state

pub on_state-IsSame :
    (R : SubscriptionState → Type 0) (m : Exec SubscriptionState (Unit {0})) (p : ProxyServer)
    → Preserves R m
    → Preserves (IsSame R p) (on_state m)
unfolding on_state IsSame
on_state-IsSame R m p k = record {
  kept =
      λ q (g, i, u, h). go q (g, i, u, h) (m q.subscription_state) (k.kept q.subscription_state h);
}
  where
    go :
        (q : ProxyServer)
        → IsSame R p q
        → (o : Outcome SubscriptionState (Unit {0})) → R (state_of o)
        → IsSame R p (
            state_of (elim o [
              | ok a s ↦ ok a (record q { subscription_state = s })
              | raised e s ↦ raised e (record q { subscription_state = s })
            ]))
    go q (g, i, u, _) (ok a s) h = (g, i, u, h)
    go q (g, i, u, _) (raised e s) h = (g, i, u, h)
