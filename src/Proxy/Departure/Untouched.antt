-- ===== src/Proxy/Departure/Untouched.antt =====
-- What `dropConnection` of `SubscriptionState` (object_database/proxy_server.py) does not change.
use object_database.Prelude.{◌≡◌, refl}
use object_database.Prelude.Exec.{Exec, Outcome, ok, raised, state_of, Preserves, bind-Preserves}
use object_database.Server.State.{ChannelId}
use object_database.Proxy.State.{Subscribers, Pending, SubscriptionState}
use object_database.Proxy.Departure.{
  SetPop, on_subscribers, on_pending, drop_fields, drop_indices, drop_oids, drop_pending,
  forget_subscriptions, forget_transactions, forget_laziness, drop_connection,
}

-- The same schemas, the same objects, the same completed types, and nothing sent.
unfoldable pub IsUntouched : SubscriptionState → SubscriptionState → Type 0
IsUntouched s t =
    (t.schemas ≡ s.schemas)
    × (t.values ≡ s.values)
    × (t.transaction_id ≡ s.transaction_id)
    × (t.completed_types ≡ s.completed_types)
    × (t.sent ≡ s.sent)

pub IsUntouched-refl : (s : SubscriptionState) → IsUntouched s s
unfolding IsUntouched
IsUntouched-refl s = (refl, refl, refl, refl, refl)

on_subscribers-IsUntouched :
    (m : Exec Subscribers (Unit {0})) (s : SubscriptionState)
    → Preserves (IsUntouched s) (on_subscribers m)
unfolding on_subscribers IsUntouched
on_subscribers-IsUntouched m s = record { kept = λ t h. go t h (m t.subscribers) }
  where
    go :
        (t : SubscriptionState)
        → IsUntouched s t
        → (o : Outcome Subscribers (Unit {0}))
        → IsUntouched s (
            state_of (elim o [
              | ok a u ↦ ok a (record t { subscribers = u })
              | raised e u ↦ raised e (record t { subscribers = u })
            ]))
    go t h (ok a u) = h
    go t h (raised e u) = h

on_pending-IsUntouched :
    (m : Exec Pending (Unit {0})) (s : SubscriptionState) → Preserves (IsUntouched s) (on_pending m)
unfolding on_pending IsUntouched
on_pending-IsUntouched m s = record { kept = λ t h. go t h (m t.pending) }
  where
    go :
        (t : SubscriptionState)
        → IsUntouched s t
        → (o : Outcome Pending (Unit {0}))
        → IsUntouched s (
            state_of (elim o [
              | ok a u ↦ ok a (record t { pending = u })
              | raised e u ↦ raised e (record t { pending = u })
            ]))
    go t h (ok a u) = h
    go t h (raised e u) = h

pub drop_connection-IsUntouched :
    (set_pop : SetPop) (c : ChannelId) (s : SubscriptionState)
    → Preserves (IsUntouched s) (drop_connection set_pop c)
unfolding drop_connection
drop_connection-IsUntouched set_pop c s =
    bind-Preserves (on_subscribers (drop_fields c)) _ (on_subscribers-IsUntouched (drop_fields c) s)
      (λ _.
        bind-Preserves (on_subscribers (drop_indices c)) _
          (on_subscribers-IsUntouched (drop_indices c) s)
          (λ _.
            bind-Preserves (on_subscribers (drop_oids c)) _
              (on_subscribers-IsUntouched (drop_oids c) s)
              (λ _.
                bind-Preserves (on_subscribers (λ t. ok tt (forget_subscriptions c t))) _
                  (on_subscribers-IsUntouched (λ t. ok tt (forget_subscriptions c t)) s)
                  (λ _.
                    bind-Preserves (on_pending (λ t. ok tt (forget_transactions c t))) _
                      (on_pending-IsUntouched (λ t. ok tt (forget_transactions c t)) s)
                      (λ _.
                        bind-Preserves (on_pending (drop_pending set_pop c)) _
                          (on_pending-IsUntouched (drop_pending set_pop c) s)
                          (λ _.
                            on_subscribers-IsUntouched (λ t. ok tt (forget_laziness c t)) s))))))
