-- ===== src/Proxy/Server/Handlers.antt =====
-- The handlers of a client's message (`_handleAuthenticatedMessage` in
-- object_database/proxy_server.py), and the proxy's tables before and after.
use object_database.Prelude.{
  ℕ, ◌+◌, String, Bool, false, Option, none, some, List, [], ◌∷◌, refl, if◌then◌else◌, nat_eq,
  string_eq, pair_eq, inl, inr, Option-cases, Bool-cases,
}
use object_database.Prelude.Int.{ℤ}
use object_database.Prelude.Exec.{
  Exec, Outcome, ok, raised, state_of, bind-Preserves, state_of-if, state_of-lookup, key_error,
  assertion_error, transaction_error,
}
use object_database.Collections.Dict.{get, has, insert}
use object_database.Collections.Set.{member}
use object_database.Schema.{ObjectId, IndexValue}
use object_database.Server.Messages.{
  SchemaDefinition, Subscription, TransactionData, ClientToServer, transaction_data,
  complete_transaction, define_schema, flush,
}
use object_database.Server.State.{ChannelId}
use object_database.Proxy.Schemas.{merge_schema_definitions, same_schema}
use object_database.Proxy.Subscriptions.{add_subscription}
use object_database.Proxy.Broadcast.{increase_subscription_if_necessary}
use object_database.Proxy.Server.{ProxyServer, on_state}
use object_database.Proxy.Server.Requests.{
  request_schema, enlarge_schema, ensure_schema, answer_schema, on_define_schema, ensure_subscribed,
  on_subscribe, on_flush, queue, unless_pending, outgoing_guid, on_transaction_data,
  on_complete_transaction, on_heartbeat,
}
use object_database.Proxy.Server.Sound.{
  IsSound, flush-IsNumbered, append-IsPooled, subscribe-IsPooled, count-IsLive,
  outgoing_guid-IsNumbered, complete-IsNumbered,
}
use object_database.Proxy.Server.Steps.{KeepsSound, on_state-KeepsSound, send_upstream-IsSound}

-- The parts of `DefineSchema`.
request_schema-IsSound :
    (n : ℕ) (name : String) (d : SchemaDefinition) (p : ProxyServer)
    → IsSound p
    → IsSound (request_schema n name d p)
unfolding request_schema IsSound
request_schema-IsSound n name d p h =
    send_upstream-IsSound (define_schema name d) (λ t. refl) refl p h

enlarge_schema-KeepsSound :
    (name : String) (d old : SchemaDefinition) → KeepsSound (enlarge_schema name d old)
unfolding enlarge_schema
enlarge_schema-KeepsSound name d old = record {
  kept = λ p h.
      let bigger = merge_schema_definitions old d in
      let asks : Option ℕ → Outcome ProxyServer (Unit {0}) = λ o. elim o [
        | none ↦ raised key_error p
        | some n ↦ ok tt (request_schema (n + 1) name bigger p)
      ] in
      state_of-if IsSound (same_schema d old) (ok tt p)
        (if same_schema bigger old then ok tt p else asks (get p.iterations.requested name))
        (λ _. h)
        (λ _.
          state_of-if IsSound (same_schema bigger old) (ok tt p)
            (asks (get p.iterations.requested name)) (λ _. h)
            (λ _.
              state_of-lookup IsSound (get p.iterations.requested name) (raised key_error p)
                (λ n. ok tt (request_schema (n + 1) name bigger p)) (λ _. h)
                (λ n _. request_schema-IsSound (n + 1) name bigger p h)));
}

ensure_schema-KeepsSound :
    (name : String) (d : SchemaDefinition) → KeepsSound (ensure_schema name d)
unfolding ensure_schema
ensure_schema-KeepsSound name d = record {
  kept = λ p h.
      state_of-lookup IsSound (get p.subscription_state.schemas.defined_schemas name)
        (ok tt (request_schema 0 name d p)) (λ old. enlarge_schema name d old p)
        (λ _. request_schema-IsSound 0 name d p h)
        (λ old _. (enlarge_schema-KeepsSound name d old).kept p h);
}

answer_schema-IsSound :
    (c : ChannelId) (name : String) (n : ℕ) (p : ProxyServer)
    → IsSound p
    → IsSound (answer_schema c name n p)
unfolding IsSound answer_schema
answer_schema-IsSound c name n p h = elim (Option-cases (get p.iterations.mapped (name, n))) [
  | inl e ↦ rw (answer_schema, e) h
  | inr (m, e) ↦ rw (answer_schema, e) h
]

pub on_define_schema-KeepsSound :
    (c : ChannelId) (name : String) (d : SchemaDefinition) → KeepsSound (on_define_schema c name d)
unfolding on_define_schema IsSound
on_define_schema-KeepsSound c name d = record {
  kept = λ p h.
      (bind-Preserves {P = IsSound} (ensure_schema name d) _ (ensure_schema-KeepsSound name d) (λ _.
          record {
            kept = λ q i.
                state_of-lookup IsSound (get q.iterations.requested name) (raised key_error q)
                  (λ n. ok tt (answer_schema c name n q)) (λ _. i)
                  (λ n _. answer_schema-IsSound c name n q i);
          })).kept
        (record p {
          iterations = record (p.iterations) {
            channel_schemas = insert (c, name) d p.iterations.channel_schemas;
          };
        })
        h;
}

pub ensure_subscribed-IsSound :
    (schema typename : String) (p : ProxyServer)
    → IsSound p
    → IsSound (ensure_subscribed schema typename p)
unfolding IsSound ensure_subscribed
ensure_subscribed-IsSound schema typename p (l, n, i) =
    let key : Subscription = record {
      schema = schema;
      typename = typename;
      fieldname_and_value = none;
      is_lazy = false;
    } in
    elim (Bool-cases (member p.iterations.subscribed_types (schema, typename))) [
      | inl e ↦ rw (ensure_subscribed, e) (l, n, i)
      | inr e ↦
          rw (ensure_subscribed, e)
            (l, n, subscribe-IsPooled p.iterations.subscribed_types p.upstream key e refl i)
    ]

pub on_subscribe-KeepsSound :
    (to_identity : IndexValue → Option ObjectId) (c : ChannelId) (key : Subscription)
    → KeepsSound (on_subscribe to_identity c key)
unfolding on_subscribe
on_subscribe-KeepsSound to_identity c key = record {
  kept = λ p h.
      let q = ensure_subscribed key.schema key.typename p in
      state_of-if IsSound (has p.iterations.channel_schemas (c, key.schema))
        (on_state (add_subscription to_identity c key) q) (raised transaction_error p)
        (λ _.
          (on_state-KeepsSound (add_subscription to_identity c key)).kept q
            (ensure_subscribed-IsSound key.schema key.typename p h))
        (λ _. h);
}

pub on_flush-IsSound :
    (c : ChannelId) (guid : ℕ) (p : ProxyServer) → IsSound p → IsSound (on_flush c guid p)
unfolding on_flush IsSound
on_flush-IsSound c guid p (l, n, i) = (
  l,
  flush-IsNumbered (c, guid) p.guids n,
  append-IsPooled p.iterations.subscribed_types p.upstream (flush (p.guids.flush_ix + 1))
      (λ t. refl) refl i,
)

pub unless_pending-KeepsSound :
    (c : ChannelId) (msg : ClientToServer) (m : Exec ProxyServer (Unit {0}))
    → KeepsSound m
    → KeepsSound (unless_pending c msg m)
unfolding unless_pending IsSound
unless_pending-KeepsSound c msg m k = record {
  kept = λ p h. go p h (get p.subscription_state.pending.channel_to_pending_subscriptions c);
}
  where
    go :
        (p : ProxyServer)
        → IsSound p
        → (o : Option (List Subscription))
        → IsSound (
            state_of (elim o [
              | none ↦ m p
              | some [] ↦ raised assertion_error p
              | some (_ ∷ _) ↦ ok tt (queue c msg p)
            ]))
    go p h none = k.kept p h
    go p h (some []) = h
    go p h (some (x ∷ xs)) = h

pub on_transaction_data-KeepsSound :
    (tid : ℕ) (c : ChannelId) (guid : ℕ) (d : TransactionData)
    → KeepsSound (on_transaction_data tid c guid d)
unfolding on_transaction_data IsSound
on_transaction_data-KeepsSound tid c guid d = record {
  kept = λ p (l, n, i).
      let g = outgoing_guid c guid p.guids in
      (bind-Preserves {P = IsSound} (on_state (increase_subscription_if_necessary c d.set_adds tid))
          _ (on_state-KeepsSound (increase_subscription_if_necessary c d.set_adds tid))
          (λ _. record {
            kept = λ q j. send_upstream-IsSound (transaction_data (g.1) d) (λ t. refl) refl q j;
          })).kept
        (record p { guids = g.0 }) (l, outgoing_guid-IsNumbered c guid p.guids n, i);
}

pub on_complete_transaction-IsSound :
    (c : ChannelId) (as_of : ℤ) (guid : ℕ) (no_log : Bool) (p : ProxyServer)
    → IsSound p
    → IsSound (on_complete_transaction c as_of guid no_log p)
unfolding IsSound on_complete_transaction
on_complete_transaction-IsSound c as_of guid no_log p (l, n, i) =
    elim (Option-cases (get p.guids.channel_to_outgoing (c, guid))) [
      | inl e ↦ rw (on_complete_transaction, e) (l, n, i)
      | inr (m, e) ↦
          rw (on_complete_transaction, e)
            (
              l,
              complete-IsNumbered (c, guid) p.guids n,
              append-IsPooled p.iterations.subscribed_types p.upstream
                  (complete_transaction as_of m no_log) (λ t. refl) refl i,
            )
    ]

pub on_heartbeat-IsSound :
    (c : ChannelId) (p : ProxyServer) → IsSound p → IsSound (on_heartbeat c p)
unfolding IsSound on_heartbeat
on_heartbeat-IsSound c p (l, n, i) = elim (Bool-cases (member p.downstream.channels c)) [
  | inl e ↦ rw (on_heartbeat, e) (count-IsLive c 0 p.downstream e l, n, i)
  | inr e ↦ rw (on_heartbeat, e) (l, n, i)
]
