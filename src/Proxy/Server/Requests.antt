-- ===== src/Proxy/Server/Requests.antt =====
-- What a proxy does with a client's message: `_handleClientToServerMessage` and
-- `_handleAuthenticatedMessage` (object_database/proxy_server.py), a definition for each kind.
use object_database.Prelude.{
  ℕ, ◌+◌, String, Bool, false, Option, none, some, [], ◌∷◌, ◌++◌, if◌then◌else◌, nat_eq, string_eq,
  pair_eq,
}
use object_database.Prelude.Int.{ℤ}
use object_database.Prelude.Exec.{
  assertion_error, key_error, transaction_error, ok, raised, Exec, ◌>>◌,
}
use object_database.Collections.Dict.{get, has, insert, delete}
use object_database.Collections.Set.{member, add}
use object_database.Schema.{ObjectId, IndexValue}
use object_database.Server.Messages.{
  SchemaDefinition, Subscription, TransactionData, ClientToServer, transaction_data,
  complete_transaction, define_schema, subscribe, flush, schema_mapping,
}
use object_database.Server.State.{ChannelId}
use object_database.Proxy.State.{add_at, at}
use object_database.Proxy.Schemas.{merge_schema_definitions, same_schema}
use object_database.Proxy.Subscriptions.{add_subscription}
use object_database.Proxy.Broadcast.{increase_subscription_if_necessary}
use object_database.Proxy.Server.{Guids, ProxyServer, send_upstream, on_state, send_down, define}

-- The first part of `DefineSchema`: the schema is defined on the server, or enlarged there.
unfoldable pub request_schema : ℕ → String → SchemaDefinition → ProxyServer → ProxyServer
unfolding send_upstream define
request_schema iteration name d p = record (send_upstream (define_schema name d) p) {
  iterations = record (p.iterations) { requested = insert name iteration p.iterations.requested };
  subscription_state = define name d p.subscription_state;
}

unfoldable pub enlarge_schema :
    String → SchemaDefinition → SchemaDefinition → Exec ProxyServer (Unit {0})
unfolding request_schema merge_schema_definitions same_schema
enlarge_schema name d old p =
    let bigger = merge_schema_definitions old d in
    if same_schema d old
    then ok tt p
    else if same_schema bigger old
    then ok tt p
    else elim (get p.iterations.requested name) [
      | none ↦ raised key_error p
      | some n ↦ ok tt (request_schema (n + 1) name bigger p)
    ]

unfoldable pub ensure_schema : String → SchemaDefinition → Exec ProxyServer (Unit {0})
unfolding request_schema enlarge_schema
ensure_schema name d p = elim (get p.subscription_state.schemas.defined_schemas name) [
  | none ↦ ok tt (request_schema 0 name d p)
  | some old ↦ enlarge_schema name d old p
]

-- The second part: the mapping, now or when it comes.
unfoldable pub answer_schema : ChannelId → String → ℕ → ProxyServer → ProxyServer
unfolding add_at send_down
answer_schema c name iteration p = elim (get p.iterations.mapped (name, iteration)) [
  | some mapping ↦ send_down c (schema_mapping name mapping) p
  | none ↦ record p {
    iterations = record (p.iterations) {
      unmapped_to_channels = add_at (name, iteration) c p.iterations.unmapped_to_channels;
    };
  }
]

unfoldable pub on_define_schema :
    ChannelId → String → SchemaDefinition → Exec ProxyServer (Unit {0})
unfolding ensure_schema answer_schema
on_define_schema c name d p =
    (ensure_schema name d >> (λ q. elim (get q.iterations.requested name) [
      | none ↦ raised key_error q
      | some n ↦ ok tt (answer_schema c name n q)
    ]))
      (record p {
        iterations = record (p.iterations) {
          channel_schemas = insert (c, name) d p.iterations.channel_schemas;
        };
      })

-- The proxy subscribes to a whole type, once.
unfoldable pub ensure_subscribed : String → String → ProxyServer → ProxyServer
unfolding send_upstream
ensure_subscribed schema typename p =
    if member p.iterations.subscribed_types (schema, typename)
    then p
    else record (send_upstream
        (subscribe (record {
          schema = schema;
          typename = typename;
          fieldname_and_value = none;
          is_lazy = false;
        }))
        p) {
          iterations = record (p.iterations) {
            subscribed_types = add (schema, typename) p.iterations.subscribed_types;
          };
        }

unfoldable pub on_subscribe :
    (IndexValue → Option ObjectId) → ChannelId → Subscription → Exec ProxyServer (Unit {0})
unfolding ensure_subscribed on_state add_subscription
on_subscribe to_identity c key p =
    if has p.iterations.channel_schemas (c, key.schema)
    then on_state (add_subscription to_identity c key) (ensure_subscribed key.schema key.typename p)
    else raised transaction_error p

unfoldable pub on_flush : ChannelId → ℕ → ProxyServer → ProxyServer
unfolding send_upstream
on_flush c guid p =
    let ix = p.guids.flush_ix + 1 in
    send_upstream (flush ix) (record p {
      guids = record (p.guids) {
        flush_ix = ix;
        outgoing_flush = insert ix (c, guid) p.guids.outgoing_flush;
      };
    })

-- A message of a transaction waits while a subscription of its channel does.
unfoldable pub queue : ChannelId → ClientToServer → ProxyServer → ProxyServer
unfolding at
queue c msg p = record p {
  subscription_state = record (p.subscription_state) {
    pending = record (p.subscription_state.pending) {
      channel_to_pending_transactions =
          insert c (at p.subscription_state.pending.channel_to_pending_transactions c ++ msg ∷ [])
            p.subscription_state.pending.channel_to_pending_transactions;
    };
  };
}

unfoldable pub unless_pending :
    ChannelId → ClientToServer → Exec ProxyServer (Unit {0}) → Exec ProxyServer (Unit {0})
unfolding queue
unless_pending c msg m p =
    elim (get p.subscription_state.pending.channel_to_pending_subscriptions c) [
      | none ↦ m p
      | some [] ↦ raised assertion_error p
      | some (_ ∷ _) ↦ ok tt (queue c msg p)
    ]

-- The number under which the server knows a client's transaction, a new one if need be.
unfoldable pub outgoing_guid : ChannelId → ℕ → Guids → Guids × ℕ
outgoing_guid c guid g = elim (get g.channel_to_outgoing (c, guid)) [
  | some n ↦ (g, n)
  | none ↦
      let ix = g.transaction_ix + 1 in
      (
        record g {
          transaction_ix = ix;
          outgoing_to_channel = insert ix (c, guid) g.outgoing_to_channel;
          channel_to_outgoing = insert (c, guid) ix g.channel_to_outgoing;
        },
        ix,
      )
]

-- `tid` is `_transactionNum`.
unfoldable pub on_transaction_data :
    ℕ → ChannelId → ℕ → TransactionData → Exec ProxyServer (Unit {0})
unfolding outgoing_guid on_state send_upstream increase_subscription_if_necessary
on_transaction_data tid c guid d p =
    let named = outgoing_guid c guid p.guids in
    (on_state (increase_subscription_if_necessary c d.set_adds tid)
        >> (λ q. ok tt (send_upstream (transaction_data (named.1) d) q)))
      (record p { guids = named.0 })

unfoldable pub on_complete_transaction : ChannelId → ℤ → ℕ → Bool → ProxyServer → ProxyServer
unfolding send_upstream
on_complete_transaction c as_of guid no_log p = elim (get p.guids.channel_to_outgoing (c, guid)) [
  | none ↦ p
  | some n ↦ send_upstream (complete_transaction as_of n no_log) (record p {
    guids = record (p.guids) { channel_to_outgoing = delete (c, guid) p.guids.channel_to_outgoing };
  })
]

unfoldable pub on_heartbeat : ChannelId → ProxyServer → ProxyServer
on_heartbeat c p =
    if member p.downstream.channels c
    then record p {
      downstream = record (p.downstream) {
        missed_heartbeats = insert c 0 p.downstream.missed_heartbeats;
      };
    }
    else p
