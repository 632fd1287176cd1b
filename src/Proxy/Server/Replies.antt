-- ===== src/Proxy/Server/Replies.antt =====
-- What a proxy does with the main server's messages: `handleServerToClientMessage` of `ProxyServer`
-- (object_database/proxy_server.py).
use object_database.Prelude.{
  ℕ, ◌+◌, String, Bool, Option, none, some, List, [], ◌∷◌, if◌then◌else◌, nat_eq, string_eq,
  pair_eq,
}
use object_database.Prelude.Int.{ℤ}
use object_database.Prelude.Exec.{assertion_error, transaction_error, ok, raised, Exec, ◌>>=◌, ◌>>◌}
use object_database.Collections.Dict.{get, has, insert, delete}
use object_database.Collections.Set.{member}
use object_database.Schema.{ObjectId, IndexValue}
use object_database.Server.Messages.{
  ClientToServer, ServerToClient, BadKey, initialize, transaction_result, schema_mapping,
  flush_response, subscription_data, lazy_transaction_priors, lazy_load_response,
  lazy_subscription_data, subscription_complete, subscription_increase, transaction,
  dependent_connection_id, drop_dependent_connection_id,
}
use object_database.Server.State.{ChannelId}
use object_database.Proxy.State.{Mapping, at}
use object_database.Proxy.Departure.{SetPop}
use object_database.Proxy.Subscriptions.{Replay, Conversion, handle_subscription_complete}
use object_database.Proxy.Received.{map_schema, handle_subscription_data}
use object_database.Proxy.Broadcast.{handle_transaction, send_all}
use object_database.Proxy.Server.{Connection, ProxyServer, send_upstream, on_state, send_down}
use object_database.Proxy.Server.Dispatch.{handle_client_message}

unfoldable pub clear_deferred : Exec ProxyServer (Unit {0})
clear_deferred p = ok tt (record p { downstream = record (p.downstream) { deferred = [] } })

-- self._channelToConnectionId[channel] = msg.connIdentity
unfoldable pub note_connection_id : ChannelId → ObjectId → ProxyServer → ProxyServer
note_connection_id c i p = record p {
  downstream = record (p.downstream) {
    channel_to_connection_id = insert c i p.downstream.channel_to_connection_id;
  };
}

unfoldable pub take_guid : String → ProxyServer → ProxyServer
take_guid guid p = record p {
  downstream = record (p.downstream) { guid_to_channel = delete guid p.downstream.guid_to_channel };
}

-- `self._transactionNum`, which is set when the answer comes to a request that an authenticated proxy made.
unfoldable pub transaction_num : ProxyServer → ℕ
transaction_num p = elim p.connection [ none ↦ 0 | some i ↦ i.transaction_num ]

unfoldable pub on_dependent_connection_id : String → ObjectId → ℕ → ProxyServer → ProxyServer
unfolding send_upstream send_down note_connection_id take_guid transaction_num
on_dependent_connection_id guid i root p = elim (get p.downstream.guid_to_channel guid) [
  | none ↦ send_upstream (drop_dependent_connection_id i) p
  | some c ↦
      if member p.downstream.channels c
      then send_down c (initialize (transaction_num p) i root)
          (note_connection_id c i (take_guid guid p))
      else send_upstream (drop_dependent_connection_id i) (take_guid guid p)
]

unfoldable pub next_iteration : Option ℕ → ℕ
next_iteration none = 0
next_iteration (some n) = n + 1

unfoldable pub note_mapping : String → ℕ → Mapping → ProxyServer → ProxyServer
unfolding map_schema
note_mapping name n mapping p = record p {
  iterations = record (p.iterations) {
    received = insert name n p.iterations.received;
    mapped = insert (name, n) mapping p.iterations.mapped;
    unmapped_to_channels = delete (name, n) p.iterations.unmapped_to_channels;
  };
  subscription_state = map_schema name mapping p.subscription_state;
}

unfoldable pub on_schema_mapping : String → Mapping → Exec ProxyServer (Unit {0})
unfolding note_mapping next_iteration at send_all
on_schema_mapping name mapping p =
    let n = next_iteration (get p.iterations.received name) in
    if has p.iterations.requested name
    then on_state
        (λ s. ok tt (
          send_all (schema_mapping name mapping) (at p.iterations.unmapped_to_channels (name, n))
            s))
        (note_mapping name n mapping p)
    else raised assertion_error p

unfoldable pub on_flush_response : ℕ → ProxyServer → ProxyServer
unfolding send_down
on_flush_response guid p = elim (get p.guids.outgoing_flush guid) [
  | none ↦ p
  | some (c, own) ↦ send_down c (flush_response own) (record p {
    guids = record (p.guids) { outgoing_flush = delete guid p.guids.outgoing_flush };
  })
]

unfoldable pub on_transaction_result : ℕ → Bool → Option BadKey → Bool → ProxyServer → ProxyServer
unfolding send_down
on_transaction_result guid success bad_key is_exception p =
    elim (get p.guids.outgoing_to_channel guid) [
      | none ↦ p
      | some (c, own) ↦
          send_down c (transaction_result own success bad_key is_exception) (record p {
            guids = record (p.guids) {
              outgoing_to_channel = delete guid p.guids.outgoing_to_channel;
            };
          })
    ]

module _ (set_pop : SetPop) (to_identity : IndexValue → Option ObjectId)
    (uuid : ProxyServer → String) where
  unfoldable pub handle_each : List (ChannelId × ClientToServer) → Exec ProxyServer (Unit {0})
  unfolding handle_client_message
  handle_each [] p = ok tt p
  handle_each ((c, msg) ∷ msgs) p =
      (handle_client_message set_pop to_identity uuid c msg >> handle_each msgs) p

  unfoldable pub handle_messages : ChannelId → List ClientToServer → Exec ProxyServer (Unit {0})
  unfolding handle_client_message
  handle_messages c [] p = ok tt p
  handle_messages c (msg ∷ msgs) p =
      (handle_client_message set_pop to_identity uuid c msg >> handle_messages c msgs) p

  unfoldable pub replay : Replay → Exec ProxyServer (Unit {0})
  unfolding handle_messages
  replay [] p = ok tt p
  replay ((c, msgs) ∷ rest) p = (handle_messages c msgs >> replay rest) p

  unfoldable pub on_initialize : Connection → Exec ProxyServer (Unit {0})
  unfolding handle_each clear_deferred
  on_initialize i p =
      (handle_each p.downstream.deferred >> clear_deferred) (record p { connection = some i })

module _ (set_pop : SetPop) (to_identity : IndexValue → Option ObjectId)
    (uuid : ProxyServer → String) (convert : Conversion) where
  unfoldable pub on_subscription_complete : String → String → ℤ → Exec ProxyServer (Unit {0})
  unfolding on_state handle_subscription_complete replay
  on_subscription_complete schema typename tid = do
    held ← on_state (handle_subscription_complete to_identity convert schema typename tid)
    replay set_pop to_identity uuid held

  -- handleServerToClientMessage
  unfoldable pub handle_server_message : ServerToClient → Exec ProxyServer (Unit {0})
  unfolding on_initialize on_dependent_connection_id on_schema_mapping on_state
      handle_subscription_data on_subscription_complete handle_transaction on_flush_response
      on_transaction_result
  handle_server_message (initialize n i root) p =
      on_initialize set_pop to_identity uuid
        (record { identity = i; identity_root = root; transaction_num = n }) p
  handle_server_message (dependent_connection_id guid i root) p =
      ok tt (on_dependent_connection_id guid i root p)
  handle_server_message (schema_mapping name mapping) p = on_schema_mapping name mapping p
  handle_server_message (subscription_data _ _ _ values index_values _) p =
      on_state (handle_subscription_data values index_values) p
  handle_server_message (subscription_complete schema typename _ tid) p =
      on_subscription_complete schema typename tid p
  handle_server_message (transaction t) p =
      on_state (handle_transaction t.writes t.set_adds t.set_removes t.transaction_id) p
  handle_server_message (flush_response guid) p = ok tt (on_flush_response guid p)
  handle_server_message (transaction_result guid success bad_key is_exception) p =
      ok tt (on_transaction_result guid success bad_key is_exception p)
  handle_server_message (lazy_transaction_priors _) p = raised transaction_error p
  handle_server_message (lazy_load_response _ _) p = raised transaction_error p
  handle_server_message (lazy_subscription_data _ _ _ _ _) p = raised transaction_error p
  handle_server_message (subscription_increase _ _ _ _ _) p = raised transaction_error p
