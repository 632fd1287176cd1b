-- ===== src/Proxy/Server/Dispatch.antt =====
-- `handleClientToServerMessage` of `ProxyServer` (object_database/proxy_server.py): what a client may
-- send before and after it has authenticated.
use object_database.Prelude.{
  String, Bool, true, false, Option, none, some, [], ◌∷◌, ◌++◌, if◌then◌else◌, beq, nat_eq,
  string_eq, pair_eq,
}
use object_database.Prelude.Exec.{transaction_error, ok, raised, Exec}
use object_database.Collections.Dict.{insert}
use object_database.Collections.Set.{member, add}
use object_database.Schema.{ObjectId, IndexValue}
use object_database.Server.Messages.{
  ClientToServer, transaction_data, complete_transaction, heartbeat, define_schema,
  load_lazy_object, subscribe, flush, authenticate, request_dependent_connection_id,
  drop_dependent_connection_id, subscribe_none,
}
use object_database.Server.State.{ChannelId}
use object_database.Proxy.Departure.{SetPop}
use object_database.Proxy.Broadcast.{lazy_load_object}
use object_database.Proxy.Server.{Connection, ProxyServer, send_upstream, drop_connection}
use object_database.Proxy.Server.Requests.{
  on_define_schema, ensure_subscribed, on_subscribe, on_flush, unless_pending, on_transaction_data,
  on_complete_transaction, on_heartbeat,
}

-- Before a proxy knows its own identity it keeps the messages.
unfoldable pub defer : ChannelId → ClientToServer → ProxyServer → ProxyServer
defer c msg p = record p {
  downstream = record (p.downstream) { deferred = p.downstream.deferred ++ (c, msg) ∷ [] };
}

-- A client has given the right token: `guid` is what `uuid4` returns.
unfoldable pub accept_client : String → ObjectId → ChannelId → ProxyServer → ProxyServer
unfolding send_upstream
accept_client guid identity c p =
    send_upstream (request_dependent_connection_id identity guid) (record p {
      downstream = record (p.downstream) {
        authenticated = add c p.downstream.authenticated;
        guid_to_channel = insert guid c p.downstream.guid_to_channel;
      };
    })

unfoldable pub is_heartbeat : ClientToServer → Bool
is_heartbeat heartbeat = true
is_heartbeat _ = false

module _ (set_pop : SetPop) (to_identity : IndexValue → Option ObjectId)
    (uuid : ProxyServer → String) where
  -- The branch for `Authenticate`.
  unfoldable pub on_authenticate : Connection → ChannelId → String → Exec ProxyServer (Unit {0})
  unfolding drop_connection accept_client
  on_authenticate i c token p =
      if member p.downstream.authenticated c
      then drop_connection set_pop c p
      else if beq token p.auth_token
      then ok tt (accept_client (uuid p) i.identity c p)
      else drop_connection set_pop c p

  unfoldable pub on_load_lazy : ChannelId → String → String → ObjectId → Exec ProxyServer (Unit {0})
  unfolding drop_connection lazy_load_object
  on_load_lazy c schema typename i p =
      if member p.subscription_state.completed_types (schema, typename)
      then ok tt (record p {
        subscription_state = lazy_load_object c schema typename i p.subscription_state;
      })
      else drop_connection set_pop c p

  -- _handleAuthenticatedMessage
  unfoldable pub handle_authenticated :
      Connection → ChannelId → ClientToServer → Exec ProxyServer (Unit {0})
  unfolding on_define_schema ensure_subscribed on_subscribe on_flush on_load_lazy unless_pending
      on_transaction_data on_complete_transaction on_heartbeat
  handle_authenticated i c (define_schema name d) p = on_define_schema c name d p
  handle_authenticated i c (subscribe_none schema typename) p =
      ok tt (ensure_subscribed schema typename p)
  handle_authenticated i c (subscribe key) p = on_subscribe to_identity c key p
  handle_authenticated i c (flush guid) p = ok tt (on_flush c guid p)
  handle_authenticated i c (load_lazy_object schema typename oid) p =
      on_load_lazy c schema typename oid p
  handle_authenticated i c (transaction_data guid d) p =
      unless_pending c (transaction_data guid d) (on_transaction_data i.transaction_num c guid d) p
  handle_authenticated i c (complete_transaction as_of guid no_log) p =
      unless_pending c (complete_transaction as_of guid no_log)
        (λ q. ok tt (on_complete_transaction c as_of guid no_log q)) p
  handle_authenticated i c heartbeat p = ok tt (on_heartbeat c p)
  handle_authenticated i c (authenticate _) p = raised transaction_error p
  handle_authenticated i c (request_dependent_connection_id _ _) p = raised transaction_error p
  handle_authenticated i c (drop_dependent_connection_id _) p = raised transaction_error p

  -- The check that the channel has authenticated.
  unfoldable pub handle_other :
      Connection → ChannelId → ClientToServer → Exec ProxyServer (Unit {0})
  unfolding handle_authenticated is_heartbeat drop_connection
  handle_other i c msg p =
      if member p.downstream.authenticated c
      then handle_authenticated i c msg p
      else if is_heartbeat msg
      then ok tt p
      else drop_connection set_pop c p

  unfoldable pub handle_connected :
      Connection → ChannelId → ClientToServer → Exec ProxyServer (Unit {0})
  unfolding handle_other on_authenticate
  handle_connected i c (authenticate token) p = on_authenticate i c token p
  handle_connected i c msg p = handle_other i c msg p

  -- handleClientToServerMessage
  unfoldable pub handle_client_message : ChannelId → ClientToServer → Exec ProxyServer (Unit {0})
  unfolding handle_connected defer
  handle_client_message c msg p =
      if member p.downstream.channels c
      then (elim p.connection [
        | none ↦ ok tt (defer c msg p)
        | some i ↦ handle_connected i c msg p
      ])
      else ok tt p
