-- ===== src/Proxy/Server/Clients.antt =====
-- The way of a client's message to its handler (`_handleClientToServerMessage` in
-- object_database/proxy_server.py), and the proxy's tables before and after.
use object_database.Prelude.{
  String, true, Option, none, some, ◌≡◌, refl, if◌then◌else◌, beq, nat_eq, string_eq, pair_eq,
}
use object_database.Prelude.Exec.{Outcome, ok, state_of, state_of-if, state_of-lookup}
use object_database.Collections.Set.{member}
use object_database.Schema.{ObjectId, IndexValue}
use object_database.Server.Messages.{
  ClientToServer, transaction_data, complete_transaction, heartbeat, define_schema,
  load_lazy_object, subscribe, flush, authenticate, request_dependent_connection_id,
  drop_dependent_connection_id, subscribe_none,
}
use object_database.Server.State.{ChannelId}
use object_database.Proxy.Departure.{SetPop}
use object_database.Proxy.Broadcast.{lazy_load_object}
use object_database.Proxy.Server.{Connection, ProxyServer, drop_connection}
use object_database.Proxy.Server.Requests.{on_complete_transaction}
use object_database.Proxy.Server.Dispatch.{
  defer, accept_client, on_authenticate, on_load_lazy, handle_authenticated, handle_other,
  handle_connected, handle_client_message, is_heartbeat,
}
use object_database.Proxy.Server.Sound.{IsLive, IsSound, append-IsPooled, authenticate-IsLive}
use object_database.Proxy.Server.Steps.{KeepsSound, drop_connection-KeepsSound}
use object_database.Proxy.Server.Handlers.{
  on_define_schema-KeepsSound, ensure_subscribed-IsSound, on_subscribe-KeepsSound, on_flush-IsSound,
  unless_pending-KeepsSound, on_transaction_data-KeepsSound, on_complete_transaction-IsSound,
  on_heartbeat-IsSound,
}

module _ (set_pop : SetPop) (to_identity : IndexValue → Option ObjectId)
    (uuid : ProxyServer → String) where
  handle_authenticated-KeepsSound :
      (i : Connection) (c : ChannelId) (msg : ClientToServer)
      → KeepsSound (handle_authenticated set_pop to_identity uuid i c msg)
  unfolding handle_authenticated on_load_lazy IsSound
  handle_authenticated-KeepsSound i c (define_schema name d) = record {
    kept = (on_define_schema-KeepsSound c name d).kept;
  }
  handle_authenticated-KeepsSound i c (subscribe_none schema typename) = record {
    kept = ensure_subscribed-IsSound schema typename;
  }
  handle_authenticated-KeepsSound i c (subscribe key) = record {
    kept = (on_subscribe-KeepsSound to_identity c key).kept;
  }
  handle_authenticated-KeepsSound i c (flush guid) = record { kept = on_flush-IsSound c guid }
  handle_authenticated-KeepsSound i c (load_lazy_object schema typename oid) = record {
    kept = λ p h.
        state_of-if IsSound (member p.subscription_state.completed_types (schema, typename))
          (ok tt (record p {
            subscription_state = lazy_load_object c schema typename oid p.subscription_state;
          }))
          (drop_connection set_pop c p) (λ _. h)
          (λ _. (drop_connection-KeepsSound set_pop c).kept p h);
  }
  handle_authenticated-KeepsSound i c (transaction_data guid d) = record {
    kept =
        (unless_pending-KeepsSound c (transaction_data guid d) _
          (on_transaction_data-KeepsSound i.transaction_num c guid d)).kept;
  }
  handle_authenticated-KeepsSound i c (complete_transaction as_of guid no_log) = record {
    kept =
        (unless_pending-KeepsSound c (complete_transaction as_of guid no_log)
          (λ q. ok tt (on_complete_transaction c as_of guid no_log q))
          (record { kept = on_complete_transaction-IsSound c as_of guid no_log })).kept;
  }
  handle_authenticated-KeepsSound i c heartbeat = record { kept = on_heartbeat-IsSound c }
  handle_authenticated-KeepsSound i c (authenticate token) = record { kept = λ p h. h }
  handle_authenticated-KeepsSound i c (request_dependent_connection_id a b) = record {
    kept = λ p h. h;
  }
  handle_authenticated-KeepsSound i c (drop_dependent_connection_id a) = record { kept = λ p h. h }

  handle_other-KeepsSound :
      (i : Connection) (c : ChannelId) (msg : ClientToServer)
      → KeepsSound (handle_other set_pop to_identity uuid i c msg)
  unfolding handle_other
  handle_other-KeepsSound i c msg = record {
    kept = λ p h.
        state_of-if IsSound (member p.downstream.authenticated c)
          (handle_authenticated set_pop to_identity uuid i c msg p)
          (if is_heartbeat msg then ok tt p else drop_connection set_pop c p)
          (λ _. (handle_authenticated-KeepsSound i c msg).kept p h)
          (λ _.
            state_of-if IsSound (is_heartbeat msg) (ok tt p) (drop_connection set_pop c p) (λ _. h)
              (λ _. (drop_connection-KeepsSound set_pop c).kept p h));
  }

  accept_client-IsSound :
      (guid : String) (i : ObjectId) (c : ChannelId) (p : ProxyServer)
      → member p.downstream.channels c ≡ true
      → IsSound p
      → IsSound (accept_client guid i c p)
  unfolding accept_client IsSound IsLive
  accept_client-IsSound guid i c p here (l, n, k) = (
    authenticate-IsLive c p.downstream here l,
    n,
    append-IsPooled p.iterations.subscribed_types p.upstream
        (request_dependent_connection_id i guid) (λ t. refl) refl k,
  )

  on_authenticate-IsSound :
      (i : Connection) (c : ChannelId) (token : String) (p : ProxyServer)
      → member p.downstream.channels c ≡ true
      → IsSound p
      → IsSound (state_of (on_authenticate set_pop to_identity uuid i c token p))
  unfolding on_authenticate
  on_authenticate-IsSound i c token p here h =
      let drops = (drop_connection-KeepsSound set_pop c).kept p h in
      state_of-if IsSound (member p.downstream.authenticated c) (drop_connection set_pop c p)
        (if beq token p.auth_token
          then ok tt (accept_client (uuid p) i.identity c p)
          else drop_connection set_pop c p)
        (λ _. drops)
        (λ _.
          state_of-if IsSound (beq token p.auth_token)
            (ok tt (accept_client (uuid p) i.identity c p)) (drop_connection set_pop c p)
            (λ _. accept_client-IsSound (uuid p) i.identity c p here h) (λ _. drops))

  handle_connected-IsSound :
      (i : Connection) (c : ChannelId) (msg : ClientToServer) (p : ProxyServer)
      → member p.downstream.channels c ≡ true
      → IsSound p
      → IsSound (state_of (handle_connected set_pop to_identity uuid i c msg p))
  unfolding handle_connected
  handle_connected-IsSound i c (authenticate token) p here h =
      on_authenticate-IsSound i c token p here h
  handle_connected-IsSound i c (transaction_data guid d) p here h =
      (handle_other-KeepsSound i c (transaction_data guid d)).kept p h
  handle_connected-IsSound i c (complete_transaction v guid b) p here h =
      (handle_other-KeepsSound i c (complete_transaction v guid b)).kept p h
  handle_connected-IsSound i c heartbeat p here h = (handle_other-KeepsSound i c heartbeat).kept p h
  handle_connected-IsSound i c (define_schema name d) p here h =
      (handle_other-KeepsSound i c (define_schema name d)).kept p h
  handle_connected-IsSound i c (load_lazy_object a b o) p here h =
      (handle_other-KeepsSound i c (load_lazy_object a b o)).kept p h
  handle_connected-IsSound i c (subscribe key) p here h =
      (handle_other-KeepsSound i c (subscribe key)).kept p h
  handle_connected-IsSound i c (flush guid) p here h =
      (handle_other-KeepsSound i c (flush guid)).kept p h
  handle_connected-IsSound i c (request_dependent_connection_id a b) p here h =
      (handle_other-KeepsSound i c (request_dependent_connection_id a b)).kept p h
  handle_connected-IsSound i c (drop_dependent_connection_id a) p here h =
      (handle_other-KeepsSound i c (drop_dependent_connection_id a)).kept p h
  handle_connected-IsSound i c (subscribe_none a b) p here h =
      (handle_other-KeepsSound i c (subscribe_none a b)).kept p h

  pub handle_client_message-KeepsSound :
      (c : ChannelId) (msg : ClientToServer)
      → KeepsSound (handle_client_message set_pop to_identity uuid c msg)
  unfolding handle_client_message defer IsSound
  handle_client_message-KeepsSound c msg = record {
    kept = λ p h.
        let found : Option Connection → Outcome ProxyServer (Unit {0}) = λ o. elim o [
          | none ↦ ok tt (defer c msg p)
          | some i ↦ handle_connected set_pop to_identity uuid i c msg p
        ] in
        state_of-if IsSound (member p.downstream.channels c) (found p.connection) (ok tt p)
          (λ here.
            state_of-lookup IsSound p.connection (ok tt (defer c msg p))
              (λ i. handle_connected set_pop to_identity uuid i c msg p) (λ _. h)
              (λ i _. handle_connected-IsSound i c msg p here h))
          (λ _. h);
  }
