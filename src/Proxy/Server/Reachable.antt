-- ===== src/Proxy/Server/Reachable.antt =====
-- What a proxy can come to from its start, by the calls of `ProxyServer` in
-- object_database/proxy_server.py.
use object_database.Prelude.{
  ℕ, String, Bool, Option, some, List, [], ◌∷◌, refl, nat_eq, string_eq, pair_eq, inl, inr,
  Option-cases, Bool-cases,
}
use object_database.Prelude.Exec.{
  Exec, ok, raised, state_of, bind-Preserves, state_of-if, assertion_error,
}
use object_database.Collections.Dict.{Dict, get, has}
use object_database.Collections.Set.{member}
use object_database.Schema.{Bytes, ObjectId, IndexValue}
use object_database.Server.Messages.{
  SchemaDefinition, ClientToServer, ServerToClient, BadKey, authenticate, define_schema,
  drop_dependent_connection_id, schema_mapping, initialize, transaction_result, flush_response,
  subscription_data, lazy_transaction_priors, lazy_load_response, lazy_subscription_data,
  subscription_complete, subscription_increase, transaction, dependent_connection_id,
}
use object_database.Server.State.{ChannelId}
use object_database.Proxy.State.{Mapping, at}
use object_database.Proxy.Departure.{SetPop}
use object_database.Proxy.Subscriptions.{Replay, Conversion, handle_subscription_complete}
use object_database.Proxy.Received.{handle_subscription_data}
use object_database.Proxy.Broadcast.{handle_transaction, send_all}
use object_database.Proxy.Server.{
  Connection, ProxyServer, new_proxy, on_state, authenticate_upstream, add_connection,
  drop_connection, check_for_dead_connections, send_upstream,
}
use object_database.Proxy.Server.Dispatch.{handle_client_message}
use object_database.Proxy.Server.Replies.{
  clear_deferred, take_guid, on_dependent_connection_id, next_iteration, note_mapping,
  on_schema_mapping, on_flush_response, on_transaction_result, handle_each, handle_messages, replay,
  on_initialize, on_subscription_complete, handle_server_message,
}
use object_database.Proxy.Server.Sound.{IsSound, IsLive, result-IsNumbered, response-IsNumbered}
use object_database.Proxy.Server.Steps.{
  KeepsSound, on_state-KeepsSound, send_upstream-IsSound, add_connection-IsSound,
  drop_connection-KeepsSound, check_for_dead_connections-KeepsSound,
}
use object_database.Proxy.Server.Clients.{handle_client_message-KeepsSound}

on_dependent_connection_id-IsSound :
    (guid : String) (i : ObjectId) (root : ℕ) (p : ProxyServer)
    → IsSound p
    → IsSound (on_dependent_connection_id guid i root p)
unfolding on_dependent_connection_id IsSound
on_dependent_connection_id-IsSound guid i root p h =
    elim (Option-cases (get p.downstream.guid_to_channel guid)) [
      | inl e ↦
          rw (on_dependent_connection_id, e)
            (send_upstream-IsSound (drop_dependent_connection_id i) (λ t. refl) refl p h)
      | inr (c, e) ↦ elim (Bool-cases (member p.downstream.channels c)) [
        | inl b ↦ rw (on_dependent_connection_id, e, b) h
        | inr b ↦
            rw (on_dependent_connection_id, e, b)
              (send_upstream-IsSound (drop_dependent_connection_id i) (λ t. refl) refl
                (take_guid guid p) h)
      ]
    ]

on_flush_response-IsSound :
    (guid : ℕ) (p : ProxyServer) → IsSound p → IsSound (on_flush_response guid p)
unfolding on_flush_response IsSound
on_flush_response-IsSound guid p (l, n, i) = elim (Option-cases (get p.guids.outgoing_flush guid)) [
  | inl e ↦ rw (on_flush_response, e) (l, n, i)
  | inr (x, e) ↦ rw (on_flush_response, e) (l, response-IsNumbered guid p.guids n, i)
]

on_transaction_result-IsSound :
    (guid : ℕ) (success : Bool) (bad_key : Option BadKey) (is_exception : Bool) (p : ProxyServer)
    → IsSound p
    → IsSound (on_transaction_result guid success bad_key is_exception p)
unfolding on_transaction_result IsSound
on_transaction_result-IsSound guid success bad_key is_exception p (l, n, i) =
    elim (Option-cases (get p.guids.outgoing_to_channel guid)) [
      | inl e ↦ rw (on_transaction_result, e) (l, n, i)
      | inr (x, e) ↦ rw (on_transaction_result, e) (l, result-IsNumbered guid p.guids n, i)
    ]

on_schema_mapping-KeepsSound :
    (name : String) (mapping : Mapping) → KeepsSound (on_schema_mapping name mapping)
unfolding on_schema_mapping note_mapping on_state IsSound
on_schema_mapping-KeepsSound name mapping = record {
  kept = λ p h.
      let n = next_iteration (get p.iterations.received name) in
      let waiting = at p.iterations.unmapped_to_channels (name, n) in
      state_of-if IsSound (has p.iterations.requested name)
        (on_state (λ s. ok tt (send_all (schema_mapping name mapping) waiting s))
          (note_mapping name n mapping p))
        (raised assertion_error p) (λ _. h) (λ _. h);
}

module _ (set_pop : SetPop) (to_identity : IndexValue → Option ObjectId)
    (uuid : ProxyServer → String) where
  handle_each-KeepsSound :
      (msgs : List (ChannelId × ClientToServer))
      → KeepsSound (handle_each set_pop to_identity uuid msgs)
  unfolding handle_each
  handle_each-KeepsSound [] = record { kept = λ p h. h }
  handle_each-KeepsSound ((c, msg) ∷ msgs) = record {
    kept =
        (bind-Preserves (handle_client_message set_pop to_identity uuid c msg) _
          (handle_client_message-KeepsSound set_pop to_identity uuid c msg)
          (λ _. handle_each-KeepsSound msgs)).kept;
  }

  handle_messages-KeepsSound :
      (c : ChannelId) (msgs : List ClientToServer)
      → KeepsSound (handle_messages set_pop to_identity uuid c msgs)
  unfolding handle_messages
  handle_messages-KeepsSound c [] = record { kept = λ p h. h }
  handle_messages-KeepsSound c (msg ∷ msgs) = record {
    kept =
        (bind-Preserves (handle_client_message set_pop to_identity uuid c msg) _
          (handle_client_message-KeepsSound set_pop to_identity uuid c msg)
          (λ _. handle_messages-KeepsSound c msgs)).kept;
  }

  replay-KeepsSound : (held : Replay) → KeepsSound (replay set_pop to_identity uuid held)
  unfolding replay
  replay-KeepsSound [] = record { kept = λ p h. h }
  replay-KeepsSound ((c, msgs) ∷ held) = record {
    kept =
        (bind-Preserves (handle_messages set_pop to_identity uuid c msgs) _
          (handle_messages-KeepsSound c msgs) (λ _. replay-KeepsSound held)).kept;
  }

  on_initialize-KeepsSound :
      (i : Connection) → KeepsSound (on_initialize set_pop to_identity uuid i)
  unfolding on_initialize clear_deferred IsSound IsLive
  on_initialize-KeepsSound i = record {
    kept = λ p h.
        (bind-Preserves {P = IsSound} (handle_each set_pop to_identity uuid p.downstream.deferred) _
            (handle_each-KeepsSound p.downstream.deferred) (λ _. record { kept = λ q k. k })).kept
          (record p { connection = some i }) h;
  }

module _ (set_pop : SetPop) (to_identity : IndexValue → Option ObjectId)
    (uuid : ProxyServer → String) (convert : Conversion) where
  handle_server_message-KeepsSound :
      (msg : ServerToClient)
      → KeepsSound (handle_server_message set_pop to_identity uuid convert msg)
  unfolding handle_server_message on_subscription_complete
  handle_server_message-KeepsSound (initialize n i root) = record {
    kept =
        (on_initialize-KeepsSound set_pop to_identity uuid
          (record { identity = i; identity_root = root; transaction_num = n })).kept;
  }
  handle_server_message-KeepsSound (dependent_connection_id guid i root) = record {
    kept = on_dependent_connection_id-IsSound guid i root;
  }
  handle_server_message-KeepsSound (schema_mapping name mapping) = record {
    kept = (on_schema_mapping-KeepsSound name mapping).kept;
  }
  handle_server_message-KeepsSound (subscription_data a b c values index_values d) = record {
    kept = (on_state-KeepsSound (handle_subscription_data values index_values)).kept;
  }
  handle_server_message-KeepsSound (subscription_complete schema typename fv tid) = record {
    kept =
        (bind-Preserves
          (on_state (handle_subscription_complete to_identity convert schema typename tid)) _
          (on_state-KeepsSound
            (handle_subscription_complete to_identity convert schema typename tid))
          (replay-KeepsSound set_pop to_identity uuid)).kept;
  }
  handle_server_message-KeepsSound (transaction t) = record {
    kept =
        (on_state-KeepsSound
          (handle_transaction t.writes t.set_adds t.set_removes t.transaction_id)).kept;
  }
  handle_server_message-KeepsSound (flush_response guid) = record {
    kept = on_flush_response-IsSound guid;
  }
  handle_server_message-KeepsSound (transaction_result guid success bad_key is_exception) = record {
    kept = on_transaction_result-IsSound guid success bad_key is_exception;
  }
  handle_server_message-KeepsSound (lazy_transaction_priors a) = record { kept = λ p h. h }
  handle_server_message-KeepsSound (lazy_load_response a b) = record { kept = λ p h. h }
  handle_server_message-KeepsSound (lazy_subscription_data a b c d e) = record { kept = λ p h. h }
  handle_server_message-KeepsSound (subscription_increase a b c d e) = record { kept = λ p h. h }

-- The calls that a proxy gets: of the program that runs it, of its clients and of the main server.
pub data Event : Type 0 where
  authenticates : String → SchemaDefinition → Event
  connects disconnects : ChannelId → Event
  client_sends : ChannelId → ClientToServer → Event
  server_sends : ServerToClient → Event
  checks_heartbeats : Event

module _ (set_pop : SetPop) (to_identity : IndexValue → Option ObjectId)
    (uuid : ProxyServer → String) (convert : Conversion) (true_bytes : Bytes)
    (get_of_none : Dict ObjectId Bytes → Option (Option Bytes)) where
  unfoldable pub step : Event → Exec ProxyServer (Unit {0})
  step (authenticates core d) p = ok tt (authenticate_upstream core d p)
  step (connects c) p = ok tt (add_connection c p)
  step (disconnects c) p = drop_connection set_pop c p
  step (client_sends c msg) p = handle_client_message set_pop to_identity uuid c msg p
  step (server_sends msg) p = handle_server_message set_pop to_identity uuid convert msg p
  step checks_heartbeats p = check_for_dead_connections set_pop true_bytes get_of_none p

  -- A call that raises leaves the proxy as it stands then, and the next one follows.
  pub data Reaches (token : String) : ProxyServer → Type 0 where
    starts : Reaches token (new_proxy token)
    goes_on : {p : ProxyServer} (e : Event) → Reaches token p → Reaches token (state_of (step e p))

  step-KeepsSound : (e : Event) → KeepsSound (step e)
  unfolding step authenticate_upstream IsSound
  step-KeepsSound (authenticates core d) = record {
    kept = λ p h.
        send_upstream-IsSound (define_schema core d) (λ t. refl) refl
          (send_upstream (authenticate p.auth_token) p)
          (send_upstream-IsSound (authenticate p.auth_token) (λ t. refl) refl p h);
  }
  step-KeepsSound (connects c) = record { kept = add_connection-IsSound c }
  step-KeepsSound (disconnects c) = record { kept = (drop_connection-KeepsSound set_pop c).kept }
  step-KeepsSound (client_sends c msg) = record {
    kept = (handle_client_message-KeepsSound set_pop to_identity uuid c msg).kept;
  }
  step-KeepsSound (server_sends msg) = record {
    kept = (handle_server_message-KeepsSound set_pop to_identity uuid convert msg).kept;
  }
  step-KeepsSound checks_heartbeats = record {
    kept = (check_for_dead_connections-KeepsSound set_pop true_bytes get_of_none).kept;
  }

  new_proxy-IsSound : (token : String) → IsSound (new_proxy token)
  unfolding new_proxy IsSound get has member
  new_proxy-IsSound token = (
    ((λ c. refl), (λ c h. h)),
    ((λ k n e. cc), (λ n k e. cc), (λ j k n e f. cc), (λ j k n e f. cc), (λ n k e. cc)),
    ((λ t. refl), refl),
  )

  -- In every proxy that comes about by these calls, exceptions included: just the connected channels have a
  -- heartbeat count, and only connected ones are authenticated; an outgoing transaction number was
  -- handed out, stands for one open transaction, and its reply entry names the same one; the number of
  -- a flush that waits for its reply was handed out; each
  -- subscribed type was asked for upstream once, as a whole and not lazily, and no other was.
  pub Reaches-IsSound : (token : String) (p : ProxyServer) → Reaches token p → IsSound p
  Reaches-IsSound token p starts = new_proxy-IsSound token
  Reaches-IsSound token p (goes_on e r) = (step-KeepsSound e).kept _ (Reaches-IsSound token _ r)
