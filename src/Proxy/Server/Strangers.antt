-- ===== src/Proxy/Server/Strangers.antt =====
-- What a client without a login can make a proxy do (`ProxyServer` in
-- object_database/proxy_server.py).
use object_database.Prelude.{
  String, Bool, false, Option, none, some, [], ◌∷◌, ◌++◌, ◌≡◌, refl, beq, nat_eq, string_eq,
  pair_eq, inl, inr, Option-cases, ◌⊎◌, ap,
}
use object_database.Prelude.Exec.{
  Outcome, ok, state_of, state_of-if, state_of-lookup, state_of-bind,
}
use object_database.Collections.Dict.{get, has}
use object_database.Collections.Set.{member, discard}
use object_database.Schema.{ObjectId, IndexValue}
use object_database.Server.Messages.{
  ClientToServer, transaction_data, complete_transaction, heartbeat, define_schema,
  load_lazy_object, subscribe, flush, authenticate, request_dependent_connection_id,
  drop_dependent_connection_id, subscribe_none,
}
use object_database.Server.State.{ChannelId}
use object_database.Proxy.Departure as Departure
use object_database.Proxy.Departure.{SetPop}
use object_database.Proxy.Server.{
  Connection, ProxyServer, on_state, forget_channel, drop_connection_id, drop_connection,
}
use object_database.Proxy.Server.Dispatch.{
  defer, is_heartbeat, on_authenticate, handle_other, handle_connected, handle_client_message,
}
use object_database.Proxy.Departure.Untouched.{
  IsUntouched, IsUntouched-refl, drop_connection-IsUntouched,
}
use object_database.Proxy.Server.Steps.{IsSame, on_state-IsSame}

-- What is as it was, but for one message upstream that ends a connection.
unfoldable pub OnlyLeaves : ProxyServer → ProxyServer → Type 0
OnlyLeaves p q =
    (q.guids ≡ p.guids)
    × (q.iterations ≡ p.iterations)
    × ((q.upstream ≡ p.upstream)
        ⊎ ((i : ObjectId) × (q.upstream ≡ p.upstream ++ drop_dependent_connection_id i ∷ [])))
    × IsUntouched p.subscription_state q.subscription_state

abbrev Same : ProxyServer → ProxyServer → Type 0
Same p = IsSame (IsUntouched p.subscription_state) p

IsSame-OnlyLeaves : (p q : ProxyServer) → Same p q → OnlyLeaves p q
unfolding OnlyLeaves IsSame
IsSame-OnlyLeaves p q (g, i, u, h) = (g, i, inl u, h)

OnlyLeaves-refl : (p : ProxyServer) → OnlyLeaves p p
unfolding OnlyLeaves
OnlyLeaves-refl p = (refl, refl, inl refl, IsUntouched-refl p.subscription_state)

drop_connection_id-OnlyLeaves :
    (c : ChannelId) (p q : ProxyServer) → Same p q → OnlyLeaves p (drop_connection_id c q)
unfolding OnlyLeaves drop_connection_id IsSame
drop_connection_id-OnlyLeaves c p q (g, i, u, h) =
    elim (Option-cases (get q.downstream.channel_to_connection_id c)) [
      | inl e ↦ rw (drop_connection_id, e) (g, i, inl u, h)
      | inr (j, e) ↦
          rw (drop_connection_id, e)
            (g, i, inr (j, ap (λ l. l ++ drop_dependent_connection_id j ∷ []) u), h)
    ]

drop_connection-OnlyLeaves :
    (set_pop : SetPop) (c : ChannelId) (p : ProxyServer)
    → OnlyLeaves p (state_of (drop_connection set_pop c p))
unfolding drop_connection IsSame
drop_connection-OnlyLeaves set_pop c p =
    state_of-if (OnlyLeaves p) (member p.downstream.channels c) _ (ok tt p)
      (λ _.
        state_of-bind {P = Same p} {Q = OnlyLeaves p}
          (on_state (Departure.drop_connection set_pop c)) _
          (on_state-IsSame (IsUntouched p.subscription_state) (Departure.drop_connection set_pop c)
            p (drop_connection-IsUntouched set_pop c p.subscription_state))
          (IsSame-OnlyLeaves p)
          (λ _ q h.
            state_of-if (OnlyLeaves p) (has q.downstream.missed_heartbeats c) _ _
              (λ _.
                drop_connection_id-OnlyLeaves c p
                  (record q { downstream = forget_channel c q.downstream }) h)
              (λ _.
                IsSame-OnlyLeaves p
                  (record q {
                    downstream = record (q.downstream) {
                      channels = discard c q.downstream.channels;
                    };
                  })
                  h))
          p (refl, refl, refl, IsUntouched-refl p.subscription_state))
      (λ _. OnlyLeaves-refl p)

defer-IsSame : (c : ChannelId) (msg : ClientToServer) (p : ProxyServer) → Same p (defer c msg p)
unfolding IsSame defer
defer-IsSame c msg p = (refl, refl, refl, IsUntouched-refl p.subscription_state)

-- Is it a login with the right token?
unfoldable pub is_login : String → ClientToServer → Bool
is_login auth_token (authenticate token) = beq token auth_token
is_login auth_token _ = false

module _ (set_pop : SetPop) (to_identity : IndexValue → Option ObjectId)
    (uuid : ProxyServer → String) where
  stranger-other :
      (i : Connection) (c : ChannelId) (msg : ClientToServer) (p : ProxyServer)
      → member p.downstream.authenticated c ≡ false
      → OnlyLeaves p (state_of (handle_other set_pop to_identity uuid i c msg p))
  unfolding handle_other
  stranger-other i c msg p stranger =
      rw (handle_other, stranger)
        (state_of-if (OnlyLeaves p) (is_heartbeat msg) (ok tt p) (drop_connection set_pop c p)
          (λ _. OnlyLeaves-refl p) (λ _. drop_connection-OnlyLeaves set_pop c p))

  stranger-authenticate :
      (i : Connection) (c : ChannelId) (token : String) (p : ProxyServer)
      → member p.downstream.authenticated c ≡ false
      → beq token p.auth_token ≡ false
      → OnlyLeaves p (state_of (on_authenticate set_pop to_identity uuid i c token p))
  unfolding on_authenticate
  stranger-authenticate i c token p stranger wrong =
      rw (on_authenticate, stranger, wrong) (drop_connection-OnlyLeaves set_pop c p)

  stranger-connected :
      (i : Connection) (c : ChannelId) (msg : ClientToServer) (p : ProxyServer)
      → member p.downstream.authenticated c ≡ false
      → is_login p.auth_token msg ≡ false
      → OnlyLeaves p (state_of (handle_connected set_pop to_identity uuid i c msg p))
  unfolding handle_connected is_login
  stranger-connected i c (authenticate token) p stranger wrong =
      stranger-authenticate i c token p stranger wrong
  stranger-connected i c (transaction_data guid d) p stranger wrong =
      stranger-other i c (transaction_data guid d) p stranger
  stranger-connected i c (complete_transaction v guid b) p stranger wrong =
      stranger-other i c (complete_transaction v guid b) p stranger
  stranger-connected i c heartbeat p stranger wrong = stranger-other i c heartbeat p stranger
  stranger-connected i c (define_schema name d) p stranger wrong =
      stranger-other i c (define_schema name d) p stranger
  stranger-connected i c (load_lazy_object a b o) p stranger wrong =
      stranger-other i c (load_lazy_object a b o) p stranger
  stranger-connected i c (subscribe key) p stranger wrong =
      stranger-other i c (subscribe key) p stranger
  stranger-connected i c (flush guid) p stranger wrong = stranger-other i c (flush guid) p stranger
  stranger-connected i c (request_dependent_connection_id a b) p stranger wrong =
      stranger-other i c (request_dependent_connection_id a b) p stranger
  stranger-connected i c (drop_dependent_connection_id a) p stranger wrong =
      stranger-other i c (drop_dependent_connection_id a) p stranger
  stranger-connected i c (subscribe_none a b) p stranger wrong =
      stranger-other i c (subscribe_none a b) p stranger

  -- Whatever a client that has not authenticated sends, other than `Authenticate` with the right token, the
  -- proxy keeps its numbers of transactions and flushes, the schemas and subscribed types that it has
  -- asked for, and its subscription state's schemas, objects, transaction number and completed types;
  -- it sends its clients nothing, and the main server nothing but, at most, the end of one dependent
  -- connection.
  pub handle_client_message-OnlyLeaves :
      (c : ChannelId) (msg : ClientToServer) (p : ProxyServer)
      → member p.downstream.authenticated c ≡ false
      → is_login p.auth_token msg ≡ false
      → OnlyLeaves p (state_of (handle_client_message set_pop to_identity uuid c msg p))
  unfolding handle_client_message defer
  handle_client_message-OnlyLeaves c msg p stranger wrong =
      let found : Option Connection → Outcome ProxyServer (Unit {0}) = λ o. elim o [
        | none ↦ ok tt (defer c msg p)
        | some i ↦ handle_connected set_pop to_identity uuid i c msg p
      ] in
      state_of-if (OnlyLeaves p) (member p.downstream.channels c) (found p.connection) (ok tt p)
        (λ _.
          state_of-lookup (OnlyLeaves p) p.connection (ok tt (defer c msg p))
            (λ i. handle_connected set_pop to_identity uuid i c msg p)
            (λ _. IsSame-OnlyLeaves p (defer c msg p) (defer-IsSame c msg p))
            (λ i _. stranger-connected i c msg p stranger wrong))
        (λ _. OnlyLeaves-refl p)
