-- ===== src/Server/Dispatch.antt =====
-- `onClientToServerMessage` of object_database/server.py, and `_defineSchema`. A lazy load has no
-- callback, which the source has for tests only.
pub mod Schemas
use object_database.Prelude.{
  ◌≡◌, ◌≢◌, arith, dec_eq, ap, String, true, Option, some, List, [], ◌∷◌, if◌then◌else◌, nat_eq,
  string_eq, beq,
}
use object_database.Prelude.Exec.{key_error, ok, Exec, ◌>>=◌, ◌>>◌, pure, raise}
use object_database.Collections.Dict.{Dict, get, insert}
use object_database.Collections.Set.{member, add, discard}
use object_database.Schema.{ObjectId, FieldId, FieldDefinition, field_definition_eq}
use object_database.Persistence.Value.{text}
use object_database.Persistence.{IndexCodec}
use object_database.Persistence
use object_database.Server.Messages.{
  SchemaDefinition, ClientToServer, transaction_data, heartbeat, define_schema, load_lazy_object,
  subscribe, flush, request_dependent_connection_id, drop_dependent_connection_id, subscribe_none,
  ServerToClient, schema_mapping, flush_response, dependent_connection_id,
}
use object_database.Server.Messages
use object_database.Server.TypeMap.{TypeMap, definition, lookup_or_add, size}
use object_database.Server.State.{
  ChannelId, ConnectedChannel, Routing, Server, write, modify, on_store, on_routing,
}
use object_database.Server.Versions.{Times}
use object_database.Server.Routing.{channel_of}
use object_database.Server.Transactions.{handle_transaction_data}
use object_database.Server.Transactions
use object_database.Server.Connections.{
  Serialization, create_connection_entry, drop_connection_entry,
}
use object_database.Server.Connections
use object_database.Server.Subscriptions.{handle_subscription_in_foreground}

abbrev pub Mapping : Type 0
Mapping = Dict FieldDefinition (Option FieldId)

-- The loops of `_defineSchema`, over names of one type and over the types.
unfoldable pub number_names : String → String → List String → TypeMap × Mapping → TypeMap × Mapping
unfolding lookup_or_add
number_names schema typename [] done = done
number_names schema typename (name ∷ names) done =
    let key = definition schema typename name in
    let found = lookup_or_add done.0 key in
    number_names schema typename names (found.0, insert key found.1 done.1)

unfoldable pub number_types : String → SchemaDefinition → TypeMap × Mapping → TypeMap × Mapping
unfolding number_names
number_types schema [] done = done
number_types schema ((typename, typedef) ∷ types) done = number_types schema types (
    number_names schema typename typedef.indices (number_names schema typename typedef.fields done))

-- What `_defineSchema` does before it may store the type map.
unfoldable pub announce_schema : ChannelId → String → SchemaDefinition → Server → Server
unfolding number_types modify write
announce_schema c name types s =
    let done = number_types name types (s.type_map, []) in
    record s {
      type_map = done.0;
      routing = write c (schema_mapping name done.1) (
          modify c (λ cc. record cc { defined_schemas = insert name types cc.defined_schemas })
            s.routing);
    }

unfoldable pub forget_dependent : ChannelId → ObjectId → Routing → Routing
unfolding modify
forget_dependent c i =
    modify c (λ cc. record cc { dependent_connections = discard i cc.dependent_connections })

module _ (codec : IndexCodec) (ser : Serialization) (times : Times) (c : ChannelId) where
  -- _defineSchema
  unfoldable pub define_types : String → SchemaDefinition → Exec Server (Unit {0})
  unfolding announce_schema size on_store
  define_types name types s =
      let s' = announce_schema c name types s in
      if beq (size s'.type_map) (size s.type_map)
      then ok tt s'
      else on_store (Persistence.set codec (text "types") (some (ser.type_map_bytes s'.type_map)))
          s'

  unfoldable pub drop_dependent : ConnectedChannel → ObjectId → Exec Server (Unit {0})
  unfolding forget_dependent on_routing drop_connection_entry
  drop_dependent cc i =
      if member cc.dependent_connections i
      then (do
        on_routing (λ r. ok tt (forget_dependent c i r))
        drop_connection_entry codec ser times i)
      else raise key_error

  unfoldable pub request_dependent : String → Exec Server (Unit {0})
  unfolding create_connection_entry on_routing modify write
  request_dependent guid = do
    (i, root) ← create_connection_entry codec ser times
    on_routing (λ r. ok tt (
        write c (dependent_connection_id guid i root) (
          modify c (λ cc. record cc { dependent_connections = add i cc.dependent_connections }) r)))

  -- A message on a channel that is authenticated.
  unfoldable pub handle_message : ConnectedChannel → ClientToServer → Exec Server (Unit {0})
  unfolding drop_dependent request_dependent define_types handle_subscription_in_foreground
      handle_transaction_data Transactions.complete_transaction Connections.heartbeat
      Connections.load_lazy_object on_routing write modify
  handle_message cc (drop_dependent_connection_id i) = drop_dependent cc i
  handle_message cc (request_dependent_connection_id parent guid) = request_dependent guid
  handle_message cc heartbeat = on_routing (λ r. ok tt (Connections.heartbeat c r))
  handle_message cc (load_lazy_object schema typename i) =
      Connections.load_lazy_object codec ser c schema typename i
  handle_message cc (flush guid) = on_routing (λ r. ok tt (write c (flush_response guid) r))
  handle_message cc (define_schema name types) = define_types name types
  handle_message cc (subscribe_none schema typename) = pure tt
  handle_message cc (subscribe msg) = handle_subscription_in_foreground codec ser c msg
  handle_message cc (transaction_data guid msg) =
      on_routing (λ r. ok tt (modify c (handle_transaction_data guid msg) r))
  handle_message cc (Messages.complete_transaction as_of guid no_log) =
      λ s. ok tt (Transactions.complete_transaction codec times c as_of guid s)
  handle_message cc (Messages.authenticate token) = pure tt

  unfoldable pub admit_message : ClientToServer → Exec Server (Unit {0})
  unfolding channel_of on_routing handle_message
  admit_message msg = do
    cc ← on_routing (channel_of c)
    if cc.needs_authentication then pure tt else handle_message cc msg

  -- onClientToServerMessage
  unfoldable pub on_client_to_server_message : ClientToServer → Exec Server (Unit {0})
  unfolding admit_message Connections.authenticate on_routing
  on_client_to_server_message (Messages.authenticate token) s =
      if beq token s.auth_token
      then on_routing (λ r. ok tt (Connections.authenticate c r)) s
      else ok tt s
  on_client_to_server_message msg s = admit_message msg s

  admit-unauthenticated :
      (msg : ClientToServer) (s : Server) (cc : ConnectedChannel)
      → get s.routing.channels c ≡ some cc
      → cc.needs_authentication ≡ true
      → admit_message msg s ≡ ok tt s
  unfolding admit_message on_routing channel_of
  admit-unauthenticated msg s cc h n = ground (arith, h, n)

  -- Whatever a channel that is not authenticated sends, but for the right token, the server stays
  -- as it is.
  pub unauthenticated-unchanged :
      (msg : ClientToServer) (s : Server) (cc : ConnectedChannel)
      → get s.routing.channels c ≡ some cc
      → cc.needs_authentication ≡ true
      → msg ≢ Messages.authenticate s.auth_token
      → on_client_to_server_message msg s ≡ ok tt s
  unfolding on_client_to_server_message
  unauthenticated-unchanged (Messages.authenticate token) s cc h n ne =
      elim (dec_eq token s.auth_token) [
        | yes e ↦ absurd (ne (ap (λ t. Messages.authenticate t) e))
        | no other ↦ ground (arith, other)
      ]
  unauthenticated-unchanged (transaction_data g d) s cc h n ne =
      admit-unauthenticated (transaction_data g d) s cc h n
  unauthenticated-unchanged (Messages.complete_transaction v g l) s cc h n ne =
      admit-unauthenticated (Messages.complete_transaction v g l) s cc h n
  unauthenticated-unchanged heartbeat s cc h n ne = admit-unauthenticated heartbeat s cc h n
  unauthenticated-unchanged (define_schema a d) s cc h n ne =
      admit-unauthenticated (define_schema a d) s cc h n
  unauthenticated-unchanged (load_lazy_object a b i) s cc h n ne =
      admit-unauthenticated (load_lazy_object a b i) s cc h n
  unauthenticated-unchanged (subscribe m) s cc h n ne = admit-unauthenticated (subscribe m) s cc h n
  unauthenticated-unchanged (flush g) s cc h n ne = admit-unauthenticated (flush g) s cc h n
  unauthenticated-unchanged (request_dependent_connection_id i g) s cc h n ne =
      admit-unauthenticated (request_dependent_connection_id i g) s cc h n
  unauthenticated-unchanged (drop_dependent_connection_id i) s cc h n ne =
      admit-unauthenticated (drop_dependent_connection_id i) s cc h n
  unauthenticated-unchanged (subscribe_none a b) s cc h n ne =
      admit-unauthenticated (subscribe_none a b) s cc h n
