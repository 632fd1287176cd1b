-- ===== src/Server/Connections.antt =====
-- The connections of `Server` (object_database/server.py): identity roots, the objects that stand
-- for connections, heartbeats, and the end of a connection.
pub mod Registries
pub mod Departure
mod Tests
use object_database.Prelude.{
  ℕ, ◌+◌, ◌≡◌, String, Bool, true, false, Option, none, some, List, [], ◌∷◌, map, if◌then◌else◌,
  leb, nat_eq, beq, Eq, list_eq,
}
use object_database.Prelude.Int.{ℤ, pos}
use object_database.Prelude.Exec.{
  key_error, type_error, wrong_kind, ok, raised, Exec, ◌>>=◌, ◌>>◌, pure, raise, for_each,
}
use object_database.Collections.Dict.{Dict, get, insert, delete}
use object_database.Collections.Set.{member, add, discard}
use object_database.Schema.{Bytes, ObjectId, FieldId, IndexValue, IndexId, ObjectFieldId, index_eq}
use object_database.Identity.{create_identity}
use object_database.Persistence.Value.{Key, text, object_field, index, SetValue, identity, value}
use object_database.Persistence.{IndexCodec, get_set_members, set_several}
use object_database.Persistence
use object_database.Server.Messages.{initialize, lazy_load_response}
use object_database.Server.TypeMap.{TypeMap, definition, field_id_for}
use object_database.Server.State.{
  ChannelId, ConnectedChannel, connected_channel, Routing, Server, write, modify, on_store,
  on_routing,
}
use object_database.Server.Versions.{Times}
use object_database.Server.Routing.{channel_of}
use object_database.Server.Request.{Request, Result}
use object_database.Server.Commit.{commit_and_broadcast_new_transaction}
use object_database.Server.Growth.{current_type_map, load_values_for_object}

-- What the server serializes with typed_python: integers, Booleans, `True` as an index value, the
-- object that an index value of `_identity` stands for, and the type map.
pub record Serialization : Type 0 where
  pub int_bytes : ℕ → Bytes
  pub to_int : Bytes → Option ℕ
  pub bool_bytes : Bool → Bytes
  pub index_true : IndexValue
  pub to_identity : IndexValue → Option ObjectId
  pub type_map_bytes : TypeMap → Bytes
  pub to_int-int_bytes : (n : ℕ) → to_int (int_bytes n) ≡ some n

unfoldable pub heartbeat : ChannelId → Routing → Routing
unfolding modify
heartbeat c = modify c (λ cc. record cc { missed_heartbeats = 0 })

unfoldable pub miss_heartbeat : ChannelId → Routing → Routing
unfolding modify
miss_heartbeat c = modify c (λ cc. record cc { missed_heartbeats = cc.missed_heartbeats + 1 })

unfoldable pub authenticate : ChannelId → Routing → Routing
unfolding modify
authenticate c = modify c (λ cc. record cc { needs_authentication = false })

-- sendInitializationMessage
unfoldable pub send_initialization_message : ConnectedChannel → Routing → Routing
unfolding write
send_initialization_message cc =
    write cc.channel (initialize cc.initial_tid cc.connection_identity cc.identity_root)

-- The three loops of `dropConnection`.
unfoldable pub leave_field : ChannelId → FieldId → Exec Routing (Unit {0})
leave_field c f r = elim (get r.field_id_to_channel f) [
  | none ↦ raised key_error r
  | some cs ↦
      ok tt (record r { field_id_to_channel = insert f (discard c cs) r.field_id_to_channel })
]

-- A registry without the channel, and without an entry for nobody.
unfoldable pub without_channel :
    {K : Type 0}
    → ⦃e : Eq K⦄ → ChannelId
    → K
    → List ChannelId
    → Dict K (List ChannelId)
    → Dict K (List ChannelId)
without_channel c k cs d = elim (discard c cs) [ [] ↦ delete k d | i ∷ is ↦ insert k (i ∷ is) d ]

unfoldable pub leave_index : ChannelId → IndexId → Exec Routing (Unit {0})
unfolding without_channel
leave_index c k r = elim (get r.index_to_channel k) [
  | none ↦ raised key_error r
  | some cs ↦ ok tt (record r { index_to_channel = without_channel c k cs r.index_to_channel })
]

unfoldable pub leave_id : ChannelId → ObjectId → Exec Routing (Unit {0})
unfolding without_channel
leave_id c i r = elim (get r.id_to_channel i) [
  | none ↦ ok tt r
  | some cs ↦ ok tt (record r { id_to_channel = without_channel c i cs r.id_to_channel })
]

unfoldable pub leave_all : ChannelId → ConnectedChannel → Exec Routing (Unit {0})
unfolding leave_field leave_index leave_id for_each
leave_all c cc = do
  for_each (map (λ e. e.0) cc.subscribed_fields) (leave_field c)
  for_each (map (λ e. e.0) cc.subscribed_index_keys) (leave_index c)
  for_each cc.subscribed_ids (leave_id c)
  λ r. ok tt (record r { client_channels = discard c r.client_channels })

-- typeMap.fieldIdFor("core", "Connection", name); without a number there is no ObjectFieldId.
unfoldable pub core_field : String → Exec Server FieldId
unfolding current_type_map
core_field name = do
  types ← current_type_map
  elim (field_id_for types (definition "core" "Connection" name)) [
    | none ↦ raise type_error
    | some f ↦ pure f
  ]

abbrev pub plain_key : ObjectId → FieldId → ObjectFieldId
plain_key i f = record { obj_id = i; field_id = f; is_index_value = false }

module _ (codec : IndexCodec) (ser : Serialization) where
  unfoldable pub root_of : Option Bytes → Exec Server ℕ
  root_of none = pure 0
  root_of (some b) = elim (ser.to_int b) [ none ↦ raise wrong_kind | some n ↦ pure n ]

  -- allocateNewIdentityRoot
  unfoldable pub allocate_new_identity_root : Exec Server ℕ
  unfolding root_of on_store
  allocate_new_identity_root = do
    stored ← on_store (Persistence.get codec (text "identityRoot"))
    root ← root_of stored
    on_store (Persistence.set codec (text "identityRoot") (some (ser.int_bytes (root + 1))))
    pure root

  abbrev pub exists_index : FieldId → IndexId
  exists_index f = record { field_id = f; index_value = ser.index_true }

  -- The transactions that `_createConnectionEntry` and `_dropConnectionEntry` run.
  abbrev pub creation : ObjectId → FieldId → FieldId → ℤ → Request
  creation i f h as_of = record {
    source = none;
    key_value =
        (plain_key i f, some (ser.bool_bytes true))
        ∷ (plain_key i h, some (ser.bool_bytes false))
        ∷ [];
    prerequisites = [];
    set_adds = (exists_index f, i ∷ []) ∷ [];
    set_removes = [];
    keys_to_check_versions = [];
    indices_to_check_versions = [];
    as_of_version = as_of;
  }

  abbrev pub removal : ObjectId → FieldId → FieldId → ℤ → Request
  removal i f h as_of = record {
    source = none;
    key_value = (plain_key i f, none) ∷ (plain_key i h, none) ∷ [];
    prerequisites = [];
    set_adds = [];
    set_removes = (exists_index f, i ∷ []) ∷ [];
    keys_to_check_versions = [];
    indices_to_check_versions = [];
    as_of_version = as_of;
  }

  -- _handleNewTransaction, as of the newest version.
  unfoldable pub run_now : Times → (ℤ → Request) → Exec Server Result
  run_now times request s =
      commit_and_broadcast_new_transaction codec times
        (request (pos s.versions.cur_transaction_num)) s

  unfoldable pub new_identity : Exec Server ObjectId
  unfolding create_identity
  new_identity s =
      ok (create_identity s.identity_producer).1
        (record s { identity_producer = (create_identity s.identity_producer).0 })

  -- _createConnectionEntry
  unfoldable pub create_connection_entry : Times → Exec Server (ObjectId × ℕ)
  unfolding new_identity allocate_new_identity_root core_field run_now
  create_connection_entry times = do
    i ← new_identity
    root ← allocate_new_identity_root
    f ← core_field " exists"
    h ← core_field "heartbeats_suspended"
    run_now times (creation i f h)
    pure (i, root)

  -- _dropConnectionEntry
  unfoldable pub drop_connection_entry : Times → ObjectId → Exec Server (Unit {0})
  unfolding core_field run_now
  drop_connection_entry times i = do
    f ← core_field " exists"
    h ← core_field "heartbeats_suspended"
    run_now times (removal i f h)
    pure tt

  unfoldable pub connect : ChannelId → ObjectId × ℕ → Exec Server (Unit {0})
  unfolding connected_channel send_initialization_message
  connect c (i, root) s =
      let cc = connected_channel s.versions.cur_transaction_num c i root in
      let r = record (s.routing) {
        channels = insert c cc s.routing.channels;
        client_channels = add c s.routing.client_channels;
      } in
      ok tt (record s { routing = send_initialization_message cc r })

  -- addConnection, which catches every exception.
  unfoldable pub add_connection : Times → ChannelId → Server → Server
  unfolding create_connection_entry connect
  add_connection times c s = elim ((create_connection_entry times >>= connect c) s) [
    | ok _ s' ↦ s'
    | raised _ s' ↦ s'
  ]

  -- dropConnection
  unfoldable pub drop_connection : Times → ChannelId → Exec Server (Unit {0})
  unfolding leave_all channel_of on_routing drop_connection_entry for_each
  drop_connection times c s =
      if member s.routing.client_channels c
      then (do
        cc ← on_routing (channel_of c)
        on_routing (leave_all c cc)
        for_each cc.dependent_connections (drop_connection_entry times))
          s
      else ok tt s

  -- _areHeartbeatsSuspended
  unfoldable pub are_heartbeats_suspended : ObjectId → Exec Server Bool
  unfolding core_field on_store
  are_heartbeats_suspended i = do
    h ← core_field "heartbeats_suspended"
    data_ ← on_store (Persistence.get codec (object_field (plain_key i h)))
    pure (elim data_ [ none ↦ false | some b ↦ beq b (ser.bool_bytes true) ])

  unfoldable pub drop_if_dead : Times → ChannelId → ConnectedChannel → Exec Server (Unit {0})
  unfolding are_heartbeats_suspended drop_connection
  drop_if_dead times c cc =
      if leb 4 cc.missed_heartbeats
      then (do
        suspended ← are_heartbeats_suspended cc.connection_identity
        if suspended then pure tt else drop_connection times c)
      else pure tt

  -- The loop of `checkForDeadConnections`, over a copy of the channels.
  unfoldable pub check_channel : Times → ChannelId → Exec Server (Unit {0})
  unfolding drop_if_dead miss_heartbeat channel_of on_routing
  check_channel times c = do
    cc ← on_routing (channel_of c)
    on_routing (λ r. ok tt (miss_heartbeat c r))
    drop_if_dead times c cc

  unfoldable pub check_for_dead_connections : Times → Exec Server (Unit {0})
  unfolding check_channel for_each
  check_for_dead_connections times s = for_each s.routing.client_channels (check_channel times) s

  -- What `_removeOldDeadConnections` takes out of the store.
  unfoldable pub dead_values : List SetValue → FieldId → FieldId → List (Key × Option Bytes)
  dead_values [] f h = []
  dead_values (identity i ∷ old) f h =
      (object_field (plain_key i f), none)
      ∷ (object_field (plain_key i h), none)
      ∷ dead_values old f h
  dead_values (value b ∷ old) f h = dead_values old f h

  -- _removeOldDeadConnections
  unfoldable pub remove_old_dead_connections : Exec Server (Unit {0})
  unfolding core_field on_store dead_values
  remove_old_dead_connections = do
    f ← core_field " exists"
    h ← core_field "heartbeats_suspended"
    old ← on_store (get_set_members (index (exists_index f)))
    on_store (set_several codec (dead_values old f h) [] ((index (exists_index f), old) ∷ []))
    pure tt

  -- _loadLazyObject
  unfoldable pub load_lazy_object : ChannelId → String → String → ObjectId → Exec Server (Unit {0})
  unfolding load_values_for_object write
  load_lazy_object c schema typename i = do
    values ← load_values_for_object codec c schema typename (i ∷ [])
    on_routing (λ r. ok tt (write c (lazy_load_response i values) r))
