-- ===== src/Server/State.antt =====
-- The state of `Server` and of its `ConnectedChannel`s. A channel is known by a number; the objects
-- live in `channels` for good, since handlers and the subscription thread keep references to them,
-- and `client_channels` says which are connected.
use object_database.Prelude.{ℕ, String, Bool, Option, none, some, List, [], ◌∷◌, ◌++◌, nat_eq}
use object_database.Prelude.Int.{ℤ}
use object_database.Prelude.Exec.{Exec, ok, raised}
use object_database.Collections.Dict.{Dict, get, insert}
use object_database.Schema.{ObjectId, FieldId, IndexId}
use object_database.Identity.{IdentityProducer}
use object_database.Persistence.Value.{Key}
use object_database.Persistence.{Store}
use object_database.Server.Messages.{
  SchemaDefinition, TransactionData, TransactionMessage, ServerToClient, Subscription,
}
use object_database.Server.TypeMap.{TypeMap}

abbrev pub ChannelId : Type 0
ChannelId = ℕ

-- `subscribed_fields` and `subscribed_index_keys` hold the lazy transaction id, -1 if not lazy.
pub record ConnectedChannel : Type 0 where
  pub channel : ChannelId
  pub initial_tid : ℕ
  pub connection_identity : ObjectId
  pub missed_heartbeats : ℕ
  pub defined_schemas : Dict String SchemaDefinition
  pub subscribed_fields : Dict FieldId ℤ
  pub subscribed_ids : List ObjectId
  pub subscribed_index_keys : Dict IndexId ℤ
  pub identity_root : ℕ
  pub pending_transactions : Dict ℕ TransactionData
  pub dependent_connections : List ObjectId
  pub needs_authentication : Bool

unfoldable pub connected_channel : ℕ → ChannelId → ObjectId → ℕ → ConnectedChannel
connected_channel initial_tid channel connection identity_root = record {
  channel = channel;
  initial_tid = initial_tid;
  connection_identity = connection;
  missed_heartbeats = 0;
  defined_schemas = [];
  subscribed_fields = [];
  subscribed_ids = [];
  subscribed_index_keys = [];
  identity_root = identity_root;
  pending_transactions = [];
  dependent_connections = connection ∷ [];
  needs_authentication = Bool.true;
}

-- The fields of `Server` that order transactions. Times are ticks of an abstract clock.
pub record Versions : Type 0 where
  pub cur_transaction_num : ℕ
  pub version_numbers : Dict Key ℕ
  pub version_numbers_timestamps : Dict Key ℕ
  pub min_acceptable_version_number : ℤ
  pub gc_interval : ℕ
  pub last_garbage_collect_timestamp : Option ℕ

-- Those that say who is told of what. `sent` is what was written to the channels, in order.
pub record Routing : Type 0 where
  pub channels : Dict ChannelId ConnectedChannel
  pub client_channels : List ChannelId
  pub field_id_to_channel : Dict FieldId (List ChannelId)
  pub index_to_channel : Dict IndexId (List ChannelId)
  pub id_to_channel : Dict ObjectId (List ChannelId)
  pub pending_subscription_recheck : Option (List TransactionMessage)
  pub sent : List (ChannelId × ServerToClient)

pub record Server : Type 0 where
  pub kvstore : Store
  pub type_map : TypeMap
  pub versions : Versions
  pub routing : Routing
  pub identity_producer : IdentityProducer
  pub subscription_queue : List (ChannelId × Subscription)
  pub auth_token : String

-- channel.write(msg)
unfoldable pub write : ChannelId → ServerToClient → Routing → Routing
write c msg r = record r { sent = r.sent ++ (c, msg) ∷ [] }

-- A change of one ConnectedChannel, by reference.
unfoldable pub modify : ChannelId → (ConnectedChannel → ConnectedChannel) → Routing → Routing
modify c f r = elim (get r.channels c) [
  | none ↦ r
  | some cc ↦ record r { channels = insert c (f cc) r.channels }
]

-- An action on a part of the server.
unfoldable pub on_store : {A : Type 0} → Exec Store A → Exec Server A
on_store m s = elim (m s.kvstore) [
  | ok a k ↦ ok a (record s { kvstore = k })
  | raised e k ↦ raised e (record s { kvstore = k })
]

unfoldable pub on_versions : {A : Type 0} → Exec Versions A → Exec Server A
on_versions m s = elim (m s.versions) [
  | ok a v ↦ ok a (record s { versions = v })
  | raised e v ↦ raised e (record s { versions = v })
]

unfoldable pub on_routing : {A : Type 0} → Exec Routing A → Exec Server A
on_routing m s = elim (m s.routing) [
  | ok a r ↦ ok a (record s { routing = r })
  | raised e r ↦ raised e (record s { routing = r })
]
