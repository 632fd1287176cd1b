-- ===== src/Proxy/Server.antt =====
-- `ProxyServer` in object_database/proxy_server.py: its clients' connections, and what it sends to the main
-- server. `upstream` is what was written to the main server's channel, in order.
pub mod Requests
pub mod Dispatch
pub mod Replies
pub mod Sound
pub mod Steps
pub mod Strangers
pub mod Handlers
pub mod Clients
pub mod Reachable
pub mod Answers
pub mod Held
use object_database.Prelude.{
  ℕ, suc, ◌+◌, String, Bool, true, false, Option, none, some, List, [], ◌∷◌, ◌++◌, map,
  if◌then◌else◌, beq, leb, Eq, nat_eq, string_eq, list_eq, pair_eq,
}
use object_database.Prelude.Int.{ℤ, negsuc}
use object_database.Prelude.Exec.{
  Error, key_error, type_error, Outcome, ok, raised, Exec, ◌>>=◌, ◌>>◌, pure, raise, for_each,
}
use object_database.Collections.Dict.{Dict, get, has, insert, delete}
use object_database.Collections.Set.{member, add, discard}
use object_database.Schema.{Bytes, ObjectId}
use object_database.Server.Messages.{
  SchemaDefinition, ClientToServer, ServerToClient, authenticate, define_schema,
  drop_dependent_connection_id,
}
use object_database.Server.State.{ChannelId}
use object_database.Proxy.State.{Mapping, SubscriptionState, Schemas, at, send, init}
use object_database.Proxy.Reads.{field_id_for, get_object_value}
use object_database.Proxy.Departure as Departure

-- The channels of the proxy's clients.
pub record Downstream : Type 0 where
  pub channels : List ChannelId
  pub authenticated : List ChannelId
  pub missed_heartbeats : Dict ChannelId ℕ
  pub channel_to_connection_id : Dict ChannelId ObjectId
  pub guid_to_channel : Dict String ChannelId
  pub deferred : List (ChannelId × ClientToServer)

-- The iterations of each schema.
pub record Iterations : Type 0 where
  pub channel_schemas : Dict (ChannelId × String) SchemaDefinition
  pub mapped : Dict (String × ℕ) Mapping
  pub requested : Dict String ℕ
  pub received : Dict String ℕ
  pub unmapped_to_channels : Dict (String × ℕ) (List ChannelId)
  pub subscribed_types : List (String × String)

-- The numbers that stand for the clients' flushes and transactions.
pub record Guids : Type 0 where
  pub flush_ix : ℕ
  pub outgoing_flush : Dict ℕ (ChannelId × ℕ)
  pub transaction_ix : ℕ
  pub channel_to_outgoing : Dict (ChannelId × ℕ) ℕ
  pub outgoing_to_channel : Dict ℕ (ChannelId × ℕ)

-- What `Initialize` says.
pub record Connection : Type 0 where
  pub identity : ObjectId
  pub identity_root : ℕ
  pub transaction_num : ℕ

pub record ProxyServer : Type 0 where
  pub auth_token : String
  pub connection : Option Connection
  pub downstream : Downstream
  pub iterations : Iterations
  pub guids : Guids
  pub subscription_state : SubscriptionState
  pub upstream : List ClientToServer

-- __init__
unfoldable pub new_proxy : String → ProxyServer
unfolding init
new_proxy auth_token = record {
  auth_token = auth_token;
  connection = none;
  downstream = record {
    channels = [];
    authenticated = [];
    missed_heartbeats = [];
    channel_to_connection_id = [];
    guid_to_channel = [];
    deferred = [];
  };
  iterations = record {
    channel_schemas = [];
    mapped = [];
    requested = [];
    received = [];
    unmapped_to_channels = [];
    subscribed_types = [];
  };
  guids = record {
    flush_ix = 0;
    outgoing_flush = [];
    transaction_ix = 0;
    channel_to_outgoing = [];
    outgoing_to_channel = [];
  };
  subscription_state = init;
  upstream = [];
}

-- self._channelToMainServer.sendMessage
unfoldable pub send_upstream : ClientToServer → ProxyServer → ProxyServer
send_upstream msg p = record p { upstream = p.upstream ++ msg ∷ [] }

unfoldable pub on_state : {A : Type 0} → Exec SubscriptionState A → Exec ProxyServer A
on_state m p = elim (m p.subscription_state) [
  | ok a s ↦ ok a (record p { subscription_state = s })
  | raised e s ↦ raised e (record p { subscription_state = s })
]

-- channel.sendMessage
unfoldable pub send_down : ChannelId → ServerToClient → ProxyServer → ProxyServer
unfolding send
send_down c msg p = record p { subscription_state = send c msg p.subscription_state }

unfoldable pub define : String → SchemaDefinition → SubscriptionState → SubscriptionState
define name d s = record s {
  schemas = record (s.schemas) { defined_schemas = insert name d s.schemas.defined_schemas };
}

-- ProxyServer.authenticate, with the name and the definition of `core_schema`.
unfoldable pub authenticate_upstream : String → SchemaDefinition → ProxyServer → ProxyServer
unfolding send_upstream define
authenticate_upstream core definition p =
    let q =
      send_upstream (define_schema core definition) (send_upstream (authenticate p.auth_token) p) in
    record q {
      iterations = record (q.iterations) { requested = insert core 0 q.iterations.requested };
      subscription_state = define core definition q.subscription_state;
    }

-- addConnection
unfoldable pub add_connection : ChannelId → ProxyServer → ProxyServer
add_connection c p = record p {
  downstream = record (p.downstream) {
    channels = add c p.downstream.channels;
    missed_heartbeats = insert c 0 p.downstream.missed_heartbeats;
  };
}

unfoldable pub forget_channel : ChannelId → Downstream → Downstream
forget_channel c d = record d {
  channels = discard c d.channels;
  missed_heartbeats = delete c d.missed_heartbeats;
  authenticated = discard c d.authenticated;
}

-- The dependent connection's end is told to the main server.
unfoldable pub drop_connection_id : ChannelId → ProxyServer → ProxyServer
unfolding send_upstream
drop_connection_id c p = elim (get p.downstream.channel_to_connection_id c) [
  | none ↦ p
  | some i ↦ send_upstream (drop_dependent_connection_id i) (record p {
    downstream = record (p.downstream) {
      channel_to_connection_id = delete c p.downstream.channel_to_connection_id;
    };
  })
]

-- A count of a channel's missed heartbeats.
unfoldable pub count_missed : ChannelId → ℕ → ProxyServer → ProxyServer
count_missed c n p = record p {
  downstream = record (p.downstream) {
    missed_heartbeats = insert c n p.downstream.missed_heartbeats;
  };
}

module _ (set_pop : Departure.SetPop) where
  -- dropConnection
  unfoldable pub drop_connection : ChannelId → Exec ProxyServer (Unit {0})
  unfolding on_state forget_channel drop_connection_id Departure.drop_connection
  drop_connection c p =
      if member p.downstream.channels c
      then (on_state (Departure.drop_connection set_pop c) >> (λ q.
            if has q.downstream.missed_heartbeats c
            then ok tt
                (drop_connection_id c (record q { downstream = forget_channel c q.downstream }))
            else raised key_error (record q {
              downstream = record (q.downstream) { channels = discard c q.downstream.channels };
            })))
          p
      else ok tt p

-- `true_bytes` is `serialize(bool, True)`; `get_of_none` is `get(None)` of typed_python's Dict, where
-- `none` says that it raises.
module _ (true_bytes : Bytes) (get_of_none : Dict ObjectId Bytes → Option (Option Bytes)) where
  -- `curData == serialize(bool, True)`, where `none` says that the lookup raises.
  unfoldable pub is_true : Option (Option Bytes) → Exec ProxyServer Bool
  is_true none p = raised type_error p
  is_true (some none) p = ok false p
  is_true (some (some b)) p = ok (beq b true_bytes) p

  unfoldable pub lookup_identity : Dict ObjectId Bytes → Option ObjectId → Option (Option Bytes)
  lookup_identity vals none = get_of_none vals
  lookup_identity vals (some i) = some (get vals i)

  -- _areHeartbeatsSuspended
  unfoldable pub are_heartbeats_suspended : Option ObjectId → Exec ProxyServer Bool
  unfolding field_id_for is_true lookup_identity at
  are_heartbeats_suspended i p =
      elim (field_id_for p.subscription_state.schemas "core" "Connection" "heartbeats_suspended") [
        | none ↦ ok false p
        | some f ↦ is_true (lookup_identity (at p.subscription_state.values.object_values f) i) p
      ]

module _ (set_pop : Departure.SetPop) (true_bytes : Bytes)
    (get_of_none : Dict ObjectId Bytes → Option (Option Bytes)) where
  -- One round of the loop of `checkForDeadConnections`.
  unfoldable pub check_connection : ChannelId → Exec ProxyServer (Unit {0})
  unfolding drop_connection are_heartbeats_suspended count_missed
  check_connection c p = elim (get p.downstream.missed_heartbeats c) [
    | none ↦ raised key_error p
    | some n ↦
        let q = count_missed c (n + 1) p in
        if leb 4 (n + 1)
        then (are_heartbeats_suspended true_bytes get_of_none
                (get q.downstream.channel_to_connection_id c)
              >>= (λ suspended. if suspended then pure tt else drop_connection set_pop c))
            q
        else ok tt q
  ]

  -- checkForDeadConnections
  unfoldable pub check_for_dead_connections : Exec ProxyServer (Unit {0})
  unfolding check_connection for_each
  check_for_dead_connections p =
      for_each (map (λ e. e.0) p.downstream.missed_heartbeats) check_connection p
