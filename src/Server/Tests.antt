-- ===== src/Server/Tests.antt =====
-- A server with one client, and runs of its operations.
use object_database.Prelude.{
  ℕ, zero, suc, ◌+◌, ◌≤◌, ◌<◌, ◌≡◌, ◌≢◌, refl, if◌then◌else◌, ◌⊎◌, inl, inr, Bool, true, false,
  Option, none, some, List, [], ◌∷◌, ◌++◌, map, arith, nat_eq,
}
use object_database.Prelude.Int.{ℤ, pos, negsuc, ltb_ℤ}
use object_database.Prelude.Exec.{ok, state_of}
use object_database.Schema.{ObjectFieldId, IndexId, FieldDefinition, field_definition_eq}
use object_database.Identity.{init}
use object_database.Collections.Dict.{has, get}
use object_database.Persistence.Value.{Key, object_field, bytes}
use object_database.Persistence.{IndexCodec}
use object_database.Server.TypeMap.{
  TypeMap, IsValid, definition, lookup_or_add, lookup_or_add-IsValid,
}
use object_database.Server.State.{
  ChannelId, ConnectedChannel, Versions, Routing, Server, connected_channel,
}
use object_database.Server.Versions.{Times, last_tid, garbage_collect}
use object_database.Server.Versions.History.{Evolves, IsBounded}
use object_database.Server.Versions.Collection.{garbage_collect-Keeps}
use object_database.Server.Request.{Request}
use object_database.Server.Commit.{commit_and_broadcast_new_transaction}
use object_database.Server.Growth.{increase_broadcast_transaction_to_include}
use object_database.Server.Commit.Include.{increase-unchanged}
use object_database.Server.Messages.{
  flush, SchemaDefinition, schema_mapping, TransactionData, Writes, SetChanges,
}
use object_database.Server.Commit.Attempt.{Effect, attempt-Effect}
use object_database.Server.Transactions.{
  attempt_transaction, extract_transaction_data, request_of, complete_transaction,
}
use object_database.Server.Connections.{Serialization}
use object_database.Server.Dispatch.Schemas.{Agrees, Extends, is_defined, announce_schema-Agrees}
use object_database.Server.Dispatch.{
  Mapping, announce_schema, on_client_to_server_message, unauthenticated-unchanged,
}
use object_database.Server.Transactions.Chunks.{
  receive, assembled, IsMerge, old_data, extract-receive,
}
use object_database.Server.Transactions.Answers.{Answered, complete_transaction-Answered}
use object_database.Server.Transactions.Serial.{
  Entry, Serial, start, client, log_attempt, History-Serial,
}

abbrev plain : IndexCodec
plain = record { wrap = λ b. b; unwrap = λ b. some b; unwrap-wrap = λ b. refl }

abbrev no_types : TypeMap
no_types = record { field_def_to_id = []; field_id_to_def = [] }

abbrev times : Times
times = record { committed = 10; gc_tested = 11; gc_threshold = 12; gc_finished = 13 }

abbrev new_server : Server
unfolding connected_channel init
new_server = record {
  kvstore = [];
  type_map = no_types;
  versions = record {
    cur_transaction_num = 0;
    version_numbers = [];
    version_numbers_timestamps = [];
    min_acceptable_version_number = negsuc 0;
    gc_interval = 600;
    last_garbage_collect_timestamp = none;
  };
  routing = record {
    channels = (5, connected_channel 0 5 77 1) ∷ [];
    client_channels = 5 ∷ [];
    field_id_to_channel = [];
    index_to_channel = [];
    id_to_channel = [];
    pending_subscription_recheck = none;
    sent = [];
  };
  identity_producer = init 0;
  subscription_queue = [];
  auth_token = "token";
}

abbrev cell : ObjectFieldId
cell = record { obj_id = 100000000; field_id = 0; is_index_value = false }

-- It writes `cell`, having read it at `as_of`.
abbrev touch : ℤ → Request
touch as_of = record {
  source = some 5;
  key_value = (cell, some (1 ∷ [])) ∷ [];
  prerequisites = [];
  set_adds = [];
  set_removes = [];
  keys_to_check_versions = cell ∷ [];
  indices_to_check_versions = [];
  as_of_version = as_of;
}

abbrev first : Server
unfolding attempt_transaction
first = state_of (attempt_transaction plain times (touch (pos 0)) new_server)

-- Of two transactions that read version 1, only the first commits.
abbrev second : Server
unfolding attempt_transaction
second = state_of (attempt_transaction plain times (touch (pos 1)) first)

abbrev third : Server
unfolding attempt_transaction
third = state_of (attempt_transaction plain times (touch (pos 1)) second)

abbrev logged : List Entry
unfolding attempt_transaction log_attempt
logged = log_attempt (touch (pos 1)) (attempt_transaction plain times (touch (pos 1)) second) (
    log_attempt (touch (pos 1)) (attempt_transaction plain times (touch (pos 1)) first)
      (log_attempt (touch (pos 0)) (attempt_transaction plain times (touch (pos 0)) new_server) []))

numbers : map (λ e. e.tid) logged ≡ 2 ∷ 1 ∷ []
unfolding attempt_transaction log_attempt logged first second new_server
    object_database.Server.State.on_versions last_tid get object_database.Server.State.on_store
    object_database.Persistence.get_several object_database.Collections.Dict.update
    object_database.Collections.Set.add_all object_database.Collections.Set.add
    object_database.Collections.Set.member object_database.Collections.Dict.insert
    object_database.Persistence.Value.key_discrete object_database.Prelude.ℕ_discrete
numbers = refl

History-Serial_example : Serial logged
unfolding new_server logged log_attempt
History-Serial_example = History-Serial {codec = plain} (
    client times (touch (pos 1))
      (client times (touch (pos 1)) (client times (touch (pos 0)) (start new_server refl))))

attempt-Effect_example :
    Effect
      (touch (pos 0))
      new_server.versions
      (commit_and_broadcast_new_transaction plain times (touch (pos 0)) new_server)
unfolding last_tid get new_server
attempt-Effect_example = attempt-Effect plain times (touch (pos 0)) new_server (λ k. refl)

no_types-IsValid : IsValid no_types
unfolding get
no_types-IsValid = record { forth = λ d i h. cc; back = λ d i h. cc; below = λ d i h. ground arith }

abbrev exists : FieldDefinition
exists = definition "library" "Book" " exists"

lookup_or_add-IsValid_example :
    IsValid (lookup_or_add no_types exists).0
    × ((i : ℕ) × ((lookup_or_add no_types exists).1 ≡ some i)
        × (get (lookup_or_add no_types exists).0.field_id_to_def i ≡ some exists))
    × ((d : FieldDefinition) (i : ℕ)
        → get no_types.field_def_to_id d ≡ some i
        → get (lookup_or_add no_types exists).0.field_def_to_id d ≡ some i)
lookup_or_add-IsValid_example = lookup_or_add-IsValid no_types exists no_types-IsValid

abbrev written : Versions
written = record {
  cur_transaction_num = 9;
  version_numbers = (object_field cell, 8) ∷ [];
  version_numbers_timestamps = (object_field cell, 2) ∷ [];
  min_acceptable_version_number = negsuc 0;
  gc_interval = 5;
  last_garbage_collect_timestamp = none;
}

abbrev nothing_stored : Key → Option Bool
nothing_stored k = some true

-- Version 8 of the deleted cell is forgotten, and version 7 becomes too old.
collected :
    ltb_ℤ
      (pos 7)
      (state_of (garbage_collect nothing_stored times written)).min_acceptable_version_number
    ≡ true
unfolding garbage_collect get object_database.Persistence.Value.key_discrete
    object_database.Prelude.ℕ_discrete
collected = refl

garbage_collect-Keeps_example :
    Evolves written (state_of (garbage_collect nothing_stored times written))
    × (IsBounded written → IsBounded (state_of (garbage_collect nothing_stored times written)))
garbage_collect-Keeps_example = garbage_collect-Keeps nothing_stored times written

-- Two books by the author "A" (65), known to the store and to its index.
abbrev author : ℕ → Bool → ObjectFieldId
author i reverse = record { obj_id = i; field_id = 0; is_index_value = reverse }

abbrev by_author : IndexId
by_author = record { field_id = 0; index_value = 65 ∷ [] }

abbrev reader : ConnectedChannel
unfolding connected_channel
reader = record (connected_channel 0 5 77 1) {
  defined_schemas =
      ("library", ("Book", record { fields = "author" ∷ []; indices = "author" ∷ [] }) ∷ []) ∷ [];
}

abbrev library : Server
unfolding new_server reader
library = record new_server {
  kvstore =
      (object_field (author 8 false), bytes (65 ∷ []))
      ∷ (object_field (author 8 true), bytes (65 ∷ []))
      ∷ [];
  type_map = record {
    field_def_to_id = (definition "library" "Book" "author", 0) ∷ [];
    field_id_to_def = (0, definition "library" "Book" "author") ∷ [];
  };
  routing = record (new_server.routing) { channels = (5, reader) ∷ [] };
}

abbrev sent_writes : Writes
sent_writes = (author 8 false, some (65 ∷ [])) ∷ []

included :
    increase_broadcast_transaction_to_include plain 5 by_author (8 ∷ []) [] [] library
    ≡ ok (sent_writes, []) library
unfolding increase_broadcast_transaction_to_include library get object_database.Prelude.ℕ_discrete
    object_database.Prelude.string_discrete object_database.Server.TypeMap.field_id_for
    object_database.Schema.field_definition_discrete object_database.Server.State.on_store
    object_database.Persistence.get_several object_database.Persistence.Value.key_discrete
    object_database.Collections.Dict.update object_database.Server.Request.zip_values
    object_database.Collections.Dict.insert object_database.Schema.object_field_discrete
included = refl

abbrev no_adds : SetChanges
no_adds = []

increase-unchanged_example : no_adds ≡ no_adds
increase-unchanged_example =
    increase-unchanged plain 5 by_author (8 ∷ []) [] [] library library (sent_writes, []) included

-- Transactions 3 and 4 of the client arrive in alternating pieces.
abbrev piece : Writes → TransactionData
piece w = record {
  writes = w;
  prerequisites = [];
  set_adds = [];
  set_removes = [];
  key_versions = cell ∷ [];
  index_versions = [];
}

abbrev pieces : List (ℕ × TransactionData)
pieces =
    (3, piece ((cell, some (1 ∷ [])) ∷ [])) ∷ (4, piece []) ∷ (3, piece ((cell, none) ∷ [])) ∷ []

abbrev whole : TransactionData
whole = piece ((cell, none) ∷ [])

extract-receive_example :
    (c' : ConnectedChannel) × (extract_transaction_data 3 (receive pieces reader)
      ≡ some (whole, c'))
    × IsMerge 3 pieces (old_data (get reader.pending_transactions 3)) whole
    × (get c'.pending_transactions 3 ≡ none)
    × ((other : ℕ)
        → 3 ≢ other
        → get c'.pending_transactions other
          ≡ assembled other pieces (get reader.pending_transactions other))
unfolding assembled reader object_database.Prelude.ℕ_discrete
    object_database.Collections.Dict.update object_database.Collections.Set.add_all
    object_database.Collections.Dict.insert get object_database.Collections.Set.add
    object_database.Schema.object_field_discrete object_database.Collections.Set.member
extract-receive_example = extract-receive 3 pieces reader whole refl

abbrev busy : ConnectedChannel
unfolding reader
busy = record reader { pending_transactions = (3, whole) ∷ [] }

abbrev busy_server : Server
unfolding new_server busy
busy_server = record new_server {
  routing = record (new_server.routing) { channels = (5, busy) ∷ [] };
}

complete_transaction-Answered_example :
    Answered 5 3
      (request_of 5 (pos 0) whole)
      busy_server.versions
      (complete_transaction plain times 5 (pos 0) 3 busy_server)
unfolding busy_server last_tid get object_database.Prelude.ℕ_discrete
complete_transaction-Answered_example =
    complete_transaction-Answered plain times 5 (pos 0) 3 busy_server busy whole (λ k. refl) refl
      refl

abbrev plain_serialization : Serialization
plain_serialization = record {
  int_bytes = λ n. n ∷ [];
  to_int = λ b. elim b [ [] ↦ none | n ∷ _ ↦ some n ];
  bool_bytes = λ b. (if b then 1 else 0) ∷ [];
  index_true = 1 ∷ [];
  to_identity = λ b. elim b [ [] ↦ none | n ∷ _ ↦ some n ];
  type_map_bytes = λ t. [];
  to_int-int_bytes = λ n. refl;
}

unauthenticated-unchanged_example :
    on_client_to_server_message plain plain_serialization times 5 (flush 9) new_server
    ≡ ok tt new_server
unfolding new_server get connected_channel object_database.Prelude.ℕ_discrete
unauthenticated-unchanged_example =
    unauthenticated-unchanged plain plain_serialization times 5 (flush 9) new_server
      (connected_channel 0 5 77 1) refl refl (λ e. cc)

abbrev books : SchemaDefinition
books = ("Book", record { fields = "author" ∷ []; indices = " exists" ∷ [] }) ∷ []

announce_schema-Agrees_example :
    (mapping : Mapping) × ((announce_schema 5 "library" books new_server).routing.sent
      ≡ new_server.routing.sent ++ (5, schema_mapping "library" mapping) ∷ [])
    × ((d : FieldDefinition) → has mapping d ≡ is_defined "library" books d)
    × IsValid (announce_schema 5 "library" books new_server).type_map
    × Agrees (announce_schema 5 "library" books new_server).type_map mapping
    × Extends new_server.type_map (announce_schema 5 "library" books new_server).type_map
unfolding new_server
announce_schema-Agrees_example =
    announce_schema-Agrees 5 "library" books new_server no_types-IsValid
