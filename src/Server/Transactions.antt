-- ===== src/Server/Transactions.antt =====
-- The transactions of clients, in object_database/server.py: `handleTransactionData`,
-- `extractTransactionData` and the `CompleteTransaction` branch of `onClientToServerMessage`.
pub mod Serial
pub mod Chunks
pub mod Answers
use object_database.Prelude.{
  ℕ, ◌≡◌, String, Bool, true, false, Option, none, some, List, [], ◌∷◌, ◌++◌, if◌then◌else◌, nat_eq,
}
use object_database.Prelude.Int.{ℤ, ltb_ℤ}
use object_database.Prelude.Exec.{
  Error, key_error, Outcome, ok, raised, Exec, ◌>>=◌, ◌>>◌, pure, raise,
}
use object_database.Collections.Dict.{Dict, get, insert, delete, update}
use object_database.Collections.Set.{add_all}
use object_database.Schema.{ObjectFieldId, IndexId, object_field_eq, index_eq}
use object_database.Persistence.Value.{Key, text, object_field, index, field}
use object_database.Persistence.{IndexCodec}
use object_database.Server.Messages.{
  TransactionData, SetChanges, BadKey, bad_object_field, bad_index, transaction_too_old,
  exception_text, ServerToClient, transaction_result,
}
use object_database.Server.State.{ChannelId, ConnectedChannel, Routing, Server, write, modify}
use object_database.Server.Versions.{Times}
use object_database.Server.Request.{Request, Result, committed, conflict}
use object_database.Server.Commit.{commit_and_broadcast_new_transaction}

abbrev pub no_data : TransactionData
no_data = record {
  writes = [];
  prerequisites = [];
  set_adds = [];
  set_removes = [];
  key_versions = [];
  index_versions = [];
}

-- {k: set(changes[k]) for k in changes if changes[k]}
unfoldable pub as_sets : SetChanges → SetChanges
as_sets [] = []
as_sets ((k, []) ∷ changes) = as_sets changes
as_sets ((k, i ∷ is) ∷ changes) = (k, add_all (i ∷ is) []) ∷ as_sets changes

-- One more chunk of a transaction.
unfoldable pub merge_data : TransactionData → TransactionData → TransactionData
unfolding as_sets
merge_data old msg = record {
  writes = update old.writes msg.writes;
  prerequisites = update old.prerequisites msg.prerequisites;
  set_adds = update old.set_adds (as_sets msg.set_adds);
  set_removes = update old.set_removes (as_sets msg.set_removes);
  key_versions = add_all msg.key_versions old.key_versions;
  index_versions = add_all msg.index_versions old.index_versions;
}

-- handleTransactionData
unfoldable pub handle_transaction_data : ℕ → TransactionData → ConnectedChannel → ConnectedChannel
unfolding merge_data
handle_transaction_data guid msg cc = record cc {
  pending_transactions =
      insert guid
        (merge_data (elim (get cc.pending_transactions guid) [ none ↦ no_data | some d ↦ d ]) msg)
        cc.pending_transactions;
}

-- extractTransactionData: the data, and the channel without it. `none` is a KeyError.
unfoldable pub extract_transaction_data :
    ℕ → ConnectedChannel → Option (TransactionData × ConnectedChannel)
extract_transaction_data guid cc = elim (get cc.pending_transactions guid) [
  | none ↦ none
  | some d ↦ some (d, record cc { pending_transactions = delete guid cc.pending_transactions })
]

unfoldable pub request_of : ChannelId → ℤ → TransactionData → Request
request_of c as_of d = record {
  source = some c;
  key_value = d.writes;
  prerequisites = d.prerequisites;
  set_adds = d.set_adds;
  set_removes = d.set_removes;
  keys_to_check_versions = d.key_versions;
  indices_to_check_versions = d.index_versions;
  as_of_version = as_of;
}

abbrev pub admitted : Outcome Server Result → Outcome Server (Option Result)
admitted (ok r s) = ok (some r) s
admitted (raised e s) = raised e s

-- The test of the version under the lock, and the transaction. `none` says that it is too old.
unfoldable pub attempt_transaction : IndexCodec → Times → Request → Exec Server (Option Result)
unfolding commit_and_broadcast_new_transaction
attempt_transaction codec times q s =
    if ltb_ℤ q.as_of_version s.versions.min_acceptable_version_number
    then ok none s
    else admitted (commit_and_broadcast_new_transaction codec times q s)

unfoldable pub bad_key : Key → Option BadKey
bad_key (object_field k) = some (bad_object_field k)
bad_key (index k) = some (bad_index k)
bad_key (text t) = none
bad_key (field f) = none

-- sendTransactionSuccess
unfoldable pub send_transaction_success :
    ChannelId → ℕ → Bool → Option BadKey → Bool → Server → Server
unfolding write
send_transaction_success c guid success bad is_exception s = record s {
  routing = write c (transaction_result guid success bad is_exception) s.routing;
}

unfoldable pub reply : ChannelId → ℕ → Outcome Server (Option Result) → Server
unfolding send_transaction_success bad_key
reply c guid (ok none s) = send_transaction_success c guid false (some transaction_too_old) false s
reply c guid (ok (some (committed t)) s) = send_transaction_success c guid true none false s
reply c guid (ok (some (conflict k t)) s) =
    send_transaction_success c guid false (bad_key k) false s
reply c guid (raised e s) = send_transaction_success c guid false (some exception_text) true s

-- The branch for `CompleteTransaction`, which catches every exception. A channel whose object is
-- not there cannot send.
unfoldable pub complete_transaction : IndexCodec → Times → ChannelId → ℤ → ℕ → Server → Server
unfolding extract_transaction_data request_of attempt_transaction reply
complete_transaction codec times c as_of guid s = elim (get s.routing.channels c) [
  | none ↦ s
  | some cc ↦ elim (extract_transaction_data guid cc) [
    | none ↦ reply c guid (raised key_error s)
    | some (d, cc') ↦
        let s' = record s {
          routing = record (s.routing) { channels = insert c cc' s.routing.channels };
        } in
        reply c guid (attempt_transaction codec times (request_of c as_of d) s')
  ]
]
