-- ===== src/Server/Transactions/Answers.antt =====
-- What the client is told at the end of its transaction.
use object_database.Prelude.{
  ℕ, ◌+◌, ◌≡◌, refl, ap, sym, subst, ◌∙◌, Bool, true, false, Option, none, some, if◌then◌else◌,
  nat_eq,
}
use object_database.Prelude.Int.{ℤ, ltb_ℤ, leb_ℤ}
use object_database.Prelude.Exec.{Outcome, ok, raised, key_error}
use object_database.Collections.Dict.{get, insert}
use object_database.Collections.Set.{member}
use object_database.Persistence.Value.{Key, key_eq}
use object_database.Persistence.{IndexCodec}
use object_database.Server.Messages.{TransactionData, BadKey, transaction_result}
use object_database.Server.State.{ChannelId, ConnectedChannel, Versions, Routing, Server, write}
use object_database.Server.Versions.{Times, last_tid}
use object_database.Server.Versions.History.{Covers, IsBounded}
use object_database.Server.Request.{Request, Result, committed, conflict, checked_keys}
use object_database.Server.Commit.{commit_and_broadcast_new_transaction}
use object_database.Server.Commit.Effect.{writes_of}
use object_database.Server.Commit.Attempt.{Effect, raises, conflicts, commits, attempt-Effect}
use object_database.Server.Transactions.{
  extract_transaction_data, request_of, attempt_transaction, admitted, reply,
  send_transaction_success, bad_key, complete_transaction,
}
use object_database.Server.Transactions.Chunks.{extract-get, without}

-- The last message to the client is the answer to its transaction. Success means that the
-- transaction has the next number, that nothing it read was written after its version, and that all
-- it wrote is remembered under its number.
pub data Answered (c : ChannelId) (guid : ℕ) (q : Request) (v : Versions) (s : Server)
    : Type 0 where
  success :
      (r : Routing) (t : ℕ)
      → s.routing ≡ write c (transaction_result guid true none false) r
      → t ≡ v.cur_transaction_num + 1
      → ((k : Key) → member (checked_keys q) k ≡ true → leb_ℤ (last_tid v k) q.as_of_version ≡ true)
      → ((k : Key) → member (writes_of q) k ≡ true → Covers s.versions t k)
      → Answered c guid q v s
  failure :
      (r : Routing) (bad : Option BadKey) (is_exception : Bool)
      → s.routing ≡ write c (transaction_result guid false bad is_exception) r
      → Answered c guid q v s

reply-Answered :
    (c : ChannelId) (guid : ℕ) (q : Request) (v : Versions) (o : Outcome Server Result)
    → Effect q v o
    → Answered c guid q v (reply c guid (admitted o))
unfolding reply send_transaction_success bad_key
reply-Answered c guid q v (raised x s) (raises g) = failure s.routing _ _ refl
reply-Answered c guid q v (ok (conflict k t) s) (conflicts g) = failure s.routing _ _ refl
reply-Answered c guid q v (ok (committed t) s) (commits g e le fresh written) =
    success s.routing t refl e fresh written

attempt-Answered :
    (codec : IndexCodec) (times : Times) (c : ChannelId) (guid : ℕ) (q : Request) (s : Server)
    → IsBounded s.versions
    → Answered c guid q s.versions (reply c guid (attempt_transaction codec times q s))
unfolding attempt_transaction reply send_transaction_success
attempt-Answered codec times c guid q s b =
    go (ltb_ℤ q.as_of_version s.versions.min_acceptable_version_number)
  where
    go :
        (old : Bool)
        → Answered c guid q s.versions (
            reply c guid (
              if old
              then ok none s
              else admitted (commit_and_broadcast_new_transaction codec times q s)))
    go true = failure s.routing _ _ refl
    go false =
        reply-Answered c guid q s.versions (commit_and_broadcast_new_transaction codec times q s)
          (attempt-Effect codec times q s b)

abbrev taken : ChannelId → ConnectedChannel → Server → Server
taken c channel s = record s {
  routing = record (s.routing) { channels = insert c channel s.routing.channels };
}

complete-get :
    (codec : IndexCodec) (times : Times) (c : ChannelId) (as_of : ℤ) (guid : ℕ) (s : Server)
    (channel : ConnectedChannel) (d : TransactionData)
    → get s.routing.channels c ≡ some channel
    → get channel.pending_transactions guid ≡ some d
    → complete_transaction codec times c as_of guid s
      ≡ reply c guid (
          attempt_transaction codec times (request_of c as_of d) (taken c (without guid channel) s))
unfolding complete_transaction
complete-get codec times c as_of guid s channel d h p =
    ap found h ∙ ap after (extract-get guid channel d p)
  where
    after : Option (TransactionData × ConnectedChannel) → Server
    after o = elim o [
      | none ↦ reply c guid (raised key_error s)
      | some (x, left) ↦
          reply c guid (attempt_transaction codec times (request_of c as_of x) (taken c left s))
    ]

    found : Option ConnectedChannel → Server
    found o = elim o [ none ↦ s | some x ↦ after (extract_transaction_data guid x) ]

-- Where no version number exceeds the current one, a client that completes a transaction of which
-- its channel holds data always hears of it: the last message that the server writes is the answer,
-- and it says success only if the transaction has the next number, nothing that it read was written
-- after its version, and all that it wrote is remembered under its number.
pub complete_transaction-Answered :
    (codec : IndexCodec) (times : Times) (c : ChannelId) (as_of : ℤ) (guid : ℕ) (s : Server)
    (channel : ConnectedChannel) (d : TransactionData)
    → IsBounded s.versions
    → get s.routing.channels c ≡ some channel
    → get channel.pending_transactions guid ≡ some d
    → Answered c guid
        (request_of c as_of d)
        s.versions
        (complete_transaction codec times c as_of guid s)
complete_transaction-Answered codec times c as_of guid s channel d b h p =
    subst (Answered c guid (request_of c as_of d) s.versions)
      (sym (complete-get codec times c as_of guid s channel d h p))
      (attempt-Answered codec times c guid (request_of c as_of d) (taken c (without guid channel) s)
        b)
