-- ===== src/ByteQueue.antt =====
-- `BytecountLimitedQueue` of object_database/bytecount_limited_queue.py, with the threads that wait
-- in it. A step is what one thread does while it holds the lock; `get` takes its message off the
-- underlying queue first and accounts for it in a later step.
pub mod Accounting
mod Tests
use object_database.Prelude.{
  ℕ, ◌+◌, ◌-◌, ◌≤◌, ◌<◌, ◌≡◌, Bool, true, false, not, ◌||◌, ◌&&◌, Option, none, some, List, [], ◌∷◌,
  ◌++◌, leb, if◌then◌else◌, length,
}

-- `taken` holds the messages that a `get` has received and not yet subtracted, `waiting` those whose
-- `put` sleeps on the condition, `woken` those whose `put` was notified and will test again, and
-- `notices` counts the calls of `setMaxBytes` that have still to notify.
pub record Queue (M : Type 0) : Type 0 where
  pub queue : List M
  pub total_bytes : ℕ
  pub max_bytes : Option ℕ
  pub taken : List M
  pub waiting : List M
  pub woken : List M
  pub notices : ℕ

pub init : {M : Type 0} → Queue M
init = record {
  queue = [];
  total_bytes = 0;
  max_bytes = none;
  taken = [];
  waiting = [];
  woken = [];
  notices = 0;
}

-- pendingCount
unfoldable pub pending_count : {M : Type 0} → Queue M → ℕ
pending_count q = length q.queue

-- isBlocked
unfoldable pub is_blocked : {M : Type 0} → Queue M → Bool
is_blocked q = elim q.max_bytes [ none ↦ false | some n ↦ leb n q.total_bytes ]

-- notify_all
unfoldable pub notify_all : {M : Type 0} → Queue M → Queue M
notify_all q = record q { waiting = []; woken = q.woken ++ q.waiting }

pub data Put (M : Type 0) : Type 0 where
  stored : Queue M → Put M
  sleeps : Queue M → Put M
  full : Put M

module _ {M : Type 0} (bytecount : M → ℕ) where
  unfoldable pub store : Queue M → M → Queue M
  store q msg = record q {
    total_bytes = q.total_bytes + bytecount msg;
    queue = q.queue ++ msg ∷ [];
  }

  -- put(msg, block, allowWriteWhileOverLimit): `full` is the exception `queue.Full`.
  unfoldable pub put : Queue M → M → Bool → Bool → Put M
  unfolding store is_blocked
  put q msg block allow_write_while_over_limit =
      if not allow_write_while_over_limit && is_blocked q
      then (if block then sleeps (record q { waiting = msg ∷ q.waiting }) else full)
      else stored (store q msg)

  -- What a notified `put` does once it has the lock again: the test of its `while`.
  unfoldable pub resume : Queue M → M → List M → Queue M
  unfolding store is_blocked
  resume q msg others =
      if is_blocked q
      then record q { woken = others; waiting = msg ∷ q.waiting }
      else store (record q { woken = others }) msg

  -- The first line of `get`: an empty queue gives nothing (`queue.Empty`, or a wait).
  unfoldable pub take_message : Queue M → Option (M × Queue M)
  take_message q = elim q.queue [
    | [] ↦ none
    | msg ∷ rest ↦ some (msg, record q { queue = rest; taken = msg ∷ q.taken })
  ]

  -- The rest of `get`, under the lock. `totalBytes` is an integer in the source; that it covers the
  -- message is part of the invariant, so the subtraction is exact. Both tests of the limit belong to
  -- one step: a `setMaxBytes` between them, whose first line takes no lock, is not a step here.
  unfoldable pub account : Queue M → M → List M → Queue M
  unfolding is_blocked notify_all
  account q msg others =
      let q' = record q { total_bytes = q.total_bytes - bytecount msg; taken = others } in
      if is_blocked q
      then (if is_blocked q' then q' else notify_all q')
      else (if is_blocked q' then notify_all q' else q')

-- The two lines of `setMaxBytes`: the first runs without the lock.
unfoldable pub set_max_bytes : {M : Type 0} → Queue M → Option ℕ → Queue M
set_max_bytes q n = record q { max_bytes = n; notices = q.notices + 1 }

unfoldable pub give_notice : {M : Type 0} → Queue M → Queue M
unfolding notify_all
give_notice q = notify_all (record q { notices = q.notices - 1 })

-- The threads may take these steps in any order.
pub data Step {M : Type 0} (bytecount : M → ℕ) (q : Queue M) : Queue M → Type 0 where
  puts :
      (msg : M) (block allow : Bool) (q' : Queue M)
      → put bytecount q msg block allow ≡ stored q'
      → Step bytecount q q'
  waits :
      (msg : M) (block allow : Bool) (q' : Queue M)
      → put bytecount q msg block allow ≡ sleeps q'
      → Step bytecount q q'
  resumes :
      (before : List M) (msg : M) (after : List M)
      → q.woken ≡ before ++ msg ∷ after
      → Step bytecount q (resume bytecount q msg (before ++ after))
  takes : (msg : M) (q' : Queue M) → take_message bytecount q ≡ some (msg, q') → Step bytecount q q'
  accounts :
      (before : List M) (msg : M) (after : List M)
      → q.taken ≡ before ++ msg ∷ after
      → Step bytecount q (account bytecount q msg (before ++ after))
  limits : (n : Option ℕ) → Step bytecount q (set_max_bytes q n)
  notifies : 0 < q.notices → Step bytecount q (give_notice q)

pub data Reach {M : Type 0} (bytecount : M → ℕ) : Queue M → Type 0 where
  start : Reach bytecount init
  next : {q q' : Queue M} → Reach bytecount q → Step bytecount q q' → Reach bytecount q'
