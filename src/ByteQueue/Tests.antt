-- ===== src/ByteQueue/Tests.antt =====
-- A limit of two bytes: a second writer sleeps until a reader has accounted for the first message.
use object_database.Prelude.{ℕ, refl, true, false, some, [], ◌∷◌}
use object_database.ByteQueue.{
  Queue, init, is_blocked, notify_all, store, put, take_message, account, set_max_bytes, puts,
  waits, takes, accounts, limits, Reach, start, next,
}
use object_database.ByteQueue.Accounting.{IsSound, Reach-IsSound}

abbrev size : ℕ → ℕ
size n = n

abbrev limited : Queue ℕ
limited = record {
  queue = [];
  total_bytes = 0;
  max_bytes = some 2;
  taken = [];
  waiting = [];
  woken = [];
  notices = 1;
}

abbrev loaded : Queue ℕ
loaded = record limited { queue = 3 ∷ []; total_bytes = 3 }

abbrev contended : Queue ℕ
contended = record loaded { waiting = 1 ∷ []; notices = 1 }

abbrev drained : Queue ℕ
drained = record contended { queue = []; total_bytes = 0; waiting = []; woken = 1 ∷ [] }

contended-Reach : Reach size contended
unfolding init set_max_bytes put store is_blocked
contended-Reach =
    next (next (next start (limits (some 2))) (puts 3 true false loaded refl))
      (waits 1 true false contended refl)

drained-Reach : Reach size drained
unfolding take_message account is_blocked notify_all
drained-Reach =
    next (next contended-Reach (takes 3 (record contended { queue = []; taken = 3 ∷ [] }) refl))
      (accounts [] 3 [] refl)

Reach-IsSound_example : IsSound size drained
Reach-IsSound_example = Reach-IsSound size drained-Reach
