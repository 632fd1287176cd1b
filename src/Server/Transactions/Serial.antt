-- ===== src/Server/Transactions/Serial.antt =====
-- Optimistic concurrency: the transactions that commit are serializable in the order of their
-- numbers.
use object_database.Prelude.{
  ℕ, ◌+◌, ◌≤◌, ◌<◌, ◌≡◌, refl, sym, subst, ◌⊎◌, inl, inr, Bool, true, false, Option, none, some,
  List, [], ◌∷◌, arith, if◌then◌else◌, nat_eq,
}
use object_database.Prelude.Int.{ℤ, pos, leb_ℤ, ltb_ℤ, leb_ℤ_trans, leb_ℤ_of_not_ltb}
use object_database.Prelude.Exec.{Outcome, ok, raised, state_of}
use object_database.Collections.Dict.{get}
use object_database.Collections.Set.{member}
use object_database.Persistence.Value.{Key, key_eq}
use object_database.Persistence.{IndexCodec}
use object_database.Server.State.{Versions, Server}
use object_database.Server.Versions.{Times, last_tid}
use object_database.Server.Versions.History.{Covers, Evolves, IsBounded}
use object_database.Server.Request.{Request, Result, committed, conflict, checked_keys}
use object_database.Server.Commit.{commit_and_broadcast_new_transaction}
use object_database.Server.Commit.Effect.{writes_of}
use object_database.Server.Commit.Attempt.{Effect, raises, conflicts, commits, attempt-Effect}
use object_database.Server.Transactions.{attempt_transaction, admitted}

abbrev versions_of : {A : Type 0} → Outcome Server A → Versions
versions_of o = (state_of o).versions

-- A transaction that has committed.
pub record Entry : Type 0 where
  pub tid : ℕ
  pub as_of : ℤ
  pub reads : List Key
  pub writes : List Key

unfoldable pub entry_of : Request → ℕ → Entry
unfolding writes_of
entry_of q t = record {
  tid = t;
  as_of = q.as_of_version;
  reads = checked_keys q;
  writes = writes_of q;
}

-- `e` comes after all of `l`, and what it read was not written after its version.
abbrev pub Follows : Entry → List Entry → Type 0
Follows e [] = Unit {0}
Follows e (d ∷ l) =
    ((d.tid < e.tid)
      × ((k : Key)
          → member e.reads k ≡ true
          → member d.writes k ≡ true
          → leb_ℤ (pos d.tid) e.as_of ≡ true))
    × Follows e l

-- Newest first: every transaction read the values that the transactions before it had left, as if
-- each ran alone at the time of its number.
abbrev pub Serial : List Entry → Type 0
Serial [] = Unit {0}
Serial (e ∷ l) = Follows e l × Serial l

unfoldable pub log_result : Request → Outcome Server Result → List Entry → List Entry
unfolding entry_of
log_result q (ok (committed t) s) l = entry_of q t ∷ l
log_result q (ok (conflict k t) s) l = l
log_result q (raised e s) l = l

unfoldable pub log_attempt : Request → Outcome Server (Option Result) → List Entry → List Entry
unfolding entry_of
log_attempt q (ok (some (committed t)) s) l = entry_of q t ∷ l
log_attempt q (ok (some (conflict k t)) s) l = l
log_attempt q (ok none s) l = l
log_attempt q (raised e s) l = l

-- What can happen to a server: a client's transaction, one of the server's own, which tests no
-- versions, and anything that leaves the version numbers alone.
pub data History (codec : IndexCodec) : Server → List Entry → Type 0 where
  start : (s : Server) → s.versions.version_numbers ≡ [] → History codec s []
  client :
      {s : Server} {l : List Entry} (times : Times) (q : Request)
      → History codec s l
      → History codec
          (state_of (attempt_transaction codec times q s))
          (log_attempt q (attempt_transaction codec times q s) l)
  own :
      {s : Server} {l : List Entry} (times : Times) (q : Request)
      → checked_keys q ≡ []
      → History codec s l
      → History codec
          (state_of (commit_and_broadcast_new_transaction codec times q s))
          (log_result q (commit_and_broadcast_new_transaction codec times q s) l)
  other :
      {s : Server} {l : List Entry} (s' : Server)
      → s'.versions ≡ s.versions
      → History codec s l
      → History codec s' l

abbrev Tracked : Versions → List Entry → Type 0
Tracked v [] = Unit {0}
Tracked v (e ∷ l) =
    ((e.tid ≤ v.cur_transaction_num) × ((k : Key) → member e.writes k ≡ true → Covers v e.tid k))
    × Tracked v l

record IsSound (v : Versions) (l : List Entry) : Type 0 where
  bounded : IsBounded v
  tracked : Tracked v l
  serial : Serial l

Tracked-mono : (v w : Versions) (l : List Entry) → Evolves v w → Tracked v l → Tracked w l
Tracked-mono v w [] g t = tt
Tracked-mono v w (e ∷ l) g t =
    ((omega (arith, g.later), λ k m. g.covers e.tid k (t.0.1 k m)), Tracked-mono v w l g t.1)

-- What a new transaction may rely on: its version is not below the bound, or it read nothing.
abbrev Admitted : Versions → Request → Type 0
Admitted v q =
    (leb_ℤ v.min_acceptable_version_number q.as_of_version ≡ true)
    ⊎ ((k : Key) → member (checked_keys q) k ≡ true → ⊥)

covered-le :
    (v : Versions) (q : Request) (n : ℕ) (k : Key)
    → Admitted v q
    → member (checked_keys q) k ≡ true
    → leb_ℤ (last_tid v k) q.as_of_version ≡ true
    → Covers v n k
    → leb_ℤ (pos n) q.as_of_version ≡ true
covered-le v q n k (inr none_read) m h c = absurd (none_read k m)
covered-le v q n k (inl fresh) m h (inl c) = leb_ℤ_trans (pos n) (last_tid v k) q.as_of_version c h
covered-le v q n k (inl fresh) m h (inr c) =
    leb_ℤ_trans (pos n) v.min_acceptable_version_number q.as_of_version c fresh

new-Follows :
    (v : Versions) (q : Request) (t : ℕ) (l : List Entry)
    → Admitted v q
    → t ≡ v.cur_transaction_num + 1
    → ((k : Key) → member (checked_keys q) k ≡ true → leb_ℤ (last_tid v k) q.as_of_version ≡ true)
    → Tracked v l
    → Follows (entry_of q t) l
unfolding entry_of
new-Follows v q t [] a e h tr = tt
new-Follows v q t (d ∷ l) a e h tr = (
  (omega (arith, tr.0.0), λ k m w. covered-le v q d.tid k a m (h k m) (tr.0.1 k w)),
  new-Follows v q t l a e h tr.1,
)

Effect-IsSound :
    (v : Versions) (q : Request) (l : List Entry) (o : Outcome Server Result)
    → Admitted v q
    → Effect q v o
    → IsSound v l
    → IsSound (versions_of o) (log_result q o l)
unfolding log_result entry_of
Effect-IsSound v q l o a (raises {s = s} g) h = record {
  bounded = g.1;
  tracked = Tracked-mono v s.versions l g.0 h.tracked;
  serial = h.serial;
}
Effect-IsSound v q l o a (conflicts {s = s} g) h = record {
  bounded = g.1;
  tracked = Tracked-mono v s.versions l g.0 h.tracked;
  serial = h.serial;
}
Effect-IsSound v q l o a (commits {t = t} {s = s} g e le fresh written) h = record {
  bounded = g.1;
  tracked = ((le, written), Tracked-mono v s.versions l g.0 h.tracked);
  serial = (new-Follows v q t l a e fresh h.tracked, h.serial);
}

attempt-IsSound :
    (codec : IndexCodec) (times : Times) (q : Request) (s : Server) (l : List Entry)
    → IsSound s.versions l
    → IsSound
        (versions_of (attempt_transaction codec times q s))
        (log_attempt q (attempt_transaction codec times q s) l)
unfolding attempt_transaction log_attempt log_result
attempt-IsSound codec times q s l h =
    test (ltb_ℤ q.as_of_version s.versions.min_acceptable_version_number) refl
  where
    min : ℤ
    min = s.versions.min_acceptable_version_number

    IsKept : Outcome Server (Option Result) → Type 0
    IsKept o = IsSound (versions_of o) (log_attempt q o l)

    same_log :
        (o : Outcome Server Result)
        → IsSound (versions_of o) (log_result q o l)
        → IsKept (admitted o)
    same_log (ok (committed t) s') i = i
    same_log (ok (conflict k t) s') i = i
    same_log (raised e s') i = i

    run : Outcome Server Result
    run = commit_and_broadcast_new_transaction codec times q s

    test :
        (x : Bool) → ltb_ℤ q.as_of_version min ≡ x → IsKept (if x then ok none s else admitted run)
    test true e = h
    test false e = same_log run (
        Effect-IsSound s.versions q l run (inl (leb_ℤ_of_not_ltb q.as_of_version min e))
          (attempt-Effect codec times q s h.bounded) h)

History-IsSound :
    {codec : IndexCodec} {s : Server} {l : List Entry} → History codec s l → IsSound s.versions l
unfolding last_tid get member
History-IsSound (start s e) = record { bounded = λ k. ground arith; tracked = tt; serial = tt }
History-IsSound {codec} (client {s = s} {l = l} times q h) =
    attempt-IsSound codec times q s l (History-IsSound h)
History-IsSound {codec} (own {s = s} {l = l} times q e h) =
    Effect-IsSound s.versions q l _ (inr (λ k m. let z : false ≡ true = rw e at m in cc))
      (attempt-Effect codec times q s (History-IsSound h).bounded) (History-IsSound h)
History-IsSound (other {l = l} s' e h) = subst (λ v. IsSound v l) (sym e) (History-IsSound h)

-- In every history of a server that starts without version numbers, however the transactions of its
-- clients interleave with its own, which test no versions, and with steps that leave the version
-- numbers alone, the transactions that commit are serializable in the order of their numbers: the
-- numbers increase, and no key that a transaction read was written between the version that it read
-- and its own number. Garbage collections of the version numbers are part of the transactions.
pub History-Serial :
    {codec : IndexCodec} {s : Server} {l : List Entry} → History codec s l → Serial l
History-Serial h = (History-IsSound h).serial
