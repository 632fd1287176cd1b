-- ===== src/Server/Versions.antt =====
-- The version numbers of `Server` (object_database/server.py): numbering, conflict test, garbage
-- collection.
pub mod History
pub mod Collection
use object_database.Prelude.{
  ℕ, suc, ◌+◌, ◌<◌, ◌≡◌, Bool, true, false, Option, none, some, List, [], ◌∷◌, ltb, if◌then◌else◌,
  nat_eq,
}
use object_database.Prelude.Int.{ℤ, pos, negsuc, ltb_ℤ, max_ℤ}
use object_database.Prelude.Exec.{
  Error, assertion_error, key_error, Outcome, ok, raised, Exec, ◌>>=◌, ◌>>◌, pure, raise, ensure,
}
use object_database.Collections.Dict.{Dict, get, insert, delete}
use object_database.Persistence.Value.{Key, text, object_field, index, field, key_eq}
use object_database.Persistence.{Store, IndexCodec, get_set_members}
use object_database.Persistence
use object_database.Server.State.{Versions}

-- What `time.time()` gives in the course of one transaction.
pub record Times : Type 0 where
  pub committed : ℕ
  pub gc_tested : ℕ
  pub gc_threshold : ℕ
  pub gc_finished : ℕ

-- The first lines of `_commitAndBroadcastNewTransaction`: the number is used up whatever follows.
unfoldable pub begin_transaction : ℤ → Exec Versions ℕ
begin_transaction as_of v =
    let tid = v.cur_transaction_num + 1 in
    (ensure (ltb_ℤ as_of (pos tid)) assertion_error >> pure tid)
      (record v { cur_transaction_num = tid })

-- self._version_numbers.get(key, -1)
unfoldable pub last_tid : Versions → Key → ℤ
last_tid v k = elim (get v.version_numbers k) [ none ↦ negsuc 0 | some n ↦ pos n ]

-- The first of the keys that was written after `as_of`.
unfoldable pub conflicting : Versions → ℤ → List Key → Option Key
conflicting v as_of [] = none
conflicting v as_of (k ∷ ks) = if ltb_ℤ as_of (last_tid v k) then some k else conflicting v as_of ks

-- The two loops over `keysWritingTo` and `setsWritingTo`.
unfoldable pub stamp : ℕ → ℕ → List Key → Versions → Versions
stamp tid t1 [] v = v
stamp tid t1 (k ∷ ks) v = stamp tid t1 ks (record v {
  version_numbers = insert k tid v.version_numbers;
  version_numbers_timestamps = insert k t1 v.version_numbers_timestamps;
})

-- Whether the store holds nothing under the key; `none` if the store raises.
unfoldable pub is_gone : IndexCodec → Store → Key → Option Bool
is_gone codec s k = elim k [
  | index i ↦ elim (get_set_members (index i) s) [
    | ok [] _ ↦ some true
    | ok (_ ∷ _) _ ↦ some false
    | raised _ _ ↦ none
  ]
  | other ↦ elim (Persistence.get codec other s) [
    | ok none _ ↦ some true
    | ok (some _) _ ↦ some false
    | raised _ _ ↦ none
  ]
]

-- One key of `_garbage_collect` whose time has passed: its number is forgotten if the store has
-- nothing under it, and then no transaction as old as the number is accepted any more.
unfoldable pub collect : (Key → Option Bool) → Key → Exec Versions (Unit {0})
collect gone k v = elim (gone k) [
  | none ↦ raised assertion_error v
  | some false ↦ ok tt v
  | some true ↦ elim (get v.version_numbers k) [
    | none ↦ raised key_error v
    | some n ↦ ok tt (record v {
      min_acceptable_version_number = max_ℤ v.min_acceptable_version_number (pos n);
      version_numbers = delete k v.version_numbers;
    })
  ]
]

-- The loop of `_garbage_collect`, with `new_ts`. `ts < threshold` is `ts + interval < now`.
unfoldable pub collect_all :
    (Key → Option Bool) → ℕ → ℕ → List (Key × ℕ) → Dict Key ℕ → Exec Versions (Dict Key ℕ)
unfolding collect
collect_all gone interval now [] new_ts v = ok new_ts v
collect_all gone interval now ((k, ts) ∷ rest) new_ts v = elim (ltb (ts + interval) now) [
  | true ↦ elim (collect gone k v) [
    | ok _ v' ↦ collect_all gone interval now rest new_ts v'
    | raised e v' ↦ raised e v'
  ]
  | false ↦ collect_all gone interval now rest (insert k ts new_ts) v
]

unfoldable pub is_due : Versions → ℕ → Bool
is_due v now = elim v.last_garbage_collect_timestamp [
  | none ↦ true
  | some last ↦ ltb (last + v.gc_interval) now
]

-- _garbage_collect, as a transaction calls it: with no override of the interval.
unfoldable pub garbage_collect : (Key → Option Bool) → Times → Exec Versions (Unit {0})
unfolding collect_all is_due
garbage_collect gone times v =
    if is_due v times.gc_tested
    then (elim (collect_all gone v.gc_interval times.gc_threshold v.version_numbers_timestamps []
        v) [
          | raised e v' ↦ raised e v'
          | ok new_ts v' ↦ ok tt (record v' {
            version_numbers_timestamps = new_ts;
            last_garbage_collect_timestamp = some times.gc_finished;
          })
        ])
    else ok tt v
