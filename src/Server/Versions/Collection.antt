-- ===== src/Server/Versions/Collection.antt =====
-- `_garbage_collect` forgets version numbers, and never a conflict.
use object_database.Prelude.{
  ℕ, ◌+◌, ◌≡◌, refl, inl, inr, Bool, true, false, Option, none, some, List, [], ◌∷◌, arith, ltb,
  if◌then◌else◌, nat_eq, dec_eq,
}
use object_database.Prelude.Int.{pos, max_ℤ, leb_ℤ_trans, leb_ℤ-max_left, leb_ℤ-max_right}
use object_database.Prelude.Exec.{Outcome, ok, raised, state_of, key_error, assertion_error}
use object_database.Collections.Dict.{Dict, get, insert, delete, get-delete}
use object_database.Persistence.Value.{Key, key_eq}
use object_database.Server.State.{Versions}
use object_database.Server.Versions.{Times, last_tid, collect, collect_all, is_due, garbage_collect}
use object_database.Server.Versions.History.{
  Covers, Evolves, IsBounded, Evolves-trans, Evolves-refl,
}

abbrev Keeps : Versions → Versions → Type 0
Keeps v w = Evolves v w × (IsBounded v → IsBounded w)

Keeps-refl : (v : Versions) → Keeps v v
Keeps-refl v = (Evolves-refl v, λ b. b)

Keeps-trans : (u v w : Versions) → Keeps u v → Keeps v w → Keeps u w
Keeps-trans u v w a b = (Evolves-trans a.0 b.0, λ h. b.1 (a.1 h))

abbrev forget : Versions → Key → ℕ → Versions
forget v k m = record v {
  min_acceptable_version_number = max_ℤ v.min_acceptable_version_number (pos m);
  version_numbers = delete k v.version_numbers;
}

forget-Keeps :
    (v : Versions) (k : Key) (m : ℕ) → get v.version_numbers k ≡ some m → Keeps v (forget v k m)
unfolding last_tid
forget-Keeps v k m e = (record { later = omega arith; covers = kept }, bounded)
  where
    bounded : IsBounded v → IsBounded (forget v k m)
    bounded b j = ground (arith, get-delete v.version_numbers k j, b j)

    kept : (n : ℕ) (j : Key) → Covers v n j → Covers (forget v k m) n j
    kept n j (inl h) = elim (dec_eq k j) [
      | yes same ↦ inr (
          leb_ℤ_trans (pos n) (pos m) (max_ℤ v.min_acceptable_version_number (pos m)) (ground arith)
            (leb_ℤ-max_right v.min_acceptable_version_number (pos m)))
      | no other ↦ inl (ground (arith, get-delete v.version_numbers k j))
    ]
    kept n j (inr h) = inr (
        leb_ℤ_trans (pos n) v.min_acceptable_version_number _ h
          (leb_ℤ-max_left v.min_acceptable_version_number (pos m)))

module _ (gone : Key → Option Bool) where
  collect-Keeps : (k : Key) (v : Versions) → Keeps v (state_of (collect gone k v))
  unfolding collect
  collect-Keeps k v = go (gone k) (get v.version_numbers k) refl
    where
      go :
          (g : Option Bool) (o : Option ℕ)
          → get v.version_numbers k ≡ o
          → Keeps v (
              state_of (elim g [
                | none ↦ raised assertion_error v
                | some false ↦ ok tt v
                | some true ↦ elim o [ none ↦ raised key_error v | some n ↦ ok tt (forget v k n) ]
              ]))
      go none o e = Keeps-refl v
      go (some false) o e = Keeps-refl v
      go (some true) none e = Keeps-refl v
      go (some true) (some n) e = forget-Keeps v k n e

  collect_all-Keeps :
      (interval now : ℕ) (l : List (Key × ℕ)) (new_ts : Dict Key ℕ) (v : Versions)
      → Keeps v (state_of (collect_all gone interval now l new_ts v))
  unfolding collect_all
  collect_all-Keeps interval now [] new_ts v = Keeps-refl v
  collect_all-Keeps interval now ((k, ts) ∷ l) new_ts v =
      (elim (ltb (ts + interval) now)
        as (λ old. Keeps v (
          state_of (elim old [
            | true ↦ elim (collect gone k v) [
              | ok _ v' ↦ collect_all gone interval now l new_ts v'
              | raised e v' ↦ raised e v'
            ]
            | false ↦ collect_all gone interval now l (insert k ts new_ts) v
          ]))) [
            | true ↦
                step (collect gone k v) (collect-Keeps k v)
                  (λ w. collect_all-Keeps interval now l new_ts w)
            | false ↦ collect_all-Keeps interval now l (insert k ts new_ts) v
          ])
    where
      step :
          (o : Outcome Versions (Unit {0}))
          → Keeps v (state_of o)
          → ((w : Versions) → Keeps w (state_of (collect_all gone interval now l new_ts w)))
          → Keeps v (
              state_of (elim o [
                | ok _ v' ↦ collect_all gone interval now l new_ts v'
                | raised e v' ↦ raised e v'
              ]))
      step (ok _ w) h ih = Keeps-trans v w _ h (ih w)
      step (raised e w) h ih = h

  -- Garbage collection forgets version numbers and never a conflict: a write that was remembered
  -- still is, by its key's number or by the bound below which transactions are refused, also where
  -- the collection raises. Numbers that were not from the future stay so.
  pub garbage_collect-Keeps :
      (times : Times) (v : Versions)
      → Evolves v (state_of (garbage_collect gone times v))
        × (IsBounded v → IsBounded (state_of (garbage_collect gone times v)))
  unfolding garbage_collect last_tid
  garbage_collect-Keeps times v = choose (is_due v times.gc_tested) _ (
      finish (collect_all gone v.gc_interval times.gc_threshold v.version_numbers_timestamps [] v)
        (collect_all-Keeps v.gc_interval times.gc_threshold v.version_numbers_timestamps [] v))
    where
      finish :
          (o : Outcome Versions (Dict Key ℕ))
          → Keeps v (state_of o)
          → Keeps v (
              state_of (elim o [
                | raised e v' ↦ raised e v'
                | ok new_ts v' ↦ ok tt (record v' {
                  version_numbers_timestamps = new_ts;
                  last_garbage_collect_timestamp = some times.gc_finished;
                })
              ]))
      finish (raised e w) h = h
      finish (ok new_ts w) h = (record { later = h.0.later; covers = h.0.covers }, h.1)

      choose :
          (b : Bool) (o : Outcome Versions (Unit {0}))
          → Keeps v (state_of o)
          → Keeps v (state_of (if b then o else ok tt v))
      choose true o h = h
      choose false o h = Keeps-refl v
