-- ===== src/Server/Versions/History.antt =====
-- What the version numbers remember of the writes that were committed, garbage collection included.
use object_database.Prelude.{
  ℕ, ◌+◌, ◌≤◌, ◌≡◌, refl, ◌⊎◌, inl, inr, true, List, [], ◌∷◌, arith, if◌then◌else◌, beq, Bool-cases,
  nat_eq,
}
use object_database.Prelude.Int.{ℤ, pos, leb_ℤ, ltb_ℤ, leb_ℤ_trans, leb_ℤ_refl}
use object_database.Prelude.Exec.{state_of}
use object_database.Collections.Dict.{insert, get-insert}
use object_database.Collections.Set.{member}
use object_database.Persistence.Value.{Key, key_eq}
use object_database.Server.State.{Versions}
use object_database.Server.Versions.{begin_transaction, last_tid, stamp}

-- A write of transaction `n` to `k` is remembered: by the key's number, or by the bound below which
-- transactions are refused.
abbrev pub Covers : Versions → ℕ → Key → Type 0
Covers v n k =
    (leb_ℤ (pos n) (last_tid v k) ≡ true) ⊎ (leb_ℤ (pos n) v.min_acceptable_version_number ≡ true)

pub record Evolves (v w : Versions) : Type 0 where
  pub later : v.cur_transaction_num ≤ w.cur_transaction_num
  pub covers : (n : ℕ) (k : Key) → Covers v n k → Covers w n k

-- No number is from the future.
abbrev pub IsBounded : Versions → Type 0
IsBounded v = (k : Key) → leb_ℤ (last_tid v k) (pos v.cur_transaction_num) ≡ true

pub Evolves-trans : {u v w : Versions} → Evolves u v → Evolves v w → Evolves u w
Evolves-trans a b = record {
  later = omega (arith, a.later, b.later);
  covers = λ n k h. b.covers n k (a.covers n k h);
}

pub Evolves-refl : (v : Versions) → Evolves v v
Evolves-refl v = record { later = omega arith; covers = λ n k h. h }

-- The number of a transaction is used up, also where the assertion fails.
pub begin-Evolves :
    (as_of : ℤ) (v : Versions)
    → Evolves v (state_of (begin_transaction as_of v))
      × (IsBounded v → IsBounded (state_of (begin_transaction as_of v)))
unfolding begin_transaction last_tid
begin-Evolves as_of v = elim (Bool-cases (ltb_ℤ as_of (pos (v.cur_transaction_num + 1)))) [
  | inl h ↦ rw h (record { later = omega arith; covers = λ n k c. c }, raise_bound)
  | inr h ↦ rw h (record { later = omega arith; covers = λ n k c. c }, raise_bound)
]
  where
    raise_bound :
        IsBounded v → (k : Key) → leb_ℤ (last_tid v k) (pos (v.cur_transaction_num + 1)) ≡ true
    raise_bound b k = leb_ℤ_trans (last_tid v k) (pos v.cur_transaction_num) _ (b k) (ground arith)

abbrev stamp_one : ℕ → ℕ → Key → Versions → Versions
stamp_one tid t1 k v = record v {
  version_numbers = insert k tid v.version_numbers;
  version_numbers_timestamps = insert k t1 v.version_numbers_timestamps;
}

last_tid-stamp_one :
    (tid t1 : ℕ) (k j : Key) (v : Versions)
    → last_tid (stamp_one tid t1 k v) j ≡ (if beq k j then pos tid else last_tid v j)
unfolding last_tid
last_tid-stamp_one tid t1 k j v = ground (arith, get-insert v.version_numbers k j tid)

stamp_one-Evolves :
    (tid t1 : ℕ) (k : Key) (v : Versions)
    → tid ≡ v.cur_transaction_num
    → IsBounded v
    → Evolves v (stamp_one tid t1 k v) × IsBounded (stamp_one tid t1 k v)
stamp_one-Evolves tid t1 k v e b = (
  record { later = omega arith; covers = kept },
  λ j. rw (last_tid-stamp_one tid t1 k j v) (bounded j),
)
  where
    bounded :
        (j : Key)
        → leb_ℤ (if beq k j then pos tid else last_tid v j) (pos v.cur_transaction_num) ≡ true
    bounded j = ground (arith, b j, leb_ℤ_refl (pos tid))

    kept : (n : ℕ) (j : Key) → Covers v n j → Covers (stamp_one tid t1 k v) n j
    kept n j (inl h) = inl (
        rw (last_tid-stamp_one tid t1 k j v) (
          ground
            (arith, h, leb_ℤ_trans (pos n) (last_tid v j) (pos v.cur_transaction_num) h (b j))))
    kept n j (inr h) = inr h

-- After the two loops every key that the transaction writes has its number, and no write that was
-- remembered before is forgotten.
pub stamp-Evolves :
    (tid t1 : ℕ) (ks : List Key) (v : Versions)
    → tid ≡ v.cur_transaction_num
    → IsBounded v
    → Evolves v (stamp tid t1 ks v)
      × IsBounded (stamp tid t1 ks v)
      × ((stamp tid t1 ks v).cur_transaction_num ≡ v.cur_transaction_num)
      × ((k : Key) → member ks k ≡ true → Covers (stamp tid t1 ks v) tid k)
unfolding stamp member
stamp-Evolves tid t1 [] v e b = (Evolves-refl v, b, refl, λ k h. cc)
stamp-Evolves tid t1 (k ∷ ks) v e b =
    let (first, b') = stamp_one-Evolves tid t1 k v e b in
    let (grow, bound, same, written) = stamp-Evolves tid t1 ks (stamp_one tid t1 k v) e b' in
    (
      Evolves-trans first grow,
      bound,
      same,
      λ j h. elim (Bool-cases (beq k j)) [
        | inl here ↦
            grow.covers tid j
              (inl (rw (last_tid-stamp_one tid t1 k j v, here) (leb_ℤ_refl (pos tid))))
        | inr there ↦ written j (rw there at h)
      ],
    )
