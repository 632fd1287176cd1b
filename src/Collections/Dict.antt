-- ===== src/Collections/Dict.antt =====
-- Python's `dict`. A key has one entry; `insert` keeps the place of an old key, as `d[k] = v` does.
use object_database.Prelude.{
  suc, length, ◌≡◌, refl, inl, inr, if◌then◌else◌, Bool, true, false, Option, none, some, List, [],
  ◌∷◌, arith, Eq, ◌≢◌, beq, Bool-cases,
}

abbrev pub Dict {ℓ} : Type ℓ → Type ℓ → Type ℓ
Dict K V = List (K × V)

module _ {ℓ} {K V : Type ℓ} ⦃e : Eq K⦄ where
  -- d.get(k)
  unfoldable pub get : Dict K V → K → Option V
  get [] k = none
  get ((j, v) ∷ d) k = if beq j k then some v else get d k

  -- k in d
  unfoldable pub has : Dict K V → K → Bool
  has [] k = false
  has ((j, v) ∷ d) k = if beq j k then true else has d k

  -- d[k] = v
  unfoldable pub insert : K → V → Dict K V → Dict K V
  insert k v [] = (k, v) ∷ []
  insert k v ((j, w) ∷ d) = let rest = insert k v d in if beq j k then (k, v) ∷ d else (j, w) ∷ rest

  -- del d[k], d.pop(k, None)
  unfoldable pub delete : K → Dict K V → Dict K V
  delete k [] = []
  delete k ((j, w) ∷ d) = let rest = delete k d in if beq j k then rest else (j, w) ∷ rest

  -- d.update(other): the entries of `other` in their order.
  unfoldable pub update : Dict K V → Dict K V → Dict K V
  update d [] = d
  update d ((k, v) ∷ other) = update (insert k v d) other

  pub get-insert :
      (d : Dict K V) (k j : K) (v : V)
      → get (insert k v d) j ≡ (if beq k j then (some v) else get d j)
  unfolding get insert
  get-insert [] k j v = refl
  get-insert ((i, w) ∷ d) k j v = ground (arith, get-insert d k j v)

  pub get-delete :
      (d : Dict K V) (k j : K) → get (delete k d) j ≡ (if beq k j then none else get d j)
  unfolding get delete
  get-delete [] k j = ground arith
  get-delete ((i, w) ∷ d) k j = ground (arith, get-delete d k j)

  pub get-insert_self : (d : Dict K V) (k : K) (v : V) → get (insert k v d) k ≡ some v
  get-insert_self d k v = ground (arith, get-insert d k k v)

  pub get-insert_ne : (d : Dict K V) (k j : K) (v : V) → k ≢ j → get (insert k v d) j ≡ get d j
  get-insert_ne d k j v h = ground (arith, get-insert d k j v)

  -- `in` agrees with `get`.
  pub has-get : (d : Dict K V) (k : K) → has d k ≡ true → (v : V) × (get d k ≡ some v)
  unfolding has get
  has-get [] k h = cc
  has-get ((j, v) ∷ d) k h = elim (Bool-cases (beq j k)) [
    | inl p ↦ (v, rw p)
    | inr p ↦ rw p (has-get d k (ground arith))
  ]

  pub has-eq-false : (d : Dict K V) (k : K) → has d k ≡ false → get d k ≡ none
  unfolding has get
  has-eq-false [] k h = refl
  has-eq-false ((j, v) ∷ d) k h = ground (arith, has-eq-false d k)

  pub has_of_get : (d : Dict K V) (k : K) (v : V) → get d k ≡ some v → has d k ≡ true
  unfolding has get
  has_of_get [] k v h = cc
  has_of_get ((j, w) ∷ d) k v h = ground (arith, has_of_get d k v)

  pub has-insert :
      (d : Dict K V) (k j : K) (v : V) → has (insert k v d) j ≡ (if beq k j then true else has d j)
  unfolding has insert
  has-insert [] k j v = refl
  has-insert ((i, w) ∷ d) k j v = ground (arith, has-insert d k j v)

  pub has-delete :
      (d : Dict K V) (k j : K) → has (delete k d) j ≡ (if beq k j then false else has d j)
  unfolding has delete
  has-delete [] k j = ground arith
  has-delete ((i, w) ∷ d) k j = ground (arith, has-delete d k j)

  pub length-insert_new :
      (d : Dict K V) (k : K) (v : V) → has d k ≡ false → length (insert k v d) ≡ suc (length d)
  unfolding has insert
  length-insert_new [] k v h = refl
  length-insert_new ((j, w) ∷ d) k v h = ground (arith, length-insert_new d k v)
