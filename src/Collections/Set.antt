-- ===== src/Collections/Set.antt =====
-- Python's `set`, whose order no operation below depends on.
use object_database.Prelude.{
  ◌≡◌, refl, ◌∙◌, if◌then◌else◌, beq, Bool, true, false, not, ◌&&◌, ◌||◌, List, [], ◌∷◌, ◌++◌,
  arith, Eq,
}

module _ {ℓ} {A : Type ℓ} ⦃e : Eq A⦄ where
  -- a in s
  unfoldable pub member : List A → A → Bool
  member [] a = false
  member (x ∷ s) a = if beq x a then true else member s a

  -- s.add(a)
  unfoldable pub add : A → List A → List A
  add a s = if member s a then s else a ∷ s

  -- s.discard(a)
  unfoldable pub discard : A → List A → List A
  discard a [] = []
  discard a (x ∷ s) = let rest = discard a s in if beq x a then rest else x ∷ rest

  -- s.update(xs)
  unfoldable pub add_all : List A → List A → List A
  add_all [] s = s
  add_all (x ∷ xs) s = add_all xs (add x s)

  -- s.difference(t)
  unfoldable pub difference : List A → List A → List A
  difference [] t = []
  difference (x ∷ s) t = let rest = difference s t in if member t x then rest else x ∷ rest

  pub member-add :
      (s : List A) (a b : A) → member (add a s) b ≡ (if beq a b then true else member s b)
  unfolding member add
  member-add s a b = ground arith

  pub member-discard :
      (s : List A) (a b : A) → member (discard a s) b ≡ (if beq a b then false else member s b)
  unfolding member discard
  member-discard [] a b = ground arith
  member-discard (x ∷ s) a b = ground (arith, member-discard s a b)

  pub member-append : (s t : List A) (b : A) → member (s ++ t) b ≡ (member s b || member t b)
  unfolding member
  member-append [] t b = refl
  member-append (x ∷ s) t b = ground (arith, member-append s t b)

  pub member-add_all :
      (xs s : List A) (b : A) → member (add_all xs s) b ≡ (member xs b || member s b)
  unfolding member add_all
  member-add_all [] s b = refl
  member-add_all (x ∷ xs) s b = ground (arith, member-add_all xs (add x s) b, member-add s x b)

  pub member-difference :
      (s t : List A) (b : A) → member (difference s t) b ≡ (member s b && not (member t b))
  unfolding member difference
  member-difference [] t b = refl
  member-difference (x ∷ s) t b = ground (arith, member-difference s t b)

  -- No element stands twice.
  unfoldable pub is_set : List A → Bool
  unfolding member
  is_set [] = true
  is_set (x ∷ s) = not (member s x) && is_set s

  pub is_set-add : (s : List A) (a : A) → is_set (add a s) ≡ is_set s
  unfolding is_set add
  is_set-add s a = ground arith

  pub is_set-add_all : (xs s : List A) → is_set (add_all xs s) ≡ is_set s
  unfolding add_all
  is_set-add_all [] s = refl
  is_set-add_all (x ∷ xs) s = is_set-add_all xs (add x s) ∙ is_set-add s x
