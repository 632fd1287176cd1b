-- ===== src/Util/Laws.antt =====
-- `distance` of object_database/util.py computes the edit distance.
use object_database.Prelude.{
  ℕ, suc, ◌+◌, List, [], ◌∷◌, length, ◌≡◌, refl, sym, ap, ◌∙◌, Eq, ltb, arith, Bool-cases, inl, inr,
}
use object_database.Util.{cost, entry, row, rows, range, last, distance_of_longer, distance, edits}

module _ {A : Type 0} ⦃e : Eq A⦄ where
  unfoldable pub reverse_onto : List A → List A → List A
  reverse_onto [] acc = acc
  reverse_onto (c ∷ s) acc = reverse_onto s (c ∷ acc)

  -- The distances of `r` to `acc` with one element of `s` after the other.
  unfoldable more : List A → List A → List A → List ℕ
  unfolding edits
  more r acc [] = []
  more r acc (d ∷ s) = edits r (d ∷ acc) ∷ more r (d ∷ acc) s

  row-more :
      (c : A) (s r acc : List A)
      → row c s (edits r acc ∷ more r acc s) (edits (c ∷ r) acc) ≡ more (c ∷ r) acc s
  unfolding row more edits entry
  row-more c [] r acc = refl
  row-more c (d ∷ s) r acc = ap (λ l. edits (c ∷ r) (d ∷ acc) ∷ l) (row-more c s r (d ∷ acc))

  edits-nil : (r : List A) → edits r [] ≡ length r
  unfolding edits
  edits-nil [] = refl
  edits-nil (c ∷ r) = refl

  rows-more :
      (i : ℕ) (s t r : List A)
      → i ≡ length r
      → rows i s t (edits r [] ∷ more r [] t)
        ≡ edits (reverse_onto s r) [] ∷ more (reverse_onto s r) [] t
  unfolding rows reverse_onto
  rows-more i [] t r h = refl
  rows-more i (c ∷ s) t r h =
      let first : i + 1 ≡ edits (c ∷ r) [] = omega (arith, h, edits-nil (c ∷ r)) in
      ap (λ n. rows (i + 1) s t (n ∷ row c t (edits r [] ∷ more r [] t) n)) first
      ∙ ap (λ l. rows (i + 1) s t (edits (c ∷ r) [] ∷ l)) (row-more c t r [])
      ∙ rows-more (i + 1) s t (c ∷ r) (omega (arith, h))

  range-more :
      (n : ℕ) (s acc : List A)
      → n ≡ length acc
      → range n (suc (length s)) ≡ edits [] acc ∷ more [] acc s
  unfolding range more edits
  range-more n [] acc h = ap (λ m. m ∷ []) h
  range-more n (d ∷ s) acc h =
      ap (λ l. n ∷ l) (range-more (n + 1) s (d ∷ acc) (omega (arith, h)))
      ∙ ap (λ m. m ∷ edits [] (d ∷ acc) ∷ more [] (d ∷ acc) s) h

  last-more :
      (x : ℕ) (r acc s : List A)
      → last x (edits r acc ∷ more r acc s) ≡ edits r (reverse_onto s acc)
  unfolding last more reverse_onto
  last-more x r acc [] = refl
  last-more x r acc (d ∷ s) = last-more (edits r acc) r (d ∷ acc) s

  length-reverse_onto : (s acc : List A) → length (reverse_onto s acc) ≡ length s + length acc
  unfolding reverse_onto
  length-reverse_onto [] acc = omega arith
  length-reverse_onto (c ∷ s) acc = omega (arith, length-reverse_onto s (c ∷ acc))

  distance_of_longer-edits :
      (s t : List A) → distance_of_longer s t ≡ edits (reverse_onto s []) (reverse_onto t [])
  unfolding distance_of_longer reverse_onto
  distance_of_longer-edits s [] =
      let n : length (reverse_onto s []) ≡ length s = omega (arith, length-reverse_onto s []) in
      sym n ∙ sym (edits-nil (reverse_onto s []))
  distance_of_longer-edits s (d ∷ t) =
      let n : length (d ∷ t) + 1 ≡ suc (length (d ∷ t)) = omega arith in
      ap (λ m. last 0 (rows 0 s (d ∷ t) (range 0 m))) n
      ∙ ap (λ l. last 0 (rows 0 s (d ∷ t) l)) (range-more 0 (d ∷ t) [] refl)
      ∙ ap (last 0) (rows-more 0 s (d ∷ t) [] refl)
      ∙ last-more 0 (reverse_onto s []) [] (d ∷ t)

  edits_comm : (s t : List A) → edits s t ≡ edits t s
  unfolding edits cost
  edits_comm [] [] = refl
  edits_comm [] (d ∷ t) = refl
  edits_comm (c ∷ s) [] = refl
  edits_comm (c ∷ s) (d ∷ t) =
      ground (arith, edits_comm s (d ∷ t), edits_comm (c ∷ s) t, edits_comm s t)

  -- `distance` is the edit distance by its recursive definition, whichever sequence is longer.
  pub distance-edits : (s t : List A) → distance s t ≡ edits (reverse_onto s []) (reverse_onto t [])
  unfolding distance
  distance-edits s t = elim (Bool-cases (ltb (length s) (length t))) [
    | inl h ↦
        rw (distance, h)
          (distance_of_longer-edits t s ∙ edits_comm (reverse_onto t []) (reverse_onto s []))
    | inr h ↦ rw (distance, h) (distance_of_longer-edits s t)
  ]
