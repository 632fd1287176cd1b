-- ===== src/Util.antt =====
-- The edit distance of object_database/util.py, of sequences over any type with `==`.
pub mod Laws
pub mod Tests
use object_database.Prelude.{
  ℕ, zero, suc, ◌+◌, min, Bool, true, false, List, [], ◌∷◌, length, if◌then◌else◌, beq, Eq, ltb,
}

-- range(i, i + n)
unfoldable pub range : ℕ → ℕ → List ℕ
range i zero = []
range i (suc n) = i ∷ range (i + 1) n

-- l[-1], of a list that is not empty
unfoldable pub last : ℕ → List ℕ → ℕ
last x [] = x
last x (y ∷ l) = last y l

module _ {A : Type 0} ⦃e : Eq A⦄ where
  unfoldable pub cost : A → A → ℕ
  cost c d = if beq c d then 0 else 1

  -- min(prev[j + 1] + 1, cur[j] + 1, prev[j] + cost), with cur[j] in `last`
  unfoldable pub entry : A → A → ℕ → ℕ → ℕ → ℕ
  unfolding cost
  entry c d above last before = min (above + 1) (min (last + 1) (before + cost c d))

  -- The inner loop: what it appends to `cur`, along `s2` and `prev`.
  unfoldable pub row : A → List A → List ℕ → ℕ → List ℕ
  unfolding entry
  row c [] prev last = []
  row c (d ∷ s2) (before ∷ above ∷ prev) last =
      let x = entry c d above last before in x ∷ row c s2 (above ∷ prev) x
  row c (d ∷ s2) (before ∷ []) last = []
  row c (d ∷ s2) [] last = []

  -- The outer loop, from `i`.
  unfoldable pub rows : ℕ → List A → List A → List ℕ → List ℕ
  unfolding row
  rows i [] s2 prev = prev
  rows i (c ∷ s1) s2 prev = rows (i + 1) s1 s2 ((i + 1) ∷ row c s2 prev (i + 1))

  -- The rest of `distance`, where `s1` is not the shorter one.
  unfoldable pub distance_of_longer : List A → List A → ℕ
  unfolding rows range last
  distance_of_longer s1 [] = length s1
  distance_of_longer s1 (d ∷ s2) = last 0 (rows 0 s1 (d ∷ s2) (range 0 (length (d ∷ s2) + 1)))

  -- distance
  unfoldable pub distance : List A → List A → ℕ
  unfolding distance_of_longer
  distance s1 s2 =
      if ltb (length s1) (length s2) then distance_of_longer s2 s1 else distance_of_longer s1 s2

  -- The distance by its recursive definition: the last elements are first here.
  unfoldable pub edits : List A → List A → ℕ
  unfolding cost
  edits [] t = length t
  edits (c ∷ s) [] = length (c ∷ s)
  edits (c ∷ s) (d ∷ t) =
      min (edits s (d ∷ t) + 1) (min (edits (c ∷ s) t + 1) (edits s t + cost c d))
