-- ===== src/Util/Tests.antt =====
-- Runs of the edit distance.
use object_database.Prelude.{ℕ, ◌≡◌, refl, List, [], ◌∷◌, nat_eq}
use object_database.Util.{distance, edits}
use object_database.Util.Laws.{reverse_onto, distance-edits}

-- Two words, by the places of their letters in the alphabet: "cat" and "chart".
abbrev short_word : List ℕ
short_word = 3 ∷ 1 ∷ 20 ∷ []

abbrev long_word : List ℕ
long_word = 3 ∷ 8 ∷ 1 ∷ 18 ∷ 20 ∷ []

distance-edits_example :
    distance short_word long_word ≡ edits (reverse_onto short_word []) (reverse_onto long_word [])
distance-edits_example = distance-edits short_word long_word

run : distance short_word long_word ≡ 2
unfolding distance object_database.Prelude.ℕ_discrete
run = refl
