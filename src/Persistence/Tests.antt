-- ===== src/Persistence/Tests.antt =====
-- A serialized index value, written and read back.
use object_database.Prelude.{◌≡◌, ◌≢◌, refl, true, none, some, [], ◌∷◌}
use object_database.Prelude.Exec.{ok}
use object_database.Collections.Dict.{get as find}
use object_database.Persistence.Value.{Key, object_field, key_eq}
use object_database.Persistence.{IndexCodec, Store, get, set}
use object_database.Persistence.Values.{is_value_key, set-get}

-- A serialization that puts one byte in front.
abbrev tagged : IndexCodec
tagged = record {
  wrap = λ b. 7 ∷ b;
  unwrap = λ b. elim b [ [] ↦ none | _ ∷ rest ↦ some rest ];
  unwrap-wrap = λ b. refl;
}

abbrev place : Key
place = object_field (record { obj_id = 8; field_id = 2; is_index_value = true })

set-get_example :
    (s' : Store) × (set tagged place (some (65 ∷ [])) [] ≡ ok tt s')
    × (get tagged place s' ≡ ok (some (65 ∷ [])) s')
    × ((j : Key) → place ≢ j → find s' j ≡ none)
unfolding is_value_key find
set-get_example = set-get tagged place (some (65 ∷ [])) [] refl
