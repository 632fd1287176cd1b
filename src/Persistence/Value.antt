-- ===== src/Persistence/Value.antt =====
-- What the store holds: byte strings under text keys and object fields, sets under index keys (of
-- object identities) and under field numbers (of index values).
use object_database.Prelude.{ℕ, String, List, Eq, ℕ_discrete, string_discrete}
use object_database.Schema.{Bytes, ObjectFieldId, IndexId}

pub data Key : Type 0 where
  text : String → Key
  object_field : ObjectFieldId → Key
  index : IndexId → Key
  field : ℕ → Key

-- SetValue = OneOf(int, bytes)
pub data SetValue : Type 0 where
  identity : ℕ → SetValue
  value : Bytes → SetValue

pub data Stored : Type 0 where
  bytes : Bytes → Stored
  members : List SetValue → Stored

key_dec : Discrete Key
key_dec = hlevel (ℕ_discrete, string_discrete)

set_value_dec : Discrete SetValue
set_value_dec = hlevel ℕ_discrete

unfoldable pub key_discrete : Discrete Key
unfolding key_dec
key_discrete a b = key_dec a b

unfoldable pub set_value_discrete : Discrete SetValue
unfolding set_value_dec
set_value_discrete a b = set_value_dec a b

instance abbrev pub key_eq : Eq Key
key_eq = record { decide = key_discrete }

instance abbrev pub set_value_eq : Eq SetValue
set_value_eq = record { decide = set_value_discrete }
