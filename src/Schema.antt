-- ===== src/Schema.antt =====
-- The identifiers of object_database/schema.py that the store and the server are keyed by.
use object_database.Prelude.{ℕ, String, Bool, List, Eq, ℕ_discrete, string_discrete}

-- `bytes`, in Python.
abbrev pub Bytes : Type 0
Bytes = List ℕ

abbrev pub ObjectId : Type 0
ObjectId = ℕ

abbrev pub FieldId : Type 0
FieldId = ℕ

abbrev pub IndexValue : Type 0
IndexValue = Bytes

pub record ObjectFieldId : Type 0 where
  pub obj_id : ℕ
  pub field_id : ℕ
  pub is_index_value : Bool

pub record IndexId : Type 0 where
  pub field_id : ℕ
  pub index_value : IndexValue

pub record FieldDefinition : Type 0 where
  pub schema : String
  pub typename : String
  pub fieldname : String

pub record TypeDefinition : Type 0 where
  pub fields : List String
  pub indices : List String

object_field_dec : Discrete ObjectFieldId
object_field_dec = hlevel ℕ_discrete

index_dec : Discrete IndexId
index_dec = hlevel ℕ_discrete

field_definition_dec : Discrete FieldDefinition
field_definition_dec = hlevel string_discrete

unfoldable pub object_field_discrete : Discrete ObjectFieldId
unfolding object_field_dec
object_field_discrete a b = object_field_dec a b

unfoldable pub index_discrete : Discrete IndexId
unfolding index_dec
index_discrete a b = index_dec a b

unfoldable pub field_definition_discrete : Discrete FieldDefinition
unfolding field_definition_dec
field_definition_discrete a b = field_definition_dec a b

instance abbrev pub object_field_eq : Eq ObjectFieldId
object_field_eq = record { decide = object_field_discrete }

instance abbrev pub index_eq : Eq IndexId
index_eq = record { decide = index_discrete }

instance abbrev pub field_definition_eq : Eq FieldDefinition
field_definition_eq = record { decide = field_definition_discrete }
