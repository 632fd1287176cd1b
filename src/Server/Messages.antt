-- ===== src/Server/Messages.antt =====
-- object_database/messages.py: what a client and the server send one another.
use object_database.Prelude.{ℕ, String, Bool, Option, List, Eq, string_discrete, ℕ_discrete}
use object_database.Prelude.Int.{ℤ}
use object_database.Collections.Dict.{Dict}
use object_database.Schema.{
  Bytes, ObjectId, FieldId, IndexValue, ObjectFieldId, IndexId, FieldDefinition, TypeDefinition,
}

-- SchemaDefinition = ConstDict(str, TypeDefinition)
abbrev pub SchemaDefinition : Type 0
SchemaDefinition = Dict String TypeDefinition

abbrev pub Writes : Type 0
Writes = Dict ObjectFieldId (Option Bytes)

abbrev pub SetChanges : Type 0
SetChanges = Dict IndexId (List ObjectId)

-- OneOf(None, Tuple(str, IndexValue)): the field and value of an index-level subscription.
abbrev pub FieldAndValue : Type 0
FieldAndValue = Option (String × IndexValue)

pub record Subscription : Type 0 where
  pub schema : String
  pub typename : String
  pub fieldname_and_value : FieldAndValue
  pub is_lazy : Bool

subscription_dec : Discrete Subscription
subscription_dec = hlevel (ℕ_discrete, string_discrete)

unfoldable pub subscription_discrete : Discrete Subscription
unfolding subscription_dec
subscription_discrete a b = subscription_dec a b

instance abbrev pub subscription_eq : Eq Subscription
subscription_eq = record { decide = subscription_discrete }

-- The part of a transaction that one `TransactionData` message carries.
pub record TransactionData : Type 0 where
  pub writes : Writes
  pub prerequisites : Writes
  pub set_adds : SetChanges
  pub set_removes : SetChanges
  pub key_versions : List ObjectFieldId
  pub index_versions : List IndexId

pub data ClientToServer : Type 0 where
  transaction_data : ℕ → TransactionData → ClientToServer
  complete_transaction : ℤ → ℕ → Bool → ClientToServer
  heartbeat : ClientToServer
  define_schema : String → SchemaDefinition → ClientToServer
  load_lazy_object : String → String → ObjectId → ClientToServer
  subscribe : Subscription → ClientToServer
  flush : ℕ → ClientToServer
  authenticate : String → ClientToServer
  request_dependent_connection_id : ObjectId → String → ClientToServer
  drop_dependent_connection_id : ObjectId → ClientToServer
  subscribe_none : String → String → ClientToServer

-- `badKey` of a transaction result: a key that was written too late, or a text.
pub data BadKey : Type 0 where
  bad_object_field : ObjectFieldId → BadKey
  bad_index : IndexId → BadKey
  transaction_too_old : BadKey
  exception_text : BadKey

pub record TransactionMessage : Type 0 where
  pub writes : Writes
  pub set_adds : SetChanges
  pub set_removes : SetChanges
  pub transaction_id : ℕ

pub data ServerToClient : Type 0 where
  initialize : ℕ → ObjectId → ℕ → ServerToClient
  transaction_result : ℕ → Bool → Option BadKey → Bool → ServerToClient
  schema_mapping : String → Dict FieldDefinition (Option FieldId) → ServerToClient
  flush_response : ℕ → ServerToClient
  subscription_data :
      String → String → FieldAndValue → Writes → Writes → Option (List ObjectId) → ServerToClient
  lazy_transaction_priors : Writes → ServerToClient
  lazy_load_response : ObjectId → Writes → ServerToClient
  lazy_subscription_data : String → String → FieldAndValue → List ObjectId → Writes → ServerToClient
  subscription_complete : String → String → FieldAndValue → ℤ → ServerToClient
  subscription_increase : String → String → String × IndexValue → List ObjectId → ℕ → ServerToClient
  transaction : TransactionMessage → ServerToClient
  dependent_connection_id : String → ObjectId → ℕ → ServerToClient
