-- ===== src/Server/Request.antt =====
-- What a transaction of object_database/server.py reads, writes and mentions, as
-- `_commitAndBroadcastNewTransaction` works it out.
use object_database.Prelude.{
  ℕ, Bool, true, false, not, ◌||◌, Option, none, some, List, [], ◌∷◌, ◌++◌, map, beq, nat_eq,
  string_eq, list_eq,
}
use object_database.Prelude.Int.{ℤ}
use object_database.Collections.Dict.{Dict, get, insert}
use object_database.Collections.Set.{add, add_all}
use object_database.Schema.{
  Bytes, ObjectId, FieldId, IndexId, ObjectFieldId, object_field_eq, index_eq, field_definition_eq,
}
use object_database.Persistence.Value.{
  Key, object_field, index, field, key_eq, SetValue, identity, value,
}
use object_database.Server.Messages.{Writes, SetChanges}
use object_database.Server.State.{ChannelId}

-- A transaction as `_handleNewTransaction` receives it. `source` is `None` for the server's own.
pub record Request : Type 0 where
  pub source : Option ChannelId
  pub key_value : Writes
  pub prerequisites : Writes
  pub set_adds : SetChanges
  pub set_removes : SetChanges
  pub keys_to_check_versions : List ObjectFieldId
  pub indices_to_check_versions : List IndexId
  pub as_of_version : ℤ

-- ((True, None), transaction_id, …) and ((False, key), transaction_id, [])
pub data Result : Type 0 where
  committed : ℕ → Result
  conflict : Key → ℕ → Result

-- {k: v for k, v in changes.items() if v}
unfoldable pub nonempty : SetChanges → SetChanges
nonempty [] = []
nonempty ((k, []) ∷ changes) = nonempty changes
nonempty ((k, i ∷ is) ∷ changes) = (k, i ∷ is) ∷ nonempty changes

abbrev pub keys {ℓ} : {K V : Type ℓ} → List (K × V) → List K
keys = map (λ e. e.0)

-- keysWritingTo and setsWritingTo
unfoldable pub written_keys : Writes → SetChanges → SetChanges → List Key
written_keys key_value adds removes =
    map object_field (keys key_value) ++ (map index (keys adds) ++ map index (keys removes))

-- fieldIdsWriting
unfoldable pub written_fields : Writes → SetChanges → SetChanges → List FieldId
written_fields key_value adds removes = add_all (map (λ k. k.field_id) (keys key_value)) (
    add_all (map (λ k. k.field_id) (keys adds)) (add_all (map (λ k. k.field_id) (keys removes)) []))

unfoldable pub all_members : SetChanges → List ObjectId
all_members [] = []
all_members ((k, ids) ∷ changes) = ids ++ all_members changes

-- identities_mentioned
unfoldable pub mentioned : Writes → SetChanges → SetChanges → List ObjectId
unfolding all_members
mentioned key_value adds removes =
    add_all (map (λ k. k.obj_id) (keys key_value))
      (add_all (all_members adds) (add_all (all_members removes) []))

-- The keys whose versions are tested, those of fields first.
unfoldable pub checked_keys : Request → List Key
checked_keys q = map object_field q.keys_to_check_versions ++ map index q.indices_to_check_versions

unfoldable pub same_value : Option Bytes → Option Bytes → Bool
same_value none none = true
same_value (some a) (some b) = beq a b
same_value none (some b) = false
same_value (some a) none = false

unfoldable pub zip_values : List ObjectFieldId → List (Option Bytes) → Writes
zip_values [] vs = []
zip_values (k ∷ ks) [] = []
zip_values (k ∷ ks) (v ∷ vs) = insert k v (zip_values ks vs)

-- priorValues.get(k)
unfoldable pub value_at : Writes → ObjectFieldId → Option Bytes
value_at w k = elim (get w k) [ none ↦ none | some v ↦ v ]

-- badValues is not empty
unfoldable pub has_bad_value : Writes → Writes → Bool
unfolding same_value value_at
has_bad_value priors [] = false
has_bad_value priors ((k, v) ∷ prerequisites) =
    not (same_value (value_at priors k) v) || has_bad_value priors prerequisites

unfoldable pub set_reverse : IndexId → Option Bytes → List ObjectId → Writes → Writes
set_reverse k v [] res = res
set_reverse k v (i ∷ is) res =
    set_reverse k v is
      (insert (record { obj_id = i; field_id = k.field_id; is_index_value = true }) v res)

unfoldable pub reverse_removes : SetChanges → Writes → Writes
unfolding set_reverse
reverse_removes [] res = res
reverse_removes ((k, ids) ∷ changes) res = reverse_removes changes (set_reverse k none ids res)

unfoldable pub reverse_adds : SetChanges → Writes → Writes
unfolding set_reverse
reverse_adds [] res = res
reverse_adds ((k, ids) ∷ changes) res =
    reverse_adds changes (set_reverse k (some k.index_value) ids res)

-- indexReverseLookupKvs: an addition wins over a removal.
unfoldable pub index_reverse_lookup_kvs : SetChanges → SetChanges → Writes
unfolding reverse_adds reverse_removes
index_reverse_lookup_kvs adds removes = reverse_adds adds (reverse_removes removes [])

abbrev pub store_writes : Writes → List (Key × Option Bytes)
store_writes = map (λ e. (object_field e.0, e.1))

abbrev pub store_sets : SetChanges → List (Key × List SetValue)
store_sets = map (λ e. (index e.0, map identity e.1))

-- indexSetAdds and indexSetRemoves: the values of the new or dropped sets, by field.
unfoldable pub by_field : List Key → Dict FieldId (List Bytes)
by_field [] = []
by_field (index k ∷ ks) =
    let rest = by_field ks in
    insert k.field_id (add k.index_value (elim (get rest k.field_id) [ none ↦ [] | some vs ↦ vs ]))
      rest
by_field (_ ∷ ks) = by_field ks

abbrev pub field_sets : Dict FieldId (List Bytes) → List (Key × List SetValue)
field_sets = map (λ e. (field e.0, map value e.1))
