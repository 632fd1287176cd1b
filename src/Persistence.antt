-- ===== src/Persistence.antt =====
-- `InMemoryPersistence` of object_database/persistence.py: the server's key-value store.
pub mod Value
pub mod Values
mod Tests
use object_database.Prelude.{
  ℕ, ◌≡◌, refl, Bool, true, false, not, ◌||◌, Option, none, some, List, [], ◌∷◌, ◌++◌,
  if◌then◌else◌, beq, Eq,
}
use object_database.Prelude.Exec.{
  Error, assertion_error, attribute_error, wrong_kind, Outcome, ok, raised, Exec, ◌>>=◌, ◌>>◌, pure,
  raise, ensure, for_each,
}
use object_database.Collections.Dict.{Dict, get as find, has, insert, delete as erase}
use object_database.Collections.Set.{member, add, discard}
use object_database.Schema.{Bytes, ObjectFieldId, IndexId}
use object_database.Persistence.Value.{
  Key, text, object_field, index, field, key_eq, SetValue, set_value_eq, Stored, bytes, members,
}

-- `serialize(IndexValue, ·)` and `deserialize(IndexValue, ·)` of typed_python.
pub record IndexCodec : Type 0 where
  pub wrap : Bytes → Bytes
  pub unwrap : Bytes → Option Bytes
  pub unwrap-wrap : (b : Bytes) → unwrap (wrap b) ≡ some b

-- self.values
abbrev pub Store : Type 0
Store = Dict Key Stored

-- `self.values.get(key, set())`, where no set stands for the empty one.
unfoldable pub set_at : Store → Key → Option (List SetValue)
set_at s k = elim (find s k) [
  | none ↦ some []
  | some (members ms) ↦ some ms
  | some (bytes _) ↦ none
]

module _ (codec : IndexCodec) where
  -- `key.isIndexValue`, and then the (de)serialization of an index value. Keys that are neither
  -- text nor an ObjectFieldId have no such attribute.
  unfoldable pub decode : Key → Bytes → Exec Store (Option Bytes)
  decode (text k) b = pure (some b)
  decode (object_field k) b =
      if k.is_index_value
      then elim (codec.unwrap b) [ none ↦ raise wrong_kind | some v ↦ pure (some v) ]
      else pure (some b)
  decode (index k) b = raise attribute_error
  decode (field k) b = raise attribute_error

  -- get
  unfoldable pub get : Key → Exec Store (Option Bytes)
  unfolding decode
  get k s = elim (find s k) [
    | none ↦ ok none s
    | some (members _) ↦ raised assertion_error s
    | some (bytes b) ↦ decode k b s
  ]

  unfoldable pub encode : Key → Option Bytes → Exec Store (Option Bytes)
  encode (text k) v = pure v
  encode (object_field k) v =
      pure (elim v [ none ↦ none | some b ↦ some (if k.is_index_value then codec.wrap b else b) ])
  encode (index k) v = raise attribute_error
  encode (field k) v = raise attribute_error

  unfoldable pub assign : Key → Option Bytes → Exec Store (Unit {0})
  assign k none s = ok tt (erase k s)
  assign k (some b) s = ok tt (insert k (bytes b) s)

  -- set
  unfoldable pub set : Key → Option Bytes → Exec Store (Unit {0})
  unfolding encode assign
  set k v = do v' ← encode k v; assign k v'

  -- getSeveral
  unfoldable pub get_several : List Key → Exec Store (List (Option Bytes))
  unfolding get
  get_several [] = pure []
  get_several (k ∷ ks) = do v ← get k; vs ← get_several ks; pure (v ∷ vs)

-- The loop of `_setAdd`.
unfoldable pub add_each : Key → List SetValue → Exec Store (Unit {0})
add_each k [] s = ok tt s
add_each k (v ∷ vs) s = elim (set_at s k) [
  | none ↦ raised wrong_kind s
  | some ms ↦
      let rest = add_each k vs (insert k (members (v ∷ ms)) s) in
      if member ms v then raised assertion_error s else rest
]

-- _setAdd
unfoldable pub set_add : Key → List SetValue → Exec Store (Unit {0})
unfolding add_each
set_add k [] s = ok tt s
set_add k (v ∷ vs) s = add_each k (v ∷ vs) (if has s k then s else insert k (members []) s)

-- The loop of `_setRemove`. The removals change the stored set in place.
unfoldable pub remove_each : Key → List SetValue → Exec Store (Unit {0})
remove_each k [] s = ok tt s
remove_each k (v ∷ vs) s = elim (set_at s k) [
  | none ↦ raised wrong_kind s
  | some ms ↦
      let rest = remove_each k vs (insert k (members (discard v ms)) s) in
      if member ms v then rest else raised assertion_error s
]

unfoldable pub drop_if_empty : Key → Exec Store (Unit {0})
drop_if_empty k s = elim (set_at s k) [
  | none ↦ ok tt s
  | some [] ↦ ok tt (erase k s)
  | some (_ ∷ _) ↦ ok tt s
]

-- _setRemove
unfoldable pub set_remove : Key → List SetValue → Exec Store (Unit {0})
unfolding remove_each drop_if_empty
set_remove k [] s = ok tt s
set_remove k (v ∷ vs) s = elim (set_at s k) [
  | some [] ↦ raised assertion_error s
  | _ ↦ (remove_each k (v ∷ vs) >> drop_if_empty k) s
]

-- getSetMembers
unfoldable pub get_set_members : Key → Exec Store (List SetValue)
get_set_members k s = elim (find s k) [
  | none ↦ ok [] s
  | some (members ms) ↦ ok ms s
  | some (bytes _) ↦ raised assertion_error s
]

-- The two loops of `setSeveral` over sets, with the sets that they report.
unfoldable pub add_several : List (Key × List SetValue) → Exec Store (List Key)
unfolding set_add
add_several [] s = ok [] s
add_several ((k, vs) ∷ adds) s = elim (set_add k vs s) [
  | raised e s' ↦ raised e s'
  | ok _ s' ↦ elim (add_several adds s') [
    | raised e s'' ↦ raised e s''
    | ok new s'' ↦ ok (if has s k then new else k ∷ new) s''
  ]
]

unfoldable pub remove_several : List (Key × List SetValue) → Exec Store (List Key)
unfolding set_remove
remove_several [] s = ok [] s
remove_several ((k, vs) ∷ removes) s = elim (set_remove k vs s) [
  | raised e s' ↦ raised e s'
  | ok _ s' ↦ elim (remove_several removes s') [
    | raised e s'' ↦ raised e s''
    | ok dropped s'' ↦ ok (if has s' k then dropped else k ∷ dropped) s''
  ]
]

-- setSeveral. Its first two loops assert that no entry is a `str`, and no entry ever is.
unfoldable pub set_several :
    IndexCodec
    → List (Key × Option Bytes)
    → List (Key × List SetValue)
    → List (Key × List SetValue)
    → Exec Store (List Key × List Key)
unfolding add_several remove_several set for_each
set_several codec kvs adds removes = do
  for_each kvs (λ e. set codec e.0 e.1)
  new_sets ← add_several adds
  dropped_sets ← remove_several removes
  pure (new_sets, dropped_sets)

-- exists
unfoldable pub exists : Key → Store → Bool
exists k s = has s k

-- delete
unfoldable pub delete : Key → Store → Store
delete k s = if has s k then erase k s else s
