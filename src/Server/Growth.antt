-- ===== src/Server/Growth.antt =====
-- How a transaction of object_database/server.py grows by the values of objects that are new to an
-- index-level subscriber: `_loadValuesForObject`, `_increaseBroadcastTransactionToInclude` and the
-- loop of `_commitAndBroadcastNewTransaction` that calls it.
use object_database.Prelude.{
  ℕ, String, Bool, true, false, Option, none, some, List, [], ◌∷◌, ◌++◌, map, nat_eq, string_eq,
}
use object_database.Prelude.Exec.{key_error, type_error, ok, raised, Exec, ◌>>=◌, pure, raise}
use object_database.Collections.Dict.{get, insert, update}
use object_database.Collections.Set.{add}
use object_database.Schema.{
  Bytes, ObjectId, FieldId, IndexId, ObjectFieldId, FieldDefinition, TypeDefinition,
  object_field_eq, index_eq, field_definition_eq,
}
use object_database.Persistence.Value.{object_field}
use object_database.Persistence.{IndexCodec, get_several}
use object_database.Server.Messages.{Writes, SetChanges}
use object_database.Server.TypeMap.{TypeMap, definition, field_id_for}
use object_database.Server.State.{ChannelId, ConnectedChannel, Server, on_store, on_routing}
use object_database.Server.Routing.{extend_channels, channel_of}
use object_database.Server.Request.{zip_values, value_at}

-- _currentTypeMap
unfoldable pub current_type_map : Exec Server TypeMap
current_type_map s = ok s.type_map s

-- typeMap.fieldIdToDef[fieldId]
unfoldable pub field_definition_of : TypeMap → FieldId → Exec Server FieldDefinition
field_definition_of types f = elim (get types.field_id_to_def f) [
  | none ↦ raise key_error
  | some d ↦ pure d
]

-- channel.definedSchemas.get(schema)[typename]
unfoldable pub typedef_of : ConnectedChannel → String → String → Exec Server TypeDefinition
typedef_of cc schema typename = elim (get cc.defined_schemas schema) [
  | none ↦ raise type_error
  | some types ↦ elim (get types typename) [ none ↦ raise key_error | some t ↦ pure t ]
]

-- The keys of one field for the objects; a field without a number has no ObjectFieldId, which only
-- matters if there are objects.
unfoldable pub field_keys :
    TypeMap → String → String → String → Bool → List ObjectId → Exec Server (List ObjectFieldId)
field_keys types schema typename name is_index [] = pure []
field_keys types schema typename name is_index (i ∷ is) =
    elim (field_id_for types (definition schema typename name)) [
      | none ↦ raise type_error
      | some f ↦
          pure (map (λ i. record { obj_id = i; field_id = f; is_index_value = is_index }) (i ∷ is))
    ]

unfoldable pub all_field_keys :
    TypeMap → String → String → List String → List ObjectId → Exec Server (List ObjectFieldId)
unfolding field_keys
all_field_keys types schema typename [] ids = pure []
all_field_keys types schema typename (f ∷ fs) ids = do
  ks ← field_keys types schema typename f false ids
  rest ← all_field_keys types schema typename fs ids
  pure (ks ++ rest)

module _ (codec : IndexCodec) where
  unfoldable pub values_of : List ObjectFieldId → Exec Server Writes
  values_of ks = do vs ← on_store (get_several codec (map object_field ks)); pure (zip_values ks vs)

  -- _loadValuesForObject
  unfoldable pub load_values_for_object :
      ChannelId → String → String → List ObjectId → Exec Server Writes
  unfolding values_of typedef_of all_field_keys on_routing channel_of current_type_map
  load_values_for_object c schema typename ids = do
    cc ← on_routing (channel_of c)
    typedef ← typedef_of cc schema typename
    types ← current_type_map
    ks ← all_field_keys types schema typename typedef.fields ids
    values_of ks

  -- set_adds.setdefault(IndexId(fieldId, fieldval), set()).add(ident)
  unfoldable pub add_index_value : FieldId → ObjectId → Option Bytes → SetChanges → SetChanges
  add_index_value f i none adds = adds
  add_index_value f i (some v) adds =
      let k : IndexId = record { field_id = f; index_value = v } in
      insert k (add i (elim (get adds k) [ none ↦ [] | some ids ↦ ids ])) adds

  -- The last loop of `_increaseBroadcastTransactionToInclude`, for one field. It looks the value up
  -- under an ObjectFieldId whose `isIndexValue` is left at its default, False.
  unfoldable pub include_index : Writes → List ObjectFieldId → SetChanges → SetChanges
  unfolding add_index_value value_at
  include_index reverse [] adds = adds
  include_index reverse (k ∷ ks) adds =
      include_index reverse ks (add_index_value k.field_id k.obj_id (value_at reverse k) adds)

  unfoldable pub include_indices :
      TypeMap
      → String
      → String
      → Writes
      → List String
      → List ObjectId
      → SetChanges
      → Exec Server SetChanges
  unfolding include_index field_keys
  include_indices types schema typename reverse [] ids adds = pure adds
  include_indices types schema typename reverse (f ∷ fs) ids adds = do
    ks ← field_keys types schema typename f false ids
    include_indices types schema typename reverse fs ids (include_index reverse ks adds)

  -- The keys of the reverse values that are read: one for each object, all of the field of
  -- `index_key`, and again for every index of the type.
  unfoldable pub reverse_keys : FieldId → List String → List ObjectId → List ObjectFieldId
  reverse_keys f [] ids = []
  reverse_keys f (_ ∷ names) ids =
      map (λ i. record { obj_id = i; field_id = f; is_index_value = true }) ids
      ++ reverse_keys f names ids

  -- _increaseBroadcastTransactionToInclude: the transaction with the values of objects that are new
  -- to a subscriber.
  unfoldable pub increase_broadcast_transaction_to_include :
      ChannelId → IndexId → List ObjectId → Writes → SetChanges → Exec Server (Writes × SetChanges)
  unfolding load_values_for_object typedef_of values_of reverse_keys include_indices on_routing
      channel_of current_type_map field_definition_of
  increase_broadcast_transaction_to_include c index_key new_ids key_value adds = do
    types ← current_type_map
    d ← field_definition_of types index_key.field_id
    cc ← on_routing (channel_of c)
    typedef ← typedef_of cc d.schema d.typename
    values ← load_values_for_object c d.schema d.typename new_ids
    reverse ← values_of (reverse_keys index_key.field_id typedef.indices new_ids)
    adds' ← include_indices types d.schema d.typename reverse typedef.indices new_ids adds
    pure (update key_value values, adds')

  -- Index-level subscriptions that grow by the transaction. The last channel of a key serves for
  -- the types of the values that are added.
  unfoldable pub last_channel : List ChannelId → Option ChannelId
  last_channel [] = none
  last_channel (c ∷ []) = some c
  last_channel (c ∷ c' ∷ cs) = last_channel (c' ∷ cs)

  unfoldable pub include_found :
      Option ChannelId
      → IndexId
      → List ObjectId
      → Writes
      → SetChanges
      → Exec Server (Writes × SetChanges)
  unfolding increase_broadcast_transaction_to_include
  include_found (some c) k (i ∷ is) key_value adds =
      increase_broadcast_transaction_to_include c k (i ∷ is) key_value adds
  include_found c k found key_value adds = pure (key_value, adds)

  unfoldable pub grow_index :
      ℕ
      → IndexId
      → List ObjectId
      → List ChannelId
      → List ChannelId
      → Writes
      → SetChanges
      → Exec Server (List ChannelId × Writes × SetChanges)
  unfolding extend_channels on_routing include_found last_channel current_type_map
  grow_index tid k ids cs lazy key_value adds = do
    types ← current_type_map
    (lazy', found) ← on_routing (extend_channels types tid k ids cs lazy [])
    (key_value', adds') ← include_found (last_channel cs) k found key_value adds
    pure (lazy', key_value', adds')

  unfoldable pub grow_subscriptions :
      ℕ
      → List (IndexId × List ObjectId)
      → List ChannelId
      → Writes
      → SetChanges
      → Exec Server (List ChannelId × Writes × SetChanges)
  unfolding grow_index
  grow_subscriptions tid [] lazy key_value adds s = ok (lazy, key_value, adds) s
  grow_subscriptions tid ((k, ids) ∷ rest) lazy key_value adds s =
      elim (get s.routing.index_to_channel k) [
        | none ↦ grow_subscriptions tid rest lazy key_value adds s
        | some cs ↦ elim (grow_index tid k ids cs lazy key_value adds s) [
          | raised e s' ↦ raised e s'
          | ok found s' ↦ grow_subscriptions tid rest found.0 found.1 found.2 s'
        ]
      ]
