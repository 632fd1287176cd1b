-- ===== src/Server/Commit/Include.antt =====
-- The index values of the objects that `_increaseBroadcastTransactionToInclude` adds to a
-- transaction.
use object_database.Prelude.{
  ◌≡◌, refl, ap, sym, subst, ◌∙◌, String, true, false, Option, none, some, List, [], ◌∷◌, ◌++◌, map,
  arith,
}
use object_database.Prelude.Exec.{
  ok, Exec, ◌>>=◌, pure, raise, type_error, Returns, Yields, bind-Yields, Any-Yields,
}
use object_database.Collections.Dict.{get, update, get-insert_ne}
use object_database.Schema.{
  Bytes, ObjectId, FieldId, IndexId, ObjectFieldId, object_field_eq, FieldDefinition,
  TypeDefinition,
}
use object_database.Persistence.{IndexCodec, get_several}
use object_database.Persistence.Value.{object_field}
use object_database.Server.Messages.{Writes, SetChanges}
use object_database.Server.TypeMap.{TypeMap, definition, field_id_for}
use object_database.Server.State.{ChannelId, Server, on_store, on_routing}
use object_database.Server.Routing.{channel_of}
use object_database.Server.Request.{zip_values, value_at}
use object_database.Server.Growth.{
  current_type_map, field_definition_of, typedef_of, load_values_for_object, values_of,
  include_index, include_indices, field_keys, reverse_keys, add_index_value,
  increase_broadcast_transaction_to_include,
}

-- No value is under a key that is not for an index value.
abbrev IsReverse : Writes → Type 0
IsReverse w = (k : ObjectFieldId) → k.is_index_value ≡ false → get w k ≡ none

abbrev AllReverse : List ObjectFieldId → Type 0
AllReverse [] = Unit {0}
AllReverse (k ∷ ks) = (k.is_index_value ≡ true) × AllReverse ks

AllReverse-append :
    (xs ys : List ObjectFieldId) → AllReverse xs → AllReverse ys → AllReverse (xs ++ ys)
AllReverse-append [] ys a b = b
AllReverse-append (x ∷ xs) ys a b = (a.0, AllReverse-append xs ys a.1 b)

ids-AllReverse :
    (f : FieldId) (ids : List ObjectId)
    → AllReverse (map (λ i. record { obj_id = i; field_id = f; is_index_value = true }) ids)
ids-AllReverse f [] = tt
ids-AllReverse f (i ∷ ids) = (refl, ids-AllReverse f ids)

zip_values-IsReverse :
    (ks : List ObjectFieldId) (vs : List (Option Bytes))
    → AllReverse ks
    → IsReverse (zip_values ks vs)
unfolding zip_values get
zip_values-IsReverse [] vs a k e = refl
zip_values-IsReverse (j ∷ ks) [] a k e = refl
zip_values-IsReverse (j ∷ ks) (v ∷ vs) a k e =
    get-insert_ne (zip_values ks vs) j k v
      (λ same. let x : true ≡ false = sym a.0 ∙ ap (λ i. i.is_index_value) same ∙ e in cc)
    ∙ zip_values-IsReverse ks vs a.1 k e

abbrev AllPlain : List ObjectFieldId → Type 0
AllPlain [] = Unit {0}
AllPlain (k ∷ ks) = (k.is_index_value ≡ false) × AllPlain ks

ids-AllPlain :
    (f : FieldId) (ids : List ObjectId)
    → AllPlain (map (λ i. record { obj_id = i; field_id = f; is_index_value = false }) ids)
ids-AllPlain f [] = tt
ids-AllPlain f (i ∷ ids) = (refl, ids-AllPlain f ids)

module _ (codec : IndexCodec) where
  reverse_keys-AllReverse :
      (f : FieldId) (names : List String) (ids : List ObjectId)
      → AllReverse (reverse_keys codec f names ids)
  unfolding reverse_keys
  reverse_keys-AllReverse f [] ids = tt
  reverse_keys-AllReverse f (n ∷ names) ids =
      AllReverse-append _ (reverse_keys codec f names ids) (ids-AllReverse f ids)
        (reverse_keys-AllReverse f names ids)

  values_of-IsReverse :
      (ks : List ObjectFieldId) → AllReverse ks → Yields IsReverse (values_of codec ks)
  unfolding values_of
  values_of-IsReverse ks a =
      bind-Yields (on_store (get_several codec (map object_field ks)))
        (λ vs. pure (zip_values ks vs)) (Any-Yields _)
        (λ vs _. record { holds = λ s. zip_values-IsReverse ks vs a })

  include_index-unchanged :
      (reverse : Writes) (ks : List ObjectFieldId) (adds : SetChanges)
      → IsReverse reverse
      → AllPlain ks
      → include_index codec reverse ks adds ≡ adds
  unfolding include_index value_at add_index_value
  include_index-unchanged reverse [] adds r p = refl
  include_index-unchanged reverse (k ∷ ks) adds r p =
      ground (arith, include_index-unchanged reverse ks adds r p.1, r k p.0)

  field_keys-AllPlain :
      (types : TypeMap) (a b c : String) (ids : List ObjectId)
      → Yields AllPlain (field_keys types a b c false ids)
  unfolding field_keys
  field_keys-AllPlain types a b c [] = record { holds = λ s. tt }
  field_keys-AllPlain types a b c (i ∷ is) = record {
    holds = λ s. go s (field_id_for types (definition a b c));
  }
    where
      go :
          (s : Server) (o : Option FieldId)
          → Returns AllPlain (
              (elim o as (λ _. Exec Server (List ObjectFieldId)) [
                | none ↦ raise type_error
                | some f ↦ pure (
                    map (λ j. record { obj_id = j; field_id = f; is_index_value = false }) (i ∷ is))
              ])
                s)
      go s none = tt
      go s (some f) = ids-AllPlain f (i ∷ is)

  include_indices-unchanged :
      (types : TypeMap) (a b : String) (reverse : Writes) (names : List String)
      (ids : List ObjectId) (adds : SetChanges)
      → IsReverse reverse
      → Yields (λ r. r ≡ adds) (include_indices codec types a b reverse names ids adds)
  unfolding include_indices
  include_indices-unchanged types a b reverse [] ids adds r = record { holds = λ s. refl }
  include_indices-unchanged types a b reverse (n ∷ names) ids adds r =
      bind-Yields {Q = AllPlain} _ _ (field_keys-AllPlain types a b n ids) (λ ks p.
        subst (λ x. Yields (λ r. r ≡ adds) (include_indices codec types a b reverse names ids x))
          (sym (include_index-unchanged reverse ks adds r p))
          (include_indices-unchanged types a b reverse names ids adds r))

  abbrev KeepsAdds : SetChanges → Writes × SetChanges → Type 0
  KeepsAdds adds r = r.1 ≡ adds

  module _ (k : IndexId) (ids : List ObjectId) (w : Writes) (adds : SetChanges) where
    abbrev Step : Type 0
    Step = Exec Server (Writes × SetChanges)

    -- The method after each of its first steps.
    abbrev after_values : TypeMap → FieldDefinition → TypeDefinition → Writes → Step
    after_values types d t vs = do
      reverse ← values_of codec (reverse_keys codec k.field_id t.indices ids)
      adds' ← include_indices codec types d.schema d.typename reverse t.indices ids adds
      pure (update w vs, adds')

    abbrev after_type : ChannelId → TypeMap → FieldDefinition → TypeDefinition → Step
    after_type c types d t =
        load_values_for_object codec c d.schema d.typename ids >>= after_values types d t

    abbrev after_definition : ChannelId → TypeMap → FieldDefinition → Step
    after_definition c types d = do
      cc ← on_routing (channel_of c)
      t ← typedef_of cc d.schema d.typename
      after_type c types d t

    after_values-Yields :
        (types : TypeMap) (d : FieldDefinition) (t : TypeDefinition) (vs : Writes)
        → Yields (KeepsAdds adds) (after_values types d t vs)
    after_values-Yields types d t vs =
        bind-Yields {Q = IsReverse} (values_of codec (reverse_keys codec k.field_id t.indices ids))
          (λ r. include_indices codec types d.schema d.typename r t.indices ids adds >>= λ a.
            pure (update w vs, a))
          (values_of-IsReverse _ (reverse_keys-AllReverse k.field_id t.indices ids))
          (λ r reverse.
            bind-Yields {Q = λ x. x ≡ adds}
              (include_indices codec types d.schema d.typename r t.indices ids adds)
              (λ a. pure (update w vs, a))
              (include_indices-unchanged types d.schema d.typename r t.indices ids adds reverse)
              (λ a e. record { holds = λ s. e }))

    after_definition-Yields :
        (c : ChannelId) (types : TypeMap) (d : FieldDefinition)
        → Yields (KeepsAdds adds) (after_definition c types d)
    after_definition-Yields c types d =
        bind-Yields (on_routing (channel_of c))
          (λ cc. typedef_of cc d.schema d.typename >>= after_type c types d) (Any-Yields _)
          (λ cc _.
            bind-Yields (typedef_of cc d.schema d.typename) (after_type c types d) (Any-Yields _)
              (λ t _.
                bind-Yields (load_values_for_object codec c d.schema d.typename ids)
                  (after_values types d t) (Any-Yields _)
                  (λ vs _. after_values-Yields types d t vs)))

    increase-Yields :
        (c : ChannelId)
        → Yields (KeepsAdds adds) (increase_broadcast_transaction_to_include codec c k ids w adds)
    unfolding increase_broadcast_transaction_to_include
    increase-Yields c =
        bind-Yields current_type_map
          (λ types. field_definition_of types k.field_id >>= after_definition c types)
          (Any-Yields _)
          (λ types _.
            bind-Yields (field_definition_of types k.field_id) (after_definition c types)
              (Any-Yields _) (λ d _. after_definition-Yields c types d))

  -- Whatever the indices of the type and the values in the store, the method that should give a
  -- channel the index values of the objects that are new to it adds none: the additions to index
  -- sets that it returns are those it was given.
  pub increase-unchanged :
      (c : ChannelId) (k : IndexId) (ids : List ObjectId) (key_value : Writes) (adds : SetChanges)
      (s s' : Server) (r : Writes × SetChanges)
      → increase_broadcast_transaction_to_include codec c k ids key_value adds s ≡ ok r s'
      → r.1 ≡ adds
  increase-unchanged c k ids key_value adds s s' r e =
      subst (Returns (KeepsAdds adds)) e ((increase-Yields k ids key_value adds c).holds s)
