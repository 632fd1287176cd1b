-- ===== src/Proxy/Schemas/Merge.antt =====
-- What a merged schema defines.
use object_database.Prelude.{
  String, ◌≡◌, refl, sym, ap, ◌∙◌, inl, inr, Bool, true, false, ◌||◌, Option, none, some, List, [],
  ◌∷◌, ◌++◌, arith, Bool-cases, beq, dec_eq, string_eq, list_eq, if◌then◌else◌,
}
use object_database.Collections.Dict.{get, insert, get-insert}
use object_database.Collections.Set.{member, difference, member-append, member-difference}
use object_database.Schema.{TypeDefinition}
use object_database.Server.Messages.{SchemaDefinition}
use object_database.Proxy.Schemas.{
  merge_names, merge_type_definition, merge_over, merge_schema_definitions, same_type_definition,
  is_within, same_schema,
}

-- A schema names each of its types once.
abbrev pub IsDict : SchemaDefinition → Type 0
IsDict [] = Unit {0}
IsDict ((t, d) ∷ types) = (get types t ≡ none) × IsDict types

-- What two definitions of one type amount to.
unfoldable pub join : Option TypeDefinition → Option TypeDefinition → Option TypeDefinition
unfolding merge_over
join old none = old
join old (some new) = some (merge_over old new)

get-merge :
    (a b : SchemaDefinition) (t : String)
    → IsDict b
    → get (merge_schema_definitions a b) t ≡ join (get a t) (get b t)
unfolding merge_schema_definitions join get
get-merge a [] t h = refl
get-merge a ((u, d) ∷ b) t (absent, h) = elim (dec_eq u t) [
  | yes e ↦ ground (
    arith,
    get-merge (insert u (merge_over (get a u) d) a) b t h,
    get-insert a u t (merge_over (get a u) d),
    ap (get b) e,
    ap (get a) e,
    absent,
  )
  | no ne ↦ ground (
    arith,
    get-merge (insert u (merge_over (get a u) d) a) b t h,
    get-insert a u t (merge_over (get a u) d),
  )
]

member-merge_names :
    (xs ys : List String) (x : String) → member (merge_names xs ys) x ≡ (member xs x || member ys x)
unfolding merge_names
member-merge_names xs ys x =
    ground (arith, member-append xs (difference ys xs) x, member-difference ys xs x)

difference-nil :
    (ys xs : List String)
    → ((y : String) → member ys y ≡ true → member xs y ≡ true)
    → difference ys xs ≡ []
unfolding difference member
difference-nil [] xs h = refl
difference-nil (y ∷ ys) xs h =
    ground (arith, h y, difference-nil ys xs (λ z m. h z (ground (arith, m))))

abbrev Names : List String → List String → Type 0
Names ys xs = (y : String) → member ys y ≡ true → member xs y ≡ true

append-nil : (xs : List String) → xs ++ [] ≡ xs
append-nil [] = refl
append-nil (x ∷ xs) = ap (λ l. x ∷ l) (append-nil xs)

-- Nothing of `new` is missing in `old`.
abbrev pub Covered : TypeDefinition → TypeDefinition → Type 0
Covered new old = Names new.fields old.fields × Names new.indices old.indices

merge-Covered : (old new : TypeDefinition) → Covered new old → merge_type_definition old new ≡ old
unfolding merge_type_definition merge_names
merge-Covered old new (f, i) =
    rw (difference-nil new.fields old.fields f, difference-nil new.indices old.indices i)
      (rw (append-nil old.fields, append-nil old.indices))

-- Every type of `b` is in `a`, with all its names.
abbrev pub IsKnown : SchemaDefinition → SchemaDefinition → Type 0
IsKnown b a =
    (t : String) (new : TypeDefinition)
    → get b t ≡ some new
    → (old : TypeDefinition) × (get a t ≡ some old) × Covered new old

get-merge_known :
    (a b : SchemaDefinition) (t : String)
    → IsDict b
    → IsKnown b a
    → get (merge_schema_definitions a b) t ≡ get a t
unfolding join merge_over
get-merge_known a b t d k = get-merge a b t d ∙ go (get b t) refl
  where
    go : (o : Option TypeDefinition) → get b t ≡ o → join (get a t) o ≡ get a t
    go none e = refl
    go (some new) e = let (old, at, c) = k t new e in rw at (ap some (merge-Covered old new c))

insert-IsDict :
    (a : SchemaDefinition) (t : String) (d : TypeDefinition) → IsDict a → IsDict (insert t d a)
unfolding insert get
insert-IsDict [] t d h = (refl, tt)
insert-IsDict ((u, e) ∷ a) t d (absent, h) = elim (Bool-cases (beq u t)) [
  | inl same ↦ rw same (ground (arith, absent), h)
  | inr other ↦ rw other (ground (arith, absent, get-insert a t u d), insert-IsDict a t d h)
]

merge-IsDict : (a b : SchemaDefinition) → IsDict a → IsDict (merge_schema_definitions a b)
unfolding merge_schema_definitions
merge-IsDict a [] h = h
merge-IsDict a ((t, d) ∷ b) h =
    merge-IsDict (insert t (merge_over (get a t) d) a) b (insert-IsDict a t _ h)

same_type_refl : (d : TypeDefinition) → same_type_definition d d ≡ true
unfolding same_type_definition
same_type_refl d = ground arith

is_within_of_get :
    (d d' : SchemaDefinition)
    → IsDict d
    → ((t : String) (x : TypeDefinition) → get d t ≡ some x → get d' t ≡ some x)
    → is_within d d' ≡ true
unfolding is_within get
is_within_of_get [] d' h g = refl
is_within_of_get ((u, x) ∷ d) d' (absent, h) g = ground (
  arith,
  g u x (ground arith),
  same_type_refl x,
  is_within_of_get d d' h (λ t y e. g t y (later t y e)),
)
  where
    later :
        (t : String) (y : TypeDefinition)
        → get d t ≡ some y
        → (if beq u t then (some x) else get d t) ≡ some y
    later t y e = ground (arith, e, absent)

-- A definition that names nothing new leaves the schema that the proxy has defined as it is, in the
-- sense in which the proxy compares them.
pub same_schema-merge :
    (a b : SchemaDefinition)
    → IsDict a
    → IsDict b
    → IsKnown b a
    → same_schema (merge_schema_definitions a b) a ≡ true
unfolding same_schema
same_schema-merge a b da db k = ground (
  arith,
  is_within_of_get (merge_schema_definitions a b) a (merge-IsDict a b da)
      (λ t x e. sym (get-merge_known a b t db k) ∙ e),
  is_within_of_get a (merge_schema_definitions a b) da (λ t x e. get-merge_known a b t db k ∙ e),
)

-- The schema has the field, or the index, in the type.
unfoldable pub has_field : SchemaDefinition → String → String → Bool
has_field d t x = elim (get d t) [ none ↦ false | some typedef ↦ member typedef.fields x ]

unfoldable pub has_index : SchemaDefinition → String → String → Bool
has_index d t x = elim (get d t) [ none ↦ false | some typedef ↦ member typedef.indices x ]

-- The merged schema has just the fields and the indices that one of the two has.
pub merge-union :
    (a b : SchemaDefinition) (t x : String)
    → IsDict b
    → (has_field (merge_schema_definitions a b) t x ≡ (has_field a t x || has_field b t x))
      × (has_index (merge_schema_definitions a b) t x ≡ (has_index a t x || has_index b t x))
unfolding has_field has_index join merge_over merge_type_definition
merge-union a b t x h =
    let e = get-merge a b t h in
    let (f, i) = go (get a t) (get b t) in (ap in_fields e ∙ f, ap in_indices e ∙ i)
  where
    in_fields : Option TypeDefinition → Bool
    in_fields o = elim o [ none ↦ false | some typedef ↦ member typedef.fields x ]

    in_indices : Option TypeDefinition → Bool
    in_indices o = elim o [ none ↦ false | some typedef ↦ member typedef.indices x ]

    go :
        (o p : Option TypeDefinition)
        → (in_fields (join o p) ≡ (in_fields o || in_fields p))
          × (in_indices (join o p) ≡ (in_indices o || in_indices p))
    go none none = (refl, refl)
    go (some p) none = ground arith
    go none (some q) = (refl, refl)
    go (some p) (some q) =
        (member-merge_names p.fields q.fields x, member-merge_names p.indices q.indices x)
