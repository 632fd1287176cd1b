-- ===== src/Proxy/Values/Index.antt =====
-- The two index tables of `SubscriptionState` (object_database/proxy_server.py): `indexValues` says which
-- value an object has, `reverseIndexValues` which objects have a value.
use object_database.Prelude.{
  ℕ, Bool, true, false, ◌&&◌, Option, none, some, List, [], ◌∷◌, ◌≡◌, refl, if◌then◌else◌, beq,
  nat_eq, list_eq, arith,
}
use object_database.Prelude.Exec.{state_of, state_of-bind, state_of-then}
use object_database.Collections.Dict.{Dict, get, insert, delete, get-insert, get-delete}
use object_database.Collections.Set.{member, add_all, discard, member-add_all, member-discard}
use object_database.Schema.{ObjectId, FieldId, IndexValue, IndexId, index_eq}
use object_database.Server.Messages.{Writes, SetChanges}
use object_database.Proxy.State.{Values, SubscriptionState, at, at-insert}
use object_database.Proxy.Values.{
  prior_values, delete_all, discard_all, keep_objects, put_all, apply_write, apply_writes,
  apply_remove, apply_removes, apply_add,
}
use object_database.Proxy.Transactions.{Broadcast, increase_channels, add_sets}
use object_database.Proxy.Values.Frame.{
  Preserves-KeepsValues, increase_channels-KeepsValues, finish-KeepsValues,
}
use object_database.Proxy.Broadcast.{oids_mentioned, handle_transaction}

unfoldable pub is_value : Option IndexValue → IndexValue → Bool
is_value none value = false
is_value (some w) value = beq w value

-- Does the object have no value of the index, or this one already?
unfoldable pub can_take : Option IndexValue → IndexValue → Bool
can_take none value = true
can_take (some w) value = beq w value

-- The objects that the reverse table has under a value are those that have it.
unfoldable pub IsIndexed : Values → Type 0
unfolding is_value
IsIndexed v =
    (f : FieldId) (value : IndexValue) (i : ObjectId)
    → member (at (at v.reverse_index_values f) value) i
      ≡ is_value (get (at v.index_values f) i) value

-- An object leaves the set of a value that it has.
unfoldable pub FitsRemoves : SetChanges → Values → Type 0
unfolding is_value apply_remove
FitsRemoves [] v = Unit {0}
FitsRemoves ((k, ids) ∷ removes) v =
    ((i : ObjectId)
      → member ids i ≡ true
      → is_value (get (at v.index_values k.field_id) i) k.index_value ≡ true)
    × FitsRemoves removes (apply_remove k ids v)

-- An object enters the set of a value when it has no other.
unfoldable pub FitsAdds : SetChanges → Values → Type 0
unfolding can_take apply_add
FitsAdds [] v = Unit {0}
FitsAdds ((k, ids) ∷ adds) v =
    ((i : ObjectId)
      → member ids i ≡ true
      → can_take (get (at v.index_values k.field_id) i) k.index_value ≡ true)
    × FitsAdds adds (apply_add k ids v)

get-delete_all :
    (ids : List ObjectId) (d : Dict ObjectId IndexValue) (i : ObjectId)
    → get (delete_all ids d) i ≡ (if member ids i then none else get d i)
unfolding delete_all member
get-delete_all [] d i = refl
get-delete_all (j ∷ ids) d i = ground (arith, get-delete_all ids (delete j d) i, get-delete d j i)

get-put_all :
    (value : IndexValue) (ids : List ObjectId) (d : Dict ObjectId IndexValue) (i : ObjectId)
    → get (put_all value ids d) i ≡ (if member ids i then some value else get d i)
unfolding put_all member
get-put_all value [] d i = refl
get-put_all value (j ∷ ids) d i =
    ground (arith, get-put_all value ids (insert j value d) i, get-insert d j i value)

member-discard_all :
    (ids s : List ObjectId) (i : ObjectId)
    → member (discard_all ids s) i ≡ (if member ids i then false else member s i)
unfolding discard_all member
member-discard_all [] s i = refl
member-discard_all (j ∷ ids) s i =
    ground (arith, member-discard_all ids (discard j s) i, member-discard s j i)

at-keep_objects :
    (value : IndexValue) (l : List ObjectId) (d : Dict IndexValue (List ObjectId)) (w : IndexValue)
    → at (keep_objects value l d) w ≡ (if beq value w then l else at d w)
unfolding keep_objects at
at-keep_objects value [] d w = ground (arith, get-delete d value w)
at-keep_objects value (i ∷ l) d w = ground (arith, get-insert d value w (i ∷ l))

get-apply_remove :
    (k : IndexId) (ids : List ObjectId) (v : Values) (f : FieldId) (i : ObjectId)
    → get (at (apply_remove k ids v).index_values f) i
      ≡ (if beq k.field_id f && member ids i then none else get (at v.index_values f) i)
unfolding apply_remove
get-apply_remove k ids v f i =
    let old = at v.index_values k.field_id in
    ground
      (arith, get-insert v.index_values k.field_id f (delete_all ids old), get-delete_all ids old i)

member-apply_remove :
    (k : IndexId) (ids : List ObjectId) (v : Values) (f : FieldId) (w : IndexValue) (i : ObjectId)
    → member (at (at (apply_remove k ids v).reverse_index_values f) w) i ≡ (
        if beq k.field_id f && (beq k.index_value w && member ids i)
        then false
        else member (at (at v.reverse_index_values f) w) i)
unfolding apply_remove
member-apply_remove k ids v f w i =
    let old = at v.reverse_index_values k.field_id in
    let left = discard_all ids (at old k.index_value) in
    ground (
      arith,
      at-insert v.reverse_index_values k.field_id f (keep_objects k.index_value left old),
      at-keep_objects k.index_value left old w,
      member-discard_all ids (at old k.index_value) i,
    )

get-apply_add :
    (k : IndexId) (ids : List ObjectId) (v : Values) (f : FieldId) (i : ObjectId)
    → get (at (apply_add k ids v).index_values f) i ≡ (
        if beq k.field_id f && member ids i
        then some k.index_value
        else get (at v.index_values f) i)
unfolding apply_add
get-apply_add k ids v f i =
    let old = at v.index_values k.field_id in
    ground (
      arith,
      get-insert v.index_values k.field_id f (put_all k.index_value ids old),
      get-put_all k.index_value ids old i,
    )

member-apply_add :
    (k : IndexId) (ids : List ObjectId) (v : Values) (f : FieldId) (w : IndexValue) (i : ObjectId)
    → member (at (at (apply_add k ids v).reverse_index_values f) w) i ≡ (
        if beq k.field_id f && (beq k.index_value w && member ids i)
        then true
        else member (at (at v.reverse_index_values f) w) i)
unfolding apply_add
member-apply_add k ids v f w i =
    let old = at v.reverse_index_values k.field_id in
    let grown = add_all ids (at old k.index_value) in
    ground (
      arith,
      at-insert v.reverse_index_values k.field_id f (insert k.index_value grown old),
      at-insert old k.index_value w grown,
      member-add_all ids (at old k.index_value) i,
    )

apply_remove-IsIndexed :
    (k : IndexId) (ids : List ObjectId) (v : Values)
    → ((i : ObjectId)
        → member ids i ≡ true
        → is_value (get (at v.index_values k.field_id) i) k.index_value ≡ true)
    → IsIndexed v
    → IsIndexed (apply_remove k ids v)
unfolding IsIndexed
apply_remove-IsIndexed k ids v fit h f w i =
    ground (arith, member-apply_remove k ids v f w i, get-apply_remove k ids v f i, h f w i, fit i)

pub apply_add-IsIndexed :
    (k : IndexId) (ids : List ObjectId) (v : Values)
    → ((i : ObjectId)
        → member ids i ≡ true
        → can_take (get (at v.index_values k.field_id) i) k.index_value ≡ true)
    → IsIndexed v
    → IsIndexed (apply_add k ids v)
unfolding IsIndexed can_take
apply_add-IsIndexed k ids v fit h f w i =
    ground (arith, member-apply_add k ids v f w i, get-apply_add k ids v f i, h f w i, fit i)

apply_writes-IsIndexed :
    (writes : Writes) (v : Values) → IsIndexed v → IsIndexed (apply_writes writes v)
unfolding apply_writes apply_write IsIndexed
apply_writes-IsIndexed [] v h = h
apply_writes-IsIndexed ((k, b) ∷ writes) v h = apply_writes-IsIndexed writes (apply_write k b v) h

apply_removes-IsIndexed :
    (removes : SetChanges) (v : Values)
    → FitsRemoves removes v
    → IsIndexed v
    → IsIndexed (apply_removes removes v)
unfolding apply_removes FitsRemoves
apply_removes-IsIndexed [] v fits h = h
apply_removes-IsIndexed ((k, ids) ∷ removes) v fits h =
    apply_removes-IsIndexed removes (apply_remove k ids v) (fits.1)
      (apply_remove-IsIndexed k ids v (fits.0) h)

-- The loop over `set_adds`, on a state whose tables it fits.
abbrev ReadyFor : SetChanges → Values → Type 0
ReadyFor adds v = FitsAdds adds v × IsIndexed v

add_sets-IsIndexed :
    (tid : ℕ) (adds : SetChanges) (b : Broadcast) (s : SubscriptionState)
    → ReadyFor adds s.values
    → IsIndexed (state_of (add_sets tid adds b s)).values
unfolding add_sets FitsAdds
add_sets-IsIndexed tid [] b s h = h.1
add_sets-IsIndexed tid ((k, ids) ∷ adds) b s h =
    let cs = at s.subscribers.index_id_to_subscribed_channels k in
    state_of-bind {Q = λ t. IsIndexed t.values} (increase_channels tid k ids cs b) _
      (Preserves-KeepsValues _ (increase_channels-KeepsValues tid k ids cs b)
        (ReadyFor ((k, ids) ∷ adds)))
      (λ t r. r.1)
      (λ b' t r.
        add_sets-IsIndexed tid adds b' (record t { values = apply_add k ids t.values })
          (r.0.1, apply_add-IsIndexed k ids t.values (r.0.0) (r.1)))
      s h

-- When the two index tables agree, and the transaction takes out of the set of a value only objects that
-- have this value, and then puts in only objects that have none or this one, the tables still
-- agree after `handleTransaction`, also if it raises.
pub handle_transaction-IsIndexed :
    (writes : Writes) (adds removes : SetChanges) (tid : ℕ) (s : SubscriptionState)
    → IsIndexed s.values
    → FitsRemoves removes (apply_writes writes s.values)
    → FitsAdds adds (apply_removes removes (apply_writes writes s.values))
    → IsIndexed (state_of (handle_transaction writes adds removes tid s)).values
unfolding handle_transaction
handle_transaction-IsIndexed writes adds removes tid s h fits_removes fits_adds =
    let oids = oids_mentioned writes adds removes in
    let priors = prior_values s.values writes in
    let b : Broadcast = record {
      writes = writes;
      set_adds = adds;
      triggered = [];
      increased = [];
    } in
    let indexed = apply_writes-IsIndexed writes s.values h in
    state_of-then {Q = λ t. IsIndexed t.values} (add_sets tid adds b) _
      (record s { values = apply_removes removes (apply_writes writes s.values) })
      (add_sets-IsIndexed tid adds b _ (
        fits_adds,
        apply_removes-IsIndexed removes (apply_writes writes s.values) fits_removes indexed,
      ))
      (λ b'.
        Preserves-KeepsValues _ (finish-KeepsValues tid priors oids writes removes b') IsIndexed)
