-- ===== src/Proxy/Values/Overwrites.antt =====
-- `objectValues` as a map, and what `handleTransaction` (object_database/proxy_server.py) makes of it.
use object_database.Prelude.{
  ℕ, Option, none, some, List, [], ◌∷◌, ◌≡◌, refl, ap, ◌∙◌, if◌then◌else◌, beq, nat_eq, string_eq,
  list_eq, arith,
}
use mathlib.Core.Path.{fun_ext}
use object_database.Prelude.Exec.{
  Exec, ok, state_of, Preserves, bind-Preserves, look-Preserves, ◌>>=◌, ◌>>◌,
}
use object_database.Collections.Dict.{Dict, get, insert, delete, get-insert, get-delete}
use object_database.Schema.{Bytes, ObjectId, FieldId, ObjectFieldId, index_eq}
use object_database.Server.Messages.{Writes, SetChanges}
use object_database.Server.State.{ChannelId}
use object_database.Proxy.State.{Values, SubscriptionState, at}
use object_database.Proxy.Reads.{get_object_value}
use object_database.Proxy.Received.{update_value}
use object_database.Proxy.Values.{
  prior_values, apply_write, apply_writes, apply_remove, apply_removes, apply_add,
}
use object_database.Proxy.Transactions.{Broadcast, increase_channels, add_sets}
use object_database.Proxy.Values.Frame.{
  Preserves-KeepsValues, increase_channels-KeepsValues, finish-KeepsValues,
}
use object_database.Proxy.Broadcast.{oids_mentioned, handle_transaction}

-- The value of a field of an object, if it has one.
abbrev pub Snapshot : Type 0
Snapshot = FieldId → ObjectId → Option Bytes

abbrev pub snapshot : Values → Snapshot
unfolding get_object_value
snapshot v = get_object_value v

-- Each write takes the place of what was there, and `none` takes the value away.
unfoldable pub overwrite : Writes → Snapshot → Snapshot
overwrite [] s = s
overwrite ((k, b) ∷ writes) s =
    overwrite writes
      (λ f i. if beq k.field_id f then (if beq k.obj_id i then b else s f i) else s f i)

get-update_value :
    (f : FieldId) (i : ObjectId) (b : Option Bytes) (t : Dict FieldId (Dict ObjectId Bytes))
    (g : FieldId) (j : ObjectId)
    → get (at (update_value f i b t) g) j
      ≡ (if beq f g then (if beq i j then b else get (at t g) j) else get (at t g) j)
unfolding update_value
get-update_value f i none t g j =
    ground (arith, get-insert t f g (delete i (at t f)), get-delete (at t f) i j)
get-update_value f i (some b) t g j =
    ground (arith, get-insert t f g (insert i b (at t f)), get-insert (at t f) i j b)

get-apply_write :
    (k : ObjectFieldId) (b : Option Bytes) (v : Values) (f : FieldId) (i : ObjectId)
    → snapshot (apply_write k b v) f i ≡ (
        if beq k.field_id f then (if beq k.obj_id i then b else snapshot v f i) else snapshot v f i)
unfolding apply_write snapshot
get-apply_write k b v f i = get-update_value k.field_id k.obj_id b v.object_values f i

snapshot-apply_writes :
    (writes : Writes) (v : Values)
    → snapshot (apply_writes writes v) ≡ overwrite writes (snapshot v)
unfolding apply_writes overwrite
snapshot-apply_writes [] v = refl
snapshot-apply_writes ((k, b) ∷ writes) v =
    snapshot-apply_writes writes (apply_write k b v)
    ∙ ap (overwrite writes) (fun_ext (λ f. fun_ext (λ i. get-apply_write k b v f i)))

abbrev HasObjects : Dict FieldId (Dict ObjectId Bytes) → Values → Type 0
HasObjects t v = v.object_values ≡ t

-- `objectValues` is not among what the loop over `set_adds` changes.
add_sets-Preserves :
    (tid : ℕ) (adds : SetChanges) (b : Broadcast) (t : Dict FieldId (Dict ObjectId Bytes))
    → Preserves (λ s. HasObjects t s.values) (add_sets tid adds b)
unfolding add_sets apply_add
add_sets-Preserves tid [] b t = record { kept = λ s h. h }
add_sets-Preserves tid ((k, ids) ∷ adds) b t =
    let cs : SubscriptionState → List ChannelId =
      λ s. at s.subscribers.index_id_to_subscribed_channels k in
    let add : Exec SubscriptionState (Unit {0}) =
      λ u. ok tt (record u { values = apply_add k ids u.values }) in
    record {
      kept =
          (look-Preserves
            (λ s. increase_channels tid k ids (cs s) b >>= (λ b'. add >> add_sets tid adds b'))
            (λ s.
              bind-Preserves (increase_channels tid k ids (cs s) b)
                (λ b'. add >> add_sets tid adds b')
                (Preserves-KeepsValues _ (increase_channels-KeepsValues tid k ids (cs s) b)
                  (HasObjects t))
                (λ b'.
                  bind-Preserves add (λ _. add_sets tid adds b') (record { kept = λ u h. h })
                    (λ _. add_sets-Preserves tid adds b' t)))).kept;
    }

object_values-apply_removes :
    (removes : SetChanges) (v : Values) → (apply_removes removes v).object_values ≡ v.object_values
unfolding apply_removes apply_remove
object_values-apply_removes [] v = refl
object_values-apply_removes ((k, ids) ∷ removes) v =
    object_values-apply_removes removes (apply_remove k ids v)

object_values-handle_transaction :
    (writes : Writes) (adds removes : SetChanges) (tid : ℕ) (s : SubscriptionState)
    → (state_of (handle_transaction writes adds removes tid s)).values.object_values
      ≡ (apply_writes writes s.values).object_values
unfolding handle_transaction
object_values-handle_transaction writes adds removes tid s =
    let t = (apply_writes writes s.values).object_values in
    let b : Broadcast = record {
      writes = writes;
      set_adds = adds;
      triggered = [];
      increased = [];
    } in
    let oids = oids_mentioned writes adds removes in
    let keeps = bind-Preserves (add_sets tid adds b) _ (add_sets-Preserves tid adds b t) (λ b'.
      Preserves-KeepsValues _
        (finish-KeepsValues tid (prior_values s.values writes) oids writes removes b')
        (HasObjects t)) in
    keeps.kept (record s { values = apply_removes removes (apply_writes writes s.values) })
      (object_values-apply_removes removes (apply_writes writes s.values))

-- `handleTransaction` overwrites the values that the proxy holds with the writes of the transaction, in
-- their order, and changes no other value. This is so if it raises, too.
pub handle_transaction-overwrite :
    (writes : Writes) (adds removes : SetChanges) (tid : ℕ) (s : SubscriptionState)
    → snapshot (state_of (handle_transaction writes adds removes tid s)).values
      ≡ overwrite writes (snapshot s.values)
unfolding snapshot get_object_value
handle_transaction-overwrite writes adds removes tid s =
    ap (λ t f i. get (at t f) i) (object_values-handle_transaction writes adds removes tid s)
    ∙ snapshot-apply_writes writes s.values
