-- ===== src/Server/Commit/Frames.antt =====
-- The stages of a transaction that leave the version numbers alone.
use object_database.Prelude.{
  ℕ, ◌≡◌, refl, ◌∙◌, String, Bool, false, Option, none, some, List, [], ◌∷◌, arith, nat_eq,
}
use object_database.Prelude.Exec.{Outcome, ok, raised, Exec, ◌>>=◌, pure}
use object_database.Collections.Dict.{get}
use object_database.Schema.{ObjectId, FieldId, IndexId, ObjectFieldId, index_eq, object_field_eq}
use object_database.Persistence.Value.{Key}
use object_database.Persistence.{Store, IndexCodec}
use object_database.Server.Messages.{Writes, SetChanges}
use object_database.Server.State.{
  ChannelId, ConnectedChannel, Routing, Server, on_store, on_routing,
}
use object_database.Server.TypeMap.{TypeMap}
use object_database.Server.Commit.{write_store, register_source}
use object_database.Server.Growth.{
  typedef_of, field_keys, all_field_keys, values_of, load_values_for_object, include_indices,
  increase_broadcast_transaction_to_include, include_found, grow_index, grow_subscriptions,
  current_type_map, field_definition_of, last_channel,
}

-- The versions and the type map are those of `s`, also if the action raised.
abbrev pub FramesAt : {A : Type 0} → Server → Outcome Server A → Type 0
FramesAt s (ok a s') = (s'.versions ≡ s.versions) × (s'.type_map ≡ s.type_map)
FramesAt s (raised e s') = (s'.versions ≡ s.versions) × (s'.type_map ≡ s.type_map)

pub record Frames {A : Type 0} (m : Exec Server A) : Type 0 where
  pub holds : (s : Server) → FramesAt s (m s)

pub on_store-Frames : {A : Type 0} (m : Exec Store A) → Frames (on_store m)
unfolding on_store
on_store-Frames m = record { holds = λ s. ground arith }

pub on_routing-Frames : {A : Type 0} (m : Exec Routing A) → Frames (on_routing m)
unfolding on_routing
on_routing-Frames m = record { holds = λ s. ground arith }

after-FramesAt :
    {A : Type 0} (s s' : Server) (o : Outcome Server A)
    → (s'.versions ≡ s.versions) × (s'.type_map ≡ s.type_map)
    → FramesAt s' o
    → FramesAt s o
after-FramesAt s s' (ok a t) e h = (h.0 ∙ e.0, h.1 ∙ e.1)
after-FramesAt s s' (raised x t) e h = (h.0 ∙ e.0, h.1 ∙ e.1)

bind-Frames :
    {A B : Type 0} (m : Exec Server A) (f : A → Exec Server B)
    → Frames m
    → ((a : A) → Frames (f a))
    → Frames (m >>= f)
bind-Frames {A} m f h k = record { holds = λ s. go s (m s) (h.holds s) }
  where
    go :
        (s : Server) (o : Outcome Server A)
        → FramesAt s o
        → FramesAt s (elim o [ ok a s' ↦ f a s' | raised e s' ↦ raised e s' ])
    go s (ok a s') e = after-FramesAt s s' (f a s') e ((k a).holds s')
    go s (raised e s') h = h

types-Frames : Frames current_type_map
unfolding current_type_map
types-Frames = record { holds = λ s. (refl, refl) }

pure-Frames : {A : Type 0} (a : A) → Frames (pure a)
pure-Frames a = record { holds = λ s. (refl, refl) }

definition-Frames : (t : TypeMap) (f : FieldId) → Frames (field_definition_of t f)
unfolding field_definition_of
definition-Frames t f = record { holds = λ s. ground arith }

typedef_of-Frames : (cc : ConnectedChannel) (a b : String) → Frames (typedef_of cc a b)
unfolding typedef_of
typedef_of-Frames cc a b = record { holds = λ s. ground arith }

field_keys-Frames :
    (t : TypeMap) (a b c : String) (x : Bool) (ids : List ObjectId)
    → Frames (field_keys t a b c x ids)
unfolding field_keys
field_keys-Frames t a b c x ids = record { holds = λ s. ground arith }

all_field_keys-Frames :
    (t : TypeMap) (a b : String) (fs : List String) (ids : List ObjectId)
    → Frames (all_field_keys t a b fs ids)
unfolding all_field_keys
all_field_keys-Frames t a b [] ids = pure-Frames {A = List ObjectFieldId} []
all_field_keys-Frames t a b (f ∷ fs) ids =
    bind-Frames _ _ (field_keys-Frames t a b f false ids) (λ ks.
      bind-Frames _ _ (all_field_keys-Frames t a b fs ids)
        (λ rest. pure-Frames {A = List ObjectFieldId} _))

module _ (codec : IndexCodec) where
  pub values_of-Frames : (ks : List ObjectFieldId) → Frames (values_of codec ks)
  unfolding values_of
  values_of-Frames ks = bind-Frames _ _ (on_store-Frames _) (λ vs. pure-Frames _)

  load-Frames :
      (c : ChannelId) (a b : String) (ids : List ObjectId)
      → Frames (load_values_for_object codec c a b ids)
  unfolding load_values_for_object
  load-Frames c a b ids = bind-Frames _ _ (on_routing-Frames _) (λ cc.
      bind-Frames _ _ (typedef_of-Frames cc a b) (λ t. bind-Frames _ _ types-Frames (λ m.
        bind-Frames _ _ (all_field_keys-Frames m a b t.fields ids) (λ ks. values_of-Frames ks))))

  include_indices-Frames :
      (t : TypeMap) (a b : String) (w : Writes) (fs : List String) (ids : List ObjectId)
      (adds : SetChanges)
      → Frames (include_indices codec t a b w fs ids adds)
  unfolding include_indices
  include_indices-Frames t a b w [] ids adds = pure-Frames adds
  include_indices-Frames t a b w (f ∷ fs) ids adds =
      bind-Frames _ _ (field_keys-Frames t a b f false ids)
        (λ ks. include_indices-Frames t a b w fs ids _)

  increase-Frames :
      (c : ChannelId) (k : IndexId) (ids : List ObjectId) (w : Writes) (adds : SetChanges)
      → Frames (increase_broadcast_transaction_to_include codec c k ids w adds)
  unfolding increase_broadcast_transaction_to_include
  increase-Frames c k ids w adds = bind-Frames _ _ types-Frames (λ types.
      bind-Frames _ _ (definition-Frames types k.field_id) (λ d.
        bind-Frames _ _ (on_routing-Frames _) (λ cc.
          bind-Frames _ _ (typedef_of-Frames cc d.schema d.typename) (λ t.
            bind-Frames _ _ (load-Frames c d.schema d.typename ids) (λ vs.
              bind-Frames _ _ (values_of-Frames _) (λ r.
                bind-Frames _ _
                  (include_indices-Frames types d.schema d.typename r t.indices ids adds)
                  (λ adds'. pure-Frames _)))))))

  include_found-Frames :
      (o : Option ChannelId) (k : IndexId) (ids : List ObjectId) (w : Writes) (adds : SetChanges)
      → Frames (include_found codec o k ids w adds)
  unfolding include_found
  include_found-Frames (some c) k (i ∷ is) w adds = increase-Frames c k (i ∷ is) w adds
  include_found-Frames (some c) k [] w adds = pure-Frames _
  include_found-Frames none k (i ∷ is) w adds = pure-Frames _
  include_found-Frames none k [] w adds = pure-Frames _

  grow_index-Frames :
      (tid : ℕ) (k : IndexId) (ids : List ObjectId) (cs lazy : List ChannelId) (w : Writes)
      (adds : SetChanges)
      → Frames (grow_index codec tid k ids cs lazy w adds)
  unfolding grow_index
  grow_index-Frames tid k ids cs lazy w adds =
      bind-Frames {B = List ChannelId × Writes × SetChanges} _ _ types-Frames (λ types.
        bind-Frames {A = List ChannelId × List ObjectId} _ _ (on_routing-Frames _) (λ f.
          bind-Frames {A = Writes × SetChanges} _ _
            (include_found-Frames (last_channel codec cs) k f.1 w adds) (λ g. pure-Frames _)))

  pub grow_subscriptions-Frames :
      (tid : ℕ) (l : List (IndexId × List ObjectId)) (lazy : List ChannelId) (w : Writes)
      (adds : SetChanges)
      → Frames (grow_subscriptions codec tid l lazy w adds)
  unfolding grow_subscriptions
  grow_subscriptions-Frames tid [] lazy w adds = record { holds = λ s. (refl, refl) }
  grow_subscriptions-Frames tid ((k, ids) ∷ l) lazy w adds = record {
    holds = λ s.
        go s (get s.routing.index_to_channel k) (λ x y z. grow_subscriptions-Frames tid l x y z);
  }
    where
      go :
          (s : Server) (o : Option (List ChannelId))
          → ((x : List ChannelId) (y : Writes) (z : SetChanges)
              → Frames (grow_subscriptions codec tid l x y z))
          → FramesAt s (elim o [
            | none ↦ grow_subscriptions codec tid l lazy w adds s
            | some cs ↦ elim (grow_index codec tid k ids cs lazy w adds s) [
              | raised e s' ↦ raised e s'
              | ok found s' ↦ grow_subscriptions codec tid l found.0 found.1 found.2 s'
            ]
          ])
      go s none ih = (ih lazy w adds).holds s
      go s (some cs) ih =
          (bind-Frames _ _ (grow_index-Frames tid k ids cs lazy w adds)
              (λ found. ih found.0 found.1 found.2)).holds
            s

  pub write_store-Frames :
      (w : Writes) (adds removes : SetChanges) → Frames (write_store codec w adds removes)
  unfolding write_store
  write_store-Frames w adds removes =
      bind-Frames {A = List Key × List Key} {B = Unit {0}} _ _ (on_store-Frames _)
        (λ r. bind-Frames {A = List Key × List Key} _ _ (on_store-Frames _) (λ u. pure-Frames _))

  pub register_source-Frames :
      (o : Option ChannelId) (tid : ℕ) (adds : SetChanges)
      → Frames (register_source codec o tid adds)
  unfolding register_source
  register_source-Frames none tid adds = pure-Frames tt
  register_source-Frames (some c) tid adds =
      bind-Frames _ _ types-Frames (λ types. on_routing-Frames _)
