-- ===== src/Persistence/Values.antt =====
-- Reading back what was written.
use object_database.Prelude.{
  ◌≡◌, ◌≢◌, refl, Bool, true, false, Option, none, some, if◌then◌else◌, arith, nat_eq,
}
use object_database.Prelude.Exec.{Outcome, ok}
use object_database.Collections.Dict.{get as find, insert, delete as erase, get-insert, get-delete}
use object_database.Schema.{Bytes}
use object_database.Persistence.Value.{Key, text, object_field, index, field, key_eq, bytes}
use object_database.Persistence.{IndexCodec, Store, decode, get, encode, assign, set}

-- The keys of plain values.
unfoldable pub is_value_key : Key → Bool
is_value_key (text t) = true
is_value_key (object_field k) = true
is_value_key (index k) = false
is_value_key (field f) = false

module _ (codec : IndexCodec) where
  abbrev Erased : Key → Store → Type 0
  Erased k s =
      (s' : Store) × (◌≡◌ {A = Outcome Store (Unit {0})} (ok tt (erase k s)) (ok tt s'))
      × (get codec k s' ≡ ok none s')
      × ((j : Key) → k ≢ j → find s' j ≡ find s j)

  erased : (k : Key) (s : Store) → Erased k s
  unfolding get decode
  erased k s =
      (erase k s, refl, ground (arith, get-delete s k k), λ j ne. ground (arith, get-delete s k j))

  -- Under a text key or an object field, the value that was written last is read back, `None` and
  -- serialized index values included, and no other key changes.
  pub set-get :
      (k : Key) (v : Option Bytes) (s : Store)
      → is_value_key k ≡ true
      → (s' : Store) × (set codec k v s ≡ ok tt s')
        × (get codec k s' ≡ ok v s')
        × ((j : Key) → k ≢ j → find s' j ≡ find s j)
  unfolding set get encode assign decode is_value_key
  set-get (text t) none s p = erased (text t) s
  set-get (text t) (some b) s p = (
    insert (text t) (bytes b) s,
    refl,
    ground (arith, get-insert s (text t) (text t) (bytes b)),
    λ j ne. ground (arith, get-insert s (text t) j (bytes b)),
  )
  set-get (object_field k) none s p = erased (object_field k) s
  set-get (object_field k) (some b) s p =
      let stored = if k.is_index_value then codec.wrap b else b in
      (
        insert (object_field k) (bytes stored) s,
        refl,
        ground (
          arith,
          get-insert s (object_field k) (object_field k) (bytes stored),
          codec.unwrap-wrap b,
        ),
        λ j ne. ground (arith, get-insert s (object_field k) j (bytes stored)),
      )
  set-get (index k) v s p = cc
  set-get (field k) v s p = cc
