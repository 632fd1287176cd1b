-- ===== src/Server/Transactions/Chunks.antt =====
-- A transaction that comes in several `TransactionData` messages.
use object_database.Prelude.{
  ℕ, ◌≡◌, ◌≢◌, refl, ap, ◌∙◌, Eq, ◌||◌, inl, inr, Bool-cases, Option, none, some, List, [], ◌∷◌,
  if◌then◌else◌, arith, nat_eq, beq, dec_eq, subst,
}
use object_database.Collections.Dict.{Dict, get, insert, delete, update, get-insert, get-delete}
use object_database.Collections.Set.{member, add_all, member-add_all}
use object_database.Schema.{ObjectId, ObjectFieldId, IndexId, object_field_eq, index_eq}
use object_database.Server.Messages.{TransactionData, SetChanges}
use object_database.Server.State.{ConnectedChannel}
use object_database.Server.Transactions.{
  no_data, as_sets, merge_data, handle_transaction_data, extract_transaction_data,
}

-- The messages of a channel, of any of its transactions, in the order in which they arrive.
unfoldable pub receive : List (ℕ × TransactionData) → ConnectedChannel → ConnectedChannel
unfolding handle_transaction_data
receive [] c = c
receive ((guid, msg) ∷ msgs) c = receive msgs (handle_transaction_data guid msg c)

-- What one transaction is made of: its own messages, merged in their order.
unfoldable pub assembled :
    ℕ → List (ℕ × TransactionData) → Option TransactionData → Option TransactionData
unfolding merge_data
assembled guid [] d = d
assembled guid ((g, msg) ∷ msgs) d =
    assembled guid msgs
      (if beq g guid then some (merge_data (elim d [ none ↦ no_data | some old ↦ old ]) msg) else d)

-- An account of the data that does not say how it is kept. In one message a key's last entry counts, an
-- empty set of objects counts for nothing.
unfoldable pub latest : {K V : Type 0} ⦃e : Eq K⦄ → K → Dict K V → Option V → Option V
latest k [] old = old
latest k ((j, v) ∷ entries) old = latest k entries (if beq j k then some v else old)

unfoldable pub latest_set : IndexId → SetChanges → Option (List ObjectId) → Option (List ObjectId)
latest_set k [] old = old
latest_set k ((j, []) ∷ changes) old = latest_set k changes old
latest_set k ((j, i ∷ is) ∷ changes) old =
    latest_set k changes (if beq j k then some (add_all (i ∷ is) []) else old)

-- What a transaction's own messages make of something, in their order.
unfoldable pub fold_own :
    {A : Type 0} → ℕ → (TransactionData → A → A) → List (ℕ × TransactionData) → A → A
fold_own guid f [] a = a
fold_own guid f ((g, msg) ∷ msgs) a = fold_own guid f msgs (if beq g guid then f msg a else a)

-- For each key the last value sent, and each version that was sent, after the data `old`.
unfoldable pub IsMerge : ℕ → List (ℕ × TransactionData) → TransactionData → TransactionData → Type 0
unfolding fold_own latest latest_set member
IsMerge guid msgs old d =
    ((k : ObjectFieldId)
      → get d.writes k ≡ fold_own guid (λ msg. latest k msg.writes) msgs (get old.writes k))
    × ((k : ObjectFieldId)
        → get d.prerequisites k
          ≡ fold_own guid (λ msg. latest k msg.prerequisites) msgs (get old.prerequisites k))
    × ((k : IndexId)
        → get d.set_adds k
          ≡ fold_own guid (λ msg. latest_set k msg.set_adds) msgs (get old.set_adds k))
    × ((k : IndexId)
        → get d.set_removes k
          ≡ fold_own guid (λ msg. latest_set k msg.set_removes) msgs (get old.set_removes k))
    × ((k : ObjectFieldId)
        → member d.key_versions k
          ≡ fold_own guid (λ msg b. member msg.key_versions k || b) msgs
              (member old.key_versions k))
    × ((k : IndexId)
        → member d.index_versions k
          ≡ fold_own guid (λ msg b. member msg.index_versions k || b) msgs
              (member old.index_versions k))

get-update :
    {K V : Type 0} ⦃e : Eq K⦄ (d other : Dict K V) (k : K)
    → get (update d other) k ≡ latest k other (get d k)
unfolding update latest
get-update d [] k = refl
get-update d ((j, v) ∷ other) k =
    get-update (insert j v d) other k ∙ ap (latest k other) (get-insert d j k v)

latest-as_sets :
    (k : IndexId) (changes : SetChanges) (old : Option (List ObjectId))
    → latest k (as_sets changes) old ≡ latest_set k changes old
unfolding latest latest_set as_sets
latest-as_sets k [] old = refl
latest-as_sets k ((j, []) ∷ changes) old = latest-as_sets k changes old
latest-as_sets k ((j, i ∷ is) ∷ changes) old =
    latest-as_sets k changes (if beq j k then some (add_all (i ∷ is) []) else old)

abbrev pub old_data : Option TransactionData → TransactionData
old_data o = elim o [ none ↦ no_data | some d ↦ d ]

-- A part of the data that each chunk changes in a certain way.
fold-assembled :
    {A : Type 0} (part : TransactionData → A) (f : TransactionData → A → A)
    → ((old msg : TransactionData) → part (merge_data old msg) ≡ f msg (part old))
    → (guid : ℕ) (msgs : List (ℕ × TransactionData)) (o : Option TransactionData)
    → part (old_data (assembled guid msgs o)) ≡ fold_own guid f msgs (part (old_data o))
unfolding assembled fold_own
fold-assembled part f h guid [] o = refl
fold-assembled part f h guid ((g, msg) ∷ msgs) o = elim (Bool-cases (beq g guid)) [
  | inl e ↦ rw e (
      fold-assembled part f h guid msgs (some (merge_data (old_data o) msg))
      ∙ ap (fold_own guid f msgs) (h (old_data o) msg))
  | inr e ↦ rw e (fold-assembled part f h guid msgs o)
]

assembled-IsMerge :
    (guid : ℕ) (msgs : List (ℕ × TransactionData)) (o : Option TransactionData)
    → IsMerge guid msgs (old_data o) (old_data (assembled guid msgs o))
unfolding IsMerge merge_data
assembled-IsMerge guid msgs o = (
  (λ k.
      fold-assembled (λ d. get d.writes k) (λ msg. latest k msg.writes)
        (λ old msg. get-update old.writes msg.writes k) guid msgs o),
  (λ k.
      fold-assembled (λ d. get d.prerequisites k) (λ msg. latest k msg.prerequisites)
        (λ old msg. get-update old.prerequisites msg.prerequisites k) guid msgs o),
  (λ k.
      fold-assembled (λ d. get d.set_adds k) (λ msg. latest_set k msg.set_adds)
        (λ old msg.
          get-update old.set_adds (as_sets msg.set_adds) k
          ∙ latest-as_sets k msg.set_adds (get old.set_adds k))
        guid msgs o),
  (λ k.
      fold-assembled (λ d. get d.set_removes k) (λ msg. latest_set k msg.set_removes)
        (λ old msg.
          get-update old.set_removes (as_sets msg.set_removes) k
          ∙ latest-as_sets k msg.set_removes (get old.set_removes k))
        guid msgs o),
  (λ k.
      fold-assembled (λ d. member d.key_versions k) (λ msg b. member msg.key_versions k || b)
        (λ old msg. member-add_all msg.key_versions old.key_versions k) guid msgs o),
  (λ k.
      fold-assembled (λ d. member d.index_versions k) (λ msg b. member msg.index_versions k || b)
        (λ old msg. member-add_all msg.index_versions old.index_versions k) guid msgs o),
)

get-put :
    (d : Dict ℕ TransactionData) (g guid : ℕ) (msg : TransactionData)
    → get (insert g (merge_data (old_data (get d g)) msg) d) guid
      ≡ (if beq g guid then some (merge_data (old_data (get d guid)) msg) else get d guid)
get-put d g guid msg = elim (dec_eq g guid) [
  | yes e ↦
      subst
        (λ i.
          get (insert g (merge_data (old_data (get d g)) msg) d) i
          ≡ (if beq g i then some (merge_data (old_data (get d i)) msg) else get d i))
        e (get-insert d g g (merge_data (old_data (get d g)) msg))
  | no ne ↦ ground (arith, get-insert d g guid (merge_data (old_data (get d g)) msg))
]

get-receive :
    (guid : ℕ) (msgs : List (ℕ × TransactionData)) (c : ConnectedChannel)
    → get (receive msgs c).pending_transactions guid
      ≡ assembled guid msgs (get c.pending_transactions guid)
unfolding receive assembled handle_transaction_data
get-receive guid [] c = refl
get-receive guid ((g, msg) ∷ msgs) c =
    get-receive guid msgs (handle_transaction_data g msg c)
    ∙ ap (assembled guid msgs) (get-put c.pending_transactions g guid msg)

abbrev pub without : ℕ → ConnectedChannel → ConnectedChannel
without guid c = record c { pending_transactions = delete guid c.pending_transactions }

pub extract-get :
    (guid : ℕ) (c : ConnectedChannel) (d : TransactionData)
    → get c.pending_transactions guid ≡ some d
    → extract_transaction_data guid c ≡ some (d, without guid c)
unfolding extract_transaction_data
extract-get guid c d h =
    ap
      (λ o. elim o as (λ _. Option (TransactionData × ConnectedChannel)) [
        | none ↦ none
        | some x ↦ some (x, without guid c)
      ])
      h

-- However the messages of a channel's transactions interleave, the extraction of a transaction that
-- has sent something gives its own data: for each key the last write, prerequisite, and set of added
-- and of removed objects that is not empty among its own messages, and every version to test that one
-- of them names. It is pending no more, and every other transaction keeps just what its own messages
-- amount to.
pub extract-receive :
    (guid : ℕ) (msgs : List (ℕ × TransactionData)) (c : ConnectedChannel) (d : TransactionData)
    → assembled guid msgs (get c.pending_transactions guid) ≡ some d
    → (c' : ConnectedChannel) × (extract_transaction_data guid (receive msgs c) ≡ some (d, c'))
      × IsMerge guid msgs (old_data (get c.pending_transactions guid)) d
      × (get c'.pending_transactions guid ≡ none)
      × ((other : ℕ)
          → guid ≢ other
          → get c'.pending_transactions other
            ≡ assembled other msgs (get c.pending_transactions other))
extract-receive guid msgs c d h = (
  without guid (receive msgs c),
  extract-get guid (receive msgs c) d (get-receive guid msgs c ∙ h),
  subst (IsMerge guid msgs (old_data (get c.pending_transactions guid))) (ap old_data h)
      (assembled-IsMerge guid msgs (get c.pending_transactions guid)),
  ground (arith, get-delete (receive msgs c).pending_transactions guid guid),
  λ other ne. ground (
    arith,
    get-delete (receive msgs c).pending_transactions guid other,
    get-receive other msgs c,
  ),
)
