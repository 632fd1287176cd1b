-- ===== src/Proxy/Registry.antt =====
-- Who is subscribed to what, from both sides (`SubscriptionState` in object_database/proxy_server.py): a field or an
-- index value has the set of its channels, and a channel the sets of its fields and index values.
pub mod Drop
pub mod Stale
use object_database.Prelude.{
  ℕ, String, Bool, true, false, ◌&&◌, Option, none, some, List, [], ◌∷◌, ◌≡◌, refl, sym, ap, ◌∙◌,
  if◌then◌else◌, beq, Eq, nat_eq, list_eq, arith, inl, inr, Option-cases, Bool-cases,
}
use object_database.Prelude.Exec.{
  Exec, Outcome, ok, raised, state_of, for_each, Preserves, bind-Preserves, ◌>>=◌, ◌>>◌,
}
use object_database.Collections.Dict.{
  Dict, get, has, insert, delete, get-insert, get-delete, has-insert, has-get, has-eq-false,
}
use object_database.Collections.Set.{member, add, discard, member-add, member-discard}
use object_database.Schema.{ObjectId, FieldId, IndexId, index_eq}
use object_database.Server.State.{ChannelId}
use object_database.Proxy.State.{
  SubscriptionKey, Subscribers, Pending, SubscriptionState, at, at-insert, add_at,
}
use object_database.Proxy.Departure.{
  SetPop, discard_from, release_from, drop_fields, drop_indices, drop_oids, on_subscribers,
  on_pending, forget_subscriptions, forget_transactions, forget_laziness, drop_pending,
  drop_connection,
}
use object_database.Proxy.Subscriptions.{join_field, join_fields, join_index}

-- The two tables say the same.
unfoldable pub IsMirrored :
    {K : Type 0} ⦃e : Eq K⦄ → Dict K (List ChannelId) → Dict ChannelId (List K) → Type 0
IsMirrored {K} d own = (k : K) (c : ChannelId) → member (at d k) c ≡ member (at own c) k

unfoldable pub IsRegistered : Subscribers → Type 0
unfolding IsMirrored
IsRegistered s =
    IsMirrored s.field_id_to_subscribed_channels s.channel_to_subscribed_field_ids
    × IsMirrored s.index_id_to_subscribed_channels s.channel_to_subscribed_index_ids

pub member-add_at :
    {K A : Type 0} ⦃e : Eq K⦄ ⦃f : Eq A⦄ (d : Dict K (List A)) (k j : K) (a b : A)
    → member (at (add_at k a d) j) b ≡ (if beq k j && beq a b then true else member (at d j) b)
unfolding add_at
member-add_at d k j a b = ground (arith, at-insert d k j (add a (at d k)), member-add (at d k) a b)

add_at-IsMirrored :
    {K : Type 0} ⦃e : Eq K⦄ (d : Dict K (List ChannelId)) (own : Dict ChannelId (List K)) (k : K)
    (c : ChannelId)
    → IsMirrored d own
    → IsMirrored (add_at k c d) (add_at c k own)
unfolding IsMirrored
add_at-IsMirrored d own k c h j x =
    ground (arith, member-add_at d k j c x, member-add_at own c x k j, h j x)

-- A new subscription enters both sides.
pub join_fields-IsRegistered :
    (c : ChannelId) (is_lazy : Bool) (fs : List FieldId) (s : Subscribers)
    → IsRegistered s
    → IsRegistered (join_fields c is_lazy fs s)
unfolding join_fields join_field IsRegistered
join_fields-IsRegistered c is_lazy [] s h = h
join_fields-IsRegistered c is_lazy (f ∷ fs) s h =
    join_fields-IsRegistered c is_lazy fs (join_field c is_lazy f s) (
      add_at-IsMirrored s.field_id_to_subscribed_channels s.channel_to_subscribed_field_ids f c
          (h.0),
      h.1,
    )

pub join_index-IsRegistered :
    (c : ChannelId) (is_lazy : Bool) (k : IndexId) (s : Subscribers)
    → IsRegistered s
    → IsRegistered (join_index c is_lazy k s)
unfolding join_index IsRegistered
join_index-IsRegistered c is_lazy k s h = (
  h.0,
  add_at-IsMirrored s.index_id_to_subscribed_channels s.channel_to_subscribed_index_ids k c (h.1),
)

-- What the loops of `dropConnection` come to where each key is in the table.
unfoldable pub discards :
    {K : Type 0} ⦃e : Eq K⦄ → ChannelId → List K → Dict K (List ChannelId) → Dict K (List ChannelId)
discards c [] d = d
discards c (k ∷ ks) d = discards c ks (insert k (discard c (at d k)) d)

discard_from-has :
    {K : Type 0} ⦃e : Eq K⦄ (c : ChannelId) (k : K) (d : Dict K (List ChannelId))
    → has d k ≡ true
    → discard_from c k d ≡ ok tt (insert k (discard c (at d k)) d)
unfolding discard_from at
discard_from-has c k d here = let found = has-get d k here in rw (discard_from, at, found.1) refl

pub for_each-discards :
    {K : Type 0} ⦃e : Eq K⦄ (c : ChannelId) (ks : List K) (d : Dict K (List ChannelId))
    → ((k : K) → member ks k ≡ true → has d k ≡ true)
    → for_each ks (discard_from c) d ≡ ok tt (discards c ks d)
unfolding for_each discards member
for_each-discards c [] d here = refl
for_each-discards c (k ∷ ks) d here =
    let next = insert k (discard c (at d k)) d in
    let first : has d k ≡ true = here k (ground arith) in
    rw (for_each, discard_from-has c k d first)
      (for_each-discards c ks next
        (λ j m. ground (arith, has-insert d k j (discard c (at d k)), here j)))

member-discards :
    {K : Type 0} ⦃e : Eq K⦄ (c : ChannelId) (ks : List K) (d : Dict K (List ChannelId)) (k : K)
    (x : ChannelId)
    → member (at (discards c ks d) k) x
      ≡ (if member ks k && beq c x then false else member (at d k) x)
unfolding discards member
member-discards c [] d k x = refl
member-discards c (j ∷ ks) d k x = ground (
  arith,
  member-discards c ks (insert j (discard c (at d j)) d) k x,
  at-insert d j k (discard c (at d j)),
  member-discard (at d j) c x,
)

unfoldable pub IsAbsent : {K : Type 0} ⦃e : Eq K⦄ → ChannelId → Dict K (List ChannelId) → Type 0
IsAbsent {K} c d = (k : K) → member (at d k) c ≡ false

at_of_some :
    {K A : Type 0} ⦃e : Eq K⦄ (d : Dict K (List A)) (k : K) (l : List A)
    → get d k ≡ some l
    → at d k ≡ l
unfolding at
at_of_some d k l e = rw (at, e) refl

at_of_none : {K A : Type 0} ⦃e : Eq K⦄ (d : Dict K (List A)) (k : K) → get d k ≡ none → at d k ≡ []
unfolding at
at_of_none d k e = rw (at, e) refl

pub at-delete :
    {K A : Type 0} ⦃e : Eq K⦄ (d : Dict K (List A)) (k j : K)
    → at (delete k d) j ≡ (if beq k j then [] else at d j)
unfolding at
at-delete d k j = ground (arith, get-delete d k j)

member-nil : {A : Type 0} ⦃e : Eq A⦄ (a : A) → member [] a ≡ false
unfolding member
member-nil a = refl

-- One of the loops of `dropConnection`, with the entry of the channel's own table.
pub leave-IsMirrored :
    {K : Type 0} ⦃e : Eq K⦄ (c : ChannelId) (ks : List K) (d : Dict K (List ChannelId))
    (own : Dict ChannelId (List K))
    → get own c ≡ some ks
    → IsMirrored d own
    → IsMirrored (discards c ks d) (delete c own)
unfolding IsMirrored
leave-IsMirrored c ks d own e h k x = ground (
  arith,
  member-discards c ks d k x,
  at-delete own c x,
  at_of_some own c ks e,
  member-nil k,
  h k x,
  h k c,
)

pub leave-IsAbsent :
    {K : Type 0} ⦃e : Eq K⦄ (c : ChannelId) (ks : List K) (d : Dict K (List ChannelId))
    (own : Dict ChannelId (List K))
    → get own c ≡ some ks
    → IsMirrored d own
    → IsAbsent c (discards c ks d)
unfolding IsMirrored IsAbsent
leave-IsAbsent c ks d own e h k =
    ground (arith, member-discards c ks d k c, at_of_some own c ks e, h k c)

pub none-IsAbsent :
    {K : Type 0} ⦃e : Eq K⦄ (c : ChannelId) (d : Dict K (List ChannelId))
    (own : Dict ChannelId (List K))
    → get own c ≡ none
    → IsMirrored d own
    → IsAbsent c d
unfolding IsMirrored IsAbsent
none-IsAbsent c d own e h k = ground (arith, at_of_none own c e, member-nil k, h k c)

-- The keys of a channel are in the table.
pub listed-has :
    {K : Type 0} ⦃e : Eq K⦄ (c : ChannelId) (ks : List K) (d : Dict K (List ChannelId))
    (own : Dict ChannelId (List K))
    → get own c ≡ some ks
    → IsMirrored d own
    → (k : K) → member ks k ≡ true
    → has d k ≡ true
unfolding IsMirrored
listed-has c ks d own e h k m = elim (Bool-cases (has d k)) [
  | inl p ↦ p
  | inr p ↦
      ground
        (arith, at_of_none d k (has-eq-false d k p), at_of_some own c ks e, member-nil c, h k c)
]
