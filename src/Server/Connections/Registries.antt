-- ===== src/Server/Connections/Registries.antt =====
-- Registries of channels in object_database/server.py, and the loops of `dropConnection` over them.
use object_database.Prelude.{◌≡◌, true, false, List, [], ◌∷◌, arith, Eq, nat_eq, dec_eq, subst}
use object_database.Prelude.Exec.{Outcome, ok, raised, Exec, for_each}
use object_database.Collections.Dict.{Dict, get, insert, delete, get-insert, get-delete}
use object_database.Collections.Set.{member, discard, member-discard}
use object_database.Schema.{index_eq}
use object_database.Server.State.{ChannelId}
use object_database.Server.Routing.{channels_at}
use object_database.Server.Connections.{without_channel}

-- The state in which an action ends, if it does not raise.
abbrev pub Ends : {S A : Type 0} → (S → Type 0) → Outcome S A → Type 0
Ends P (ok a s) = P s
Ends P (raised e s) = Unit {0}

pub Ends-for_each :
    {S A : Type 0} (P : S → Type 0) (f : A → Exec S (Unit {0})) (l : List A) (s : S)
    → ((a : A) (s : S) → P s → Ends P (f a s))
    → P s
    → Ends P (for_each l f s)
unfolding for_each
Ends-for_each P f [] s keeps p = p
Ends-for_each {S} {A} P f (a ∷ l) s keeps p =
    go (f a s) (keeps a s p) (λ s' q. Ends-for_each P f l s' keeps q)
  where
    go :
        (o : Outcome S (Unit {0}))
        → Ends P o
        → ((s' : S) → P s' → Ends P (for_each l f s'))
        → Ends P (elim o [ ok _ s' ↦ for_each l f s' | raised e s' ↦ raised e s' ])
    go (ok _ s') q k = k s' q
    go (raised e s') q k = tt

-- What the loop does for an element holds at its end, if the other elements leave it alone.
pub Ends-for_each-member :
    {S A : Type 0} ⦃e : Eq A⦄ (P : A → S → Type 0) (f : A → Exec S (Unit {0})) (l : List A) (s : S)
    (a : A)
    → ((a b : A) (s : S) → P a s → Ends (P a) (f b s))
    → ((a : A) (s : S) → Ends (P a) (f a s))
    → member l a ≡ true
    → Ends (P a) (for_each l f s)
unfolding for_each member
Ends-for_each-member P f [] s a keeps does m = absurd (let x : false ≡ true = m in cc)
Ends-for_each-member {S} {A} P f (b ∷ l) s a keeps does m = elim (dec_eq b a) [
  | yes same ↦
      go (f b s) (subst (λ x. Ends (P x) (f b s)) same (does b s))
        (λ s' p. Ends-for_each (P a) f l s' (λ c t q. keeps a c t q) p)
  | no ne ↦
      go_other (f b s) (λ s'. Ends-for_each-member P f l s' a keeps does (ground (arith, m, ne)))
]
  where
    go :
        (o : Outcome S (Unit {0}))
        → Ends (P a) o
        → ((s' : S) → P a s' → Ends (P a) (for_each l f s'))
        → Ends (P a) (elim o [ ok _ s' ↦ for_each l f s' | raised e s' ↦ raised e s' ])
    go (ok _ s') q k = k s' q
    go (raised e s') q k = tt

    go_other :
        (o : Outcome S (Unit {0}))
        → ((s' : S) → Ends (P a) (for_each l f s'))
        → Ends (P a) (elim o [ ok _ s' ↦ for_each l f s' | raised e s' ↦ raised e s' ])
    go_other (ok _ s') k = k s'
    go_other (raised e s') k = tt

-- The channel is not among those registered under the key.
abbrev pub Absent : {K : Type 0} → ⦃e : Eq K⦄ → ChannelId → Dict K (List ChannelId) → K → Type 0
Absent c d k = member (channels_at (get d k)) c ≡ false

module _ {K : Type 0} ⦃e : Eq K⦄ (c : ChannelId) (cs : List ChannelId)
    (d : Dict K (List ChannelId)) where
  pub discard-Absent : (k : K) → Absent c (insert k (discard c cs) d) k
  unfolding channels_at
  discard-Absent k = ground (arith, get-insert d k k (discard c cs), member-discard cs c c)

  pub discard-keeps : (k j : K) → Absent c d j → Absent c (insert k (discard c cs) d) j
  unfolding channels_at
  discard-keeps k j h = ground (arith, h, get-insert d k j (discard c cs), member-discard cs c c)

  without : List ChannelId → K → Dict K (List ChannelId)
  without ds k = elim ds [ [] ↦ delete k d | i ∷ is ↦ insert k (i ∷ is) d ]

  without_at : (ds : List ChannelId) (k : K) → member ds c ≡ false → Absent c (without ds k) k
  unfolding without channels_at member
  without_at [] k h = ground (arith, get-delete d k k)
  without_at (i ∷ is) k h = ground (arith, h, get-insert d k k (i ∷ is))

  without_elsewhere :
      (ds : List ChannelId) (k j : K)
      → member ds c ≡ false
      → Absent c d j
      → Absent c (without ds k) j
  unfolding without channels_at member
  without_elsewhere [] k j h a = ground (arith, a, get-delete d k j)
  without_elsewhere (i ∷ is) k j h a = ground (arith, h, a, get-insert d k j (i ∷ is))

  gone : member (discard c cs) c ≡ false
  gone = ground (arith, member-discard cs c c)

  pub without-Absent : (k : K) → Absent c (without_channel c k cs d) k
  unfolding without_channel without
  without-Absent k = without_at (discard c cs) k gone

  pub without-keeps : (k j : K) → Absent c d j → Absent c (without_channel c k cs d) j
  unfolding without_channel without
  without-keeps k j h = without_elsewhere (discard c cs) k j gone h
