-- ===== src/Server/Connections/Departure.antt =====
-- What `dropConnection` (object_database/server.py) leaves of a channel in the registries.
use object_database.Prelude.{
  ◌≡◌, refl, true, false, Option, none, some, List, map, arith, nat_eq, subst,
}
use object_database.Prelude.Exec.{key_error, Outcome, ok, raised, Exec, ◌>>=◌, for_each}
use object_database.Collections.Dict.{get, insert}
use object_database.Collections.Set.{member, discard, member-discard}
use object_database.Schema.{ObjectId, FieldId, IndexId, index_eq}
use object_database.Server.State.{ChannelId, ConnectedChannel, Routing}
use object_database.Server.Routing.{channels_at}
use object_database.Server.Connections.{
  leave_field, leave_index, leave_id, leave_all, without_channel,
}
use object_database.Server.Connections.Registries.{
  Ends, Ends-for_each, Ends-for_each-member, Absent, discard-Absent, discard-keeps, without-Absent,
  without-keeps,
}

module _ (c : ChannelId) where
  abbrev NotInField : FieldId → Routing → Type 0
  NotInField f r = Absent c r.field_id_to_channel f

  abbrev NotInIndex : IndexId → Routing → Type 0
  NotInIndex k r = Absent c r.index_to_channel k

  abbrev NotInId : ObjectId → Routing → Type 0
  NotInId i r = Absent c r.id_to_channel i

  leave_field-NotInField : (f : FieldId) (r : Routing) → Ends (NotInField f) (leave_field c f r)
  unfolding leave_field
  leave_field-NotInField f r =
      elim (get r.field_id_to_channel f)
        as (λ o. Ends (NotInField f) (elim o [
          | none ↦ raised key_error r
          | some cs ↦
              ok tt
                (record r { field_id_to_channel = insert f (discard c cs) r.field_id_to_channel })
        ])) [ none ↦ tt | some cs ↦ discard-Absent c cs r.field_id_to_channel f ]

  leave_field-keeps :
      (f g : FieldId) (r : Routing) → NotInField f r → Ends (NotInField f) (leave_field c g r)
  unfolding leave_field
  leave_field-keeps f g r h =
      elim (get r.field_id_to_channel g)
        as (λ o. Ends (NotInField f) (elim o [
          | none ↦ raised key_error r
          | some cs ↦
              ok tt
                (record r { field_id_to_channel = insert g (discard c cs) r.field_id_to_channel })
        ])) [ none ↦ tt | some cs ↦ discard-keeps c cs r.field_id_to_channel g f h ]

  leave_index-NotInIndex : (k : IndexId) (r : Routing) → Ends (NotInIndex k) (leave_index c k r)
  unfolding leave_index
  leave_index-NotInIndex k r =
      elim (get r.index_to_channel k)
        as (λ o. Ends (NotInIndex k) (elim o [
          | none ↦ raised key_error r
          | some cs ↦
              ok tt (record r { index_to_channel = without_channel c k cs r.index_to_channel })
        ])) [ none ↦ tt | some cs ↦ without-Absent c cs r.index_to_channel k ]

  leave_index-keeps :
      (P : Routing → Type 0) (k : IndexId) (r : Routing)
      → ((cs : List ChannelId)
          → P (record r { index_to_channel = without_channel c k cs r.index_to_channel }))
      → Ends P (leave_index c k r)
  unfolding leave_index
  leave_index-keeps P k r h =
      elim (get r.index_to_channel k)
        as (λ o. Ends P (elim o [
          | none ↦ raised key_error r
          | some cs ↦
              ok tt (record r { index_to_channel = without_channel c k cs r.index_to_channel })
        ])) [ none ↦ tt | some cs ↦ h cs ]

  leave_id-keeps :
      (P : Routing → Type 0) (i : ObjectId) (r : Routing)
      → P r
      → ((cs : List ChannelId)
          → P (record r { id_to_channel = without_channel c i cs r.id_to_channel }))
      → Ends P (leave_id c i r)
  unfolding leave_id
  leave_id-keeps P i r p h =
      elim (get r.id_to_channel i)
        as (λ o. Ends P (elim o [
          | none ↦ ok tt r
          | some cs ↦ ok tt (record r { id_to_channel = without_channel c i cs r.id_to_channel })
        ])) [ none ↦ p | some cs ↦ h cs ]

  leave_id-NotInId : (i : ObjectId) (r : Routing) → Ends (NotInId i) (leave_id c i r)
  unfolding leave_id channels_at member
  leave_id-NotInId i r = go (get r.id_to_channel i) refl
    where
      go :
          (o : Option (List ChannelId))
          → get r.id_to_channel i ≡ o
          → Ends (NotInId i) (elim o as (λ _. Outcome Routing (Unit {0})) [
            | none ↦ ok tt r
            | some cs ↦ ok tt (record r { id_to_channel = without_channel c i cs r.id_to_channel })
          ])
      go none e = ground (arith, e)
      go (some cs) e = without-Absent c cs r.id_to_channel i

  bind-Ends :
      {A B : Type 0} (Q P : Routing → Type 0) (m : Exec Routing A) (f : A → Exec Routing B)
      (r : Routing)
      → Ends Q (m r)
      → ((a : A) (r' : Routing) → Q r' → Ends P (f a r'))
      → Ends P ((m >>= f) r)
  bind-Ends {A} {B} Q P m f r h k = go (m r) h
    where
      go :
          (o : Outcome Routing A)
          → Ends Q o
          → Ends P (elim o [ ok a r' ↦ f a r' | raised e r' ↦ raised e r' ])
      go (ok a r') q = k a r' q
      go (raised e r') q = tt

  module _ (cc : ConnectedChannel) where
    abbrev fields : List FieldId
    fields = map (λ e. e.0) cc.subscribed_fields

    abbrev indices : List IndexId
    indices = map (λ e. e.0) cc.subscribed_index_keys

    abbrev leave_fields : Exec Routing (Unit {0})
    leave_fields = for_each fields (leave_field c)

    abbrev leave_indices : Exec Routing (Unit {0})
    leave_indices = for_each indices (leave_index c)

    abbrev leave_ids : Exec Routing (Unit {0})
    leave_ids = for_each cc.subscribed_ids (leave_id c)

    abbrev disconnect : Exec Routing (Unit {0})
    disconnect r = ok tt (record r { client_channels = discard c r.client_channels })

    abbrev Any : Routing → Type 0
    Any r = Unit {0}

    steps :
        (P Q1 Q2 Q3 : Routing → Type 0) (r : Routing)
        → Ends Q1 (leave_fields r)
        → ((r' : Routing) → Q1 r' → Ends Q2 (leave_indices r'))
        → ((r' : Routing) → Q2 r' → Ends Q3 (leave_ids r'))
        → ((r' : Routing) → Q3 r' → Ends P (disconnect r'))
        → Ends P (leave_all c cc r)
    unfolding leave_all
    steps P Q1 Q2 Q3 r a b d e =
        bind-Ends Q1 P leave_fields (λ _. leave_indices >>= λ _. leave_ids >>= λ _. disconnect) r a
          (λ _ r1 q1.
            bind-Ends Q2 P leave_indices (λ _. leave_ids >>= λ _. disconnect) r1 (b r1 q1)
              (λ _ r2 q2.
                bind-Ends Q3 P leave_ids (λ _. disconnect) r2 (d r2 q2) (λ _ r3 q3. e r3 q3)))

    Ends-Any : {A : Type 0} (o : Outcome Routing A) → Ends Any o
    Ends-Any (ok a r) = tt
    Ends-Any (raised e r) = tt

    leave_all-NotInField :
        (f : FieldId) (r : Routing)
        → member fields f ≡ true
        → Ends (NotInField f) (leave_all c cc r)
    leave_all-NotInField f r m =
        steps (NotInField f) (NotInField f) (NotInField f) (NotInField f) r
          (Ends-for_each-member NotInField (leave_field c) fields r f
            (λ a b s h. leave_field-keeps a b s h) leave_field-NotInField m)
          (λ r1 q.
            Ends-for_each (NotInField f) (leave_index c) indices r1
              (λ k s p. leave_index-keeps (NotInField f) k s (λ cs. p)) q)
          (λ r2 q.
            Ends-for_each (NotInField f) (leave_id c) cc.subscribed_ids r2
              (λ i s p. leave_id-keeps (NotInField f) i s p (λ cs. p)) q)
          (λ r3 q. q)

    leave_all-NotInIndex :
        (k : IndexId) (r : Routing)
        → member indices k ≡ true
        → Ends (NotInIndex k) (leave_all c cc r)
    leave_all-NotInIndex k r m =
        steps (NotInIndex k) Any (NotInIndex k) (NotInIndex k) r (Ends-Any _)
          (λ r1 q.
            Ends-for_each-member NotInIndex (leave_index c) indices r1 k
              (λ a b s h.
                leave_index-keeps (NotInIndex a) b s
                  (λ cs. without-keeps c cs s.index_to_channel b a h))
              leave_index-NotInIndex m)
          (λ r2 q.
            Ends-for_each (NotInIndex k) (leave_id c) cc.subscribed_ids r2
              (λ i s p. leave_id-keeps (NotInIndex k) i s p (λ cs. p)) q)
          (λ r3 q. q)

    leave_all-NotInId :
        (i : ObjectId) (r : Routing)
        → member cc.subscribed_ids i ≡ true
        → Ends (NotInId i) (leave_all c cc r)
    leave_all-NotInId i r m =
        steps (NotInId i) Any Any (NotInId i) r (Ends-Any _) (λ r1 q. Ends-Any _)
          (λ r2 q.
            Ends-for_each-member NotInId (leave_id c) cc.subscribed_ids r2 i
              (λ a b s h.
                leave_id-keeps (NotInId a) b s h (λ cs. without-keeps c cs s.id_to_channel b a h))
              leave_id-NotInId m)
          (λ r3 q. q)

    -- When the loops of `dropConnection` return, the channel is in no registry under anything that it
    -- had subscribed to, neither a field nor an index key nor an object, and it is not connected.
    pub leave_all-Absent :
        (r r' : Routing)
        → leave_all c cc r ≡ ok tt r'
        → ((f : FieldId)
            → member (map (λ e. e.0) cc.subscribed_fields) f ≡ true
            → Absent c r'.field_id_to_channel f)
          × ((k : IndexId)
              → member (map (λ e. e.0) cc.subscribed_index_keys) k ≡ true
              → Absent c r'.index_to_channel k)
          × ((i : ObjectId) → member cc.subscribed_ids i ≡ true → Absent c r'.id_to_channel i)
          × (member r'.client_channels c ≡ false)
    leave_all-Absent r r' e = (
      λ f m. subst (Ends (NotInField f)) e (leave_all-NotInField f r m),
      λ k m. subst (Ends (NotInIndex k)) e (leave_all-NotInIndex k r m),
      λ i m. subst (Ends (NotInId i)) e (leave_all-NotInId i r m),
      subst (Ends (λ s. member s.client_channels c ≡ false)) e (
          steps (λ s. member s.client_channels c ≡ false) Any Any Any r (Ends-Any _)
            (λ r1 q. Ends-Any _) (λ r2 q. Ends-Any _)
            (λ r3 q. ground (arith, member-discard r3.client_channels c c))),
    )
