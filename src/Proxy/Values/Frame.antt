-- ===== src/Proxy/Values/Frame.antt =====
-- The steps of `handleTransaction` (object_database/proxy_server.py) that leave the proxy's copy of the
-- objects alone: those that only look up, grow subscriptions or send.
use object_database.Prelude.{
  ℕ, String, Option, none, some, List, [], ◌∷◌, ◌≡◌, refl, sym, subst, ◌∙◌, nat_eq, string_eq,
  list_eq, arith,
}
use object_database.Prelude.Exec.{
  Exec, ok, raise, key_error, pure, Preserves, bind-Preserves, ◌>>=◌,
}
use object_database.Collections.Dict.{Dict, get}
use object_database.Schema.{ObjectId, FieldId, IndexId, index_eq}
use object_database.Server.Messages.{Writes, SetChanges, ServerToClient}
use object_database.Server.State.{ChannelId}
use object_database.Proxy.State.{Values, SubscriptionState, send}
use object_database.Proxy.Subscriptions.{fields_of_type}
use object_database.Proxy.Transactions.{
  Broadcast, new_oids, trigger_index, def_of_field, send_increase, increase_new, increase_channel,
  increase_channels, resolve, defined_type, increase_broadcast, increase_broadcasts,
}
use object_database.Proxy.Broadcast.{send_all, deliver, broadcast}

abbrev pub HasValues : Values → SubscriptionState → Type 0
HasValues v s = s.values ≡ v

abbrev pub KeepsValues : {A : Type 0} → Exec SubscriptionState A → Type 0
KeepsValues m = (v : Values) → Preserves (HasValues v) m

-- What holds of the values goes on to hold.
pub Preserves-KeepsValues :
    {A : Type 0} (m : Exec SubscriptionState A)
    → KeepsValues m
    → (P : Values → Type 0) → Preserves (λ s. P s.values) m
Preserves-KeepsValues m h P = record { kept = λ s p. subst P (sym ((h s.values).kept s refl)) p }

def_of_field-KeepsValues : (f : FieldId) → KeepsValues (def_of_field f)
unfolding def_of_field
def_of_field-KeepsValues f t = record { kept = λ s h. ground arith }

increase_new-KeepsValues :
    (tid : ℕ) (k : IndexId) (ids : List ObjectId) (c : ChannelId) (b : Broadcast)
    → KeepsValues (increase_new tid k ids c b)
unfolding increase_new send_increase def_of_field
increase_new-KeepsValues tid k [] c b t = record { kept = λ s h. h }
increase_new-KeepsValues tid k (i ∷ ids) c b t = record { kept = λ s h. ground arith }

pub increase_channels-KeepsValues :
    (tid : ℕ) (k : IndexId) (ids : List ObjectId) (cs : List ChannelId) (b : Broadcast)
    → KeepsValues (increase_channels tid k ids cs b)
unfolding increase_channels increase_channel
increase_channels-KeepsValues tid k ids [] b t = record { kept = λ s h. h }
increase_channels-KeepsValues tid k ids (c ∷ cs) b t =
    bind-Preserves (increase_channel tid k ids c b) (increase_channels tid k ids cs)
      (record {
        kept = λ s h.
            (increase_new-KeepsValues tid k (new_oids s.subscribers c ids) c (trigger_index s k c b)
                t).kept
              s h;
      })
      (λ b'. increase_channels-KeepsValues tid k ids cs b' t)

name_id-KeepsValues :
    (o : Option FieldId)
    → KeepsValues {A = FieldId} (elim o [ none ↦ raise key_error | some f ↦ pure f ])
name_id-KeepsValues none t = record { kept = λ s h. h }
name_id-KeepsValues (some f) t = record { kept = λ s h. h }

resolve-KeepsValues :
    (fields : Dict String FieldId) (names : List String) → KeepsValues (resolve fields names)
unfolding resolve
resolve-KeepsValues fields [] t = record { kept = λ s h. h }
resolve-KeepsValues fields (name ∷ names) t =
    bind-Preserves (elim (get fields name) [ none ↦ raise key_error | some f ↦ pure f ]) _
      (name_id-KeepsValues (get fields name) t)
      (λ f.
        bind-Preserves (resolve fields names) (λ fs. pure (f ∷ fs))
          (resolve-KeepsValues fields names t) (λ fs. record { kept = λ s h. h }))

defined_type-KeepsValues : (a b : String) → KeepsValues (defined_type a b)
unfolding defined_type
defined_type-KeepsValues a b t = record { kept = λ s h. ground arith }

fields_of_type-KeepsValues : (a b : String) → KeepsValues (fields_of_type a b)
unfolding fields_of_type
fields_of_type-KeepsValues a b t = record { kept = λ s h. ground arith }

increase_broadcast-KeepsValues :
    (k : IndexId) (ids : List ObjectId) (b : Broadcast) → KeepsValues (increase_broadcast k ids b)
unfolding increase_broadcast
increase_broadcast-KeepsValues k ids b t =
    bind-Preserves (def_of_field k.field_id) _ (def_of_field-KeepsValues k.field_id t) (λ d.
      bind-Preserves (fields_of_type d.schema d.typename) _
        (fields_of_type-KeepsValues d.schema d.typename t)
        (λ names.
          bind-Preserves (defined_type d.schema d.typename) _
            (defined_type-KeepsValues d.schema d.typename t)
            (λ ty.
              bind-Preserves (resolve names ty.fields) _ (resolve-KeepsValues names ty.fields t)
                (λ fields.
                  bind-Preserves (resolve names ty.indices) _
                    (resolve-KeepsValues names ty.indices t)
                    (λ indices. record { kept = λ s h. h })))))

pub increase_broadcasts-KeepsValues :
    (increased : SetChanges) (b : Broadcast) → KeepsValues (increase_broadcasts increased b)
unfolding increase_broadcasts
increase_broadcasts-KeepsValues [] b t = record { kept = λ s h. h }
increase_broadcasts-KeepsValues ((k, ids) ∷ increased) b t =
    bind-Preserves (increase_broadcast k ids b) (increase_broadcasts increased)
      (increase_broadcast-KeepsValues k ids b t)
      (λ b'. increase_broadcasts-KeepsValues increased b' t)

values-send_all :
    (msg : ServerToClient) (cs : List ChannelId) (s : SubscriptionState)
    → (send_all msg cs s).values ≡ s.values
unfolding send_all
values-send_all msg [] s = refl
values-send_all msg (c ∷ cs) s = values-send_all msg cs (send c msg s)

pub values-broadcast :
    (tid : ℕ) (priors : Writes) (oids : List ObjectId) (writes : Writes) (removes : SetChanges)
    (b : Broadcast) (s : SubscriptionState)
    → (broadcast tid priors oids writes removes b s).values ≡ s.values
unfolding broadcast deliver
values-broadcast tid priors oids writes removes b s = rw (values-send_all, values-send_all)

-- What `handleTransaction` does after its loops.
pub finish-KeepsValues :
    (tid : ℕ) (priors : Writes) (oids : List ObjectId) (writes : Writes) (removes : SetChanges)
    (b : Broadcast)
    → KeepsValues (
        increase_broadcasts b.increased b
        >>= (λ b' t. ok tt (broadcast tid priors oids writes removes b' t)))
finish-KeepsValues tid priors oids writes removes b v =
    bind-Preserves (increase_broadcasts b.increased b) _
      (increase_broadcasts-KeepsValues b.increased b v)
      (λ b'. record { kept = λ u h. values-broadcast tid priors oids writes removes b' u ∙ h })
