-- ===== src/Server/Commit/Effect.antt =====
-- What a transaction does to the version numbers, whether it commits, conflicts or raises.
use object_database.Prelude.{
  ℕ, ◌≡◌, refl, sym, ap, ◌∙◌, subst, Bool, true, false, List, [], if◌then◌else◌,
}
use object_database.Prelude.Exec.{
  transaction_error, Outcome, ok, raised, Exec, ◌>>=◌, ◌>>◌, pure, raise, state_of,
}
use object_database.Collections.Set.{member}
use object_database.Persistence.Value.{Key, key_eq}
use object_database.Persistence.{IndexCodec}
use object_database.Server.Messages.{Writes, SetChanges}
use object_database.Server.State.{ChannelId, Versions, Server, on_versions}
use object_database.Server.Versions.{Times, stamp, garbage_collect, is_gone}
use object_database.Server.Versions.History.{
  Covers, Evolves, IsBounded, Evolves-refl, Evolves-trans, stamp-Evolves,
}
use object_database.Server.Versions.Collection.{garbage_collect-Keeps}
use object_database.Server.Request.{
  Request, Result, committed, nonempty, keys, written_keys, written_fields, mentioned,
  has_bad_value,
}
use object_database.Server.Routing.{broadcast}
use object_database.Server.Commit.{publish, stamp_and_write, apply_transaction}
use object_database.Server.Growth.{values_of}
use object_database.Server.Commit.Frames.{
  FramesAt, Frames, on_routing-Frames, values_of-Frames, grow_subscriptions-Frames,
  write_store-Frames,
}

-- The keys that a request writes, if it commits.
unfoldable pub writes_of : Request → List Key
writes_of q = written_keys q.key_value (nonempty q.set_adds) (nonempty q.set_removes)

abbrev pub Grows : Versions → Versions → Type 0
Grows v w = Evolves v w × IsBounded w

-- After the version numbers of transaction `tid` are set to `v`: what follows keeps them, and ends
-- with a commit or an exception.
abbrev Publishes : ℕ → Versions → Outcome Server Result → Type 0
Publishes tid v (ok r s) = Grows v s.versions × (r ≡ committed tid)
Publishes tid v (raised e s) = Grows v s.versions

frame_then :
    {A : Type 0} (tid : ℕ) (m : Exec Server A) (f : A → Exec Server Result) (s : Server)
    → IsBounded s.versions
    → Frames m
    → ((a : A) (s' : Server) → IsBounded s'.versions → Publishes tid s'.versions (f a s'))
    → Publishes tid s.versions ((m >>= f) s)
frame_then {A} tid m f s b h k = go (m s) (h.holds s)
  where
    go :
        (o : Outcome Server A)
        → FramesAt s o
        → Publishes tid s.versions (elim o [ ok a s' ↦ f a s' | raised e s' ↦ raised e s' ])
    go (ok a s') e =
        subst (λ v. Publishes tid v (f a s')) e.0 (k a s' (subst IsBounded (sym e.0) b))
    go (raised x s') e = subst (λ v. Grows s.versions v) (sym e.0) (Evolves-refl s.versions, b)

module _ (codec : IndexCodec) (times : Times) (tid : ℕ) where
  collect-Publishes :
      (s : Server)
      → IsBounded s.versions
      → Publishes tid s.versions (
          (on_versions (garbage_collect (is_gone codec s.kvstore) times) >> pure (committed tid)) s)
  unfolding on_versions
  collect-Publishes s b =
      go (garbage_collect (is_gone codec s.kvstore) times s.versions)
        (garbage_collect-Keeps (is_gone codec s.kvstore) times s.versions)
    where
      go :
          (o : Outcome Versions (Unit {0}))
          → Evolves s.versions (state_of o) × (IsBounded s.versions → IsBounded (state_of o))
          → Publishes tid s.versions (
              ((λ s'. elim o [
                | ok a v ↦ ok a (record s' { versions = v })
                | raised e v ↦ raised e (record s' { versions = v })
              ])
                  >> pure (committed tid))
                s)
      go (ok a v) h = ((h.0, h.1 b), refl)
      go (raised e v) h = (h.0, h.1 b)

  publish-Publishes :
      (w : Writes) (adds removes : SetChanges) (priors : Writes) (s : Server)
      → IsBounded s.versions
      → Publishes tid s.versions (publish codec times tid w adds removes priors s)
  unfolding publish
  publish-Publishes w adds removes priors s b =
      frame_then tid _ _ s b (grow_subscriptions-Frames codec tid adds [] w adds) (λ g s' b'.
        frame_then {A = List ChannelId} tid _ _ s' b'
          (on_routing-Frames (
            broadcast (written_fields w adds removes) (mentioned w adds removes) g.0 priors
              (record {
                writes = g.1;
                set_adds = g.2;
                set_removes = removes;
                transaction_id = tid;
              })))
          (λ t s'' b''. collect-Publishes s'' b''))

  -- From the version test on. A commit has set the number of every key that it writes.
  abbrev pub Applies : List Key → Versions → Outcome Server Result → Type 0
  Applies ws v (raised e s) = Grows v s.versions
  Applies ws v (ok r s) =
      Grows v s.versions
      × (r ≡ committed tid)
      × ((k : Key) → member ws k ≡ true → Covers s.versions tid k)

  Publishes-Applies :
      (ws : List Key) (u v : Versions) (o : Outcome Server Result)
      → Grows u v
      → ((k : Key) → member ws k ≡ true → Covers v tid k)
      → Publishes tid v o
      → Applies ws u o
  Publishes-Applies ws u v (raised e s) g h p = (Evolves-trans g.0 p.0, p.1)
  Publishes-Applies ws u v (ok r s) g h p =
      ((Evolves-trans g.0 p.0.0, p.0.1), p.1, λ k m. p.0.0.covers tid k (h k m))

  stamp_and_write-Applies :
      (w : Writes) (adds removes : SetChanges) (priors : Writes) (s : Server)
      → tid ≡ s.versions.cur_transaction_num
      → IsBounded s.versions
      → Applies
          (written_keys w adds removes)
          s.versions
          (stamp_and_write codec times tid w adds removes priors s)
  unfolding stamp_and_write on_versions
  stamp_and_write-Applies w adds removes priors s e b =
      let ws = written_keys w adds removes in
      let v = stamp tid times.committed ws s.versions in
      let (grow, bound, same, covered) = stamp-Evolves tid times.committed ws s.versions e b in
      let s' : Server = record s { versions = v } in
      Publishes-Applies ws s.versions v _ (grow, bound) covered
        (frame_then tid _ _ s' bound (write_store-Frames codec w adds removes)
          (λ u s'' b''. publish-Publishes w adds removes priors s'' b''))

  pub apply-Applies :
      (w pre : Writes) (adds removes : SetChanges) (s : Server)
      → tid ≡ s.versions.cur_transaction_num
      → IsBounded s.versions
      → Applies
          (written_keys w adds removes)
          s.versions
          (apply_transaction codec times tid w pre adds removes s)
  unfolding apply_transaction
  apply-Applies w pre adds removes s e b =
      go (values_of codec (keys w) s) ((values_of-Frames codec (keys w)).holds s)
    where
      ws : List Key
      ws = written_keys w adds removes

      test :
          (x : Bool) (priors : Writes) (s' : Server)
          → s'.versions ≡ s.versions
          → Applies ws s.versions (
              (if x
                  then raise transaction_error
                  else stamp_and_write codec times tid w adds removes priors)
                s')
      test true priors s' e' = subst (λ v. Grows s.versions v) (sym e') (Evolves-refl s.versions, b)
      test false priors s' e' =
          subst (λ v. Applies ws v (stamp_and_write codec times tid w adds removes priors s')) e'
            (stamp_and_write-Applies w adds removes priors s'
              (e ∙ ap (λ (v : Versions). v.cur_transaction_num) (sym e'))
              (subst IsBounded (sym e') b))

      go :
          (o : Outcome Server Writes)
          → FramesAt s o
          → Applies ws s.versions (elim o [
            | ok priors s' ↦
                (if has_bad_value priors pre
                    then raise transaction_error
                    else stamp_and_write codec times tid w adds removes priors)
                  s'
            | raised x s' ↦ raised x s'
          ])
      go (ok priors s') f = test (has_bad_value priors pre) priors s' f.0
      go (raised x s') f = subst (λ v. Grows s.versions v) (sym f.0) (Evolves-refl s.versions, b)
