-- ===== src/Server/Commit/Attempt.antt =====
-- One transaction from end to end: what its result says of the version numbers.
use object_database.Prelude.{
  ℕ, ◌+◌, ◌≤◌, ◌≡◌, refl, sym, ap, subst, ◌⊎◌, inl, inr, Bool, true, false, Option, none, some,
  List, [], ◌∷◌, arith, dec_eq, Bool-cases,
}
use object_database.Prelude.Int.{ℤ, pos, leb_ℤ, ltb_ℤ, leb_ℤ_of_not_ltb, leb_ℤ_trans}
use object_database.Prelude.Exec.{
  Error, assertion_error, Outcome, ok, raised, Exec, ◌>>◌, pure, ensure,
}
use object_database.Collections.Set.{member}
use object_database.Persistence.Value.{Key, key_eq}
use object_database.Persistence.{IndexCodec}
use object_database.Server.State.{Versions, Server, on_versions}
use object_database.Server.Versions.{Times, begin_transaction, last_tid, conflicting}
use object_database.Server.Versions.History.{Covers, IsBounded, Evolves-trans}
use object_database.Server.Request.{Request, Result, committed, conflict, nonempty, checked_keys}
use object_database.Server.Commit.{
  register_source, decide, settle, commit_and_broadcast_new_transaction,
}
use object_database.Server.Commit.Frames.{FramesAt, register_source-Frames}
use object_database.Server.Commit.Effect.{writes_of, Grows, Applies, apply-Applies}

-- No key that was tested has been written after `as_of`.
conflicting-none :
    (v : Versions) (as_of : ℤ) (ks : List Key)
    → conflicting v as_of ks ≡ none
    → (k : Key) → member ks k ≡ true
    → leb_ℤ (last_tid v k) as_of ≡ true
unfolding conflicting member
conflicting-none v as_of [] h k m = cc
conflicting-none v as_of (j ∷ ks) h k m = elim (Bool-cases (ltb_ℤ as_of (last_tid v j))) [
  | inl late ↦ absurd (let e : some j ≡ none = rw late at h in cc)
  | inr early ↦ elim (dec_eq j k) [
    | yes e ↦
        subst (λ i. leb_ℤ (last_tid v i) as_of ≡ true) e
          (leb_ℤ_of_not_ltb as_of (last_tid v j) early)
    | no ne ↦ conflicting-none v as_of ks (rw early at h) k (ground arith)
  ]
]

-- What a transaction leaves behind, from a server whose versions were `v`.
pub data Effect (q : Request) (v : Versions) : Outcome Server Result → Type 0 where
  raises : {e : Error} {s : Server} → Grows v s.versions → Effect q v (raised e s)
  conflicts : {k : Key} {t : ℕ} {s : Server} → Grows v s.versions → Effect q v (ok (conflict k t) s)
  commits :
      {t : ℕ} {s : Server}
      → Grows v s.versions
      → t ≡ v.cur_transaction_num + 1
      → t ≤ s.versions.cur_transaction_num
      → ((k : Key) → member (checked_keys q) k ≡ true → leb_ℤ (last_tid v k) q.as_of_version ≡ true)
      → ((k : Key) → member (writes_of q) k ≡ true → Covers s.versions t k)
      → Effect q v (ok (committed t) s)

module _ (codec : IndexCodec) (times : Times) (q : Request) where
  abbrev next : Versions → Versions
  next v = record v { cur_transaction_num = v.cur_transaction_num + 1 }

  Applies-Effect :
      (v : Versions) (o : Outcome Server Result)
      → Grows v (next v)
      → ((k : Key) → member (checked_keys q) k ≡ true → leb_ℤ (last_tid v k) q.as_of_version ≡ true)
      → Applies codec times (v.cur_transaction_num + 1) (writes_of q) (next v) o
      → Effect q v o
  Applies-Effect v (raised e s) g h a = raises (Evolves-trans g.0 a.0, a.1)
  Applies-Effect v (ok (conflict k t) s) g h a = absurd (let e = a.1 in cc)
  Applies-Effect v (ok (committed t) s) g h a =
      let e : t ≡ v.cur_transaction_num + 1 = cc in
      commits (Evolves-trans g.0 a.0.0, a.0.1) e (omega (arith, a.0.0.later)) h
        (λ k m. subst (λ n. Covers s.versions n k) (sym e) (a.2 k m))

  begin_cases :
      (s : Server)
      → (on_versions (begin_transaction q.as_of_version) s
          ≡ ok (s.versions.cur_transaction_num + 1) (record s { versions = next s.versions }))
        ⊎ (on_versions (begin_transaction q.as_of_version) s
            ≡ raised assertion_error (record s { versions = next s.versions }))
  unfolding on_versions begin_transaction
  begin_cases s = go (ltb_ℤ q.as_of_version (pos (s.versions.cur_transaction_num + 1)))
    where
      tid : ℕ
      tid = s.versions.cur_transaction_num + 1

      go :
          (x : Bool)
          → (on_versions (λ v. (ensure x assertion_error >> pure tid) (next v)) s
              ≡ ok tid (record s { versions = next s.versions }))
            ⊎ (on_versions (λ v. (ensure x assertion_error >> pure tid) (next v)) s
                ≡ raised assertion_error (record s { versions = next s.versions }))
      go true = inl refl
      go false = inr refl

  next-Grows : (v : Versions) → IsBounded v → Grows v (next v)
  unfolding last_tid
  next-Grows v b = (
    record { later = omega arith; covers = λ n k c. c },
    λ k. leb_ℤ_trans (last_tid v k) (pos v.cur_transaction_num) _ (b k) (ground arith),
  )

  decide-Effect :
      (v : Versions) (s : Server)
      → IsBounded v
      → s.versions ≡ next v
      → Effect q v (decide codec times (v.cur_transaction_num + 1) q s)
  unfolding decide settle writes_of last_tid
  decide-Effect v s b e = go (conflicting s.versions q.as_of_version (checked_keys q)) refl
    where
      tid : ℕ
      tid = v.cur_transaction_num + 1

      go :
          (o : Option Key)
          → conflicting s.versions q.as_of_version (checked_keys q) ≡ o
          → Effect q v (settle codec times tid q o s)
      go (some k) h = conflicts (subst (Grows v) (sym e) (next-Grows v b))
      go none h =
          Applies-Effect v _ (next-Grows v b)
            (subst
              (λ (w : Versions).
                (k : Key)
                → member (checked_keys q) k ≡ true
                → leb_ℤ (last_tid w k) q.as_of_version ≡ true)
              e (conflicting-none s.versions q.as_of_version (checked_keys q) h))
            (subst
              (λ (w : Versions).
                Applies codec times tid (writes_of q) w (settle codec times tid q none s))
              e
              (apply-Applies codec times tid q.key_value q.prerequisites (nonempty q.set_adds)
                (nonempty q.set_removes) s (ap (λ (w : Versions). w.cur_transaction_num) (sym e))
                (subst IsBounded (sym e) (next-Grows v b).1)))

  -- From a server where no version number exceeds the current one, a transaction keeps that bound
  -- and forgets no write, however it ends. If it
  -- commits, it has the next number, nothing that it read was written after its version, and all
  -- that it wrote is remembered under its number.
  pub attempt-Effect :
      (s : Server)
      → IsBounded s.versions
      → Effect q s.versions (commit_and_broadcast_new_transaction codec times q s)
  unfolding commit_and_broadcast_new_transaction
  attempt-Effect s b = go (on_versions (begin_transaction q.as_of_version) s) (begin_cases s)
    where
      tid : ℕ
      tid = s.versions.cur_transaction_num + 1

      begun : Server
      begun = record s { versions = next s.versions }

      registered :
          (o : Outcome Server (Unit {0}))
          → FramesAt begun o
          → Effect q s.versions
              (elim o [ ok _ s' ↦ decide codec times tid q s' | raised e s' ↦ raised e s' ])
      registered (ok _ s') f = decide-Effect s.versions s' b f.0
      registered (raised e s') f =
          raises (subst (Grows s.versions) (sym f.0) (next-Grows s.versions b))

      source : Exec Server (Unit {0})
      source = register_source codec q.source tid (nonempty q.set_adds)

      go :
          (o : Outcome Server ℕ)
          → (o ≡ ok tid begun) ⊎ (o ≡ raised assertion_error begun)
          → Effect q s.versions (elim o [
            | ok t s' ↦
                (register_source codec q.source t (nonempty q.set_adds) >> decide codec times t q)
                  s'
            | raised e s' ↦ raised e s'
          ])
      go o (inl e) = rw e (
          registered (source begun)
            ((register_source-Frames codec q.source tid (nonempty q.set_adds)).holds begun))
      go o (inr e) = rw e (raises (next-Grows s.versions b))
