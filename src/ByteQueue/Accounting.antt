-- ===== src/ByteQueue/Accounting.antt =====
-- What every interleaving of calls keeps true of the queue.
use object_database.Prelude.{
  ℕ, ◌+◌, ◌≤◌, ◌<◌, ◌≡◌, refl, ap, ◌⊎◌, inl, inr, true, false, some, List, [], ◌∷◌, ◌++◌, arith,
}
use object_database.ByteQueue.{
  Queue, init, is_blocked, notify_all, store, put, resume, take_message, account, set_max_bytes,
  give_notice, Step, puts, waits, resumes, takes, accounts, limits, notifies, Reach, start, next,
}

module _ {M : Type 0} (bytecount : M → ℕ) where
  unfoldable pub bytes : List M → ℕ
  bytes [] = 0
  bytes (m ∷ ms) = bytecount m + bytes ms

  bytes-append : (xs ys : List M) → bytes (xs ++ ys) ≡ bytes xs + bytes ys
  unfolding bytes
  bytes-append [] ys = omega arith
  bytes-append (x ∷ xs) ys = omega (arith, bytes-append xs ys)

  bytes-snoc : (xs : List M) (m : M) → bytes (xs ++ m ∷ []) ≡ bytes xs + bytecount m
  unfolding bytes
  bytes-snoc xs m = omega (arith, bytes-append xs (m ∷ []))

  -- `totalBytes` counts the queued messages and those that a `get` is about to subtract. No `put`
  -- sleeps while there is room, unless a call of `setMaxBytes` is about to notify.
  pub record IsSound (q : Queue M) : Type 0 where
    pub counted : q.total_bytes ≡ bytes q.queue + bytes q.taken
    pub awake : (is_blocked q ≡ true) ⊎ ((q.waiting ≡ []) ⊎ (0 < q.notices))

  Step-IsSound : {q q' : Queue M} → Step bytecount q q' → IsSound q → IsSound q'
  unfolding put store is_blocked resume take_message account set_max_bytes give_notice notify_all
      bytes
  Step-IsSound {q} (puts msg block allow q' e) v = ground (arith, bytes-snoc q.queue msg)
  Step-IsSound {q} (waits msg block allow q' e) v = ground arith
  Step-IsSound {q} (resumes before msg after e) v = ground (arith, bytes-snoc q.queue msg)
  Step-IsSound {q} (takes msg q' e) v = ground arith
  Step-IsSound {q} (accounts before msg after e) v =
      ground (arith, bytes-append before (msg ∷ after), bytes-append before after, ap bytes e)
  Step-IsSound (limits n) v = ground arith
  Step-IsSound (notifies h) v = ground arith

  -- In every state that some interleaving of `put`, `get` and `setMaxBytes` reaches, the byte count
  -- is that of the messages it should count, and no writer sleeps beside free room unless a
  -- `setMaxBytes` has still to wake it.
  pub Reach-IsSound : {q : Queue M} → Reach bytecount q → IsSound q
  unfolding init bytes
  Reach-IsSound start = record { counted = refl; awake = inr (inl refl) }
  Reach-IsSound (next r st) = Step-IsSound st (Reach-IsSound r)

  -- A step of a thread that respects a byte limit and whose messages are not larger than `largest`.
  unfoldable pub IsModest : (limit largest : ℕ) {q q' : Queue M} → Step bytecount q q' → Type 0
  IsModest limit largest (puts msg block allow q' e) = (allow ≡ false) × (bytecount msg ≤ largest)
  IsModest limit largest (waits msg block allow q' e) = Unit
  IsModest limit largest (resumes before msg after e) = bytecount msg ≤ largest
  IsModest limit largest (takes msg q' e) = Unit
  IsModest limit largest (accounts before msg after e) = Unit
  IsModest limit largest (limits n) = n ≡ some limit
  IsModest limit largest (notifies h) = Unit

  -- What such steps lead to, from a queue that has the limit and is not fuller than it allows.
  pub data ReachWithin (limit largest : ℕ) : Queue M → Type 0 where
    begin :
        {q : Queue M}
        → Reach bytecount q
        → q.max_bytes ≡ some limit
        → q.total_bytes ≤ limit + largest
        → ReachWithin limit largest q
    step :
        {q q' : Queue M}
        → ReachWithin limit largest q
        → (st : Step bytecount q q') → IsModest limit largest st
        → ReachWithin limit largest q'
