-- ===== src/MessageBus/Buffer/Robust.antt =====
-- `MessageBuffer.write` on bytes that no `encode` produced: it returns or raises, whatever it reads.
use object_database.Prelude.{
  ℕ, zero, suc, ◌+◌, ◌≡◌, ◌≢◌, ◌≤◌, ◌<◌, refl, ◌⊎◌, inl, inr, Bool, true, false, Option, none, some,
  List, [], ◌∷◌, ◌++◌, arith, length, drop, if◌then◌else◌, leb, Bool-cases, length-drop, leb→le,
}
use object_database.Prelude.Int.{ℤ, pos, ◌+ℤ◌, leb_ℤ}
use object_database.MessageBus.Struct.{Bytes, Struct}
use object_database.MessageBus.Buffer.Rounds.{rounds}
use object_database.MessageBus.Buffer.{
  MessageBuffer, Round, message, returns, raises, Written, messages, raised, diverges, check_size,
  take_by, take_message, length_read, read_length, round_from, round, loop, write, slice_bound,
}

-- A buffer with the extra check that has read no length.
abbrev pub between_messages : ℕ → Bytes → MessageBuffer
between_messages count b = record {
  buffer = b;
  messages_ever = count;
  extra_message_size_check = true;
  cur_message_len = none;
}

-- A buffer with the extra check, between or in a message.
abbrev pub waiting_for : ℕ → Bytes → Option ℤ → MessageBuffer
waiting_for count b o = record (between_messages count b) { cur_message_len = o }

module _ (struct : Struct) where
  -- What a completed message leaves behind: no more bytes than before, and no length.
  abbrev Shrinks : ℕ → Round → Type 0
  Shrinks n (message m s) = (length s.buffer ≤ n) × (s.cur_message_len ≡ none)
  Shrinks n (returns s) = Unit {0}
  Shrinks n (raises e s) = Unit {0}

  check_size-Shrinks :
      (s : MessageBuffer) (n : ℤ) (b : Bytes) → Shrinks (length s.buffer) (check_size struct s n b)
  unfolding check_size
  check_size-Shrinks s n b =
      ground (arith, length-drop (slice_bound (length s.buffer) (n +ℤ pos 4)) s.buffer)

  Shrinks-if :
      (b : Bool) (n : ℕ) (q : Round) (s : MessageBuffer)
      → Shrinks n q
      → Shrinks n (if b then q else returns s)
  Shrinks-if true n q s h = h
  Shrinks-if false n q s h = tt

  take_by-Shrinks :
      (x : Bool) (s : MessageBuffer) (n : ℤ) → Shrinks (length s.buffer) (take_by struct x s n)
  unfolding take_by
  take_by-Shrinks true s n =
      Shrinks-if (leb_ℤ (n +ℤ pos 4) (pos (length s.buffer))) _ _ s (check_size-Shrinks s n _)
  take_by-Shrinks false s n = ground (arith, length-drop (slice_bound (length s.buffer) n) s.buffer)

  abbrev Smaller : ℕ → Round → Type 0
  Smaller k (message m s) = rounds s < k
  Smaller k (returns s) = Unit {0}
  Smaller k (raises e s) = Unit {0}

  Shrinks-Smaller : (n k : ℕ) (q : Round) → n + 1 < k → Shrinks n q → Smaller k q
  Shrinks-Smaller n k (message m s) less h = ground arith
  Shrinks-Smaller n k (returns s) less h = tt
  Shrinks-Smaller n k (raises e s) less h = tt

  read-Smaller :
      (o : Option ℤ) (s : MessageBuffer) (k : ℕ)
      → 4 ≤ length s.buffer
      → length s.buffer < k
      → Smaller k (length_read struct o s)
  unfolding length_read take_message
  read-Smaller none s k enough less = tt
  read-Smaller (some n) s k enough less =
      Shrinks-Smaller (length (drop 4 s.buffer)) k _ (omega (arith, length-drop 4 s.buffer))
        (take_by-Shrinks _ _ n)

  round_from-Smaller :
      (o : Option ℤ) (s : MessageBuffer)
      → s.cur_message_len ≡ o
      → Smaller (rounds s) (round_from struct o s)
  unfolding round_from take_message read_length
  round_from-Smaller (some n) s e =
      Shrinks-Smaller (length s.buffer) (rounds s) _ (ground arith) (take_by-Shrinks _ s n)
  round_from-Smaller none s e = elim (Bool-cases (leb 4 (length s.buffer))) [
    | inl h ↦ rw h (read-Smaller _ s (rounds s) (leb→le _ _ h) (ground arith))
    | inr h ↦ rw h tt
  ]

  loop-ne-diverges :
      (fuel : ℕ) (got : List Bytes) (s : MessageBuffer)
      → rounds s ≤ fuel
      → loop struct fuel got s ≢ diverges
  unfolding loop round
  loop-ne-diverges zero got s h = absurd (ground arith)
  loop-ne-diverges (suc fuel) got s h =
      go (round struct s) (round_from-Smaller s.cur_message_len s refl)
        (λ g s'. loop-ne-diverges fuel g s')
    where
      go :
          (q : Round)
          → Smaller (rounds s) q
          → ((g : List Bytes) (s' : MessageBuffer)
              → rounds s' ≤ fuel
              → loop struct fuel g s' ≢ diverges)
          → ◌≢◌ {A = Written}
              (elim q [
                | message m s' ↦ loop struct fuel (got ++ m ∷ []) s'
                | returns s' ↦ messages got s'
                | raises e s' ↦ raised e s'
              ])
              diverges
      go (message m s') less ih = ih _ s' (omega arith)
      go (returns s') less ih = λ e. cc
      go (raises e s') less ih = λ e'. cc

  -- A call of `write` comes to an end on any bytes, whatever lengths they spell, negative ones
  -- included: the fuel that the model gives the loop never runs out.
  pub write-ne-diverges : (s : MessageBuffer) (b : Bytes) → write struct s b ≢ diverges
  unfolding write
  write-ne-diverges s b =
      loop-ne-diverges (length (s.buffer ++ b) + 2) [] (record s { buffer = s.buffer ++ b })
        (ground arith)

  -- The bytes that are there when the frame `p`, `m`, `q` and some bytes behind it have come: without `p`,
  -- if the length was read before.
  abbrev pub Completes : Bytes → Bytes → Bytes → Bytes → Option ℤ → Type 0
  Completes p m tail bytes o =
      ((o ≡ none) × (bytes ≡ p ++ (m ++ tail)))
      ⊎ ((o ≡ some (pos (length m))) × (bytes ≡ m ++ tail))
