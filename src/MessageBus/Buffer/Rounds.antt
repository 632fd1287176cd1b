-- ===== src/MessageBus/Buffer/Rounds.antt =====
-- A round of the loop in `MessageBuffer.write`, on a stream of encoded messages.
use object_database.Prelude.{
  ℕ, ◌+◌, ◌≡◌, ◌≤◌, ◌<◌, refl, sym, ap, subst, ◌∙◌, inl, inr, none, some, List, [], ◌∷◌, ◌++◌,
  arith, length, take, drop, leb, length-append, take-of-append, drop-of-append, Bool-cases, leb→le,
  length-drop,
}
use object_database.Prelude.Int.{pos}
use object_database.MessageBus.Struct.{Bytes, Struct}
use object_database.MessageBus.Buffer.{
  MessageBuffer, Round, message, returns, take_message, length_read, read_length, round_from, round,
}
use object_database.MessageBus.Buffer.Stream.{
  stream, stream-cons, stream-short, take-Inside, trailer, taken, Inside,
}

-- The rounds that a buffer can still make are fewer than this.
abbrev pub rounds : MessageBuffer → ℕ
rounds s = length s.buffer + elim s.cur_message_len [ none ↦ 1 | some _ ↦ 2 ]

module _ (struct : Struct) where
  -- What is still to come: `s` has read part of a stream struct of `ms`, and `r` is the rest of it.
  pub data Expects (s : MessageBuffer) (r : Bytes) (ms : List Bytes) : Type 0 where
    between :
        s.cur_message_len ≡ none
        → stream struct s.extra_message_size_check ms ≡ some (s.buffer ++ r)
        → Expects s r ms
    inside :
        (m : Bytes) (rest : List Bytes) (p t : Bytes)
        → ms ≡ m ∷ rest
        → s.cur_message_len ≡ some (pos (length m))
        → struct.pack (length m) ≡ some p
        → stream struct s.extra_message_size_check rest ≡ some t
        → s.buffer ++ r ≡ m ++ (trailer s.extra_message_size_check p ++ t)
        → Expects s r ms

  pub data Progress (s : MessageBuffer) (r : Bytes) (ms : List Bytes) (q : Round) : Type 0 where
    waits :
        (s' : MessageBuffer)
        → q ≡ returns s'
        → Expects s' r ms
        → (r ≡ [] → ms ≡ [])
        → s'.messages_ever ≡ s.messages_ever
        → s'.extra_message_size_check ≡ s.extra_message_size_check
        → Progress s r ms q
    delivers :
        (m : Bytes) (rest : List Bytes) (s' : MessageBuffer)
        → q ≡ message m s'
        → ms ≡ m ∷ rest
        → Expects s' r rest
        → rounds s' < rounds s
        → s'.messages_ever ≡ s.messages_ever + 1
        → s'.extra_message_size_check ≡ s.extra_message_size_check
        → Progress s r ms q

  Inside-Progress :
      (s s₀ : MessageBuffer) (r m p t : Bytes) (rest : List Bytes)
      → s.extra_message_size_check ≡ s₀.extra_message_size_check
      → s.messages_ever ≡ s₀.messages_ever
      → length s.buffer + 1 < rounds s₀
      → s.cur_message_len ≡ some (pos (length m))
      → struct.pack (length m) ≡ some p
      → stream struct s.extra_message_size_check rest ≡ some t
      → s.buffer ++ r ≡ m ++ (trailer s.extra_message_size_check p ++ t)
      → (q : Round) → Inside r m t s q
      → Progress s₀ r (m ∷ rest) q
  Inside-Progress s s₀ r m p t rest x n less cur packed tail e q (inl (is, more)) =
      waits s is (inside m rest p t refl cur packed tail e) (λ z. absurd (more z)) n x
  Inside-Progress s s₀ r m p t rest x n less cur packed tail e q (inr (b, is, e', le)) =
      delivers m rest (taken s b) is refl (between refl (rw e' tail)) (omega arith) (rw n) x

  read-Progress :
      (s : MessageBuffer) (r : Bytes) (ms : List Bytes)
      → s.cur_message_len ≡ none
      → stream struct s.extra_message_size_check ms ≡ some (s.buffer ++ r)
      → 4 ≤ length s.buffer
      → Progress s r ms (read_length struct s)
  unfolding read_length stream take_message
  read-Progress s r [] cur h le =
      (let e : ◌≡◌ {A = Bytes} [] (s.buffer ++ r) = cc in
        absurd (omega (arith, ap length e, length-append s.buffer r)))
  read-Progress s r (m ∷ ms) cur h le =
      let (p, t, packed, tail, e) =
        stream-cons struct s.extra_message_size_check m ms (s.buffer ++ r) h in
      let four : length p ≡ 4 = struct.length-pack (length m) p packed in
      let s' : MessageBuffer = record s {
        buffer = drop 4 s.buffer;
        cur_message_len = some (pos (length m));
      } in
      let body = m ++ (trailer s.extra_message_size_check p ++ t) in
      let head : take 4 s.buffer ≡ p =
        rw (← four) (take-of-append s.buffer r p body e (omega arith)) in
      let e' : drop 4 s.buffer ++ r ≡ body =
        rw (← four) (drop-of-append s.buffer r p body e (omega arith)) in
      let unpacked : struct.unpack (take 4 s.buffer) ≡ some (pos (length m)) =
        ap struct.unpack head ∙ struct.unpack-pack (length m) p packed in
      subst (λ o. Progress s r (m ∷ ms) (length_read struct o s)) (sym unpacked)
        (Inside-Progress s' s r m p t ms refl refl (ground (arith, length-drop 4 s.buffer)) refl
          packed tail e' _ (take-Inside struct s.extra_message_size_check s' r m p t packed e'))

  -- Every round makes progress: it hands over the next message, or it waits for the rest.
  pub round-Progress :
      (s : MessageBuffer) (r : Bytes) (ms : List Bytes)
      → Expects s r ms
      → Progress s r ms (round struct s)
  unfolding round take_message
  round-Progress s r ms (inside m rest p t is cur packed tail e) =
      subst (λ l. Progress s r l (round_from struct s.cur_message_len s)) (sym is)
        (subst (λ o. Progress s r (m ∷ rest) (round_from struct o s)) (sym cur)
          (Inside-Progress s s r m p t rest refl refl (ground arith) cur packed tail e _
            (take-Inside struct s.extra_message_size_check s r m p t packed e)))
  round-Progress s r ms (between cur h) =
      subst (λ o. Progress s r ms (round_from struct o s)) (sym cur)
        (elim (Bool-cases (leb 4 (length s.buffer))) [
          | inl enough ↦ rw enough (read-Progress s r ms cur h (leb→le _ _ enough))
          | inr short ↦ rw short (
              waits s refl (between cur h)
                (λ z.
                  stream-short struct s.extra_message_size_check ms (s.buffer ++ r) h
                    (ground (arith, ap length z, length-append s.buffer r)))
                refl refl)
        ])
