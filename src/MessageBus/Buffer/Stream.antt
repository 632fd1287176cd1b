-- ===== src/MessageBus/Buffer/Stream.antt =====
-- What `MessageBuffer.write` makes of the bytes that `MessageBuffer.encode` produced, however the
-- transport cuts them.
use object_database.Prelude.{
  ℕ, ◌+◌, ◌-◌, ◌≡◌, ◌≢◌, ◌≤◌, ◌<◌, refl, sym, ap, ◌∙◌, ◌⊎◌, inl, inr, Bool, true, false, Option,
  none, some, List, [], ◌∷◌, ◌++◌, arith, length, drop, leb, length-append, take-of-append,
  drop-of-append, drop-drop, Bool-cases, leb→le, ==_iff, Option-cases, length-drop,
}
use mathlib.Core.List.{append_assoc}
use native.Mathlib.Nat.{min-eq_left}
use object_database.Prelude.Int.{pos}
use object_database.MessageBus.Struct.{Bytes, Struct}
use object_database.MessageBus.Buffer.{
  MessageBuffer, Round, message, returns, encode, check_size, take_by, slice_to,
}

abbrev pub trailer : Bool → Bytes → Bytes
trailer true p = p
trailer false p = []

abbrev pub taken : MessageBuffer → Bytes → MessageBuffer
taken s b = record s { buffer = b; messages_ever = s.messages_ever + 1; cur_message_len = none }

-- Inside a message: it is complete, or more bytes are to come.
abbrev pub Inside : Bytes → Bytes → Bytes → MessageBuffer → Round → Type 0
Inside r m t s q =
    ((q ≡ returns s) × (r ≢ []))
    ⊎ ((b : Bytes) × (q ≡ message m (taken s b)) × (b ++ r ≡ t) × (length b ≤ length s.buffer))

module _ (struct : Struct) where
  -- The bytes that a sender puts on the wire for a list of messages.
  unfoldable pub stream : Bool → List Bytes → Option Bytes
  stream extra [] = some []
  stream extra (m ∷ ms) = elim (encode struct m extra) [
    | none ↦ none
    | some b ↦ elim (stream extra ms) [ none ↦ none | some r ↦ some (b ++ r) ]
  ]

  -- The head of a stream: its length prefix, the message, and the prefix again if it is checked.
  pub stream-cons :
      (extra : Bool) (m : Bytes) (ms : List Bytes) (w : Bytes)
      → stream extra (m ∷ ms) ≡ some w
      → (p : Bytes) × (t : Bytes) × (struct.pack (length m) ≡ some p)
        × (stream extra ms ≡ some t)
        × (w ≡ p ++ (m ++ (trailer extra p ++ t)))
  unfolding stream encode
  stream-cons extra m ms w h = elim (Option-cases (struct.pack (length m))) [
    | inl e ↦ absurd (ground arith)
    | inr (p, e) ↦ elim (Option-cases (stream extra ms)) [
      | inl e' ↦ absurd (ground arith)
      | inr (t, e') ↦ (p, t, e, e', split extra p t e e' h)
    ]
  ]
    where
      split :
          (x : Bool) (p t : Bytes)
          → struct.pack (length m) ≡ some p
          → stream x ms ≡ some t
          → stream x (m ∷ ms) ≡ some w
          → w ≡ p ++ (m ++ (trailer x p ++ t))
      split true p t e e' h = ground (arith, append_assoc (p ++ m) p t, append_assoc p m (p ++ t))
      split false p t e e' h = ground (arith, append_assoc p m t)

  more_to_come : (b r m t : Bytes) → b ++ r ≡ m ++ t → length b < length m → r ≢ []
  more_to_come b r m t e h z =
      absurd (omega (arith, ap length e, length-append b r, length-append m t, ap length z, h))

  take_plain :
      (s : MessageBuffer) (r m t : Bytes)
      → s.buffer ++ r ≡ m ++ t
      → Inside r m t s (take_by struct false s (pos (length m)))
  unfolding take_by
  take_plain s r m t e = elim (Bool-cases (leb (length m) (length s.buffer))) [
    | inl h ↦
        let le : length m ≤ length s.buffer = leb→le _ _ h in
        inr (
          drop (length m) s.buffer,
          rw (h, min-eq_left le, take-of-append s.buffer r m t e le),
          drop-of-append s.buffer r m t e le,
          omega (arith, length-drop (length m) s.buffer),
        )
    | inr h ↦ inl (rw h, more_to_come s.buffer r m t e (ground arith))
  ]

  check_passes :
      (s : MessageBuffer) (n : ℕ) (m p : Bytes)
      → struct.unpack p ≡ some (pos n)
      → slice_to s.buffer (pos n) ≡ m
      → n + 4 ≤ length s.buffer
      → check_size struct s (pos n) p ≡ message m (taken s (drop (n + 4) s.buffer))
  unfolding check_size
  check_passes s n m p e e' fits =
      rw (e, check_size) (rw ((==_iff n n).1 refl, e', min-eq_left fits))

  take_checked :
      (s : MessageBuffer) (r m p t : Bytes)
      → struct.pack (length m) ≡ some p
      → s.buffer ++ r ≡ m ++ (p ++ t)
      → Inside r m t s (take_by struct true s (pos (length m)))
  unfolding take_by check_size
  take_checked s r m p t packed e = elim (Bool-cases (leb (length m + 4) (length s.buffer))) [
    | inl h ↦
        let fits : length m + 4 ≤ length s.buffer = leb→le _ _ h in
        let le : length m ≤ length s.buffer = omega arith in
        let e' : drop (length m) s.buffer ++ r ≡ p ++ t =
          drop-of-append s.buffer r m (p ++ t) e le in
        let four : length p ≡ 4 = struct.length-pack (length m) p packed in
        let wide : length m + 4 - length m ≡ length p = omega arith in
        let le' : length p ≤ length (drop (length m) s.buffer) =
          omega (arith, length-drop (length m) s.buffer) in
        inr (
          drop (length m + 4) s.buffer,
          rw h (
              rw
                (
                  min-eq_left le,
                  min-eq_left fits,
                  wide,
                  take-of-append (drop (length m) s.buffer) r p t e' le',
                )
                (check_passes s (length m) m p (struct.unpack-pack (length m) p packed)
                  (rw (min-eq_left le) (take-of-append s.buffer r m (p ++ t) e le)) fits)),
          rw (← drop-drop (length m) 4 s.buffer, ← four)
              (drop-of-append (drop (length m) s.buffer) r p t e' le'),
          omega (arith, length-drop (length m + 4) s.buffer),
        )
    | inr h ↦ inl (
      rw h,
      more_to_come s.buffer r (m ++ p) t (e ∙ sym (append_assoc m p t))
          (ground (arith, length-append m p, struct.length-pack (length m) p packed)),
    )
  ]

  -- The two are the same statement about the flag of the buffer.
  pub take-Inside :
      (x : Bool) (s : MessageBuffer) (r m p t : Bytes)
      → struct.pack (length m) ≡ some p
      → s.buffer ++ r ≡ m ++ (trailer x p ++ t)
      → Inside r m t s (take_by struct x s (pos (length m)))
  take-Inside true s r m p t packed e = take_checked s r m p t packed e
  take-Inside false s r m p t packed e = take_plain s r m t e

  pub stream-short :
      (x : Bool) (ms : List Bytes) (b : Bytes) → stream x ms ≡ some b → length b < 4 → ms ≡ []
  stream-short x [] b h less = refl
  stream-short x (m ∷ ms) b h less =
      let (p, t, packed, tail, e) = stream-cons x m ms b h in
      absurd (
        omega (
          arith,
          ap length e,
          struct.length-pack (length m) p packed,
          length-append p (m ++ (trailer x p ++ t)),
        ))
