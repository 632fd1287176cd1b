-- ===== src/MessageBus/Buffer/Delivery.antt =====
-- `MessageBuffer.write` and a receiver that calls it for every chunk that the socket gives.
use mathlib.Core.List.{append_assoc, append-nil, flatten}
use object_database.Prelude.{
  ℕ, zero, suc, ◌+◌, ◌≡◌, ◌≤◌, refl, sym, ap, subst, ◌∙◌, Bool, none, some, List, [], ◌∷◌, ◌++◌,
  arith, length, length-append,
}
use mathlib.Core.List.{append_assoc}
use object_database.MessageBus.Struct.{Bytes, Struct}
use object_database.MessageBus.Buffer.{
  MessageBuffer, Written, messages, raised, diverges, loop, write, init,
}
use object_database.MessageBus.Buffer.Stream.{stream, stream-short}
use object_database.MessageBus.Buffer.Rounds.{
  Expects, between, inside, rounds, waits, delivers, round-Progress,
}

-- The messages of one call before those of the calls that follow.
prepend : List Bytes → Written → Written
prepend ms (messages ns s) = messages (ms ++ ns) s
prepend ms (raised e s) = raised e s
prepend ms diverges = diverges

module _ (struct : Struct) where
  -- A receiver: every chunk is written to the buffer, until an exception.
  pub feed : MessageBuffer → List Bytes → Written
  unfolding prepend
  feed s [] = messages [] s
  feed s (c ∷ cs) = elim (write struct s c) [
    | messages ms s' ↦ prepend ms (feed s' cs)
    | raised e s' ↦ raised e s'
    | diverges ↦ diverges
  ]

  data Reads (s : MessageBuffer) (r : Bytes) (ms got : List Bytes) (w : Written) : Type 0 where
    reads :
        (new rest : List Bytes) (s' : MessageBuffer)
        → w ≡ messages (got ++ new) s'
        → ms ≡ new ++ rest
        → Expects struct s' r rest
        → (r ≡ [] → rest ≡ [])
        → s'.messages_ever ≡ s.messages_ever + length new
        → s'.extra_message_size_check ≡ s.extra_message_size_check
        → Reads s r ms got w

  loop-Reads :
      (fuel : ℕ) (got : List Bytes) (s : MessageBuffer) (r : Bytes) (ms : List Bytes)
      → Expects struct s r ms
      → rounds s ≤ fuel
      → Reads s r ms got (loop struct fuel got s)
  unfolding loop
  loop-Reads zero got s r ms h less = absurd (ground arith)
  loop-Reads (suc fuel) got s r ms h less = elim (round-Progress struct s r ms h) [
    | waits s' is h' done n x ↦
        rw (is, loop) (reads [] ms s' (rw append-nil) refl h' done (omega arith) x)
    | delivers m rest s' is e h' fewer n x ↦
        rw (is, loop)
          (delivered m e n x (loop-Reads fuel (got ++ m ∷ []) s' r rest h' (omega arith)))
  ]
    where
      delivered :
          {s' : MessageBuffer} {rest : List Bytes} {w : Written} (m : Bytes)
          → ms ≡ m ∷ rest
          → s'.messages_ever ≡ s.messages_ever + 1
          → s'.extra_message_size_check ≡ s.extra_message_size_check
          → Reads s' r rest (got ++ m ∷ []) w
          → Reads s r ms got w
      delivered m e n x (reads new rest' s'' is e' h' done n' x') =
          reads (m ∷ new) rest' s'' (is ∙ ap (λ l. messages l s'') (append_assoc got (m ∷ []) new))
            (e ∙ ap (◌∷◌ m) e') h' done (omega arith) (x' ∙ x)

  extend :
      (s : MessageBuffer) (c r : Bytes) (ms : List Bytes)
      → Expects struct s (c ++ r) ms
      → Expects struct (record s { buffer = s.buffer ++ c }) r ms
  extend s c r ms (between cur h) = between cur (rw (append_assoc s.buffer c r) h)
  extend s c r ms (inside m rest p t is cur packed tail e) =
      inside m rest p t is cur packed tail (append_assoc s.buffer c r ∙ e)

  write-Reads :
      (s : MessageBuffer) (c r : Bytes) (ms : List Bytes)
      → Expects struct s (c ++ r) ms
      → Reads s r ms [] (write struct s c)
  unfolding write
  write-Reads s c r ms h =
      elim (loop-Reads (length (s.buffer ++ c) + 2) [] (record s { buffer = s.buffer ++ c }) r ms
        (extend s c r ms h) (ground arith)) [
          | reads new rest s' is e h' done n x ↦ reads new rest s' is e h' done n x
        ]

  -- At the end of a stream nothing is left in the buffer.
  finished :
      (s : MessageBuffer) → Expects struct s [] [] → (s.buffer ≡ []) × (s.cur_message_len ≡ none)
  unfolding stream
  finished s (between cur h) =
      let e : ◌≡◌ {A = Bytes} [] (s.buffer ++ []) = cc in (sym (e ∙ append-nil s.buffer), cur)
  finished s (inside m rest p t is cur packed tail e) = absurd (ground arith)

  feed-Expects :
      (s : MessageBuffer) (cs : List Bytes) (ms : List Bytes)
      → Expects struct s (flatten cs) ms
      → (flatten cs ≡ [] → ms ≡ [])
      → feed s cs
        ≡ messages ms (record s {
          buffer = [];
          cur_message_len = none;
          messages_ever = s.messages_ever + length ms;
        })
  unfolding feed flatten
  feed-Expects s [] ms h done =
      let e : ms ≡ [] = done refl in
      let (b, cur) = finished s (subst (λ l. Expects struct s [] l) e h) in ground (arith)
  feed-Expects s (c ∷ cs) ms h done = elim (write-Reads s c (flatten cs) ms h) [
    | reads new rest s' is e h' done' n x ↦
        rw (is, feed)
          (rw (feed-Expects s' cs rest h' done') (ground (arith, length-append new rest)))
  ]

  -- Whatever messages are sent and however the transport cuts the bytes into chunks, a fresh buffer
  -- hands over exactly those messages, in order, without an exception, and ends empty, between two
  -- messages.
  pub feed-stream :
      (extra : Bool) (ms : List Bytes) (chunks : List Bytes)
      → stream struct extra ms ≡ some (flatten chunks)
      → feed (init extra) chunks ≡ messages ms (record (init extra) { messages_ever = length ms })
  unfolding init
  feed-stream extra ms chunks h =
      feed-Expects (init extra) chunks ms (between refl h)
        (λ z. stream-short struct extra ms (flatten chunks) h (omega (arith, ap length z)))
      ∙ ground arith
