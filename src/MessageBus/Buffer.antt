-- ===== src/MessageBus/Buffer.antt =====
-- `MessageBuffer` of object_database/message_bus.py: the framing of messages in a byte stream.
pub mod Stream
pub mod Rounds
pub mod Delivery
pub mod Robust
use object_database.Prelude.{
  ℕ, zero, suc, ◌+◌, ◌-◌, ◌≡◌, refl, Bool, true, false, Option, none, some, List, [], ◌∷◌, ◌++◌,
  arith, length, take, drop, min, if◌then◌else◌, leb,
}
use object_database.Prelude.Int.{ℤ, pos, negsuc, pos_part, neg_part, ◌+ℤ◌, sub_ℕ, leb_ℤ, eq_ℤ}
use object_database.MessageBus.Struct.{Bytes, Struct}

abbrev pub message_len_bytes : ℕ
message_len_bytes = 4

pub record MessageBuffer : Type 0 where
  pub buffer : Bytes
  pub messages_ever : ℕ
  pub extra_message_size_check : Bool
  pub cur_message_len : Option ℤ

unfoldable pub init : Bool → MessageBuffer
init extra = record {
  buffer = [];
  messages_ever = 0;
  extra_message_size_check = extra;
  cur_message_len = none;
}

unfoldable pub pending_bytecount : MessageBuffer → ℕ
pending_bytecount s = length s.buffer

-- The place that a slice bound names in a sequence of length `n`; a negative one counts from the
-- end.
abbrev pub slice_bound : ℕ → ℤ → ℕ
slice_bound n (pos k) = min k n
slice_bound n (negsuc k) = n - suc k

-- b[:z], del b[:z] and b[y:z]
abbrev pub slice_to : Bytes → ℤ → Bytes
slice_to b z = take (slice_bound (length b) z) b

abbrev pub slice_from : Bytes → ℤ → Bytes
slice_from b z = drop (slice_bound (length b) z) b

abbrev pub slice : Bytes → ℤ → ℤ → Bytes
slice b y z =
    take (slice_bound (length b) z - slice_bound (length b) y) (drop (slice_bound (length b) y) b)

pub data Error : Type 0 where
  struct_error : Error
  corrupt_message_stream : ℤ → ℤ → Error

-- One round of the loop in `write`: a message is complete and the loop goes on, the method returns,
-- or an exception leaves it.
pub data Round : Type 0 where
  message : Bytes → MessageBuffer → Round
  returns : MessageBuffer → Round
  raises : Error → MessageBuffer → Round

-- What a call of `write` does: its list of messages, or an exception. `diverges` says that the
-- fuel ran out.
pub data Written : Type 0 where
  messages : List Bytes → MessageBuffer → Written
  raised : Error → MessageBuffer → Written
  diverges : Written

module _ (struct : Struct) where
  -- encode
  unfoldable pub encode : Bytes → Bool → Option Bytes
  encode bytes extra = elim (struct.pack (length bytes)) [
    | none ↦ none
    | some prefix ↦ some (if extra then (prefix ++ bytes) ++ prefix else prefix ++ bytes)
  ]

  -- The end of a message of length `n` in the branch with the extra check.
  check_size : MessageBuffer → ℤ → Bytes → Round
  check_size s n size_check_bytes =
      let msg = slice_to s.buffer n in
      let counted = record s { messages_ever = s.messages_ever + 1 } in
      let rest = record counted {
        buffer = slice_from s.buffer (n +ℤ pos message_len_bytes);
        cur_message_len = none;
      } in
      elim (struct.unpack size_check_bytes) [
        | none ↦ raises struct_error counted
        | some size_check ↦
            if eq_ℤ size_check n
            then message msg rest
            else raises (corrupt_message_stream size_check n) rest
      ]

  -- The two branches on `extraMessageSizeCheck`.
  pub take_by : Bool → MessageBuffer → ℤ → Round
  unfolding check_size
  take_by true s n =
      if leb_ℤ (n +ℤ pos message_len_bytes) (pos (length s.buffer))
      then check_size s n (slice s.buffer n (n +ℤ pos message_len_bytes))
      else returns s
  take_by false s n =
      if leb_ℤ n (pos (length s.buffer))
      then message (slice_to s.buffer n) (record s {
        buffer = slice_from s.buffer n;
        messages_ever = s.messages_ever + 1;
        cur_message_len = none;
      })
      else returns s

  take_message : MessageBuffer → ℤ → Round
  unfolding take_by
  take_message s n = take_by s.extra_message_size_check s n

  -- What follows `struct.unpack` of the first four bytes: they are taken off the buffer.
  length_read : Option ℤ → MessageBuffer → Round
  unfolding take_message
  length_read none s = raises struct_error s
  length_read (some n) s =
      take_message (record s { buffer = drop message_len_bytes s.buffer; cur_message_len = some n })
        n

  read_length : MessageBuffer → Round
  unfolding length_read
  read_length s = length_read (struct.unpack (take message_len_bytes s.buffer)) s

  -- The round, by `curMessageLen`.
  round_from : Option ℤ → MessageBuffer → Round
  unfolding read_length
  round_from (some n) s = take_message s n
  round_from none s = if leb message_len_bytes (length s.buffer) then read_length s else returns s

  pub round : MessageBuffer → Round
  unfolding round_from
  round s = round_from s.cur_message_len s

  -- `while True`, on fuel.
  pub loop : ℕ → List Bytes → MessageBuffer → Written
  loop zero got s = diverges
  loop (suc fuel) got s = elim (round s) [
    | message m s' ↦ loop fuel (got ++ m ∷ []) s'
    | returns s' ↦ messages got s'
    | raises e s' ↦ raised e s'
  ]

  -- A round takes four bytes off the buffer, but for the first if a length was read before.
  pub write : MessageBuffer → Bytes → Written
  unfolding loop round
  write s bytes_to_write =
      let s' = record s { buffer = s.buffer ++ bytes_to_write } in loop (length s'.buffer + 2) [] s'
