-- ===== src/MessageBus/Tests.antt =====
-- Runs of the message framing with a little-endian `struct`, and the theorems at concrete streams.
use mathlib.Core.List.{flatten}
use object_database.Prelude.{
  ℕ, ◌+◌, ◌-◌, ◌*◌, ◌/◌, ◌%◌, ◌^◌, ◌≡◌, ◌≢◌, ◌≤◌, ◌<◌, refl, true, Option, none, some, List, [],
  ◌∷◌, arith, length, ltb, if◌then◌else◌,
}
use object_database.Prelude.Int.{ℤ, pos, negsuc}
use object_database.MessageBus.Struct.{Bytes, Struct}
use object_database.MessageBus.Buffer.{messages, diverges, encode, write, init}
use object_database.MessageBus.Buffer.Stream.{stream}
use object_database.MessageBus.Buffer.Delivery.{feed, feed-stream}
use object_database.MessageBus.Buffer.Robust.{write-ne-diverges}

abbrev pack_le : ℕ → Option Bytes
pack_le n =
    if ltb n (2 ^ 31)
    then some (n % 256 ∷ n / 256 % 256 ∷ n / 65536 % 256 ∷ n / 16777216 ∷ [])
    else none

abbrev signed : ℕ → ℤ
signed v = if ltb v (2 ^ 31) then pos v else negsuc (2 ^ 32 - v - 1)

abbrev unpack_le : Bytes → Option ℤ
unpack_le (a ∷ b ∷ c ∷ d ∷ []) = some (signed (a + b * 256 + c * 65536 + d * 16777216))
unpack_le bytes = none

pack_le-fits : (n : ℕ) → n < 2 ^ 31 → (b : Bytes) × (pack_le n ≡ some b)
pack_le-fits n h = (n % 256 ∷ n / 256 % 256 ∷ n / 65536 % 256 ∷ n / 16777216 ∷ [], ground arith)

pack_le-overflow : (n : ℕ) → 2 ^ 31 ≤ n → pack_le n ≡ none
pack_le-overflow n h = ground arith

length-pack_le : (n : ℕ) (b : Bytes) → pack_le n ≡ some b → length b ≡ 4
length-pack_le n b h = ground arith

digits_le :
    (n : ℕ) → n % 256 + n / 256 % 256 * 256 + n / 65536 % 256 * 65536 + n / 16777216 * 16777216 ≡ n
digits_le n = omega arith

unpack-pack_le : (n : ℕ) (b : Bytes) → pack_le n ≡ some b → unpack_le b ≡ some (pos n)
unpack-pack_le n b h = ground (arith, digits_le n)

abbrev little_endian : Struct
little_endian = record {
  pack = pack_le;
  unpack = unpack_le;
  pack-fits = pack_le-fits;
  pack-overflow = pack_le-overflow;
  length-pack = length-pack_le;
  unpack-pack = unpack-pack_le;
}

-- Two messages, the first of them empty, in three chunks that respect no boundary.
abbrev two_messages : List Bytes
two_messages = [] ∷ (7 ∷ 8 ∷ []) ∷ []

abbrev three_chunks : List Bytes
three_chunks =
    (0 ∷ 0 ∷ []) ∷ (0 ∷ 0 ∷ 0 ∷ 0 ∷ 0 ∷ 0 ∷ 2 ∷ 0 ∷ []) ∷ (0 ∷ 0 ∷ 7 ∷ 8 ∷ 2 ∷ 0 ∷ 0 ∷ 0 ∷ []) ∷ []

feed-stream_example :
    feed little_endian (init true) three_chunks
    ≡ messages two_messages (record (init true) { messages_ever = 2 })
unfolding stream encode flatten
feed-stream_example = feed-stream little_endian true two_messages three_chunks refl

-- A negative length, -1, with nothing behind it.
write-ne-diverges_example : write little_endian (init true) (255 ∷ 255 ∷ 255 ∷ 255 ∷ []) ≢ diverges
write-ne-diverges_example = write-ne-diverges little_endian (init true) (255 ∷ 255 ∷ 255 ∷ 255 ∷ [])
