-- ===== src/MessageBus/Struct.antt =====
-- Python's `struct` module, of which message_bus.py uses the format "i": a C int of four bytes.
use object_database.Prelude.{ℕ, ◌≤◌, ◌<◌, ◌^◌, ◌≡◌, Option, none, some, List, length}
use object_database.Prelude.Int.{ℤ, pos}

abbrev pub Bytes : Type 0
Bytes = List ℕ

-- `none` is `struct.error`. The laws are those of the module's documentation: "i" packs into four
-- bytes every number that a 32-bit signed integer holds and no other, and `unpack` undoes `pack`.
pub record Struct : Type 0 where
  pub pack : ℕ → Option Bytes
  pub unpack : Bytes → Option ℤ
  pub pack-fits : (n : ℕ) → n < 2 ^ 31 → (b : Bytes) × (pack n ≡ some b)
  pub pack-overflow : (n : ℕ) → 2 ^ 31 ≤ n → pack n ≡ none
  pub length-pack : (n : ℕ) (b : Bytes) → pack n ≡ some b → length b ≡ 4
  pub unpack-pack : (n : ℕ) (b : Bytes) → pack n ≡ some b → unpack b ≡ some (pos n)
