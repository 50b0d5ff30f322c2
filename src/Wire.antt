-- ===== src/Wire.antt =====
-- Little-endian words (Guardian/src/protocol.cpp, rd_* and wr_*). A byte string is a list of numbers
-- below 256, and a pointer into it is what is left of the list from there.
pub mod Words
use nicechunk_guardian.Base.{
  ℕ, zero, suc, ◌+◌, ◌*◌, ◌/◌, ◌%◌, ◌^◌, ◌<◌, bit_and, bit_or, List, [], ◌∷◌, ◌++◌, get_or,
}
use nicechunk_guardian.Base.Int.{ℤ, to_u32, to_i32, to_u16, to_i16}

abbrev pub Bytes : Type 0
Bytes = List ℕ

abbrev pub IsByte : ℕ → Type 0
IsByte b = b < 256

-- `p[i]`. The callers read within the string; a read past its end gives 0 here.
abbrev pub byte_at : Bytes → ℕ → ℕ
byte_at p i = get_or p i 0

-- `out.push_back((char)v)`.
abbrev pub push_u8 : ℕ → Bytes
push_u8 v = (v % 256) ∷ []

unfoldable pub rd_u16 : Bytes → ℕ
rd_u16 p = bit_or (byte_at p 0) (byte_at p 1 * 2 ^ 8)

unfoldable pub rd_u32 : Bytes → ℕ
rd_u32 p =
    bit_or (bit_or (bit_or (byte_at p 0) (byte_at p 1 * 2 ^ 8)) (byte_at p 2 * 2 ^ 16))
      (byte_at p 3 * 2 ^ 24)

-- One round of `v = (v << 8) | p[i]` on a uint64_t.
abbrev pub rd_u64_round : Bytes → ℕ → ℕ → ℕ
rd_u64_round p i v = bit_or (v * 2 ^ 8 % 2 ^ 64) (byte_at p i)

-- The loop over i = n - 1, ..., 0.
unfoldable pub rd_u64_loop : Bytes → ℕ → ℕ → ℕ
rd_u64_loop p zero v = v
rd_u64_loop p (suc i) v = rd_u64_loop p i (rd_u64_round p i v)

unfoldable pub rd_u64 : Bytes → ℕ
unfolding rd_u64_loop
rd_u64 p = rd_u64_loop p 8 0

unfoldable pub rd_i16 : Bytes → ℤ
unfolding rd_u16 to_i16
rd_i16 p = to_i16 (rd_u16 p)

-- `(int32_t)rd_u32(p)`, as the decoders write it.
unfoldable pub rd_i32 : Bytes → ℤ
unfolding rd_u32 to_i32
rd_i32 p = to_i32 (rd_u32 p)

unfoldable pub wr_u16 : ℕ → Bytes
wr_u16 v = bit_and v 0xff ∷ bit_and (v / 2 ^ 8) 0xff ∷ []

unfoldable pub wr_u32 : ℕ → Bytes
wr_u32 v =
    bit_and v 0xff
    ∷ bit_and (v / 2 ^ 8) 0xff
    ∷ bit_and (v / 2 ^ 16) 0xff
    ∷ bit_and (v / 2 ^ 24) 0xff
    ∷ []

-- `n` rounds of `out.push_back((char)((v >> (i * 8)) & 0xff))`, from `i` on.
unfoldable pub wr_u64_loop : ℕ → ℕ → ℕ → Bytes
wr_u64_loop zero i v = []
wr_u64_loop (suc n) i v = bit_and (v / 2 ^ (i * 8)) 0xff ∷ wr_u64_loop n (i + 1) v

unfoldable pub wr_u64 : ℕ → Bytes
unfolding wr_u64_loop
wr_u64 v = wr_u64_loop 8 0 v

unfoldable pub wr_i16 : ℤ → Bytes
unfolding wr_u16 to_u16
wr_i16 v = wr_u16 (to_u16 v)

unfoldable pub wr_i32 : ℤ → Bytes
unfolding wr_u32 to_u32
wr_i32 v = wr_u32 (to_u32 v)
