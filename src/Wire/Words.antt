-- ===== src/Wire/Words.antt =====
-- What is written is read back, and what is read is written back.
use nicechunk_guardian.Base.{
  ℕ, suc, ◌+◌, ◌*◌, ◌/◌, ◌%◌, ◌^◌, ◌<◌, ◌≡◌, refl, ap, ◌∙◌, bit_and, [], ◌∷◌, ◌++◌, arith, All,
  length,
}
use mathlib.Core.Path.{ap₂}
use nicechunk_guardian.Base.Int.{ℤ, IsI16, IsI32, to_u16, to_u32}
use nicechunk_guardian.Base.Int.{to_i16-to_u16, to_i32-to_u32, to_u16-lt, to_u32-lt}
use nicechunk_guardian.Base.Bits.{bit_and-ff, bit_or-shift, shift-bit_or}
use nicechunk_guardian.Wire.{
  Bytes, IsByte, byte_at, rd_u16, rd_u32, rd_u64_round, rd_u64_loop, rd_u64, rd_i16, rd_i32, wr_u16,
  wr_u32, wr_u64, wr_i16, wr_i32,
}

-- The words in plain arithmetic.
pub rd_u16_sum : (a b : ℕ) (r : Bytes) → IsByte a → rd_u16 (a ∷ b ∷ r) ≡ a + b * 2 ^ 8
unfolding rd_u16
rd_u16_sum a b r h = bit_or-shift 8 a b (omega arith)

pub rd_u32_sum :
    (a b c d : ℕ) (r : Bytes)
    → IsByte a
    → IsByte b
    → IsByte c
    → rd_u32 (a ∷ b ∷ c ∷ d ∷ r) ≡ a + b * 2 ^ 8 + c * 2 ^ 16 + d * 2 ^ 24
unfolding rd_u32
rd_u32_sum a b c d r ha hb hc =
    rw (bit_or-shift 8 a b (omega arith), bit_or-shift 16 (a + b * 2 ^ 8) c (omega arith))
      (bit_or-shift 24 (a + b * 2 ^ 8 + c * 2 ^ 16) d (omega arith))

rd_u64_round_sum :
    (p : Bytes) (i v : ℕ)
    → v < 2 ^ 56
    → IsByte (byte_at p i)
    → rd_u64_round p i v ≡ v * 2 ^ 8 + byte_at p i
rd_u64_round_sum p i v hv hb =
    let e : v * 2 ^ 8 % 2 ^ 64 ≡ v * 2 ^ 8 = omega arith in
    rw e (shift-bit_or 8 (byte_at p i) v (omega arith))

rd_u64_loop_step :
    (p : Bytes) (i v : ℕ)
    → v < 2 ^ 56
    → IsByte (byte_at p i)
    → rd_u64_loop p (suc i) v ≡ rd_u64_loop p i (v * 2 ^ 8 + byte_at p i)
unfolding rd_u64_loop
rd_u64_loop_step p i v hv hb = ap (rd_u64_loop p i) (rd_u64_round_sum p i v hv hb)

-- The two halves of the loop, so that each stays small.
rd_u64_loop_high :
    (p : Bytes)
    → All IsByte (byte_at p 4 ∷ byte_at p 5 ∷ byte_at p 6 ∷ byte_at p 7 ∷ [])
    → rd_u64_loop p 8 0
      ≡ rd_u64_loop p 4
          (byte_at p 4 + byte_at p 5 * 2 ^ 8 + byte_at p 6 * 2 ^ 16 + byte_at p 7 * 2 ^ 24)
rd_u64_loop_high p h =
    rd_u64_loop_step p 7 0 (omega arith) (omega arith)
    ∙ rd_u64_loop_step p 6 (0 * 2 ^ 8 + byte_at p 7) (omega arith) (omega arith)
    ∙ rd_u64_loop_step p 5 ((0 * 2 ^ 8 + byte_at p 7) * 2 ^ 8 + byte_at p 6) (omega arith)
        (omega arith)
    ∙ rd_u64_loop_step p 4 (((0 * 2 ^ 8 + byte_at p 7) * 2 ^ 8 + byte_at p 6) * 2 ^ 8 + byte_at p 5)
        (omega arith) (omega arith)
    ∙ ap (rd_u64_loop p 4) (omega arith)

rd_u64_loop_low :
    (p : Bytes) (v : ℕ)
    → v < 2 ^ 32
    → All IsByte (byte_at p 0 ∷ byte_at p 1 ∷ byte_at p 2 ∷ byte_at p 3 ∷ [])
    → rd_u64_loop p 4 v
      ≡ byte_at p 0 + byte_at p 1 * 2 ^ 8 + byte_at p 2 * 2 ^ 16 + byte_at p 3 * 2 ^ 24 + v * 2 ^ 32
rd_u64_loop_low p v hv h =
    rd_u64_loop_step p 3 v (omega arith) (omega arith)
    ∙ rd_u64_loop_step p 2 (v * 2 ^ 8 + byte_at p 3) (omega arith) (omega arith)
    ∙ rd_u64_loop_step p 1 ((v * 2 ^ 8 + byte_at p 3) * 2 ^ 8 + byte_at p 2) (omega arith)
        (omega arith)
    ∙ rd_u64_loop_step p 0 (((v * 2 ^ 8 + byte_at p 3) * 2 ^ 8 + byte_at p 2) * 2 ^ 8 + byte_at p 1)
        (omega arith) (omega arith)
    ∙ (unfold rd_u64_loop in omega arith)

abbrev pub sum32 : Bytes → ℕ → ℕ
sum32 p i =
    byte_at p i
    + byte_at p (i + 1) * 2 ^ 8
    + byte_at p (i + 2) * 2 ^ 16
    + byte_at p (i + 3) * 2 ^ 24

pub rd_u64_sum :
    (p : Bytes)
    → All IsByte (byte_at p 0 ∷ byte_at p 1 ∷ byte_at p 2 ∷ byte_at p 3 ∷ [])
    → All IsByte (byte_at p 4 ∷ byte_at p 5 ∷ byte_at p 6 ∷ byte_at p 7 ∷ [])
    → rd_u64 p ≡ sum32 p 0 + sum32 p 4 * 2 ^ 32
unfolding rd_u64
rd_u64_sum p h k = rd_u64_loop_high p k ∙ rd_u64_loop_low p (sum32 p 4) (omega arith) h

pub length-wr_u16 : (v : ℕ) → length (wr_u16 v) ≡ 2
unfolding wr_u16
length-wr_u16 v = refl

pub length-wr_u32 : (v : ℕ) → length (wr_u32 v) ≡ 4
unfolding wr_u32
length-wr_u32 v = refl

pub length-wr_u64 : (v : ℕ) → length (wr_u64 v) ≡ 8
unfolding wr_u64
length-wr_u64 v = refl

pub length-wr_i16 : (z : ℤ) → length (wr_i16 z) ≡ 2
unfolding wr_i16
length-wr_i16 z = refl

pub length-wr_i32 : (z : ℤ) → length (wr_i32 z) ≡ 4
unfolding wr_i32
length-wr_i32 z = refl

pub rd_u16-wr_u16 : (v : ℕ) (r : Bytes) → v < 2 ^ 16 → rd_u16 (wr_u16 v ++ r) ≡ v
unfolding wr_u16
rd_u16-wr_u16 v r h =
    rd_u16_sum (bit_and v 0xff) (bit_and (v / 2 ^ 8) 0xff) r (omega (arith, bit_and-ff v))
    ∙ omega (arith, bit_and-ff v, bit_and-ff (v / 2 ^ 8))

pub rd_u32-wr_u32 : (v : ℕ) (r : Bytes) → v < 2 ^ 32 → rd_u32 (wr_u32 v ++ r) ≡ v
unfolding wr_u32
rd_u32-wr_u32 v r h =
    rd_u32_sum (bit_and v 0xff) (bit_and (v / 2 ^ 8) 0xff) (bit_and (v / 2 ^ 16) 0xff)
      (bit_and (v / 2 ^ 24) 0xff) r (omega (arith, bit_and-ff v))
      (omega (arith, bit_and-ff (v / 2 ^ 8))) (omega (arith, bit_and-ff (v / 2 ^ 16)))
    ∙ omega (
      arith,
      bit_and-ff v,
      bit_and-ff (v / 2 ^ 8),
      bit_and-ff (v / 2 ^ 16),
      bit_and-ff (v / 2 ^ 24),
    )

pub rd_i16-wr_i16 : (z : ℤ) (r : Bytes) → IsI16 z → rd_i16 (wr_i16 z ++ r) ≡ z
unfolding rd_i16 wr_i16
rd_i16-wr_i16 z r h = rw (rd_u16-wr_u16 (to_u16 z) r (to_u16-lt z)) (to_i16-to_u16 z h)

pub rd_i32-wr_i32 : (z : ℤ) (r : Bytes) → IsI32 z → rd_i32 (wr_i32 z ++ r) ≡ z
unfolding rd_i32 wr_i32
rd_i32-wr_i32 z r h = rw (rd_u32-wr_u32 (to_u32 z) r (to_u32-lt z)) (to_i32-to_u32 z h)

wr_u64_bytes :
    (v : ℕ) (r : Bytes)
    → (sum32 (wr_u64 v ++ r) 0 ≡ v % 2 ^ 32) × (sum32 (wr_u64 v ++ r) 4 ≡ v / 2 ^ 32 % 2 ^ 32)
unfolding wr_u64
wr_u64_bytes v r = (
  omega (
    arith,
    bit_and-ff (v / 2 ^ 0),
    bit_and-ff (v / 2 ^ 8),
    bit_and-ff (v / 2 ^ 16),
    bit_and-ff (v / 2 ^ 24),
  ),
  omega (
    arith,
    bit_and-ff (v / 2 ^ 32),
    bit_and-ff (v / 2 ^ 40),
    bit_and-ff (v / 2 ^ 48),
    bit_and-ff (v / 2 ^ 56),
  ),
)

pub rd_u64-wr_u64 : (v : ℕ) (r : Bytes) → v < 2 ^ 64 → rd_u64 (wr_u64 v ++ r) ≡ v
rd_u64-wr_u64 v r h =
    rd_u64_sum (wr_u64 v ++ r) (unfold wr_u64 in omega (arith, bit_and-ff))
      (unfold wr_u64 in omega (arith, bit_and-ff))
    ∙ omega (arith, (wr_u64_bytes v r).0, (wr_u64_bytes v r).1)

-- Every byte that is written is one, whatever the value.
pub wr_u16-IsByte : (v : ℕ) → All IsByte (wr_u16 v)
unfolding wr_u16
wr_u16-IsByte v = omega (arith, bit_and-ff)

pub wr_u32-IsByte : (v : ℕ) → All IsByte (wr_u32 v)
unfolding wr_u32
wr_u32-IsByte v = omega (arith, bit_and-ff)

pub wr_u64-IsByte : (v : ℕ) → All IsByte (wr_u64 v)
unfolding wr_u64
wr_u64-IsByte v = omega (arith, bit_and-ff)

-- The other direction: a word that was read is written as the bytes that it came from.
pub wr_u16-rd_u16 :
    (a b : ℕ) (r : Bytes) → IsByte a → IsByte b → wr_u16 (rd_u16 (a ∷ b ∷ r)) ≡ a ∷ b ∷ []
unfolding wr_u16
wr_u16-rd_u16 a b r ha hb =
    rw (rd_u16_sum a b r ha)
      (ap₂ (λ x y. x ∷ y ∷ []) (bit_and-ff _ ∙ omega arith) (bit_and-ff _ ∙ omega arith))

-- A word that was read is in range.
pub rd_u16-lt : (a b : ℕ) (r : Bytes) → IsByte a → IsByte b → rd_u16 (a ∷ b ∷ r) < 2 ^ 16
rd_u16-lt a b r ha hb = omega (arith, rd_u16_sum a b r ha)
