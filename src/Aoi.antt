-- ===== src/Aoi.antt =====
-- The square of chunks around a player: Guardian/src/aoi.cpp.
pub mod Offsets
use nicechunk_guardian.Base.{ℕ, zero, suc, ◌+◌, ◌*◌, List, [], ◌∷◌, ◌++◌}
use nicechunk_guardian.Base.Int.{ℤ, pos, ◌+ℤ◌, ◌-ℤ◌, to_u8, to_i8}

pub record AoiOffset : Type 0 where
  pub dx : ℤ
  pub dz : ℤ

-- `(int8_t)v`.
abbrev pub cast_i8 : ℤ → ℤ
cast_i8 v = to_i8 (to_u8 v)

-- `n` rounds of the inner loop, from `dx` on.
unfoldable pub offsets_row : ℕ → ℤ → ℤ → List AoiOffset
offsets_row zero dx dz = []
offsets_row (suc n) dx dz =
    record { dx = cast_i8 dx; dz = cast_i8 dz } ∷ offsets_row n (dx +ℤ pos 1) dz

-- `n` rounds of the outer loop, from `dz` on; each inner loop has `width` rounds from `low` on.
unfoldable pub offsets_rows : ℕ → ℕ → ℤ → ℤ → List AoiOffset
unfolding offsets_row
offsets_rows zero width low dz = []
offsets_rows (suc n) width low dz =
    offsets_row width low dz ++ offsets_rows n width low (dz +ℤ pos 1)

-- From -radius to radius there are 2 * radius + 1 rounds.
unfoldable pub build_aoi_offsets : ℕ → List AoiOffset
unfolding offsets_rows
build_aoi_offsets radius =
    offsets_rows (radius * 2 + 1) (radius * 2 + 1) (pos 0 -ℤ pos radius) (pos 0 -ℤ pos radius)
