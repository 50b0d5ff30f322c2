-- ===== src/Chunk/Local.antt =====
-- Local coordinates within the service area of Guardian/src/chunk.cpp.
use nicechunk_guardian.Base.{ℕ, ◌*◌, ◌≤◌, ◌<◌, ◌≡◌, refl, true, arith}
use nicechunk_guardian.Base.Int.{
  ℤ, pos, negsuc, pos_part, neg_part, ◌+ℤ◌, ◌-ℤ◌, ◌≤ℤ◌, to_u8, IsI32, int_laws, parts_exclusive,
  pos_of_nonneg, +ℤ_parts, -ℤ_parts, to_i32-to_u32,
}
use nicechunk_guardian.Config.{Config}
use nicechunk_guardian.Chunk.{
  contains_chunk, to_local, from_local, to_local_chunk_x, to_local_chunk_z, from_local_chunk_x,
  from_local_chunk_z, local_to_global,
}

-- What `contains_chunk` tests.
pub record InArea (cfg : Config) (x z : ℤ) : Type 0 where
  pub west : cfg.guardian_center_chunk_x -ℤ pos cfg.service_radius_chunks ≤ℤ x
  pub east : x ≤ℤ cfg.guardian_center_chunk_x +ℤ pos cfg.service_radius_chunks
  pub north : cfg.guardian_center_chunk_z -ℤ pos cfg.service_radius_chunks ≤ℤ z
  pub south : z ≤ℤ cfg.guardian_center_chunk_z +ℤ pos cfg.service_radius_chunks

pub contains_chunk_sound : (cfg : Config) (x z : ℤ) → contains_chunk cfg x z ≡ true → InArea cfg x z
unfolding contains_chunk
contains_chunk_sound cfg x z h = ground arith

pub contains_chunk_complete :
    (cfg : Config) (x z : ℤ) → InArea cfg x z → contains_chunk cfg x z ≡ true
unfolding contains_chunk
contains_chunk_complete cfg x z h = ground arith

-- The byte of a small integer.
to_u8_small : (z : ℤ) → neg_part z ≡ 0 → pos_part z < 256 → to_u8 z ≡ pos_part z
unfolding to_u8
to_u8_small (pos n) h k = omega arith
to_u8_small (negsuc n) h k = absurd (omega arith)

-- In the area, and with a radius of at most 127, the local coordinate is the distance from its edge.
pub to_local_distance :
    (c x : ℤ) (r : ℕ)
    → r ≤ 127
    → c -ℤ pos r ≤ℤ x
    → x ≤ℤ c +ℤ pos r
    → (pos (to_local c r x) ≡ x -ℤ (c -ℤ pos r)) × (to_local c r x ≤ 2 * r)
to_local_distance c x r hr lo hi =
    (rw local (pos_of_nonneg edge nonneg), omega (arith, local, small))
  where
    edge : ℤ
    edge = x -ℤ (c -ℤ pos r)

    nonneg : neg_part edge ≡ 0
    nonneg = omega (arith, -ℤ_parts x (c -ℤ pos r), parts_exclusive (x -ℤ (c -ℤ pos r)))

    small : pos_part edge ≤ 2 * r
    small = omega (
      arith,
      -ℤ_parts x (c -ℤ pos r),
      -ℤ_parts c (pos r),
      +ℤ_parts c (pos r),
      parts_exclusive (x -ℤ (c -ℤ pos r)),
    )

    local : to_local c r x ≡ pos_part edge
    local = unfold to_local in to_u8_small edge nonneg (omega (arith, small))

-- Back from a local coordinate that stands for an int32_t.
from_local-to_local :
    (c x : ℤ) (r : ℕ)
    → r ≤ 127
    → IsI32 x
    → c -ℤ pos r ≤ℤ x
    → x ≤ℤ c +ℤ pos r
    → from_local c r (to_local c r x) ≡ x
unfolding from_local
from_local-to_local c x r hr hx lo hi = rw (whole) (to_i32-to_u32 x hx)
  where
    whole : c -ℤ pos r +ℤ pos (to_local c r x) ≡ x
    whole = rw ((to_local_distance c x r hr lo hi).0) (omega int_laws)

-- A chunk of the service area that is sent in local coordinates is understood as that chunk: the
-- radius is at most 127, as `validate_config` demands, and the chunk's coordinates are int32_t.
pub local_to_global-to_local :
    (cfg : Config) (x z : ℤ)
    → cfg.service_radius_chunks ≤ 127
    → IsI32 x
    → IsI32 z
    → contains_chunk cfg x z ≡ true
    → local_to_global cfg (to_local_chunk_x cfg x) (to_local_chunk_z cfg z) ≡ (true, x, z)
unfolding local_to_global to_local_chunk_x to_local_chunk_z from_local_chunk_x from_local_chunk_z
local_to_global-to_local cfg x z hr hx hz h =
    let area = contains_chunk_sound cfg x z h in
    rw
      (
        from_local-to_local cfg.guardian_center_chunk_x x cfg.service_radius_chunks hr hx area.west
            area.east,
        from_local-to_local cfg.guardian_center_chunk_z z cfg.service_radius_chunks hr hz area.north
            area.south,
        h,
      )
      refl
