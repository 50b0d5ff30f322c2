-- ===== src/Chunk.antt =====
-- The geometry of the service area: Guardian/src/chunk.cpp, with `local_to_global` of
-- Guardian/src/guardian.cpp. An int64_t is an integer here: with int32_t coordinates and a uint16_t
-- radius nothing leaves its range.
pub mod Local
pub mod Index
use nicechunk_guardian.Base.{ℕ, ◌+◌, ◌*◌, ◌%◌, ◌^◌, Bool, ◌&&◌, bit_or}
use nicechunk_guardian.Base.Int.{ℤ, pos, ◌+ℤ◌, ◌-ℤ◌, leb_ℤ, to_u32, to_i32, to_u8}
use nicechunk_guardian.Config.{Config}

unfoldable pub chunk_key : ℤ → ℤ → ℕ
chunk_key chunk_x chunk_z = bit_or (to_u32 chunk_x * 2 ^ 32 % 2 ^ 64) (to_u32 chunk_z)

unfoldable pub contains_chunk : Config → ℤ → ℤ → Bool
contains_chunk cfg chunk_x chunk_z =
    let cx = cfg.guardian_center_chunk_x in
    let cz = cfg.guardian_center_chunk_z in
    let r = pos cfg.service_radius_chunks in
    leb_ℤ (cx -ℤ r) chunk_x
    && leb_ℤ chunk_x (cx +ℤ r)
    && leb_ℤ (cz -ℤ r) chunk_z
    && leb_ℤ chunk_z (cz +ℤ r)

-- Both coordinates are made local, and global again, in the same way.
unfoldable pub to_local : ℤ → ℕ → ℤ → ℕ
to_local center radius chunk = to_u8 (chunk -ℤ (center -ℤ pos radius))

unfoldable pub from_local : ℤ → ℕ → ℕ → ℤ
from_local center radius local_chunk = to_i32 (to_u32 (center -ℤ pos radius +ℤ pos local_chunk))

unfoldable pub to_local_chunk_x : Config → ℤ → ℕ
unfolding to_local
to_local_chunk_x cfg chunk_x =
    to_local cfg.guardian_center_chunk_x cfg.service_radius_chunks chunk_x

unfoldable pub to_local_chunk_z : Config → ℤ → ℕ
unfolding to_local
to_local_chunk_z cfg chunk_z =
    to_local cfg.guardian_center_chunk_z cfg.service_radius_chunks chunk_z

unfoldable pub from_local_chunk_x : Config → ℕ → ℤ
unfolding from_local
from_local_chunk_x cfg local_chunk_x =
    from_local cfg.guardian_center_chunk_x cfg.service_radius_chunks local_chunk_x

unfoldable pub from_local_chunk_z : Config → ℕ → ℤ
unfolding from_local
from_local_chunk_z cfg local_chunk_z =
    from_local cfg.guardian_center_chunk_z cfg.service_radius_chunks local_chunk_z

-- The side of the service area, a uint32_t.
unfoldable pub diameter : Config → ℕ
diameter cfg = (cfg.service_radius_chunks * 2 + 1) % 2 ^ 32

unfoldable pub local_chunk_index : Config → ℤ → ℤ → ℕ
unfolding diameter to_local_chunk_x to_local_chunk_z
local_chunk_index cfg chunk_x chunk_z =
    (to_local_chunk_z cfg chunk_z * diameter cfg + to_local_chunk_x cfg chunk_x) % 2 ^ 32

-- The result, and what is stored through `chunk_x` and `chunk_z`.
unfoldable pub local_to_global : Config → ℕ → ℕ → Bool × ℤ × ℤ
unfolding contains_chunk from_local_chunk_x from_local_chunk_z
local_to_global cfg local_x local_z =
    let x = from_local_chunk_x cfg local_x in
    let z = from_local_chunk_z cfg local_z in (contains_chunk cfg x z, x, z)
