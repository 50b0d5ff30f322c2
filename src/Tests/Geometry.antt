-- ===== src/Tests/Geometry.antt =====
-- Concrete chunks of Guardian/src/chunk.cpp and Guardian/src/aoi.cpp around the default centre (0, 0).
use nicechunk_guardian.Base.{
  ◌+◌, ◌*◌, ◌<◌, ◌≡◌, refl, ◌↔◌, true, false, not, ◌&&◌, if◌then◌else◌, length, arith,
}
use nicechunk_guardian.Base.Int.{ℤ, pos, negsuc, ◌+ℤ◌, ◌-ℤ◌}
use nicechunk_guardian.Config.{default_config}
use nicechunk_guardian.Protocol.Messages.{BuildingRecord}
use nicechunk_guardian.Chunk.{
  contains_chunk, diameter, to_local_chunk_x, to_local_chunk_z, local_chunk_index, local_to_global,
}
use nicechunk_guardian.Chunk.Local.{local_to_global-to_local}
use nicechunk_guardian.Chunk.Index.{
  local_chunk_index-lt, local_chunk_index_injective, chunk_key_injective,
}
use nicechunk_guardian.Aoi.{build_aoi_offsets}
use nicechunk_guardian.Aoi.Offsets.{build_aoi_offsets_square, occurrences, is_near}
use nicechunk_guardian.Building.{building_rectangles_overlap, building_record_is_newer}
use nicechunk_guardian.Building.Overlap.{Covers, building_rectangles_overlap_iff}
use nicechunk_guardian.Building.Upsert.{building_record_is_newer_strict}
use nicechunk_guardian.Tests.Wire.{some_building}

pub in_area : contains_chunk default_config (negsuc 4) (pos 6) ≡ true
unfolding contains_chunk ◌+ℤ◌ ◌-ℤ◌
in_area = refl

local_to_global-to_local_example :
    local_to_global default_config
      (to_local_chunk_x default_config (negsuc 4))
      (to_local_chunk_z default_config (pos 6))
    ≡ (true, negsuc 4, pos 6)
local_to_global-to_local_example =
    local_to_global-to_local default_config (negsuc 4) (pos 6) (omega arith) (ground arith)
      (ground arith) in_area

local_chunk_index-lt_example :
    local_chunk_index default_config (negsuc 4) (pos 6)
    < diameter default_config * diameter default_config
local_chunk_index-lt_example =
    local_chunk_index-lt default_config (negsuc 4) (pos 6) (omega arith) in_area

local_chunk_index_injective_example : (negsuc 4 ≡ negsuc 4) × (pos 6 ≡ pos 6)
local_chunk_index_injective_example =
    local_chunk_index_injective default_config (negsuc 4) (pos 6) (negsuc 4) (pos 6) (omega arith)
      in_area in_area refl

chunk_key_injective_example : (negsuc 4 ≡ negsuc 4) × (pos 6 ≡ pos 6)
chunk_key_injective_example =
    chunk_key_injective (negsuc 4) (pos 6) (negsuc 4) (pos 6) (ground arith) (ground arith)
      (ground arith) (ground arith) refl

build_aoi_offsets_square_example :
    (length (build_aoi_offsets 7) ≡ (7 * 2 + 1) * (7 * 2 + 1))
    × (occurrences (negsuc 4) (pos 6) (build_aoi_offsets 7)
        ≡ (if is_near 7 (negsuc 4) && is_near 7 (pos 6) then 1 else 0))
build_aoi_offsets_square_example = build_aoi_offsets_square 7 (negsuc 4) (pos 6) (omega arith)

building_rectangles_overlap_iff_example :
    (building_rectangles_overlap some_building some_building ≡ true)
    ↔ ((x : ℤ) × (z : ℤ) × Covers some_building x z × Covers some_building x z)
building_rectangles_overlap_iff_example =
    building_rectangles_overlap_iff some_building some_building
      (record { width = omega arith; depth = omega arith })
      (record { width = omega arith; depth = omega arith })

abbrev newer_building : BuildingRecord
newer_building = record some_building { updated_slot = 4294967298 }

abbrev newest_building : BuildingRecord
newest_building = record some_building { updated_slot = 4294967299 }

building_record_is_newer_strict_example :
    (building_record_is_newer newest_building newest_building ≡ false)
    × ((building_record_is_newer newest_building newer_building
          && building_record_is_newer newer_building newest_building)
        ≡ false)
    × ((building_record_is_newer newest_building newer_building
          && building_record_is_newer newer_building some_building
          && not (building_record_is_newer newest_building some_building))
        ≡ false)
building_record_is_newer_strict_example =
    building_record_is_newer_strict newest_building newer_building some_building
