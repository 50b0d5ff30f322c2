-- ===== src/Building.antt =====
-- Building records: the helpers of Guardian/src/guardian.cpp that compare them, and the test of one record
-- against the region. An int64_t is an integer here: with int32_t and uint32_t operands nothing leaves
-- its range.
pub mod Overlap
pub mod Registry
pub mod Ordered
pub mod Invariant
pub mod Upsert
pub mod Verdict
pub mod Manifest
pub mod Restart
pub mod Reload
use nicechunk_guardian.Base.{
  ℕ, ◌+◌, ◌-◌, ◌*◌, ◌/◌, ◌%◌, ◌^◌, Bool, true, false, ◌&&◌, ◌||◌, not, ◌==◌, ◌!=◌, ltb,
  if◌then◌else◌, List, [], ◌∷◌,
}
use nicechunk_guardian.Base.Int.{ℤ, pos, negsuc, ◌+ℤ◌, ◌-ℤ◌, ◌*ℤ◌, leb_ℤ}
use nicechunk_guardian.Wire.{Bytes}
use nicechunk_guardian.Config.{Config}
use nicechunk_guardian.Protocol.Messages.{BuildingRecord}

-- `floor_div` with a positive divisor: C++ divides towards zero, and the remainder has the sign of
-- the dividend.
unfoldable pub floor_div : ℤ → ℕ → ℤ
floor_div (pos n) divisor = pos (n / divisor)
floor_div (negsuc n) divisor =
    let quotient = pos 0 -ℤ pos ((n + 1) / divisor) in
    if ltb 0 ((n + 1) % divisor) then quotient -ℤ pos 1 else quotient

-- The last column or row that a record covers: `min + size - 1`.
abbrev pub last_of : ℤ → ℕ → ℤ
last_of min size = min +ℤ pos size -ℤ pos 1

unfoldable pub building_rectangles_overlap : BuildingRecord → BuildingRecord → Bool
building_rectangles_overlap left right =
    let left_max_x = last_of left.min_x left.width in
    let left_max_z = last_of left.min_z left.depth in
    let right_max_x = last_of right.min_x right.width in
    let right_max_z = last_of right.min_z right.depth in
    leb_ℤ left.min_x right_max_x
    && leb_ℤ right.min_x left_max_x
    && leb_ℤ left.min_z right_max_z
    && leb_ℤ right.min_z left_max_z

unfoldable pub building_record_is_newer : BuildingRecord → BuildingRecord → Bool
building_record_is_newer next previous =
    if next.updated_slot != 0 || previous.updated_slot != 0
    then ltb previous.updated_slot next.updated_slot
    else ltb previous.active_revision next.active_revision

-- `std::all_of(..., value == 0)`.
unfoldable pub all_zero : Bytes → Bool
all_zero [] = true
all_zero (b ∷ bs) = b == 0 && all_zero bs

-- `a != b` on booleans.
abbrev pub differ : Bool → Bool → Bool
differ true b = not b
differ false b = b

abbrev pub int32_max : ℤ
int32_max = pos (2 ^ 31 - 1)

-- The edges of the region in blocks, from its coordinate in units of 100 chunks.
abbrev pub region_min : Config → ℤ → ℤ
region_min cfg region = region *ℤ pos 100 *ℤ pos cfg.chunk_size_blocks

abbrev pub region_max : Config → ℤ → ℤ
region_max cfg region = (region *ℤ pos 100 +ℤ pos 100) *ℤ pos cfg.chunk_size_blocks -ℤ pos 1

-- `valid_building_record`, with the region's coordinates in place of the members that hold them.
unfoldable pub valid_building_record : Config → ℤ → ℤ → BuildingRecord → Bool
valid_building_record cfg region_x region_z r =
    let max_x = last_of r.min_x r.width in
    let max_z = last_of r.min_z r.depth in
    if r.foundation_id == 0 || r.flags != 1 || ltb r.width 2 || ltb r.depth 2
    then false
    else if differ (r.active_revision == 0) (all_zero r.content_hash)
    then false
    else if not (leb_ℤ max_x int32_max) || not (leb_ℤ max_z int32_max)
    then false
    else leb_ℤ r.min_x (region_max cfg region_x)
      && leb_ℤ (region_min cfg region_x) max_x
      && leb_ℤ r.min_z (region_max cfg region_z)
      && leb_ℤ (region_min cfg region_z) max_z
