-- ===== src/Protocol/Buildings.antt =====
-- The building records, region digests and manifest pages of Guardian/src/protocol.cpp.
pub mod RoundTrip
use nicechunk_guardian.Base.{
  ℕ, Option, none, some, ◌&&◌, ◌||◌, ◌==◌, ◌!=◌, ltb, if◌then◌else◌, List, [], ◌∷◌, ◌++◌, length,
  take, drop,
}
use nicechunk_guardian.Wire.{
  Bytes, byte_at, push_u8, rd_u16, rd_u32, rd_u64, rd_i16, rd_i32, wr_u16, wr_u32, wr_u64, wr_i16,
  wr_i32,
}
use nicechunk_guardian.Protocol.{
  msg_building_region_digest, msg_building_manifest_page, msg_building_announce,
}
use nicechunk_guardian.Protocol.Sizes.{
  k_legacy_building_record_size, k_building_record_size, k_building_announce_size,
  k_legacy_building_announce_size, k_building_manifest_page_records,
}
use nicechunk_guardian.Protocol.Messages.{BuildingRecord, BuildingRegionDigest}
use nicechunk_guardian.Protocol.Encode.{concat}

abbrev pub building_record_fields : Bytes → BuildingRecord
building_record_fields p = record {
  foundation_id = rd_u64 p;
  min_x = rd_i32 (drop 8 p);
  min_z = rd_i32 (drop 12 p);
  surface_y = rd_i16 (drop 16 p);
  flags = rd_u16 (drop 18 p);
  width = rd_u32 (drop 20 p);
  depth = rd_u32 (drop 24 p);
  active_revision = rd_u32 (drop 28 p);
  content_hash = take 16 (drop 32 p);
  updated_slot = if length p == k_building_record_size then rd_u64 (drop 48 p) else 0;
}

unfoldable pub decode_building_record : Bytes → Option BuildingRecord
decode_building_record bytes =
    if length bytes != k_building_record_size && length bytes != k_legacy_building_record_size
    then none
    else some (building_record_fields bytes)

unfoldable pub decode_building_announce : Bytes → Option BuildingRecord
unfolding decode_building_record
decode_building_announce bytes =
    if (length bytes == k_building_announce_size || length bytes == k_legacy_building_announce_size)
      && byte_at bytes 0 == msg_building_announce
    then decode_building_record (drop 1 bytes)
    else none

-- What `append_building_record` adds to `out`.
unfoldable pub append_building_record : BuildingRecord → Bytes
append_building_record r = concat (
    wr_u64 r.foundation_id
    ∷ wr_i32 r.min_x
    ∷ wr_i32 r.min_z
    ∷ wr_i16 r.surface_y
    ∷ wr_u16 r.flags
    ∷ wr_u32 r.width
    ∷ wr_u32 r.depth
    ∷ wr_u32 r.active_revision
    ∷ r.content_hash
    ∷ wr_u64 r.updated_slot
    ∷ [])

unfoldable pub append_building_records : List BuildingRecord → Bytes
unfolding append_building_record
append_building_records [] = []
append_building_records (r ∷ rs) = append_building_record r ++ append_building_records rs

unfoldable pub encode_building_region_digest : BuildingRegionDigest → Bytes
encode_building_region_digest msg = concat (
    push_u8 msg_building_region_digest
    ∷ push_u8 3
    ∷ wr_i32 msg.region_x
    ∷ wr_i32 msg.region_z
    ∷ wr_u64 msg.revision
    ∷ wr_u32 msg.record_count
    ∷ msg.hash
    ∷ [])

-- `records` is the vector from the pointer that is passed on.
unfoldable pub encode_building_manifest_page :
    BuildingRegionDigest → ℕ → ℕ → List BuildingRecord → ℕ → Bytes
unfolding append_building_records
encode_building_manifest_page digest page_index page_count records count =
    let n =
      if ltb k_building_manifest_page_records count
      then k_building_manifest_page_records
      else count in
    concat (
      push_u8 msg_building_manifest_page
      ∷ push_u8 3
      ∷ wr_u16 page_index
      ∷ wr_u16 page_count
      ∷ wr_u16 n
      ∷ wr_u32 digest.record_count
      ∷ wr_i32 digest.region_x
      ∷ wr_i32 digest.region_z
      ∷ wr_u64 digest.revision
      ∷ digest.hash
      ∷ append_building_records (take n records)
      ∷ [])

unfoldable pub encode_building_announce : BuildingRecord → Bytes
unfolding append_building_record
encode_building_announce r = push_u8 msg_building_announce ++ append_building_record r
