-- ===== src/Building/Manifest.antt =====
-- `load_building_manifest` of Guardian/src/guardian.cpp, and the members that the constructor sets before
-- it. The file is what `manifest_file` holds; it is absent also when no path is set.
use nicechunk_guardian.Base.{
  ℕ, zero, suc, ◌+◌, ◌*◌, Bool, true, false, ◌&&◌, ◌||◌, not, ◌==◌, ◌!=◌, ltb, leb, if◌then◌else◌,
  Option, none, some, List, [], ◌∷◌, length, take, drop,
}
use nicechunk_guardian.Base.Int.{ℤ, eqb_ℤ}
use nicechunk_guardian.Base.Table.{insert_sorted}
use nicechunk_guardian.Wire.{Bytes, rd_u16, rd_u32, rd_u64, rd_i32}
use nicechunk_guardian.Config.{Config, codes, is_empty}
use nicechunk_guardian.Protocol.Messages.{BuildingRecord}
use nicechunk_guardian.Protocol.Sizes.{k_legacy_building_record_size, k_building_record_size}
use nicechunk_guardian.Protocol.Buildings.{decode_building_record}
use nicechunk_guardian.Building.{floor_div, building_rectangles_overlap, valid_building_record}
use nicechunk_guardian.Building.Registry.{
  Registry, next_revision, save_building_manifest, recompute_building_hash,
}

-- Does a loaded record overlap this one?
unfoldable pub overlaps_loaded : BuildingRecord → List (ℕ × BuildingRecord) → Bool
overlaps_loaded r [] = false
overlaps_loaded r ((j, existing) ∷ m) =
    building_rectangles_overlap existing r || overlaps_loaded r m

abbrev pub is_empty_map : List (ℕ × BuildingRecord) → Bool
is_empty_map [] = true
is_empty_map (e ∷ m) = false

-- `n` rounds of the loop, from `index` on. `loaded.clear(); break;` gives the empty map.
unfoldable pub load_records :
    Config → ℤ → ℤ → Bytes → ℕ → ℕ → ℕ → List (ℕ × BuildingRecord) → List (ℕ × BuildingRecord)
unfolding overlaps_loaded
load_records cfg x z bytes size zero index loaded = loaded
load_records cfg x z bytes size (suc n) index loaded =
    elim (decode_building_record (take size (drop (48 + index * size) bytes))) [
      | none ↦ []
      | some r ↦
          let kept = if overlaps_loaded r loaded then [] else loaded in
          let rest =
            load_records cfg x z bytes size n (index + 1) (insert_sorted r.foundation_id r kept) in
          if not (valid_building_record cfg x z r)
          then []
          else if is_empty_map kept && index != 0
          then kept
          else rest
    ]

-- `bytes.compare(0, n, text) == 0`.
unfoldable pub starts_with : Bytes → Bytes → Bool
starts_with [] bytes = true
starts_with (c ∷ text) [] = false
starts_with (c ∷ text) (b ∷ bytes) = c == b && starts_with text bytes

-- The members before the file is loaded: the region from the centre, no records, revision 0.
abbrev pub empty_registry : Config → Option Bytes → Registry
empty_registry cfg file = record {
  building_region_x = floor_div cfg.guardian_center_chunk_x 100;
  building_region_z = floor_div cfg.guardian_center_chunk_z 100;
  building_revision = 0;
  building_hash = zeros;
  building_records = [];
  manifest_file = file;
}
  where
    zeros : Bytes
    zeros = 0 ∷ 0 ∷ 0 ∷ 0 ∷ 0 ∷ 0 ∷ 0 ∷ 0 ∷ 0 ∷ 0 ∷ 0 ∷ 0 ∷ 0 ∷ 0 ∷ 0 ∷ 0 ∷ []

module _ (sha256 : Bytes → Bytes) where
  -- From the header on, of a file with one of the three marks.
  unfoldable pub load_marked : Config → Bool → Registry → Bytes → Bool → Bool → Registry
  unfolding load_records recompute_building_hash save_building_manifest next_revision
  load_marked cfg written s bytes legacy current =
      let version = rd_u16 (drop 8 bytes) in
      let record_size = rd_u16 (drop 10 bytes) in
      let region_x = rd_i32 (drop 12 bytes) in
      let region_z = rd_i32 (drop 16 bytes) in
      let revision = rd_u64 (drop 20 bytes) in
      let count = rd_u32 (drop 28 bytes) in
      let expected_record_size =
        if legacy then k_legacy_building_record_size else k_building_record_size in
      let expected_version : ℕ = if legacy then 1 else if current then 3 else 2 in
      let loaded =
        load_records cfg s.building_region_x s.building_region_z bytes expected_record_size count 0
          [] in
      let filled = record s {
        building_records = loaded;
        building_revision = if current then revision else next_revision revision;
      } in
      if version != expected_version
        || record_size != expected_record_size
        || not (eqb_ℤ region_x s.building_region_x)
        || not (eqb_ℤ region_z s.building_region_z)
        || ltb cfg.max_building_records count
        || length bytes != 48 + count * expected_record_size
      then recompute_building_hash sha256 s
      else if length loaded != count
      then recompute_building_hash sha256 s
      else if current
      then recompute_building_hash sha256 filled
      else save_building_manifest cfg written (recompute_building_hash sha256 filled)

  unfoldable pub load_building_manifest : Config → Bool → Registry → Registry
  unfolding load_marked starts_with
  load_building_manifest cfg written s =
      if is_empty cfg.building_manifest_file
      then recompute_building_hash sha256 s
      else elim s.manifest_file [
        | none ↦ recompute_building_hash sha256 s
        | some bytes ↦
            let long = leb 48 (length bytes) in
            let legacy = long && starts_with (codes "NCKBRG01") bytes in
            let version_two = long && starts_with (codes "NCKBRG02") bytes in
            let current = long && starts_with (codes "NCKBRG03") bytes in
            if not legacy && not version_two && not current
            then recompute_building_hash sha256 s
            else load_marked cfg written s bytes legacy current
      ]

  -- What the constructor leaves.
  unfoldable pub start_registry : Config → Bool → Option Bytes → Registry
  unfolding load_building_manifest
  start_registry cfg written file = load_building_manifest cfg written (empty_registry cfg file)
