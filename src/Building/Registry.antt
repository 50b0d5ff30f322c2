-- ===== src/Building/Registry.antt =====
-- The building registry of GuardianState (Guardian/src/guardian.h and Guardian/src/guardian.cpp): the
-- members that begin with building_, and the file that they are saved to. A std::map is a list of entries
-- in the order of the keys. SHA-256 is OpenSSL's, so it is a parameter; its failures, which the code
-- turns into an exception, are left out.
use nicechunk_guardian.Base.{
  ℕ, zero, suc, ◌+◌, ◌*◌, ◌/◌, ◌^◌, ◌-◌, Bool, true, false, ◌&&◌, ◌||◌, not, ◌==◌, ◌!=◌, ltb, leb,
  if◌then◌else◌, Option, none, some, List, [], ◌∷◌, length, take, drop, min, max,
}
use nicechunk_guardian.Base.Int.{ℤ, to_u32}
use nicechunk_guardian.Base.Table.{lookup, insert_sorted, erase}
use nicechunk_guardian.Wire.{Bytes, wr_u16, wr_u32, wr_u64}
use nicechunk_guardian.Config.{Config, codes, is_empty}
use nicechunk_guardian.Protocol.Messages.{BuildingRecord, BuildingRegionDigest}
use nicechunk_guardian.Protocol.Sizes.{k_building_record_size, k_building_manifest_page_records}
use nicechunk_guardian.Protocol.Encode.{concat}
use nicechunk_guardian.Protocol.Buildings.{append_building_records, encode_building_manifest_page}
use nicechunk_guardian.Building.{
  building_rectangles_overlap, building_record_is_newer, valid_building_record,
}

pub record Registry : Type 0 where
  pub building_region_x : ℤ
  pub building_region_z : ℤ
  pub building_revision : ℕ
  pub building_hash : Bytes
  pub building_records : List (ℕ × BuildingRecord)
  -- What the file at `cfg_.building_manifest_file` holds, if there is one.
  pub manifest_file : Option Bytes

-- The records in the order in which the loops visit them.
abbrev pub records_of : List (ℕ × BuildingRecord) → List BuildingRecord
records_of [] = []
records_of ((id, r) ∷ m) = r ∷ records_of m

-- The test of the two loops of `upsert_building`: does a record under another key overlap this one?
unfoldable pub overlaps_other : ℕ → BuildingRecord → List (ℕ × BuildingRecord) → Bool
overlaps_other id r [] = false
overlaps_other id r ((j, existing) ∷ m) =
    j != id && building_rectangles_overlap existing r || overlaps_other id r m

unfoldable pub building_digest : Registry → BuildingRegionDigest
building_digest s = record {
  region_x = s.building_region_x;
  region_z = s.building_region_z;
  revision = s.building_revision;
  record_count = length s.building_records;
  hash = s.building_hash;
}

unfoldable pub building_manifest_binary : Registry → Bytes
building_manifest_binary s = concat (
    codes "NCKBRG03"
    ∷ wr_u16 3
    ∷ wr_u16 k_building_record_size
    ∷ wr_u32 (to_u32 s.building_region_x)
    ∷ wr_u32 (to_u32 s.building_region_z)
    ∷ wr_u64 s.building_revision
    ∷ wr_u32 (length s.building_records)
    ∷ s.building_hash
    ∷ append_building_records (records_of s.building_records)
    ∷ [])

-- `building_revision_ == UINT64_MAX ? 1 : building_revision_ + 1`.
unfoldable pub next_revision : ℕ → ℕ
next_revision revision = if revision == 2 ^ 64 - 1 then 1 else revision + 1

-- `written` says whether the file was written and renamed; the code goes on in either case.
unfoldable pub save_building_manifest : Config → Bool → Registry → Registry
save_building_manifest cfg written s =
    if is_empty cfg.building_manifest_file
    then s
    else if written
    then record s { manifest_file = some (building_manifest_binary s) }
    else s

module _ (sha256 : Bytes → Bytes) where
  -- The first 16 bytes of the digest of all packed records.
  unfoldable pub recompute_building_hash : Registry → Registry
  recompute_building_hash s = record s {
    building_hash = take 16 (sha256 (append_building_records (records_of s.building_records)));
  }

  -- What follows every change of the records.
  unfoldable pub commit : Config → Bool → Registry → Registry
  unfolding recompute_building_hash save_building_manifest next_revision
  commit cfg written s =
      save_building_manifest cfg written (
        recompute_building_hash
          (record s { building_revision = next_revision s.building_revision }))

  -- The branch of a record with flags 0, which takes a building away.
  unfoldable pub remove_building :
      Config → Bool → BuildingRecord → Registry → Option BuildingRecord → Registry × Bool
  unfolding commit
  remove_building cfg written r s none = (s, false)
  remove_building cfg written r s (some previous) =
      if not (building_record_is_newer r previous) then (s, false) else (
        commit cfg written
            (record s { building_records = erase r.foundation_id s.building_records }),
        true,
      )

  -- The branch of a valid record, with what is stored under its key.
  unfoldable pub store_building :
      Config → Bool → BuildingRecord → Registry → Option BuildingRecord → Registry × Bool
  unfolding commit
  store_building cfg written r s found =
      let stored =
        commit cfg written
          (record s { building_records = insert_sorted r.foundation_id r s.building_records }) in
      let blocked = overlaps_other r.foundation_id r s.building_records in
      elim found [
        | some previous ↦
            if not (building_record_is_newer r previous)
            then (s, false)
            else if blocked
            then (s, false)
            else (stored, true)
        | none ↦
            if leb cfg.max_building_records (length s.building_records)
            then (s, false)
            else if blocked
            then (s, false)
            else (stored, true)
      ]

  unfoldable pub upsert_building : Config → Bool → BuildingRecord → Registry → Registry × Bool
  unfolding remove_building store_building
  upsert_building cfg written r s =
      let found = lookup r.foundation_id s.building_records in
      if r.foundation_id == 0 || (r.flags != 0 && r.flags != 1)
      then (s, false)
      else if r.flags == 0
      then remove_building cfg written r s found
      else if not (valid_building_record cfg s.building_region_x s.building_region_z r)
      then (s, false)
      else store_building cfg written r s found

-- The pages from `page` on, `n` of them.
unfoldable pub manifest_pages_from :
    ℕ → ℕ → ℕ → BuildingRegionDigest → List BuildingRecord → List Bytes
manifest_pages_from zero page page_count digest records = []
manifest_pages_from (suc n) page page_count digest records =
    let start = page * k_building_manifest_page_records in
    let count =
      if ltb start (length records)
      then min k_building_manifest_page_records (length records - start)
      else 0 in
    encode_building_manifest_page digest page page_count (drop start records) count
    ∷ manifest_pages_from n (page + 1) page_count digest records

-- `page` is a uint16_t below a count of at most 65535, so it does not wrap.
unfoldable pub building_manifest_pages : Registry → List Bytes
unfolding manifest_pages_from building_digest
building_manifest_pages s =
    let records = records_of s.building_records in
    let page_count =
      min
        (max 1 (
          (length records + k_building_manifest_page_records - 1)
          / k_building_manifest_page_records))
        65535 in
    manifest_pages_from page_count 0 page_count (building_digest s) records
