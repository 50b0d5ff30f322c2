-- ===== src/Building/Invariant.antt =====
-- The invariant of the building registry of Guardian/src/guardian.cpp, and that `upsert_building` keeps it.
use nicechunk_guardian.Base.{
  ◌^◌, ◌≤◌, ◌<◌, ◌≡◌, refl, Bool, true, false, ◌&&◌, ◌||◌, ◌==◌, ◌!=◌, leb, Option, none, some,
  List, arith, All, length, take, Bool-cases, inl, inr,
}
use nicechunk_guardian.Base.Int.{ℤ}
use nicechunk_guardian.Base.Table.{
  lookup, insert_sorted, erase, Ascending, insert_sorted-Ascending, erase-Ascending,
  length-insert_sorted_new, length-insert_sorted_old, length-erase-le,
}
use nicechunk_guardian.Wire.{Bytes}
use nicechunk_guardian.Config.{Config}
use nicechunk_guardian.Protocol.Messages.{BuildingRecord, IsBuildingRecord}
use nicechunk_guardian.Protocol.Buildings.{append_building_records}
use nicechunk_guardian.Building.{valid_building_record, building_record_is_newer}
use nicechunk_guardian.Building.Registry.{
  Registry, records_of, overlaps_other, commit, remove_building, store_building, upsert_building,
}
use nicechunk_guardian.Building.Ordered.{
  Entry, All-insert_sorted, All-erase, Apart, insert_sorted-Apart, erase-Apart,
}

-- An entry is stored under its own key, is valid in the region, and has fields within their types.
abbrev pub IsEntry : Config → ℤ → ℤ → Entry → Type 0
IsEntry cfg x z e =
    (e.0 ≡ e.1.foundation_id) × (valid_building_record cfg x z e.1 ≡ true) × IsBuildingRecord e.1

module _ (sha256 : Bytes → Bytes) (cfg : Config) where
  pub record IsRegistry (s : Registry) : Type 0 where
    pub ascending : Ascending 0 s.building_records
    pub entries : All (IsEntry cfg s.building_region_x s.building_region_z) s.building_records
    pub apart : Apart s.building_records
    pub bounded : length s.building_records ≤ cfg.max_building_records
    pub hashed :
        s.building_hash ≡ take 16 (sha256 (append_building_records (records_of s.building_records)))
    pub revision : s.building_revision < 2 ^ 64

  -- A change of the records that keeps their part of the invariant keeps all of it, once committed.
  commit-IsRegistry :
      (written : Bool) (s : Registry) (m : List Entry)
      → IsRegistry s
      → Ascending 0 m
      → All (IsEntry cfg s.building_region_x s.building_region_z) m
      → Apart m
      → length m ≤ cfg.max_building_records
      → IsRegistry (commit sha256 cfg written (record s { building_records = m }))
  unfolding commit
  commit-IsRegistry written s m v asc ent ap len = ground arith

  remove_building-IsRegistry :
      (written : Bool) (r : BuildingRecord) (s : Registry) (found : Option BuildingRecord)
      → IsRegistry s
      → IsRegistry (remove_building sha256 cfg written r s found).0
  unfolding remove_building
  remove_building-IsRegistry written r s none v = v
  remove_building-IsRegistry written r s (some previous) v =
      elim (Bool-cases (building_record_is_newer r previous)) [
        | inl newer ↦ rw newer kept
        | inr older ↦ rw older v
      ]
    where
      kept : IsRegistry (
          commit sha256 cfg written
            (record s { building_records = erase r.foundation_id s.building_records }))
      kept =
          commit-IsRegistry written s (erase r.foundation_id s.building_records) v
            (erase-Ascending r.foundation_id s.building_records 0 v.ascending)
            (All-erase _ r.foundation_id s.building_records v.entries)
            (erase-Apart r.foundation_id s.building_records v.apart)
            (omega (arith, v.bounded, length-erase-le r.foundation_id s.building_records))

  stored-IsRegistry :
      (written : Bool) (r : BuildingRecord) (s : Registry)
      → IsRegistry s
      → IsBuildingRecord r
      → valid_building_record cfg s.building_region_x s.building_region_z r ≡ true
      → overlaps_other r.foundation_id r s.building_records ≡ false
      → length (insert_sorted r.foundation_id r s.building_records) ≤ cfg.max_building_records
      → IsRegistry (
          commit sha256 cfg written
            (record s { building_records = insert_sorted r.foundation_id r s.building_records }))
  stored-IsRegistry written r s v hr valid clear len =
      commit-IsRegistry written s (insert_sorted r.foundation_id r s.building_records) v
        (insert_sorted-Ascending r.foundation_id r s.building_records 0 (omega arith) v.ascending)
        (All-insert_sorted _ r.foundation_id r s.building_records (refl, valid, hr) v.entries)
        (insert_sorted-Apart r.foundation_id 0 r s.building_records v.ascending clear v.apart) len

  store_building-IsRegistry :
      (written : Bool) (r : BuildingRecord) (s : Registry)
      → IsRegistry s
      → IsBuildingRecord r
      → valid_building_record cfg s.building_region_x s.building_region_z r ≡ true
      → (found : Option BuildingRecord) → lookup r.foundation_id s.building_records ≡ found
      → IsRegistry (store_building sha256 cfg written r s found).0
  unfolding store_building
  store_building-IsRegistry written r s v hr valid none e =
      elim (Bool-cases (leb cfg.max_building_records (length s.building_records))) [
        | inl full ↦ rw full v
        | inr room ↦ elim (Bool-cases (overlaps_other r.foundation_id r s.building_records)) [
          | inl blocked ↦ rw (room, blocked) v
          | inr clear ↦
              rw (room, clear)
                (stored-IsRegistry written r s v hr valid clear
                  (ground (arith, length-insert_sorted_new r.foundation_id r s.building_records e)))
        ]
      ]
  store_building-IsRegistry written r s v hr valid (some previous) e =
      elim (Bool-cases (building_record_is_newer r previous)) [
        | inr older ↦ rw older v
        | inl newer ↦ elim (Bool-cases (overlaps_other r.foundation_id r s.building_records)) [
          | inl blocked ↦ rw (newer, blocked) v
          | inr clear ↦
              rw (newer, clear)
                (stored-IsRegistry written r s v hr valid clear (
                  omega (
                    arith,
                    v.bounded,
                    length-insert_sorted_old r.foundation_id r previous s.building_records 0
                        v.ascending e,
                  )))
        ]
      ]

  -- Whatever record with fields in range is announced, and whether or not the file can be written,
  -- `upsert_building` keeps the invariant: the records rise by key, stand under their ids, are
  -- valid in the region with fields in range, do not overlap one another and are at most
  -- max_building_records, the hash is that of the records, and the revision is a uint64_t.
  pub upsert_building-IsRegistry :
      (written : Bool) (r : BuildingRecord) (s : Registry)
      → IsBuildingRecord r
      → IsRegistry s
      → IsRegistry (upsert_building sha256 cfg written r s).0
  unfolding upsert_building
  upsert_building-IsRegistry written r s hr v =
      elim (Bool-cases (r.foundation_id == 0 || (r.flags != 0 && r.flags != 1))) [
        | inl refused ↦ rw refused v
        | inr known ↦ elim (Bool-cases (r.flags == 0)) [
          | inl gone ↦
              rw (known, gone)
                (remove_building-IsRegistry written r s (lookup r.foundation_id s.building_records)
                  v)
          | inr kept ↦
              elim (Bool-cases
                (valid_building_record cfg s.building_region_x s.building_region_z r)) [
                  | inl valid ↦
                      rw (known, kept, valid)
                        (store_building-IsRegistry written r s v hr valid
                          (lookup r.foundation_id s.building_records) refl)
                  | inr invalid ↦ rw (known, kept, invalid) v
                ]
        ]
      ]
