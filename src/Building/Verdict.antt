-- ===== src/Building/Verdict.antt =====
-- When `upsert_building` of Guardian/src/guardian.cpp refuses an announcement, and when it accepts one.
use nicechunk_guardian.Base.{
  ℕ, suc, ◌≤◌, ◌<◌, ◌≡◌, ◌≢◌, refl, Bool, true, false, ◌||◌, ◌==◌, ◌!=◌, ltb, none, some, List, [],
  ◌∷◌, arith, length, Bool-cases, inl, inr,
}
use nicechunk_guardian.Base.Table.{lookup_below, lookup, Ascending}
use nicechunk_guardian.Wire.{Bytes}
use nicechunk_guardian.Config.{Config}
use nicechunk_guardian.Protocol.Messages.{BuildingRecord}
use nicechunk_guardian.Base.Int.{ℤ}
use nicechunk_guardian.Building.{
  valid_building_record, building_record_is_newer, building_rectangles_overlap,
}
use nicechunk_guardian.Building.Overlap.{Covers}
use nicechunk_guardian.Building.Registry.{
  Registry, overlaps_other, remove_building, store_building, upsert_building,
}

lookup-cons_above :
    (j k : ℕ) (w e : BuildingRecord) (m : List (ℕ × BuildingRecord))
    → Ascending (suc k) m
    → lookup j m ≡ some e
    → lookup j ((k, w) ∷ m) ≡ some e
unfolding lookup
lookup-cons_above j k w e m asc found = ground (arith, lookup_below j m (suc k) asc)

-- The converse, for records in the order of their keys.
overlaps_other_clear :
    (id lo : ℕ) (r : BuildingRecord) (m : List (ℕ × BuildingRecord))
    → Ascending lo m
    → ((j : ℕ) (e : BuildingRecord)
        → lookup j m ≡ some e
        → j ≢ id
        → building_rectangles_overlap e r ≡ false)
    → overlaps_other id r m ≡ false
unfolding overlaps_other
overlaps_other_clear id lo r [] asc h = refl
overlaps_other_clear id lo r ((k, w) ∷ m) asc h =
    let tail_clear =
      overlaps_other_clear id (suc k) r m asc.1
        (λ j e found ne. h j e (lookup-cons_above j k w e m asc.1 found) ne) in
    elim (Bool-cases (k == id)) [
      | inl same ↦ rw same tail_clear
      | inr other ↦ rw (other, h k w (unfold lookup in ground arith) (ground arith)) tail_clear
    ]

module _ (sha256 : Bytes → Bytes) (cfg : Config) (written : Bool) where
  -- Reasons for which an announcement has to be refused.
  pub data Problem (r : BuildingRecord) (s : Registry) : Type 0 where
    stale :
        (previous : BuildingRecord)
        → lookup r.foundation_id s.building_records ≡ some previous
        → building_record_is_newer r previous ≡ false
        → Problem r s
    unknown_removal : r.flags ≡ 0 → lookup r.foundation_id s.building_records ≡ none → Problem r s
    no_room :
        r.flags ≡ 1
        → lookup r.foundation_id s.building_records ≡ none
        → cfg.max_building_records ≤ length s.building_records
        → Problem r s
    occupied :
        (j : ℕ) (existing : BuildingRecord) (x z : ℤ)
        → r.flags ≡ 1
        → lookup j s.building_records ≡ some existing
        → j ≢ r.foundation_id
        → Covers existing x z
        → Covers r x z
        → Problem r s

  -- The announcements that have to be accepted.
  pub data Welcome (r : BuildingRecord) (s : Registry) : Type 0 where
    removes :
        (previous : BuildingRecord)
        → r.foundation_id ≢ 0
        → r.flags ≡ 0
        → lookup r.foundation_id s.building_records ≡ some previous
        → building_record_is_newer r previous ≡ true
        → Welcome r s
    creates :
        valid_building_record cfg s.building_region_x s.building_region_z r ≡ true
        → lookup r.foundation_id s.building_records ≡ none
        → length s.building_records < cfg.max_building_records
        → Welcome r s
    replaces :
        (previous : BuildingRecord)
        → valid_building_record cfg s.building_region_x s.building_region_z r ≡ true
        → lookup r.foundation_id s.building_records ≡ some previous
        → building_record_is_newer r previous ≡ true
        → Welcome r s

  -- A valid record has a key and stands for a building.
  valid_building_record-known :
      (x z : ℤ) (r : BuildingRecord)
      → valid_building_record cfg x z r ≡ true
      → (r.foundation_id ≢ 0) × (r.flags ≡ 1)
  unfolding valid_building_record
  valid_building_record-known x z r h =
      elim (Bool-cases (r.foundation_id == 0 || r.flags != 1 || ltb r.width 2 || ltb r.depth 2)) [
        | inl bad ↦ cc (rw bad at h)
        | inr good ↦ ground arith
      ]

  -- On records in the order of their keys, a newer removal of a known building, a valid new building while
  -- there is room, and a valid newer record of a known one are accepted, if the record overlaps no
  -- building under another key.
  pub upsert_building_accepts :
      (r : BuildingRecord) (s : Registry)
      → Ascending 0 s.building_records
      → ((j : ℕ) (e : BuildingRecord)
          → lookup j s.building_records ≡ some e
          → j ≢ r.foundation_id
          → building_rectangles_overlap e r ≡ false)
      → Welcome r s
      → (upsert_building sha256 cfg written r s).1 ≡ true
  unfolding upsert_building
  upsert_building_accepts r s asc clear (removes previous id gone e newer) =
      rw (e, upsert_building) (unfold remove_building in ground arith)
  upsert_building_accepts r s asc clear (creates valid e room) =
      let (id, kept) =
        valid_building_record-known s.building_region_x s.building_region_z r valid in
      let free = overlaps_other_clear r.foundation_id 0 r s.building_records asc clear in
      rw (e, valid, upsert_building) (unfold store_building in ground arith)
  upsert_building_accepts r s asc clear (replaces previous valid e newer) =
      let (id, kept) =
        valid_building_record-known s.building_region_x s.building_region_z r valid in
      let free = overlaps_other_clear r.foundation_id 0 r s.building_records asc clear in
      rw (e, valid, upsert_building) (unfold store_building in ground arith)
