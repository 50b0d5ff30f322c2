-- ===== src/Building/Upsert.antt =====
-- What `upsert_building` of Guardian/src/guardian.cpp does to the stored records, on each outcome.
use nicechunk_guardian.Base.{
  ℕ, ◌≡◌, refl, ◌∙◌, Bool, true, false, not, ◌&&◌, ◌||◌, ◌==◌, ◌!=◌, leb, Option, none, some, List,
  arith, length, if◌then◌else◌, Bool-cases, inl, inr, ◌⊎◌,
}
use nicechunk_guardian.Base.Table.{
  lookup, insert_sorted, Ascending, lookup-insert_sorted, lookup-erase,
}
use nicechunk_guardian.Wire.{Bytes}
use nicechunk_guardian.Config.{Config, is_empty}
use nicechunk_guardian.Protocol.Messages.{BuildingRecord}
use nicechunk_guardian.Building.{valid_building_record, building_record_is_newer}
use nicechunk_guardian.Building.Registry.{
  Registry, overlaps_other, building_manifest_binary, save_building_manifest, commit, next_revision,
  remove_building, store_building, upsert_building,
}

-- "Newer" is a strict order: no record is newer than itself, no two records are each newer than the
-- other, and there is no record that is newer than a second, which is newer than a third, without being
-- newer than the third.
pub building_record_is_newer_strict :
    (a b c : BuildingRecord)
    → (building_record_is_newer a a ≡ false)
      × ((building_record_is_newer a b && building_record_is_newer b a) ≡ false)
      × ((building_record_is_newer a b
            && building_record_is_newer b c
            && not (building_record_is_newer a c))
          ≡ false)
unfolding building_record_is_newer
building_record_is_newer_strict a b c = (ground arith, ground arith, ground arith)

-- What the map holds under `j` after a record was accepted: under its own key the record, or nothing if
-- it takes the building away, and under every other key what was there.
abbrev pub after_upsert : BuildingRecord → Registry → ℕ → Option BuildingRecord
after_upsert r s j =
    if r.foundation_id == j
    then (if r.flags == 0 then none else some r)
    else lookup j s.building_records

-- The file after a save is the manifest of the registry after it, or is left alone.
save_file :
    (cfg : Config) (written : Bool) (s : Registry)
    → (save_building_manifest cfg written s).manifest_file ≡ (
        if not (is_empty cfg.building_manifest_file) && written
        then some (building_manifest_binary (save_building_manifest cfg written s))
        else s.manifest_file)
unfolding save_building_manifest building_manifest_binary
save_file cfg true s = elim (Bool-cases (is_empty cfg.building_manifest_file)) [
  | inl none_set ↦ rw none_set
  | inr path_set ↦ rw path_set
]
save_file cfg false s = elim (Bool-cases (is_empty cfg.building_manifest_file)) [
  | inl none_set ↦ rw none_set
  | inr path_set ↦ rw path_set
]

module _ (sha256 : Bytes → Bytes) (cfg : Config) (written : Bool) where
  -- The changes that an accepted record makes.
  pub record Accepted (r : BuildingRecord) (s t : Registry) : Type 0 where
    pub records : (j : ℕ) → lookup j t.building_records ≡ after_upsert r s j
    pub revision : t.building_revision ≡ next_revision s.building_revision
    pub region :
        (t.building_region_x ≡ s.building_region_x) × (t.building_region_z ≡ s.building_region_z)
    pub file : t.manifest_file ≡ (
        if not (is_empty cfg.building_manifest_file) && written
        then some (building_manifest_binary t)
        else s.manifest_file)

  -- The outcome of a call: refused with the registry as it was, or accepted.
  abbrev pub Outcome : BuildingRecord → Registry → Registry × Bool → Type 0
  Outcome r s (t, done) = ((done ≡ false) × (t ≡ s)) ⊎ ((done ≡ true) × Accepted r s t)

  commit-Accepted :
      (r : BuildingRecord) (s : Registry) (m : List (ℕ × BuildingRecord))
      → ((j : ℕ) → lookup j m ≡ after_upsert r s j)
      → Accepted r s (commit sha256 cfg written (record s { building_records = m }))
  unfolding commit
  commit-Accepted r s m h = record {
    records = λ j. ground (arith, h j);
    revision = ground arith;
    region = (ground arith, ground arith);
    file = save_file cfg written _;
  }

  remove_building-Outcome :
      (r : BuildingRecord) (s : Registry) (found : Option BuildingRecord)
      → (r.flags == 0) ≡ true
      → Outcome r s (remove_building sha256 cfg written r s found)
  unfolding remove_building
  remove_building-Outcome r s none gone = inl (refl, refl)
  remove_building-Outcome r s (some previous) gone =
      elim (Bool-cases (building_record_is_newer r previous)) [
        | inl newer ↦ rw newer (
            inr (
              refl,
              commit-Accepted r s _
                  (λ j. lookup-erase r.foundation_id j s.building_records ∙ rw gone),
            ))
        | inr older ↦ rw older (inl (refl, refl))
      ]

  stored-Accepted :
      (r : BuildingRecord) (s : Registry)
      → Ascending 0 s.building_records
      → (r.flags == 0) ≡ false
      → Accepted r s (
          commit sha256 cfg written
            (record s { building_records = insert_sorted r.foundation_id r s.building_records }))
  stored-Accepted r s asc kept =
      commit-Accepted r s _
        (λ j. lookup-insert_sorted r.foundation_id j r s.building_records 0 asc ∙ rw kept)

  store_building-Outcome :
      (r : BuildingRecord) (s : Registry) (found : Option BuildingRecord)
      → Ascending 0 s.building_records
      → (r.flags == 0) ≡ false
      → Outcome r s (store_building sha256 cfg written r s found)
  unfolding store_building
  store_building-Outcome r s none asc kept =
      elim (Bool-cases (leb cfg.max_building_records (length s.building_records))) [
        | inl full ↦ rw full (inl (refl, refl))
        | inr room ↦ elim (Bool-cases (overlaps_other r.foundation_id r s.building_records)) [
          | inl blocked ↦ rw (room, blocked) (inl (refl, refl))
          | inr clear ↦ rw (room, clear) (inr (refl, stored-Accepted r s asc kept))
        ]
      ]
  store_building-Outcome r s (some previous) asc kept =
      elim (Bool-cases (building_record_is_newer r previous)) [
        | inr older ↦ rw older (inl (refl, refl))
        | inl newer ↦ elim (Bool-cases (overlaps_other r.foundation_id r s.building_records)) [
          | inl blocked ↦ rw (newer, blocked) (inl (refl, refl))
          | inr clear ↦ rw (newer, clear) (inr (refl, stored-Accepted r s asc kept))
        ]
      ]

  -- A call of `upsert_building` on records in the order of their keys either answers false and changes
  -- nothing, the revision and the file included, or answers true, and then exactly the entry under the
  -- record's key has changed, the revision has moved on and the file, if it could be written, holds the
  -- new manifest.
  pub upsert_building-Outcome :
      (r : BuildingRecord) (s : Registry)
      → Ascending 0 s.building_records
      → Outcome r s (upsert_building sha256 cfg written r s)
  unfolding upsert_building
  upsert_building-Outcome r s asc =
      elim (Bool-cases (r.foundation_id == 0 || (r.flags != 0 && r.flags != 1))) [
        | inl refused ↦ rw refused (inl (refl, refl))
        | inr known ↦ elim (Bool-cases (r.flags == 0)) [
          | inl gone ↦
              rw (known, gone)
                (remove_building-Outcome r s (lookup r.foundation_id s.building_records) gone)
          | inr kept ↦
              elim (Bool-cases
                (valid_building_record cfg s.building_region_x s.building_region_z r)) [
                  | inl valid ↦
                      rw (known, kept, valid)
                        (store_building-Outcome r s (lookup r.foundation_id s.building_records) asc
                          kept)
                  | inr invalid ↦ rw (known, kept, invalid) (inl (refl, refl))
                ]
        ]
      ]
