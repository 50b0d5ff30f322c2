-- ===== src/Building/Reload.antt =====
-- The header of the manifest file: what `building_manifest_binary` of Guardian/src/guardian.cpp writes is
-- what `load_building_manifest` reads, so that a restart gives the registry back.
use nicechunk_guardian.Base.{
  ℕ, suc, ◌+◌, ◌*◌, ◌^◌, ◌≤◌, ◌<◌, ◌≡◌, refl, sym, ap, ◌∙◌, Bool, true, false, ltb, leb, some, List,
  [], ◌∷◌, ◌++◌, arith, All, length, take, drop, append-nil, length-append, get_elem?, drop-drop,
  drop_advance, ==-refl,
}
use nicechunk_guardian.Base.Int.{ℤ, IsI32, eqb_ℤ, eqb_ℤ_iff, to_u32}
use nicechunk_guardian.Wire.{Bytes, wr_u16, wr_u32, wr_u64, wr_i32, rd_u16, rd_u32, rd_u64, rd_i32}
use nicechunk_guardian.Wire.Words.{
  length-wr_u16, length-wr_u32, length-wr_u64, rd_u16-wr_u16, rd_u32-wr_u32, rd_u64-wr_u64,
  rd_i32-wr_i32,
}
use nicechunk_guardian.Config.{Config, codes, is_empty}
use nicechunk_guardian.Protocol.Messages.{BuildingRecord, IsBuildingRecord}
use nicechunk_guardian.Protocol.Buildings.{append_building_records, decode_building_record}
use nicechunk_guardian.Protocol.Buildings.RoundTrip.{
  decode_building_record-append_building_records, length-append_building_records,
}
use nicechunk_guardian.Building.{floor_div}
use nicechunk_guardian.Building.Registry.{
  Registry, records_of, building_manifest_binary, recompute_building_hash,
}
use nicechunk_guardian.Building.Ordered.{Entry}
use nicechunk_guardian.Building.Invariant.{IsEntry, IsRegistry}
use nicechunk_guardian.Building.Manifest.{load_records, load_marked, empty_registry, start_registry}
use nicechunk_guardian.Building.Restart.{load_records-All}

eqb_ℤ_refl : (a : ℤ) → eqb_ℤ a a ≡ true
eqb_ℤ_refl a = (eqb_ℤ_iff a a).1 refl

-- A current file whose header fits and whose records are all read.
load_marked_current :
    (sha256 : Bytes → Bytes) (cfg : Config) (written : Bool) (s : Registry) (bytes : Bytes)
    (m : List Entry) (revision : ℕ)
    → rd_u16 (drop 8 bytes) ≡ 3
    → rd_u16 (drop 10 bytes) ≡ 56
    → rd_i32 (drop 12 bytes) ≡ s.building_region_x
    → rd_i32 (drop 16 bytes) ≡ s.building_region_z
    → rd_u64 (drop 20 bytes) ≡ revision
    → rd_u32 (drop 28 bytes) ≡ length m
    → length bytes ≡ 48 + length m * 56
    → length m ≤ cfg.max_building_records
    → load_records cfg s.building_region_x s.building_region_z bytes 56 (length m) 0 [] ≡ m
    → load_marked sha256 cfg written s bytes false true
      ≡ recompute_building_hash sha256
          (record s { building_records = m; building_revision = revision })
unfolding load_marked
load_marked_current sha256 cfg written s bytes m revision hv hs hx hz hr hc hl hb loaded =
    let fits : ltb cfg.max_building_records (length m) ≡ false = ground arith in
    rw (hv, hs, hx, hz, hr, hc, hl, fits)
      (rw (eqb_ℤ_refl s.building_region_x, eqb_ℤ_refl s.building_region_z, loaded)
        (rw (==-refl (length m), ==-refl (48 + length m * 56)) refl))

-- The parts of the file, each with what follows it.
module _ (s : Registry) where
  abbrev from_records : Bytes
  from_records = append_building_records (records_of s.building_records) ++ []

  abbrev from_hash : Bytes
  from_hash = s.building_hash ++ from_records

  abbrev from_count : Bytes
  from_count = wr_u32 (length s.building_records) ++ from_hash

  abbrev from_revision : Bytes
  from_revision = wr_u64 s.building_revision ++ from_count

  abbrev from_region_z : Bytes
  from_region_z = wr_u32 (to_u32 s.building_region_z) ++ from_revision

  abbrev from_region_x : Bytes
  from_region_x = wr_u32 (to_u32 s.building_region_x) ++ from_region_z

  abbrev from_size : Bytes
  from_size = wr_u16 56 ++ from_region_x

  abbrev from_version : Bytes
  from_version = wr_u16 3 ++ from_size

  abbrev file : Bytes
  file = codes "NCKBRG03" ++ from_version

  at_size : drop 10 file ≡ from_size
  at_size = drop_advance 8 2 file (wr_u16 3) from_size refl (length-wr_u16 3)

  at_region_x : drop 12 file ≡ from_region_x
  at_region_x = drop_advance 10 2 file (wr_u16 56) from_region_x at_size (length-wr_u16 56)

  at_region_z : drop 16 file ≡ from_region_z
  at_region_z = drop_advance 12 4 file _ from_region_z at_region_x (length-wr_u32 _)

  at_revision : drop 20 file ≡ from_revision
  at_revision = drop_advance 16 4 file _ from_revision at_region_z (length-wr_u32 _)

  at_count : drop 28 file ≡ from_count
  at_count = drop_advance 20 8 file _ from_count at_revision (length-wr_u64 _)

  at_hash : drop 32 file ≡ from_hash
  at_hash = drop_advance 28 4 file _ from_hash at_count (length-wr_u32 _)

  at_records : length s.building_hash ≡ 16 → drop 48 file ≡ from_records
  at_records h = drop_advance 32 16 file s.building_hash from_records at_hash h

  building_manifest_binary_lem : building_manifest_binary s ≡ file
  unfolding building_manifest_binary
  building_manifest_binary_lem = refl

-- The number of records is that of the entries, and a property of the entries is one of the records.
length-records_of : (m : List Entry) → length (records_of m) ≡ length m
length-records_of [] = refl
length-records_of ((k, v) ∷ m) = ap suc (length-records_of m)

All-records_of :
    (cfg : Config) (x z : ℤ) (m : List Entry)
    → All (IsEntry cfg x z) m
    → All IsBuildingRecord (records_of m)
All-records_of cfg x z [] h = tt
All-records_of cfg x z ((k, v) ∷ m) h = (h.0.2, All-records_of cfg x z m h.1)

-- A registry whose members have the types that the file gives them.
pub record IsStorable (s : Registry) : Type 0 where
  pub region_x : IsI32 s.building_region_x
  pub region_z : IsI32 s.building_region_z
  pub revision : s.building_revision < 2 ^ 64
  pub count : length s.building_records < 2 ^ 32
  pub hash : length s.building_hash ≡ 16

module _ (sha256 : Bytes → Bytes) (cfg : Config) (s : Registry) (v : IsRegistry sha256 cfg s)
    (t : IsStorable s) where
  length-file : length (file s) ≡ 48 + length s.building_records * 56
  length-file = rw append-nil (
      unfold wr_u16 wr_u32 wr_u64 in
      omega (
        arith,
        length-append s.building_hash (append_building_records (records_of s.building_records)),
        t.hash,
        length-append_building_records (records_of s.building_records) stored,
        length-records_of s.building_records,
      ))
    where
      stored : All IsBuildingRecord (records_of s.building_records)
      stored =
          All-records_of cfg s.building_region_x s.building_region_z s.building_records v.entries

  readable :
      (i : ℕ) (r : BuildingRecord)
      → get_elem? (records_of s.building_records) i ≡ some r
      → decode_building_record (take 56 (drop (48 + i * 56) (file s))) ≡ some r
  readable i r e =
      rw (drop-drop 48 (i * 56) (file s), at_records s t.hash, append-nil)
        (decode_building_record-append_building_records (records_of s.building_records) i r
          (All-records_of cfg s.building_region_x s.building_region_z s.building_records v.entries)
          e)

  loaded :
      load_records cfg s.building_region_x s.building_region_z
        (file s)
        56
        (length s.building_records)
        0
        []
      ≡ s.building_records
  loaded =
      load_records-All cfg s.building_region_x s.building_region_z (file s) s.building_records []
        v.ascending v.entries v.apart readable

  header_x : rd_i32 (drop 12 (file s)) ≡ s.building_region_x
  header_x =
      rw (at_region_x s)
        (unfold wr_i32 in rd_i32-wr_i32 s.building_region_x (from_region_z s) t.region_x)

  header_z : rd_i32 (drop 16 (file s)) ≡ s.building_region_z
  header_z =
      rw (at_region_z s)
        (unfold wr_i32 in rd_i32-wr_i32 s.building_region_z (from_revision s) t.region_z)

  -- After a restart with a configuration that names a manifest file and whose centre lies in the same
  -- region, the manifest of a registry within the invariant, its numbers within their types, gives all
  -- of that registry back: region, records, revision and hash.
  pub load_building_manifest_saved :
      (written : Bool)
      → is_empty cfg.building_manifest_file ≡ false
      → floor_div cfg.guardian_center_chunk_x 100 ≡ s.building_region_x
      → floor_div cfg.guardian_center_chunk_z 100 ≡ s.building_region_z
      → start_registry sha256 cfg written (some (building_manifest_binary s))
        ≡ record s { manifest_file = some (building_manifest_binary s) }
  unfolding start_registry
  load_building_manifest_saved written path hx hz =
      let long : leb 48 (length (file s)) ≡ true = ground (arith, length-file) in
      rw (building_manifest_binary_lem s, path)
        (rw long (
          load_marked_current sha256 cfg written (empty_registry cfg (some (file s))) (file s)
            s.building_records s.building_revision (rd_u16-wr_u16 3 (from_size s) (omega arith))
            (rw (at_size s) (rd_u16-wr_u16 56 (from_region_x s) (omega arith))) (header_x ∙ sym hx)
            (header_z ∙ sym hz)
            (rw (at_revision s) (rd_u64-wr_u64 s.building_revision (from_count s) t.revision))
            (rw (at_count s) (rd_u32-wr_u32 (length s.building_records) (from_hash s) t.count))
            length-file v.bounded (rw (hx, hz) loaded)
          ∙ (unfold recompute_building_hash in
              λ i. record s {
                building_region_x = hx i;
                building_region_z = hz i;
                building_hash = sym v.hashed i;
                manifest_file = some (file s);
              })))
