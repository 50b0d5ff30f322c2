-- ===== src/Tests/Buildings.antt =====
-- Concrete building announcements for Guardian/src/guardian.cpp. A constant stands for SHA-256.
use nicechunk_guardian.Base.{drop, ℕ, ◌≡◌, ◌≢◌, refl, true, false, [], ◌∷◌, ◌++◌, some, none, arith}
use nicechunk_guardian.Base.Int.{pos, ◌+ℤ◌, ◌-ℤ◌, ◌*ℤ◌}
use nicechunk_guardian.Base.Table.{lookup}
use nicechunk_guardian.Wire.{Bytes}
use nicechunk_guardian.Config.{Config, default_config}
use nicechunk_guardian.Protocol.Messages.{BuildingRecord, IsBuildingRecord}
use nicechunk_guardian.Building.{
  all_zero, building_record_is_newer, valid_building_record, floor_div, building_rectangles_overlap,
}
use nicechunk_guardian.Building.Registry.{Registry, upsert_building, building_manifest_binary}
use nicechunk_guardian.Building.Invariant.{IsRegistry, upsert_building-IsRegistry}
use nicechunk_guardian.Building.Upsert.{Outcome, upsert_building-Outcome}
use nicechunk_guardian.Building.Verdict.{replaces, upsert_building_accepts}
use nicechunk_guardian.Building.Manifest.{start_registry}
use nicechunk_guardian.Building.Reload.{IsStorable, load_building_manifest_saved}
use nicechunk_guardian.App.Buildings.{hash_hex, get_buildings, Serves, get_buildings-Serves}
use nicechunk_guardian.Tests.Wire.{sixteen, some_building}

abbrev digest : Bytes → Bytes
digest bytes = sixteen ++ sixteen

abbrev home : BuildingRecord
home = record some_building { min_x = pos 10 }

abbrev renewed : BuildingRecord
renewed = record home { width = 6; updated_slot = 4294967298 }

home-IsBuildingRecord : IsBuildingRecord home
home-IsBuildingRecord = ground arith

renewed-IsBuildingRecord : IsBuildingRecord renewed
renewed-IsBuildingRecord = ground arith

abbrev saving_config : Config
saving_config = record default_config { building_manifest_file = 109 ∷ [] }

abbrev pub one_building : Registry
one_building = record {
  building_region_x = pos 0;
  building_region_z = pos 0;
  building_revision = 7;
  building_hash = sixteen;
  building_records = (72057594037927937, home) ∷ [];
  manifest_file = none;
}

home_valid : valid_building_record saving_config (pos 0) (pos 0) home ≡ true
unfolding valid_building_record all_zero ◌-ℤ◌ ◌+ℤ◌ ◌*ℤ◌
home_valid = refl

one_building-IsRegistry : IsRegistry digest saving_config one_building
one_building-IsRegistry = record {
  ascending = ground arith;
  entries = ((refl, home_valid, home-IsBuildingRecord), tt);
  apart = (tt, tt);
  bounded = omega arith;
  hashed = refl;
  revision = omega arith;
}

upsert_building-IsRegistry_example :
    IsRegistry digest saving_config
      (upsert_building digest saving_config true renewed one_building).0
upsert_building-IsRegistry_example =
    upsert_building-IsRegistry digest saving_config true renewed one_building
      renewed-IsBuildingRecord one_building-IsRegistry

upsert_building-Outcome_example :
    Outcome digest saving_config true renewed one_building
      (upsert_building digest saving_config true renewed one_building)
upsert_building-Outcome_example =
    upsert_building-Outcome digest saving_config true renewed one_building
      one_building-IsRegistry.ascending

is_stale : building_record_is_newer home home ≡ false
unfolding building_record_is_newer
is_stale = refl

under_key : lookup 72057594037927937 one_building.building_records ≡ some home
unfolding lookup
under_key = refl

renewed_valid : valid_building_record saving_config (pos 0) (pos 0) renewed ≡ true
unfolding valid_building_record all_zero ◌-ℤ◌ ◌+ℤ◌ ◌*ℤ◌
renewed_valid = refl

is_renewal : building_record_is_newer renewed home ≡ true
unfolding building_record_is_newer
is_renewal = refl

alone :
    (j : ℕ) (e : BuildingRecord)
    → lookup j one_building.building_records ≡ some e
    → j ≢ 72057594037927937
    → building_rectangles_overlap e renewed ≡ false
unfolding lookup
alone j e at ne = ground arith

upsert_building_accepts_example :
    (upsert_building digest saving_config true renewed one_building).1 ≡ true
upsert_building_accepts_example =
    upsert_building_accepts digest saving_config true renewed one_building
      one_building-IsRegistry.ascending alone (replaces home renewed_valid under_key is_renewal)

one_building-IsStorable : IsStorable one_building
one_building-IsStorable = record {
  region_x = ground arith;
  region_z = ground arith;
  revision = omega arith;
  count = omega arith;
  hash = refl;
}

middle_region : floor_div (pos 0) 100 ≡ pos 0
unfolding floor_div ◌*ℤ◌ ◌-ℤ◌
middle_region = refl

load_building_manifest_saved_example :
    start_registry digest saving_config true (some (building_manifest_binary one_building))
    ≡ record one_building { manifest_file = some (building_manifest_binary one_building) }
load_building_manifest_saved_example =
    load_building_manifest_saved digest saving_config one_building one_building-IsRegistry
      one_building-IsStorable true refl middle_region middle_region

get_buildings-Serves_example :
    Serves
      (7 ∷ drop 1 sixteen)
      one_building
      (get_buildings (hash_hex (7 ∷ drop 1 sixteen)) one_building)
get_buildings-Serves_example =
    get_buildings-Serves (7 ∷ drop 1 sixteen) one_building (ground arith) (ground arith)
