-- ===== src/Building/Restart.antt =====
-- A manifest that `save_building_manifest` of Guardian/src/guardian.cpp wrote is loaded again whole.
use nicechunk_guardian.Base.{
  ℕ, suc, ◌+◌, ◌*◌, ◌≤◌, ◌≡◌, refl, sym, ap, ◌∙◌, false, ◌&&◌, ◌!=◌, some, List, [], ◌∷◌, ◌++◌,
  arith, All, length, take, drop, append-nil, append_assoc, length-append, get_elem?,
}
use nicechunk_guardian.Base.Int.{ℤ}
use nicechunk_guardian.Base.Table.{insert_sorted, Ascending}
use nicechunk_guardian.Wire.{Bytes}
use nicechunk_guardian.Config.{Config}
use nicechunk_guardian.Protocol.Messages.{BuildingRecord}
use nicechunk_guardian.Protocol.Buildings.{decode_building_record}
use nicechunk_guardian.Building.Overlap.{building_rectangles_overlap_symm}
use nicechunk_guardian.Building.Registry.{records_of}
use nicechunk_guardian.Building.Ordered.{Entry, Apart, IsClearOf}
use nicechunk_guardian.Building.Invariant.{IsEntry}
use nicechunk_guardian.Building.Manifest.{overlaps_loaded, is_empty_map, load_records}

Ascending-last :
    (lo k : ℕ) (v : BuildingRecord) (m rest : List Entry)
    → Ascending lo (m ++ ((k, v) ∷ rest))
    → lo ≤ k
Ascending-last lo k v [] rest h = h.0
Ascending-last lo k v ((j, w) ∷ m) rest h =
    omega (arith, h.0, Ascending-last (suc j) k v m rest h.1)

-- A key above all of the keys goes to the end.
insert_sorted_last :
    (k lo : ℕ) (v : BuildingRecord) (m rest : List Entry)
    → Ascending lo (m ++ ((k, v) ∷ rest))
    → insert_sorted k v m ≡ m ++ ((k, v) ∷ [])
unfolding insert_sorted
insert_sorted_last k lo v [] rest h = refl
insert_sorted_last k lo v ((j, w) ∷ m) rest h =
    let above = Ascending-last (suc j) k v m rest h.1 in
    ground (arith, insert_sorted_last k (suc j) v m rest h.1)

All_last : (P : Entry → Type 0) (e : Entry) (m rest : List Entry) → All P (m ++ (e ∷ rest)) → P e
All_last P e [] rest h = h.0
All_last P e (x ∷ m) rest h = All_last P e m rest h.1

overlaps_loaded_last :
    (k : ℕ) (v : BuildingRecord) (m rest : List Entry)
    → Apart (m ++ ((k, v) ∷ rest))
    → overlaps_loaded v m ≡ false
unfolding overlaps_loaded
overlaps_loaded_last k v [] rest h = refl
overlaps_loaded_last k v ((j, w) ∷ m) rest h =
    let clear = building_rectangles_overlap_symm w v ∙ All_last (IsClearOf w) (k, v) m rest h.0 in
    rw clear (overlaps_loaded_last k v m rest h.1)

get_elem?-last :
    (k : ℕ) (v : BuildingRecord) (m rest : List Entry)
    → get_elem? (records_of (m ++ ((k, v) ∷ rest))) (length m) ≡ some v
get_elem?-last k v [] rest = refl
get_elem?-last k v ((j, w) ∷ m) rest = get_elem?-last k v m rest

-- Every record of the file can be read at its place.
abbrev pub Readable : Bytes → List Entry → Type 0
Readable bytes m =
    (i : ℕ) (r : BuildingRecord)
    → get_elem? (records_of m) i ≡ some r
    → decode_building_record (take 56 (drop (48 + i * 56) bytes)) ≡ some r

load_records_step :
    (cfg : Config) (x z : ℤ) (bytes : Bytes) (n : ℕ) (k : ℕ) (v : BuildingRecord)
    (m rest : List Entry)
    → Ascending 0 (m ++ ((k, v) ∷ rest))
    → All (IsEntry cfg x z) (m ++ ((k, v) ∷ rest))
    → Apart (m ++ ((k, v) ∷ rest))
    → Readable bytes (m ++ ((k, v) ∷ rest))
    → load_records cfg x z bytes 56 (suc n) (length m) m
      ≡ load_records cfg x z bytes 56 n (length m + 1) (m ++ ((k, v) ∷ []))
unfolding load_records
load_records_step cfg x z bytes n k v m rest asc ent apart read =
    let (key, valid, _) = All_last (IsEntry cfg x z) (k, v) m rest ent in
    let at : insert_sorted v.foundation_id v m ≡ m ++ ((k, v) ∷ []) =
      ap (λ (t : ℕ). insert_sorted t v m) (sym key) ∙ insert_sorted_last k 0 v m rest asc in
    rw (read (length m) v (get_elem?-last k v m rest), load_records)
      (rw (overlaps_loaded_last k v m rest apart, valid, at, not_first m) refl)
  where
    not_first : (m : List Entry) → (is_empty_map m && length m != 0) ≡ false
    not_first [] = refl
    not_first (e ∷ m) = refl

pub load_records-All :
    (cfg : Config) (x z : ℤ) (bytes : Bytes) (rest m : List Entry)
    → Ascending 0 (m ++ rest)
    → All (IsEntry cfg x z) (m ++ rest)
    → Apart (m ++ rest)
    → Readable bytes (m ++ rest)
    → load_records cfg x z bytes 56 (length rest) (length m) m ≡ m ++ rest
load_records-All cfg x z bytes [] m asc ent apart read = unfold load_records in sym (append-nil m)
load_records-All cfg x z bytes ((k, v) ∷ rest) m asc ent apart read =
    load_records_step cfg x z bytes (length rest) k v m rest asc ent apart read
    ∙ rw (next_index) (
        load_records-All cfg x z bytes rest (m ++ ((k, v) ∷ [])) (rw shift asc) (rw shift ent)
          (rw shift apart) (rw shift read)
        ∙ shift)
  where
    shift : (m ++ ((k, v) ∷ [])) ++ rest ≡ m ++ ((k, v) ∷ rest)
    shift = append_assoc m ((k, v) ∷ []) rest

    next_index : length m + 1 ≡ length (m ++ ((k, v) ∷ []))
    next_index = omega (arith, length-append m ((k, v) ∷ []))
