-- ===== src/Building/Ordered.antt =====
-- Lemmas on the stored records: predicates of all entries, and of all pairs of entries, under the changes
-- of the map that Guardian/src/guardian.cpp makes.
use nicechunk_guardian.Base.{
  ℕ, suc, ◌<◌, ◌≡◌, ◌∙◌, false, ◌==◌, List, [], ◌∷◌, arith, All, ltb, Bool-cases, inl, inr,
}
use nicechunk_guardian.Base.Table.{insert_sorted, erase, Ascending}
use nicechunk_guardian.Protocol.Messages.{BuildingRecord}
use nicechunk_guardian.Building.{building_rectangles_overlap}
use nicechunk_guardian.Building.Overlap.{building_rectangles_overlap_symm}
use nicechunk_guardian.Building.Registry.{overlaps_other}

abbrev pub Entry : Type 0
Entry = ℕ × BuildingRecord

pub All-insert_sorted {ℓ} :
    (P : Entry → Type ℓ) (k : ℕ) (v : BuildingRecord) (m : List Entry)
    → P (k, v)
    → All P m
    → All P (insert_sorted k v m)
unfolding insert_sorted
All-insert_sorted P k v [] p h = (p, tt)
All-insert_sorted P k v ((j, w) ∷ m) p h = elim (Bool-cases (j == k)) [
  | inl same ↦ rw (same, insert_sorted) (p, h.1)
  | inr other ↦ elim (Bool-cases (ltb k j)) [
    | inl before ↦ rw (other, before, insert_sorted) (p, h)
    | inr after ↦ rw (other, after, insert_sorted) (h.0, All-insert_sorted P k v m p h.1)
  ]
]

pub All-erase {ℓ} : (P : Entry → Type ℓ) (k : ℕ) (m : List Entry) → All P m → All P (erase k m)
unfolding erase
All-erase P k [] h = tt
All-erase P k ((j, w) ∷ m) h = elim (Bool-cases (j == k)) [
  | inl same ↦ rw (same, erase) (All-erase P k m h.1)
  | inr other ↦ rw (other, erase) (h.0, All-erase P k m h.1)
]

abbrev pub IsClearOf : BuildingRecord → Entry → Type 0
IsClearOf r e = building_rectangles_overlap e.1 r ≡ false

-- No two of the records overlap.
abbrev pub Apart : List Entry → Type 0
Apart [] = Unit {0}
Apart ((k, r) ∷ m) = All (IsClearOf r) m × Apart m

-- What the test of the loops says of entries whose keys are all above the given one.
overlaps_other-above :
    (k lo : ℕ) (v : BuildingRecord) (m : List Entry)
    → k < lo
    → Ascending lo m
    → overlaps_other k v m ≡ false
    → All (IsClearOf v) m
unfolding overlaps_other
overlaps_other-above k lo v [] lt h e = tt
overlaps_other-above k lo v ((j, w) ∷ m) lt h e =
    (ground arith, overlaps_other-above k (suc j) v m (omega arith) h.1 (ground arith))

-- A record that overlaps no other one may be stored.
pub insert_sorted-Apart :
    (k lo : ℕ) (v : BuildingRecord) (m : List Entry)
    → Ascending lo m
    → overlaps_other k v m ≡ false
    → Apart m
    → Apart (insert_sorted k v m)
unfolding insert_sorted
insert_sorted-Apart k lo v [] h e a = (tt, tt)
insert_sorted-Apart k lo v ((j, w) ∷ m) h e a = elim (Bool-cases (j == k)) [
  | inl same ↦
      let eq : k < suc j = ground arith in
      rw (same, insert_sorted) (overlaps_other-above k (suc j) v m eq h.1 rest, a.1)
  | inr other ↦
      let first : building_rectangles_overlap w v ≡ false = unfold overlaps_other in ground arith in
      elim (Bool-cases (ltb k j)) [
        | inl before ↦
            let less : k < suc j = ground arith in
            rw (other, before, insert_sorted)
              ((first, overlaps_other-above k (suc j) v m less h.1 rest), a)
        | inr after ↦
            rw (other, after, insert_sorted)
              (
                All-insert_sorted (IsClearOf w) k v m (building_rectangles_overlap_symm v w ∙ first)
                    a.0,
                insert_sorted-Apart k (suc j) v m h.1 rest a.1,
              )
      ]
]
  where
    rest : overlaps_other k v m ≡ false
    rest = unfold overlaps_other in ground arith

pub erase-Apart : (k : ℕ) (m : List Entry) → Apart m → Apart (erase k m)
unfolding erase
erase-Apart k [] a = tt
erase-Apart k ((j, w) ∷ m) a = elim (Bool-cases (j == k)) [
  | inl same ↦ rw (same, erase) (erase-Apart k m a.1)
  | inr other ↦ rw (other, erase) (All-erase (IsClearOf w) k m a.0, erase-Apart k m a.1)
]
