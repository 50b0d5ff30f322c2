-- ===== src/Building/Overlap.antt =====
-- `building_rectangles_overlap` and `floor_div` of Guardian/src/guardian.cpp against what they mean.
use nicechunk_guardian.Base.{ℕ, ◌≤◌, ◌≡◌, ◌↔◌, true, arith, if◌then◌else◌, Bool-cases, inl, inr}
use nicechunk_guardian.Base.Int.{ℤ, pos, negsuc, ◌+ℤ◌, ◌-ℤ◌, ◌*ℤ◌, ◌≤ℤ◌, leb_ℤ, +ℤ_parts, -ℤ_parts}
use nicechunk_guardian.Protocol.Messages.{BuildingRecord}
use nicechunk_guardian.Building.{floor_div, last_of, building_rectangles_overlap}

-- A building covers the blocks of its rectangle.
pub record Covers (r : BuildingRecord) (x z : ℤ) : Type 0 where
  pub west : r.min_x ≤ℤ x
  pub east : x ≤ℤ last_of r.min_x r.width
  pub north : r.min_z ≤ℤ z
  pub south : z ≤ℤ last_of r.min_z r.depth

-- The larger of two integers.
abbrev later_edge : ℤ → ℤ → ℤ
later_edge a b = if leb_ℤ a b then b else a

later_edge_lem :
    (a b m n : ℤ)
    → a ≤ℤ m
    → b ≤ℤ n
    → a ≤ℤ n
    → b ≤ℤ m
    → (a ≤ℤ later_edge a b) × (later_edge a b ≤ℤ m) × (b ≤ℤ later_edge a b) × (later_edge a b ≤ℤ n)
later_edge_lem a b m n h k p q = ground arith

last_of-ge : (a : ℤ) (n : ℕ) → 1 ≤ n → a ≤ℤ last_of a n
last_of-ge a n h = omega (arith, +ℤ_parts a (pos n), -ℤ_parts (a +ℤ pos n) (pos 1))

-- The four comparisons of the test.
record Meets (l r : BuildingRecord) : Type 0 where
  west : l.min_x ≤ℤ last_of r.min_x r.width
  east : r.min_x ≤ℤ last_of l.min_x l.width
  north : l.min_z ≤ℤ last_of r.min_z r.depth
  south : r.min_z ≤ℤ last_of l.min_z l.depth

Meets-sound : (l r : BuildingRecord) → building_rectangles_overlap l r ≡ true → Meets l r
unfolding building_rectangles_overlap
Meets-sound l r h = ground arith

Meets-complete : (l r : BuildingRecord) → Meets l r → building_rectangles_overlap l r ≡ true
unfolding building_rectangles_overlap
Meets-complete l r h = ground arith

-- The test does not depend on the order of the two records.
pub building_rectangles_overlap_symm :
    (l r : BuildingRecord) → building_rectangles_overlap l r ≡ building_rectangles_overlap r l
building_rectangles_overlap_symm l r = elim (Bool-cases (building_rectangles_overlap l r)) [
  | inl yes_l ↦
      let m = Meets-sound l r yes_l in
      rw (
        yes_l,
        Meets-complete r l
            (record { west = m.east; east = m.west; north = m.south; south = m.north }),
      )
  | inr no_l ↦ elim (Bool-cases (building_rectangles_overlap r l)) [
    | inl yes_r ↦
        let m = Meets-sound r l yes_r in
        cc (
          Meets-complete l r
            (record { west = m.east; east = m.west; north = m.south; south = m.north }))
    | inr no_r ↦ rw (no_l, no_r)
  ]
]

-- A building with a width and a depth.
pub record IsArea (r : BuildingRecord) : Type 0 where
  pub width : 1 ≤ r.width
  pub depth : 1 ≤ r.depth

overlap_shares :
    (l r : BuildingRecord)
    → IsArea l
    → IsArea r
    → building_rectangles_overlap l r ≡ true
    → (x : ℤ) × (z : ℤ) × Covers l x z × Covers r x z
overlap_shares l r hl hr h = (
  later_edge l.min_x r.min_x,
  later_edge l.min_z r.min_z,
  (record { west = xs.0; east = xs.1; north = zs.0; south = zs.1 }),
  (record { west = xs.2; east = xs.3; north = zs.2; south = zs.3 }),
)
  where
    m : Meets l r
    m = Meets-sound l r h

    xs :
        (l.min_x ≤ℤ later_edge l.min_x r.min_x)
        × (later_edge l.min_x r.min_x ≤ℤ last_of l.min_x l.width)
        × (r.min_x ≤ℤ later_edge l.min_x r.min_x)
        × (later_edge l.min_x r.min_x ≤ℤ last_of r.min_x r.width)
    xs =
        later_edge_lem l.min_x r.min_x _ _ (last_of-ge l.min_x l.width hl.width)
          (last_of-ge r.min_x r.width hr.width) m.west m.east

    zs :
        (l.min_z ≤ℤ later_edge l.min_z r.min_z)
        × (later_edge l.min_z r.min_z ≤ℤ last_of l.min_z l.depth)
        × (r.min_z ≤ℤ later_edge l.min_z r.min_z)
        × (later_edge l.min_z r.min_z ≤ℤ last_of r.min_z r.depth)
    zs =
        later_edge_lem l.min_z r.min_z _ _ (last_of-ge l.min_z l.depth hl.depth)
          (last_of-ge r.min_z r.depth hr.depth) m.north m.south

-- An order of integers is transitive.
le_trans_ℤ : (a b c : ℤ) → a ≤ℤ b → b ≤ℤ c → a ≤ℤ c
le_trans_ℤ a b c h k = omega arith

pub shares_overlap :
    (l r : BuildingRecord) (x z : ℤ)
    → Covers l x z
    → Covers r x z
    → building_rectangles_overlap l r ≡ true
shares_overlap l r x z cl cr = Meets-complete l r (record {
  west = le_trans_ℤ l.min_x x (last_of r.min_x r.width) cl.west cr.east;
  east = le_trans_ℤ r.min_x x (last_of l.min_x l.width) cr.west cl.east;
  north = le_trans_ℤ l.min_z z (last_of r.min_z r.depth) cl.north cr.south;
  south = le_trans_ℤ r.min_z z (last_of l.min_z l.depth) cr.north cl.south;
})

-- Two buildings with a width and a depth overlap exactly when they cover a block in common.
pub building_rectangles_overlap_iff :
    (l r : BuildingRecord)
    → IsArea l
    → IsArea r
    → (building_rectangles_overlap l r ≡ true) ↔ ((x : ℤ) × (z : ℤ) × Covers l x z × Covers r x z)
building_rectangles_overlap_iff l r hl hr =
    (overlap_shares l r hl hr, λ (x, z, cl, cr). shares_overlap l r x z cl cr)

-- By 100, the side of a region in chunks, `floor_div` rounds down: the quotient times 100 is at most the
-- value, and the next multiple of 100 is above it.
pub floor_div-rounds_down :
    (v : ℤ)
    → (floor_div v 100 *ℤ pos 100 ≤ℤ v) × (v +ℤ pos 1 ≤ℤ (floor_div v 100 +ℤ pos 1) *ℤ pos 100)
unfolding floor_div ◌*ℤ◌ ◌+ℤ◌ ◌-ℤ◌
floor_div-rounds_down (pos n) = ground arith
floor_div-rounds_down (negsuc n) = ground arith
