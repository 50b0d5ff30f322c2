-- ===== src/Aoi/Offsets.antt =====
-- What `build_aoi_offsets` of Guardian/src/aoi.cpp lists: each offset of the square once.
use nicechunk_guardian.Base.{
  ℕ, zero, suc, ◌+◌, ◌*◌, ◌≤◌, ◌≡◌, refl, ap, ◌∙◌, List, [], ◌∷◌, ◌++◌, Bool, ◌&&◌, if◌then◌else◌,
  arith, length, length-append,
}
use nicechunk_guardian.Base.Int.{
  ℤ, pos, ◌+ℤ◌, ◌-ℤ◌, ◌≤ℤ◌, eqb_ℤ, leb_ℤ, IsI8, to_i8-to_u8, +ℤ_parts, -ℤ_parts, parts_exclusive,
}
use nicechunk_guardian.Aoi.{AoiOffset, cast_i8, offsets_row, offsets_rows, build_aoi_offsets}

length-offsets_row : (n : ℕ) (dx dz : ℤ) → length (offsets_row n dx dz) ≡ n
unfolding offsets_row
length-offsets_row zero dx dz = refl
length-offsets_row (suc n) dx dz = ap suc (length-offsets_row n (dx +ℤ pos 1) dz)

length-offsets_rows : (n width : ℕ) (low dz : ℤ) → length (offsets_rows n width low dz) ≡ n * width
unfolding offsets_rows
length-offsets_rows zero width low dz = omega arith
length-offsets_rows (suc n) width low dz = omega (
  arith,
  length-append (offsets_row width low dz) (offsets_rows n width low (dz +ℤ pos 1)),
  length-offsets_row width low dz,
  length-offsets_rows n width low (dz +ℤ pos 1),
)

-- How often an offset is listed.
unfoldable pub occurrences : ℤ → ℤ → List AoiOffset → ℕ
occurrences x z [] = 0
occurrences x z (o ∷ os) =
    let rest = occurrences x z os in if eqb_ℤ o.dx x && eqb_ℤ o.dz z then suc rest else rest

occurrences-append :
    (x z : ℤ) (xs ys : List AoiOffset)
    → occurrences x z (xs ++ ys) ≡ occurrences x z xs + occurrences x z ys
unfolding occurrences
occurrences-append x z [] ys = omega arith
occurrences-append x z (o ∷ xs) ys = ground (arith, occurrences-append x z xs ys)

-- `v` is one of `n` integers from `low` on.
abbrev pub in_range : ℤ → ℕ → ℤ → Bool
in_range low n v = leb_ℤ low v && leb_ℤ (v +ℤ pos 1) (low +ℤ pos n)

occurrences-offsets_row :
    (n : ℕ) (dx dz x z : ℤ)
    → IsI8 dz
    → pos 0 -ℤ pos 128 ≤ℤ dx
    → dx +ℤ pos n ≤ℤ pos 128
    → occurrences x z (offsets_row n dx dz) ≡ (if in_range dx n x && eqb_ℤ dz z then 1 else 0)
unfolding occurrences offsets_row
occurrences-offsets_row zero dx dz x z hz lo hi =
    ground (arith, +ℤ_parts dx (pos 0), +ℤ_parts x (pos 1))
occurrences-offsets_row (suc n) dx dz x z hz lo hi =
    rw (cast_dx, to_i8-to_u8 dz hz)
      (ground (
        arith,
        +ℤ_parts dx (pos 1),
        +ℤ_parts x (pos 1),
        +ℤ_parts dx (pos (suc n)),
        +ℤ_parts (dx +ℤ pos 1) (pos n),
        parts_exclusive dx,
        occurrences-offsets_row n (dx +ℤ pos 1) dz x z hz (omega (arith, +ℤ_parts dx (pos 1))) (
            omega (
              arith,
              +ℤ_parts dx (pos (suc n)),
              +ℤ_parts (dx +ℤ pos 1) (pos n),
              +ℤ_parts dx (pos 1),
            )),
      ))
  where
    cast_dx : cast_i8 dx ≡ dx
    cast_dx =
        to_i8-to_u8 dx
          (omega (arith, parts_exclusive dx, +ℤ_parts dx (pos (suc n)), -ℤ_parts (pos 0) (pos 128)))

occurrences-offsets_rows :
    (n width : ℕ) (low dz x z : ℤ)
    → pos 0 -ℤ pos 128 ≤ℤ low
    → low +ℤ pos width ≤ℤ pos 128
    → pos 0 -ℤ pos 128 ≤ℤ dz
    → dz +ℤ pos n ≤ℤ pos 128
    → occurrences x z (offsets_rows n width low dz)
      ≡ (if in_range low width x && in_range dz n z then 1 else 0)
unfolding offsets_rows
occurrences-offsets_rows zero width low dz x z lo hi lo' hi' =
    unfold occurrences in ground (arith, +ℤ_parts dz (pos 0), +ℤ_parts z (pos 1))
occurrences-offsets_rows (suc n) width low dz x z lo hi lo' hi' =
    let rest =
      occurrences-offsets_rows n width low (dz +ℤ pos 1) x z lo hi
        (omega (arith, +ℤ_parts dz (pos 1)))
        (omega (
          arith,
          +ℤ_parts dz (pos 1),
          +ℤ_parts dz (pos (suc n)),
          +ℤ_parts (dz +ℤ pos 1) (pos n),
        )) in
    let small : IsI8 dz =
      omega (arith, parts_exclusive dz, +ℤ_parts dz (pos (suc n)), -ℤ_parts (pos 0) (pos 128)) in
    rw (occurrences-append, occurrences-offsets_row width low dz x z small lo hi, rest)
      (ground (
        arith,
        +ℤ_parts dz (pos 1),
        +ℤ_parts z (pos 1),
        +ℤ_parts dz (pos (suc n)),
        +ℤ_parts (dz +ℤ pos 1) (pos n),
        parts_exclusive dz,
      ))

-- |v| <= r.
abbrev pub is_near : ℕ → ℤ → Bool
is_near r v = leb_ℤ (pos 0 -ℤ pos r) v && leb_ℤ v (pos r)

in_range-is_near : (r : ℕ) (v : ℤ) → in_range (pos 0 -ℤ pos r) (r * 2 + 1) v ≡ is_near r v
in_range-is_near r v = ground (
  arith,
  -ℤ_parts (pos 0) (pos r),
  +ℤ_parts v (pos 1),
  +ℤ_parts (pos 0 -ℤ pos r) (pos (r * 2 + 1)),
)

-- With a radius of at most 127 `build_aoi_offsets` lists (2r + 1)^2 offsets, and an offset is
-- listed once if both of its parts are within the radius, and otherwise never.
pub build_aoi_offsets_square :
    (r : ℕ) (x z : ℤ)
    → r ≤ 127
    → (length (build_aoi_offsets r) ≡ (r * 2 + 1) * (r * 2 + 1))
      × (occurrences x z (build_aoi_offsets r) ≡ (if is_near r x && is_near r z then 1 else 0))
unfolding build_aoi_offsets
build_aoi_offsets_square r x z h = (
  length-offsets_rows side side low low,
  occurrences-offsets_rows side side low low x z lo hi lo hi
      ∙ rw (in_range-is_near r x, in_range-is_near r z),
)
  where
    side : ℕ
    side = r * 2 + 1

    low : ℤ
    low = pos 0 -ℤ pos r

    lo : pos 0 -ℤ pos 128 ≤ℤ low
    lo = omega (arith, -ℤ_parts (pos 0) (pos 128), -ℤ_parts (pos 0) (pos r))

    hi : low +ℤ pos side ≤ℤ pos 128
    hi = omega (arith, -ℤ_parts (pos 0) (pos r), +ℤ_parts low (pos side))
