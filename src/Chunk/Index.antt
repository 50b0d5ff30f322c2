-- ===== src/Chunk/Index.antt =====
-- The two numberings of chunks in Guardian/src/chunk.cpp: `local_chunk_index`, by which a topic is found,
-- and `chunk_key`, under which a room is stored.
use nicechunk_guardian.Base.{
  ℕ, ◌+◌, ◌*◌, ◌%◌, ◌^◌, ◌≤◌, ◌<◌, ◌≡◌, ap, sym, ◌∙◌, true, arith, ◌⊎◌, inl, inr,
}
use nicechunk_guardian.Base.Int.{
  ℤ, pos, pos_part, neg_part, ◌-ℤ◌, to_u32, to_i32, IsI32, to_u32-lt, to_i32-to_u32, -ℤ_parts,
  eq_of_parts,
}
use nicechunk_guardian.Base.Bits.{shift-bit_or}
use nicechunk_guardian.Config.{Config}
use nicechunk_guardian.Chunk.{
  contains_chunk, to_local, to_local_chunk_x, to_local_chunk_z, local_chunk_index, diameter,
  chunk_key,
}
use nicechunk_guardian.Chunk.Local.{InArea, contains_chunk_sound, to_local_distance}

-- Two points of a row or a column with the same local coordinate are one.
to_local_injective :
    (c x y : ℤ) (r : ℕ)
    → pos (to_local c r x) ≡ x -ℤ (c -ℤ pos r)
    → pos (to_local c r y) ≡ y -ℤ (c -ℤ pos r)
    → to_local c r x ≡ to_local c r y
    → x ≡ y
to_local_injective c x y r hx hy e = omega (
  arith,
  ap pos_part (sym hx ∙ ap pos e ∙ hy),
  ap neg_part (sym hx ∙ ap pos e ∙ hy),
  -ℤ_parts x (c -ℤ pos r),
  -ℤ_parts y (c -ℤ pos r),
  eq_of_parts x y,
)

row_bound : (a m n : ℕ) → a ≤ m → m ≤ 254 → n ≤ 255 → a * n ≤ 64770
row_bound a m n h k l = grind arith

index_arith :
    (a b r : ℕ)
    → a ≤ 2 * r
    → b ≤ 2 * r
    → r ≤ 127
    → (a * ((r * 2 + 1) % 2 ^ 32) + b) % 2 ^ 32 ≡ a * (2 * r + 1) + b
index_arith a b r ha hb hr =
    let side : (r * 2 + 1) % 2 ^ 32 ≡ 2 * r + 1 = omega arith in
    rw side (omega (arith, row_bound a (2 * r) (2 * r + 1) ha (omega arith) (omega arith)))

index_below : (a b n : ℕ) → a < n → b < n → a * n + b < n * n
index_below a b n ha hb = grind arith

row_gap : (a a' n : ℕ) → a < a' → a * n + n ≤ a' * n
row_gap a a' n h = grind arith

le_or_lt : (a b : ℕ) → (a ≤ b) ⊎ (b < a)
le_or_lt a b = omega arith

-- A row and a column below the side are determined by the index.
split_index : (a b a' b' n : ℕ) → b < n → b' < n → a * n + b ≡ a' * n + b' → (a ≡ a') × (b ≡ b')
split_index a b a' b' n hb hb' e = elim (le_or_lt a a') [
  | inl up ↦ elim (le_or_lt a' a) [
    | inl down ↦ let q : a ≡ a' = omega arith in (q, omega (arith, ap (λ (t : ℕ). t * n) q))
    | inr gap ↦ absurd (omega (arith, row_gap a a' n gap))
  ]
  | inr gap ↦ absurd (omega (arith, row_gap a' a n gap))
]

column :
    (cfg : Config) (x z : ℤ)
    → cfg.service_radius_chunks ≤ 127
    → InArea cfg x z
    → (to_local_chunk_x cfg x ≤ 2 * cfg.service_radius_chunks)
      × (to_local_chunk_z cfg z ≤ 2 * cfg.service_radius_chunks)
unfolding to_local_chunk_x to_local_chunk_z
column cfg x z hr a = (
  (to_local_distance cfg.guardian_center_chunk_x x cfg.service_radius_chunks hr a.west a.east).1,
  (to_local_distance cfg.guardian_center_chunk_z z cfg.service_radius_chunks hr a.north a.south).1,
)

diameter_lem :
    (cfg : Config)
    → cfg.service_radius_chunks ≤ 127
    → diameter cfg ≡ 2 * cfg.service_radius_chunks + 1
unfolding diameter
diameter_lem cfg h = omega arith

-- The index in plain arithmetic, for a chunk of the service area.
local_chunk_index_sum :
    (cfg : Config) (x z : ℤ)
    → cfg.service_radius_chunks ≤ 127
    → InArea cfg x z
    → local_chunk_index cfg x z
      ≡ to_local_chunk_z cfg z * (2 * cfg.service_radius_chunks + 1) + to_local_chunk_x cfg x
unfolding local_chunk_index
local_chunk_index_sum cfg x z hr a =
    unfold diameter in
    index_arith (to_local_chunk_z cfg z) (to_local_chunk_x cfg x) cfg.service_radius_chunks
      (column cfg x z hr a).1 (column cfg x z hr a).0 hr

-- With a service radius of at most 127, the index of a chunk of the service area is below the
-- number of topics, the square of the area's side.
pub local_chunk_index-lt :
    (cfg : Config) (x z : ℤ)
    → cfg.service_radius_chunks ≤ 127
    → contains_chunk cfg x z ≡ true
    → local_chunk_index cfg x z < diameter cfg * diameter cfg
local_chunk_index-lt cfg x z hr h =
    let a = contains_chunk_sound cfg x z h in
    let (hx, hz) = column cfg x z hr a in
    rw (local_chunk_index_sum cfg x z hr a, diameter_lem cfg hr)
      (index_below (to_local_chunk_z cfg z) (to_local_chunk_x cfg x)
        (2 * cfg.service_radius_chunks + 1) (omega (arith, hz)) (omega (arith, hx)))

-- With a service radius of at most 127, two chunks of the service area with the same index, so with
-- the same topic, are one chunk.
pub local_chunk_index_injective :
    (cfg : Config) (x z x' z' : ℤ)
    → cfg.service_radius_chunks ≤ 127
    → contains_chunk cfg x z ≡ true
    → contains_chunk cfg x' z' ≡ true
    → local_chunk_index cfg x z ≡ local_chunk_index cfg x' z'
    → (x ≡ x') × (z ≡ z')
local_chunk_index_injective cfg x z x' z' hr h h' e = (
  unfold to_local_chunk_x in
      to_local_injective cfg.guardian_center_chunk_x x x' r
        (to_local_distance _ x r hr a.west a.east).0 (to_local_distance _ x' r hr a'.west a'.east).0
        parts.1,
  unfold to_local_chunk_z in
      to_local_injective cfg.guardian_center_chunk_z z z' r
        (to_local_distance _ z r hr a.north a.south).0
        (to_local_distance _ z' r hr a'.north a'.south).0 parts.0,
)
  where
    r : ℕ
    r = cfg.service_radius_chunks

    a : InArea cfg x z
    a = contains_chunk_sound cfg x z h

    a' : InArea cfg x' z'
    a' = contains_chunk_sound cfg x' z' h'

    parts :
        (to_local_chunk_z cfg z ≡ to_local_chunk_z cfg z')
        × (to_local_chunk_x cfg x ≡ to_local_chunk_x cfg x')
    parts =
        split_index (to_local_chunk_z cfg z) (to_local_chunk_x cfg x) (to_local_chunk_z cfg z')
          (to_local_chunk_x cfg x') (2 * r + 1) (omega (arith, (column cfg x z hr a).0))
          (omega (arith, (column cfg x' z' hr a').0))
          (sym (local_chunk_index_sum cfg x z hr a) ∙ e ∙ local_chunk_index_sum cfg x' z' hr a')

chunk_key_sum : (x z : ℤ) → chunk_key x z ≡ to_u32 x * 2 ^ 32 + to_u32 z
unfolding chunk_key
chunk_key_sum x z =
    let e : to_u32 x * 2 ^ 32 % 2 ^ 64 ≡ to_u32 x * 2 ^ 32 = omega (arith, to_u32-lt x) in
    rw e (shift-bit_or 32 (to_u32 z) (to_u32 x) (to_u32-lt z))

to_u32_injective : (x y : ℤ) → IsI32 x → IsI32 y → to_u32 x ≡ to_u32 y → x ≡ y
to_u32_injective x y hx hy e = sym (to_i32-to_u32 x hx) ∙ ap to_i32 e ∙ to_i32-to_u32 y hy

-- Two chunks with int32_t coordinates and the same key are one chunk.
pub chunk_key_injective :
    (x z x' z' : ℤ)
    → IsI32 x
    → IsI32 z
    → IsI32 x'
    → IsI32 z'
    → chunk_key x z ≡ chunk_key x' z'
    → (x ≡ x') × (z ≡ z')
chunk_key_injective x z x' z' hx hz hx' hz' e = (
  to_u32_injective x x' hx hx'
      (omega (arith, e, chunk_key_sum x z, chunk_key_sum x' z', to_u32-lt z, to_u32-lt z')),
  to_u32_injective z z' hz hz'
      (omega (arith, e, chunk_key_sum x z, chunk_key_sum x' z', to_u32-lt z, to_u32-lt z')),
)
