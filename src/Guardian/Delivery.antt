-- ===== src/Guardian/Delivery.antt =====
-- Who receives what `publish_to_aoi` of Guardian/src/guardian.cpp sends.
use nicechunk_guardian.Base.{
  ℕ, suc, ◌+◌, ◌≤◌, ◌≡◌, refl, ◌∙◌, ◌==◌, true, false, ◌&&◌, if◌then◌else◌, List, [], ◌∷◌, length,
  arith, Bool-cases, inl, inr, All,
}
use nicechunk_guardian.Base.Int.{ℤ, ◌+ℤ◌, ◌-ℤ◌, eqb_ℤ, +ℤ_parts, -ℤ_parts, eqb_ℤ_iff}
use nicechunk_guardian.Wire.{Bytes}
use nicechunk_guardian.Aoi.{AoiOffset, build_aoi_offsets}
use nicechunk_guardian.Aoi.Offsets.{occurrences, is_near, build_aoi_offsets_square}
use nicechunk_guardian.Config.{Config}
use nicechunk_guardian.Chunk.{contains_chunk, local_chunk_index}
use nicechunk_guardian.Chunk.Index.{local_chunk_index_injective}
use nicechunk_guardian.Guardian.{
  Guardian, Topic, chunk_topic, heartbeat_topic, building_manifest_topic,
}
use nicechunk_guardian.Guardian.Publish.{publish_loop, publish_to_aoi, count_message}

-- How many messages go to the chunk with an index.
unfoldable pub deliveries : ℕ → List (Topic × Bytes) → ℕ
deliveries i [] = 0
deliveries i ((chunk_topic j, b) ∷ sent) =
    let rest = deliveries i sent in if j == i then suc rest else rest
deliveries i ((heartbeat_topic, b) ∷ sent) = deliveries i sent
deliveries i ((building_manifest_topic, b) ∷ sent) = deliveries i sent

-- The offset from one coordinate to another.
pub is_offset : (c d x : ℤ) → eqb_ℤ d (x -ℤ c) ≡ eqb_ℤ (c +ℤ d) x
is_offset c d x = ground (arith, +ℤ_parts c d, -ℤ_parts x c)

pub same_chunk :
    (cfg : Config) (x z x' z' : ℤ)
    → cfg.service_radius_chunks ≤ 127
    → contains_chunk cfg x z ≡ true
    → contains_chunk cfg x' z' ≡ true
    → (local_chunk_index cfg x z == local_chunk_index cfg x' z') ≡ (eqb_ℤ x x' && eqb_ℤ z z')
same_chunk cfg x z x' z' hr h h' = ground (
  arith,
  local_chunk_index_injective cfg x z x' z' hr h h',
  eqb_ℤ_iff x x',
  eqb_ℤ_iff z z',
  index_of x x' z z',
)
  where
    index_of :
        (x x' z z' : ℤ) → x ≡ x' → z ≡ z' → local_chunk_index cfg x z ≡ local_chunk_index cfg x' z'
    index_of x x' z z' e e' = cc

pub outside_differs :
    (cfg : Config) (x z x' z' : ℤ)
    → contains_chunk cfg x z ≡ false
    → contains_chunk cfg x' z' ≡ true
    → (eqb_ℤ x x' && eqb_ℤ z z') ≡ false
outside_differs cfg x z x' z' h h' =
    ground (arith, eqb_ℤ_iff x x', eqb_ℤ_iff z z', inside_too x x' z z')
  where
    inside_too :
        (x x' z z' : ℤ) → x ≡ x' → z ≡ z' → contains_chunk cfg x z ≡ contains_chunk cfg x' z'
    inside_too x x' z z' e e' = cc

publish_loop-deliveries :
    (cx cz x z : ℤ) (payload : Bytes) (offsets : List AoiOffset) (s : Guardian)
    → s.cfg.service_radius_chunks ≤ 127
    → contains_chunk s.cfg x z ≡ true
    → deliveries (local_chunk_index s.cfg x z) (publish_loop cx cz payload offsets s).1
      ≡ occurrences (x -ℤ cx) (z -ℤ cz) offsets
unfolding publish_loop occurrences deliveries
publish_loop-deliveries cx cz x z payload [] s hr h = refl
publish_loop-deliveries cx cz x z payload (o ∷ os) s hr h =
    elim (Bool-cases (contains_chunk s.cfg (cx +ℤ o.dx) (cz +ℤ o.dz))) [
      | inl inside ↦
          rw (inside, is_offset cx o.dx x, is_offset cz o.dz z)
            (ground (
              arith,
              same_chunk s.cfg (cx +ℤ o.dx) (cz +ℤ o.dz) x z hr inside h,
              publish_loop-deliveries cx cz x z payload os (count_message payload s) hr h,
            ))
      | inr outside ↦
          rw (outside, is_offset cx o.dx x, is_offset cz o.dz z)
            (ground (
              arith,
              outside_differs s.cfg (cx +ℤ o.dx) (cz +ℤ o.dz) x z outside h,
              publish_loop-deliveries cx cz x z payload os s hr h,
            ))
    ]

-- Every message that is sent is the payload, and each is counted.
publish_loop-counts :
    (cx cz : ℤ) (payload : Bytes) (offsets : List AoiOffset) (s : Guardian)
    → ((publish_loop cx cz payload offsets s).0.metrics.messages_out
        ≡ s.metrics.messages_out + length (publish_loop cx cz payload offsets s).1)
      × All (λ m. m.1 ≡ payload) (publish_loop cx cz payload offsets s).1
unfolding publish_loop
publish_loop-counts cx cz payload [] s = (omega arith, tt)
publish_loop-counts cx cz payload (o ∷ os) s =
    elim (Bool-cases (contains_chunk s.cfg (cx +ℤ o.dx) (cz +ℤ o.dz))) [
      | inl inside ↦ rw inside (
          let (n, all) = publish_loop-counts cx cz payload os (count_message payload s) in
          (omega (arith, n), (refl, all)))
      | inr outside ↦ rw outside (publish_loop-counts cx cz payload os s)
    ]

-- With a service radius and an interest radius of at most 127, `publish_to_aoi` sends to a chunk of the
-- service area once if the chunk is within the interest radius of the center in both coordinates, and
-- otherwise never; every message is the payload, and messages_out grows by the number of messages.
pub publish_to_aoi-deliveries :
    (cx cz x z : ℤ) (payload : Bytes) (s : Guardian)
    → s.cfg.service_radius_chunks ≤ 127
    → s.cfg.player_aoi_radius_chunks ≤ 127
    → contains_chunk s.cfg x z ≡ true
    → let r = s.cfg.player_aoi_radius_chunks in
      let (s', sent) = publish_to_aoi cx cz payload s in
      (deliveries (local_chunk_index s.cfg x z) sent
        ≡ (if is_near r (x -ℤ cx) && is_near r (z -ℤ cz) then 1 else 0))
      × All (λ m. m.1 ≡ payload) sent
      × (s'.metrics.messages_out ≡ s.metrics.messages_out + length sent)
unfolding publish_to_aoi
publish_to_aoi-deliveries cx cz x z payload s hr ha h =
    let offsets = build_aoi_offsets s.cfg.player_aoi_radius_chunks in
    let (count, all) = publish_loop-counts cx cz payload offsets s in
    (
      publish_loop-deliveries cx cz x z payload offsets s hr h
          ∙ (build_aoi_offsets_square s.cfg.player_aoi_radius_chunks (x -ℤ cx) (z -ℤ cz) ha).1,
      all,
      count,
    )
