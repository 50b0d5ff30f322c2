-- ===== src/Guardian/Due.antt =====
-- The inner loop of `flush_pending_moves` of Guardian/src/guardian.cpp: what it puts in the batch of a chunk.
use nicechunk_guardian.Base.{
  ℕ, zero, suc, ◌≤◌, ◌≡◌, refl, sym, ap, ◌∙◌, ◌==◌, Bool, true, false, not, ◌&&◌, ◌||◌,
  if◌then◌else◌, List, [], ◌∷◌, ◌++◌, Option, none, some, arith, Bool-cases, inl, inr, append_assoc,
  append-nil, subst,
}
use nicechunk_guardian.Base.Int.{ℤ, ◌+ℤ◌, ◌-ℤ◌, eqb_ℤ}
use nicechunk_guardian.Base.Table.{lookup, insert, lookup-insert, Distinct, insert-Distinct}
use nicechunk_guardian.Aoi.{AoiOffset}
use nicechunk_guardian.Aoi.Offsets.{occurrences, is_near, build_aoi_offsets_square}
use nicechunk_guardian.Config.{Config}
use nicechunk_guardian.Chunk.{contains_chunk, local_chunk_index}
use nicechunk_guardian.Protocol.Events.{MoveItem}
use nicechunk_guardian.Guardian.{Guardian, Player}
use nicechunk_guardian.Guardian.Publish.{push_batch, spread, aoi_offsets}
use nicechunk_guardian.Guardian.Delivery.{is_offset, same_chunk, outside_differs}

abbrev pub batch_of : Option (List MoveItem) → List MoveItem
batch_of none = []
batch_of (some items) = items

-- The batch under an index.
abbrev pub batch_at : ℕ → List (ℕ × List MoveItem) → List MoveItem
batch_at index batches = batch_of (lookup index batches)

abbrev pub is_sending : Player → Bool
is_sending q = q.connected && q.has_pending_move

abbrev pub is_among : ℕ → List ℕ → Bool
is_among p [] = false
is_among p (q ∷ qs) = p == q || is_among p qs

-- The chunk is within the interest radius of a player.
abbrev pub is_seen : Config → ℤ → ℤ → Player → Bool
is_seen cfg x z q =
    is_near cfg.player_aoi_radius_chunks (x -ℤ q.current_chunk_x)
    && is_near cfg.player_aoi_radius_chunks (z -ℤ q.current_chunk_z)

-- The moves that a chunk is due: those of the players of the queue, each at its first place there and not
-- among `before`, that send and that the chunk sees.
abbrev pub moves_due : Config → (ℕ → Player) → ℤ → ℤ → List ℕ → List ℕ → List MoveItem
moves_due cfg heap x z before [] = []
moves_due cfg heap x z before (p ∷ ps) =
    let rest = moves_due cfg heap x z (p ∷ before) ps in
    if not (is_among p before) && is_sending (heap p) && is_seen cfg x z (heap p)
    then (heap p).pending_move ∷ rest
    else rest

push_batch-insert :
    (j : ℕ) (item : MoveItem) (batches : List (ℕ × List MoveItem))
    → push_batch j item batches ≡ insert j (batch_at j batches ++ (item ∷ [])) batches
unfolding push_batch
push_batch-insert j item batches = at (lookup j batches)
  where
    at :
        (found : Option (List MoveItem))
        → (elim found [
          | none ↦ insert j (item ∷ []) batches
          | some items ↦ insert j (items ++ (item ∷ [])) batches
        ])
          ≡ insert j (batch_of found ++ (item ∷ [])) batches
    at none = refl
    at (some items) = refl

push_batch-batch_at :
    (j i : ℕ) (item : MoveItem) (batches : List (ℕ × List MoveItem))
    → batch_at i (push_batch j item batches)
      ≡ (if j == i then batch_at i batches ++ (item ∷ []) else batch_at i batches)
push_batch-batch_at j i item batches =
    ap (batch_at i) (push_batch-insert j item batches)
    ∙ ap batch_of (lookup-insert j i (batch_at j batches ++ (item ∷ [])) batches)
    ∙ elim (Bool-cases (j == i)) [
      | inl same ↦ rw same (ap (λ k. batch_at k batches ++ (item ∷ [])) (ground (arith, same)))
      | inr other ↦ rw other refl
    ]

push_batch-Distinct :
    (j : ℕ) (item : MoveItem) (batches : List (ℕ × List MoveItem))
    → Distinct batches
    → Distinct (push_batch j item batches)
push_batch-Distinct j item batches d =
    subst Distinct (sym (push_batch-insert j item batches))
      (insert-Distinct j (batch_at j batches ++ (item ∷ [])) batches d)

pub spread-Distinct :
    (s : Guardian) (q : Player) (offsets : List AoiOffset) (batches : List (ℕ × List MoveItem))
    → Distinct batches
    → Distinct (spread s q offsets batches)
unfolding spread
spread-Distinct s q [] batches d = d
spread-Distinct s q (o ∷ os) batches d =
    let x = q.current_chunk_x +ℤ o.dx in
    let z = q.current_chunk_z +ℤ o.dz in
    elim (Bool-cases (contains_chunk s.cfg x z)) [
      | inl inside ↦ rw inside (
          spread-Distinct s q os _
            (push_batch-Distinct (local_chunk_index s.cfg x z) q.pending_move batches d))
      | inr outside ↦ rw outside (spread-Distinct s q os batches d)
    ]

-- Copies of a move.
abbrev copies : ℕ → MoveItem → List MoveItem
copies zero item = []
copies (suc n) item = item ∷ copies n item

copies_more :
    (more : Bool) (n : ℕ) (item : MoveItem) (items : List MoveItem)
    → (if more then items ++ (item ∷ []) else items) ++ copies n item
      ≡ items ++ copies (if more then suc n else n) item
copies_more true n item items = append_assoc items (item ∷ []) (copies n item)
copies_more false n item items = refl

spread-batch_at :
    (s : Guardian) (q : Player) (x z : ℤ) (offsets : List AoiOffset)
    (batches : List (ℕ × List MoveItem))
    → s.cfg.service_radius_chunks ≤ 127
    → contains_chunk s.cfg x z ≡ true
    → batch_at (local_chunk_index s.cfg x z) (spread s q offsets batches)
      ≡ batch_at (local_chunk_index s.cfg x z) batches
        ++ copies
            (occurrences (x -ℤ q.current_chunk_x) (z -ℤ q.current_chunk_z) offsets)
            q.pending_move
unfolding spread occurrences
spread-batch_at s q x z [] batches hr h = sym (append-nil _)
spread-batch_at s q x z (o ∷ os) batches hr h =
    let cx = q.current_chunk_x in
    let cz = q.current_chunk_z in
    let i = local_chunk_index s.cfg x z in
    let j = local_chunk_index s.cfg (cx +ℤ o.dx) (cz +ℤ o.dz) in
    elim (Bool-cases (contains_chunk s.cfg (cx +ℤ o.dx) (cz +ℤ o.dz))) [
      | inl inside ↦
          let again = push_batch j q.pending_move batches in
          let seen = eqb_ℤ (cx +ℤ o.dx) x && eqb_ℤ (cz +ℤ o.dz) z in
          let here =
            push_batch-batch_at j i q.pending_move batches
            ∙ ap
                (λ b. if b then batch_at i batches ++ (q.pending_move ∷ []) else batch_at i batches)
                (same_chunk s.cfg (cx +ℤ o.dx) (cz +ℤ o.dz) x z hr inside h) in
          let n = occurrences (x -ℤ cx) (z -ℤ cz) os in
          rw (inside, is_offset cx o.dx x, is_offset cz o.dz z)
            (spread-batch_at s q x z os again hr h
              ∙ ap (λ items. items ++ copies n q.pending_move) here
              ∙ copies_more seen n q.pending_move (batch_at i batches))
      | inr outside ↦
          rw
            (
              outside,
              is_offset cx o.dx x,
              is_offset cz o.dz z,
              outside_differs s.cfg (cx +ℤ o.dx) (cz +ℤ o.dz) x z outside h,
            )
            (spread-batch_at s q x z os batches hr h)
    ]

-- A player among the chunks that see it, once.
copies_once :
    (seen : Bool) (n : ℕ) (item : MoveItem) (items rest : List MoveItem)
    → n ≡ (if seen then 1 else 0)
    → (items ++ copies n item) ++ rest ≡ items ++ (if seen then item ∷ rest else rest)
copies_once true n item items rest e =
    ap (λ k. (items ++ copies k item) ++ rest) e ∙ append_assoc items (item ∷ []) rest
copies_once false n item items rest e =
    ap (λ k. (items ++ copies k item) ++ rest) e ∙ append_assoc items [] rest

-- The chunk gets a move of the player if it sees the player.
pub spread_due :
    (s : Guardian) (q : Player) (x z : ℤ) (batches : List (ℕ × List MoveItem))
    (rest : List MoveItem)
    → s.cfg.service_radius_chunks ≤ 127
    → s.cfg.player_aoi_radius_chunks ≤ 127
    → contains_chunk s.cfg x z ≡ true
    → batch_at (local_chunk_index s.cfg x z) (spread s q (aoi_offsets s) batches) ++ rest
      ≡ batch_at (local_chunk_index s.cfg x z) batches
        ++ (if is_seen s.cfg x z q then q.pending_move ∷ rest else rest)
spread_due s q x z batches rest hr ha h =
    let dx = x -ℤ q.current_chunk_x in
    let dz = z -ℤ q.current_chunk_z in
    let items = batch_at (local_chunk_index s.cfg x z) batches in
    ap (λ xs. xs ++ rest) (spread-batch_at s q x z (aoi_offsets s) batches hr h)
    ∙ copies_once (is_seen s.cfg x z q) (occurrences dx dz (aoi_offsets s)) q.pending_move items
        rest (build_aoi_offsets_square s.cfg.player_aoi_radius_chunks dx dz ha).1
