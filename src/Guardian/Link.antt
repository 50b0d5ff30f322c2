-- ===== src/Guardian/Link.antt =====
-- The links once a player without a room is put at the end of one, as in `add_player_to_room` of
-- Guardian/src/guardian.cpp.
use nicechunk_guardian.Base.{
  ℕ, subst, ◌≡◌, refl, sym, ap, ◌∙◌, true, false, ◌==◌, if◌then◌else◌, Option, none, some, List, [],
  ◌∷◌, ◌++◌, length, get_elem?, arith, Bool-cases, Option-cases, inl, inr,
}
use nicechunk_guardian.Base.Table.{lookup}
use nicechunk_guardian.Base.Slots.{get_elem?-lt, get_elem?-append_one}
use nicechunk_guardian.Chunk.{chunk_key}
use nicechunk_guardian.Guardian.{Player, ChunkRoom}
use nicechunk_guardian.Guardian.Rooms.{is_empty_room}
use nicechunk_guardian.Guardian.Links.{Seat, Links}

-- `r` is the room that the map holds, or a new one.
abbrev pub Before : ChunkRoom → Option ChunkRoom → Type 0
Before r none = r.players ≡ []
Before r (some r') = r' ≡ r

module _ (heap : ℕ → Player) (rooms : List (ℕ × ChunkRoom)) (l : Links heap rooms) (p k : ℕ)
    (out : (heap p).current_chunk_room ≡ none) (r : ChunkRoom)
    (key : chunk_key r.chunk_x r.chunk_z ≡ k) (now : Before r (lookup k rooms)) (heap' : ℕ → Player)
    (rooms' : List (ℕ × ChunkRoom))
    (new_room : (q : ℕ)
      → (heap' q).current_chunk_room ≡ (if q == p then some k else (heap q).current_chunk_room))
    (new_index : (q : ℕ)
      → (heap' q).index_in_chunk_vector
        ≡ (if q == p then length r.players else (heap q).index_in_chunk_vector))
    (new_rooms : (j : ℕ)
      → lookup j rooms' ≡ (
          if k == j
          then some (record r { players = r.players ++ (p ∷ []) })
          else lookup j rooms)) where
  there : (r' : ChunkRoom) → lookup k rooms ≡ some r' → r' ≡ r
  there r' e = subst (Before r) e now

  sits :
      (i q : ℕ)
      → get_elem? r.players i ≡ some q
      → ((heap q).current_chunk_room ≡ some k) × ((heap q).index_in_chunk_vector ≡ i)
  sits i q e = elim (Option-cases (lookup k rooms)) [
    | inl absent ↦ let nobody = subst (Before r) absent now in ground (arith, nobody)
    | inr (r', at) ↦ l.back k i q r' at (ap (λ x. get_elem? x.players i) (there r' at) ∙ e)
  ]

  grown :
      (j : ℕ) (r' : ChunkRoom)
      → (k == j) ≡ true
      → lookup j rooms' ≡ some r'
      → (record r { players = r.players ++ (p ∷ []) } ≡ r') × (j ≡ k)
  grown j r' same e = ground (arith, new_rooms j)

  seat_now :
      (i q : ℕ)
      → get_elem? (r.players ++ (p ∷ [])) i ≡ some q
      → ((heap' q).current_chunk_room ≡ some k) × ((heap' q).index_in_chunk_vector ≡ i)
  seat_now i q e =
      ground (arith, out, get_elem?-append_one r.players p i, sits i q, new_room q, new_index q)

  link_back :
      (j i q : ℕ) (r' : ChunkRoom)
      → lookup j rooms' ≡ some r'
      → get_elem? r'.players i ≡ some q
      → ((heap' q).current_chunk_room ≡ some j) × ((heap' q).index_in_chunk_vector ≡ i)
  link_back j i q r' e o = elim (Bool-cases (k == j)) [
    | inl same ↦ grind (arith, grown j r' same e, seat_now i q)
    | inr other ↦ ground (arith, new_rooms j, l.back j i q r', new_room q, new_index q)
  ]

  some_player : (ps : List ℕ) → is_empty_room (ps ++ (p ∷ [])) ≡ false
  some_player [] = refl
  some_player (q ∷ ps) = refl

  link_solid :
      (j : ℕ) (r' : ChunkRoom)
      → lookup j rooms' ≡ some r'
      → (is_empty_room r'.players ≡ false) × (chunk_key r'.chunk_x r'.chunk_z ≡ j)
  link_solid j r' e = elim (Bool-cases (k == j)) [
    | inl same ↦ grind (arith, grown j r' same e, key, some_player r.players)
    | inr other ↦ ground (arith, new_rooms j, l.solid j r')
  ]

  -- The room that the player enters.
  seated :
      (q : ℕ)
      → get_elem? (r.players ++ (p ∷ [])) (heap' q).index_in_chunk_vector ≡ some q
      → Seat rooms' k (heap' q).index_in_chunk_vector q
  seated q e = (record r { players = r.players ++ (p ∷ []) }, ground (arith, new_rooms k), e)

  before_or_new :
      (q : ℕ)
      → (heap' q).current_chunk_room ≡ some k
      → get_elem? (r.players ++ (p ∷ [])) (heap' q).index_in_chunk_vector ≡ some q
  before_or_new q e = elim (Bool-cases (q == p)) [
    | inl same ↦
        ground
          (arith, new_index q, get_elem?-append_one r.players p (heap' q).index_in_chunk_vector)
    | inr other ↦
        let (r', at, slot) = l.forth q k (ground (arith, new_room q)) in
        let old =
          ap (λ x. get_elem? x.players (heap q).index_in_chunk_vector) (sym (there r' at)) ∙ slot in
        ground (
          arith,
          old,
          new_index q,
          get_elem?-lt r.players (heap q).index_in_chunk_vector q old,
          get_elem?-append_one r.players p (heap q).index_in_chunk_vector,
        )
  ]

  link_forth :
      (q j : ℕ)
      → (heap' q).current_chunk_room ≡ some j
      → Seat rooms' j (heap' q).index_in_chunk_vector q
  link_forth q j e = elim (Bool-cases (k == j)) [
    | inl same ↦
        let at : k ≡ j = ground (arith, same) in
        subst (λ x. Seat rooms' x (heap' q).index_in_chunk_vector q) at
          (seated q (before_or_new q (e ∙ ap some (sym at))))
    | inr other ↦
        let old : (heap q).current_chunk_room ≡ some j = ground (arith, new_room q) in
        let (r', at, slot) = l.forth q j old in
        (r', ground (arith, new_rooms j), ground (arith, out, new_index q))
  ]

  pub link-Links : Links heap' rooms'
  link-Links = record { forth = link_forth; back = link_back; solid = link_solid }
