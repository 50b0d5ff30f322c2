-- ===== src/Guardian/Unlink.antt =====
-- The links once a player's seat is taken by the last one of its room, as in `remove_player_from_room` of
-- Guardian/src/guardian.cpp.
use nicechunk_guardian.Base.{
  ℕ, suc, subst, ◌-◌, ◌<◌, ◌≤◌, ◌≡◌, ◌≢◌, sym, ap, ◌∙◌, true, false, ◌==◌, if◌then◌else◌, none,
  some, List, length, get_elem?, arith, Bool-cases, inl, inr,
}
use nicechunk_guardian.Base.Table.{lookup}
use nicechunk_guardian.Base.Slots.{get_elem?-lt}
use nicechunk_guardian.Chunk.{chunk_key}
use nicechunk_guardian.Guardian.{Player, ChunkRoom}
use nicechunk_guardian.Guardian.Rooms.{swap_remove, back_of, is_empty_room}
use nicechunk_guardian.Guardian.Links.{
  Seat, Links, swap_remove_slot, back_of_slot, is_empty_room_slot, same_slot,
}

module _ (heap : ℕ → Player) (rooms : List (ℕ × ChunkRoom)) (l : Links heap rooms) (p k : ℕ)
    (r : ChunkRoom) (at : lookup k rooms ≡ some r) (idx : ℕ)
    (seat : get_elem? r.players idx ≡ some p) (heap' : ℕ → Player) (rooms' : List (ℕ × ChunkRoom))
    (new_room : (q : ℕ)
      → (heap' q).current_chunk_room ≡ (if q == p then none else (heap q).current_chunk_room))
    (new_index : (q : ℕ)
      → (heap' q).index_in_chunk_vector
        ≡ (if q == back_of r.players then idx else (heap q).index_in_chunk_vector))
    (new_rooms : (j : ℕ)
      → lookup j rooms' ≡ (
          if k == j
          then (if is_empty_room (swap_remove idx r.players)
              then none
              else some (record r { players = swap_remove idx r.players }))
          else lookup j rooms)) where
  inside : idx < length r.players
  inside = get_elem?-lt r.players idx p seat

  -- The last player of the room, in its old slot.
  last_seat :
      ((heap (back_of r.players)).current_chunk_room ≡ some k)
      × ((heap (back_of r.players)).index_in_chunk_vector ≡ length r.players - 1)
  last_seat =
      l.back k (length r.players - 1) (back_of r.players) r at
        (back_of_slot r.players (omega (arith, inside)))

  leaver : ((heap p).current_chunk_room ≡ some k) × ((heap p).index_in_chunk_vector ≡ idx)
  leaver = l.back k idx p r at seat

  not_last : (q : ℕ) → q ≢ p → q ≡ back_of r.players → suc idx ≤ length r.players - 1
  not_last q ne e = ground (
    arith,
    inside,
    same_slot r.players idx (length r.players - 1) p (back_of r.players) seat
        (back_of_slot r.players (omega (arith, inside))),
  )

  not_free :
      (q : ℕ)
      → q ≢ p
      → get_elem? r.players (heap q).index_in_chunk_vector ≡ some q
      → (idx == (heap q).index_in_chunk_vector) ≡ false
  not_free q ne old =
      ground (arith, same_slot r.players idx (heap q).index_in_chunk_vector p q seat old)

  not_back :
      (q : ℕ)
      → get_elem? r.players (heap q).index_in_chunk_vector ≡ some q
      → (q == back_of r.players) ≡ false
      → suc (heap q).index_in_chunk_vector ≤ length r.players - 1
  not_back q old other = ground (
    arith,
    inside,
    get_elem?-lt r.players (heap q).index_in_chunk_vector q old,
    same_slot r.players (heap q).index_in_chunk_vector (length r.players - 1) q (back_of r.players)
        old (back_of_slot r.players (omega (arith, inside))),
  )

  -- A player that stays in the room keeps its slot, or moves from the last one to the free one.
  stays :
      (q : ℕ)
      → q ≢ p
      → get_elem? r.players (heap q).index_in_chunk_vector ≡ some q
      → get_elem?
          (swap_remove idx r.players)
          (if q == back_of r.players then idx else (heap q).index_in_chunk_vector)
        ≡ some q
  stays q ne old = elim (Bool-cases (q == back_of r.players)) [
    | inl last ↦ rw last (
        ground
          (arith, swap_remove_slot idx idx r.players inside, not_last q ne (ground (arith, last))))
    | inr other ↦ rw other (
        ground (
          arith,
          swap_remove_slot idx (heap q).index_in_chunk_vector r.players inside,
          not_free q ne old,
          not_back q old other,
        ))
  ]

  -- Who sits in a slot that is left.
  left_back :
      (i q : ℕ)
      → get_elem? (swap_remove idx r.players) i ≡ some q
      → ((heap' q).current_chunk_room ≡ some k) × ((heap' q).index_in_chunk_vector ≡ i)
  left_back i q e = elim (Bool-cases (idx == i)) [
    | inl same ↦
        ground (
          arith,
          swap_remove_slot idx i r.players inside,
          last_seat,
          leaver,
          new_room q,
          new_index q,
        )
    | inr other ↦ ground (
      arith,
      swap_remove_slot idx i r.players inside,
      l.back k i q r at,
      last_seat,
      leaver,
      new_room q,
      new_index q,
    )
  ]

  room_left :
      (j : ℕ) (r' : ChunkRoom)
      → (k == j) ≡ true
      → lookup j rooms' ≡ some r'
      → (is_empty_room (swap_remove idx r.players) ≡ false)
        × (record r { players = swap_remove idx r.players } ≡ r')
        × (j ≡ k)
  room_left j r' same e = elim (Bool-cases (is_empty_room (swap_remove idx r.players))) [
    | inl gone ↦ ground (arith, new_rooms j)
    | inr stay ↦ ground (arith, new_rooms j)
  ]

  unlink_back :
      (j i q : ℕ) (r' : ChunkRoom)
      → lookup j rooms' ≡ some r'
      → get_elem? r'.players i ≡ some q
      → ((heap' q).current_chunk_room ≡ some j) × ((heap' q).index_in_chunk_vector ≡ i)
  unlink_back j i q r' e o = elim (Bool-cases (k == j)) [
    | inl same ↦ grind (arith, room_left j r' same e, left_back i q)
    | inr other ↦
        ground (arith, new_rooms j, l.back j i q r', last_seat, leaver, new_room q, new_index q)
  ]

  unlink_solid :
      (j : ℕ) (r' : ChunkRoom)
      → lookup j rooms' ≡ some r'
      → (is_empty_room r'.players ≡ false) × (chunk_key r'.chunk_x r'.chunk_z ≡ j)
  unlink_solid j r' e = elim (Bool-cases (k == j)) [
    | inl same ↦ grind (arith, room_left j r' same e, l.solid k r at)
    | inr other ↦ ground (arith, new_rooms j, l.solid j r')
  ]

  still_in :
      (q j : ℕ)
      → (heap' q).current_chunk_room ≡ some j
      → (q ≢ p) × ((heap q).current_chunk_room ≡ some j)
  still_in q j e = ground (arith, new_room q)

  -- Its room, if it was the room that the player left.
  stays_seated :
      (q : ℕ)
      → q ≢ p
      → (heap q).current_chunk_room ≡ some k
      → Seat rooms' k (heap' q).index_in_chunk_vector q
  stays_seated q ne here =
      let (r', at', old) = l.forth q k here in
      let slot = stays q ne (grind (arith, at, at', old)) in
      let some_one =
        is_empty_room_slot (swap_remove idx r.players)
          (if q == back_of r.players then idx else (heap q).index_in_chunk_vector) q slot in
      (
        record r { players = swap_remove idx r.players },
        ground (arith, some_one, new_rooms k),
        ground (arith, slot, new_index q),
      )

  unlink_forth :
      (q j : ℕ)
      → (heap' q).current_chunk_room ≡ some j
      → Seat rooms' j (heap' q).index_in_chunk_vector q
  unlink_forth q j e =
      let (ne, here) = still_in q j e in
      elim (Bool-cases (k == j)) [
        | inl same ↦
            let key : k ≡ j = ground (arith, same) in
            subst (λ x. Seat rooms' x (heap' q).index_in_chunk_vector q) key
              (stays_seated q ne (here ∙ ap some (sym key)))
        | inr other ↦
            let (r', at', old) = l.forth q j here in
            (r', ground (arith, new_rooms j), ground (arith, new_index q, last_seat))
      ]

  pub unlink-Links : Links heap' rooms'
  unlink-Links = record { forth = unlink_forth; back = unlink_back; solid = unlink_solid }
