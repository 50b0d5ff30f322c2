-- ===== src/Guardian/Leaving.antt =====
-- `remove_player_from_room` of Guardian/src/guardian.cpp and the links.
use nicechunk_guardian.Base.{
  ℕ, subst, ◌≡◌, refl, sym, true, ◌==◌, ltb, if◌then◌else◌, none, some, length, get_elem?, arith,
  Option-cases, inl, inr,
}
use nicechunk_guardian.Base.Table.{lookup, lookup-insert, lookup-erase}
use nicechunk_guardian.Base.Slots.{get_elem?-lt}
use nicechunk_guardian.Chunk.{chunk_key}
use nicechunk_guardian.Guardian.{ChunkRoom, Guardian}
use nicechunk_guardian.Guardian.Rooms.{
  swap_remove, back_of, is_empty_room, leave_room, remove_player_from_room,
}
use nicechunk_guardian.Guardian.Links.{Links}
use nicechunk_guardian.Guardian.Unlink.{unlink-Links}

module _ (p k : ℕ) (r : ChunkRoom) (s : Guardian) (l : Links s.heap s.rooms)
    (at : lookup k s.rooms ≡ some r)
    (seat : get_elem? r.players (s.heap p).index_in_chunk_vector ≡ some p) where
  within : ltb (s.heap p).index_in_chunk_vector (length r.players) ≡ true
  within = ground (arith, get_elem?-lt r.players (s.heap p).index_in_chunk_vector p seat)

  left_room :
      (q : ℕ)
      → ((leave_room p k r s).heap q).current_chunk_room
        ≡ (if q == p then none else (s.heap q).current_chunk_room)
  unfolding leave_room
  left_room q = ground (arith, within)

  left_index :
      (q : ℕ)
      → ((leave_room p k r s).heap q).index_in_chunk_vector ≡ (
          if q == back_of r.players
          then (s.heap p).index_in_chunk_vector
          else (s.heap q).index_in_chunk_vector)
  unfolding leave_room
  left_index q = ground (arith, within)

  left_rooms :
      (j : ℕ)
      → lookup j (leave_room p k r s).rooms ≡ (
          if k == j
          then (if is_empty_room (swap_remove (s.heap p).index_in_chunk_vector r.players)
              then none
              else some
                  (record r { players = swap_remove (s.heap p).index_in_chunk_vector r.players }))
          else lookup j s.rooms)
  unfolding leave_room
  left_rooms j = ground (
    arith,
    within,
    (l.solid k r at).1,
    lookup-erase k j s.rooms,
    lookup-erase (chunk_key r.chunk_x r.chunk_z) j s.rooms,
    lookup-insert k j
        (record r { players = swap_remove (s.heap p).index_in_chunk_vector r.players }) s.rooms,
  )

  leave_room-Links : Links (leave_room p k r s).heap (leave_room p k r s).rooms
  leave_room-Links =
      unlink-Links s.heap s.rooms l p k r at (s.heap p).index_in_chunk_vector seat
        (leave_room p k r s).heap (leave_room p k r s).rooms left_room left_index left_rooms

pub remove_outside :
    (p : ℕ) (s : Guardian) → (s.heap p).current_chunk_room ≡ none → remove_player_from_room p s ≡ s
unfolding remove_player_from_room
remove_outside p s e = rw (e, remove_player_from_room) refl

pub remove_inside :
    (p k : ℕ) (r : ChunkRoom) (s : Guardian)
    → (s.heap p).current_chunk_room ≡ some k
    → lookup k s.rooms ≡ some r
    → remove_player_from_room p s ≡ leave_room p k r s
unfolding remove_player_from_room
remove_inside p k r s e at = rw (e, at, remove_player_from_room) refl

-- From `s` to `s'` only `p` changes its room, and it has none in `s'`, where the links hold.
abbrev pub HasLeft : ℕ → Guardian → Guardian → Type 0
HasLeft p s s' =
    Links s'.heap s'.rooms
    × ((q : ℕ)
        → (s'.heap q).current_chunk_room ≡ (if q == p then none else (s.heap q).current_chunk_room))

-- Where players and rooms point at one another, they still do after `remove_player_from_room`: every
-- player that points to a room is in the slot that it remembers, every player in a slot points back,
-- and no room is empty. The player has no room then, and every other player keeps its room.
pub remove_player_from_room-HasLeft :
    (p : ℕ) (s : Guardian) → Links s.heap s.rooms → HasLeft p s (remove_player_from_room p s)
remove_player_from_room-HasLeft p s l = elim (Option-cases (s.heap p).current_chunk_room) [
  | inl outside ↦
      subst (HasLeft p s) (sym (remove_outside p s outside)) (l, λ q. ground (arith, outside))
  | inr (k, e) ↦
      let (r, at, seat) = l.forth p k e in
      subst (HasLeft p s) (sym (remove_inside p k r s e at))
        (leave_room-Links p k r s l at seat, left_room p k r s l at seat)
]
