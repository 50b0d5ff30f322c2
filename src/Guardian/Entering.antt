-- ===== src/Guardian/Entering.antt =====
-- `add_player_to_room` after `get_or_create_room` of Guardian/src/guardian.cpp keeps the links.
use nicechunk_guardian.Base.{
  ℕ, subst, ◌≡◌, refl, sym, ◌==◌, if◌then◌else◌, none, some, [], ◌∷◌, ◌++◌, length, arith,
  Option-cases, inl, inr,
}
use nicechunk_guardian.Base.Int.{ℤ}
use nicechunk_guardian.Base.Table.{lookup, insert, lookup-insert}
use nicechunk_guardian.Chunk.{chunk_key, local_chunk_index}
use nicechunk_guardian.Guardian.{ChunkRoom, Guardian, chunk_topic}
use nicechunk_guardian.Guardian.Rooms.{enter_room, get_or_create_room, add_player_to_room}
use nicechunk_guardian.Guardian.Links.{Links}
use nicechunk_guardian.Guardian.Link.{Before, link-Links}

-- `p` is put in the room `r`, which stands under the key `k`.
record Enters (p k : ℕ) (r : ChunkRoom) (s s' : Guardian) : Type 0 where
  new_room :
      (q : ℕ)
      → (s'.heap q).current_chunk_room ≡ (if q == p then some k else (s.heap q).current_chunk_room)
  new_index :
      (q : ℕ)
      → (s'.heap q).index_in_chunk_vector
        ≡ (if q == p then length r.players else (s.heap q).index_in_chunk_vector)
  new_rooms :
      (j : ℕ)
      → lookup j s'.rooms
        ≡ (if k == j then some (record r { players = r.players ++ (p ∷ []) }) else lookup j s.rooms)

add_player_to_room-Enters :
    (p k : ℕ) (r : ChunkRoom) (s : Guardian)
    → lookup k s.rooms ≡ some r
    → Enters p k r s (add_player_to_room p k s)
unfolding add_player_to_room
add_player_to_room-Enters p k r s e =
    rw (e, add_player_to_room)
      (record {
        new_room = λ q. ground arith;
        new_index = λ q. ground arith;
        new_rooms = λ j. lookup-insert k j (record r { players = r.players ++ (p ∷ []) }) s.rooms;
      })

abbrev new_room_at : ℤ → ℤ → Guardian → ChunkRoom
new_room_at x z s = record {
  chunk_x = x;
  chunk_z = z;
  local_chunk_index = local_chunk_index s.cfg x z;
  topic = chunk_topic (local_chunk_index s.cfg x z);
  players = [];
}

enter_old :
    (p : ℕ) (x z : ℤ) (r : ChunkRoom) (s : Guardian)
    → lookup (chunk_key x z) s.rooms ≡ some r
    → Enters p (chunk_key x z) r s (enter_room p x z s)
unfolding enter_room get_or_create_room
enter_old p x z r s e =
    rw (e, enter_room, get_or_create_room) (add_player_to_room-Enters p (chunk_key x z) r s e)

-- The state once `get_or_create_room` has made a room.
abbrev with_room : ℤ → ℤ → Guardian → Guardian
with_room x z s =
    let rooms = insert (chunk_key x z) (new_room_at x z s) s.rooms in
    record s { rooms = rooms; metrics = record (s.metrics) { active_chunks = length rooms } }

with_room-Enters :
    (p : ℕ) (x z : ℤ) (s s' : Guardian)
    → Enters p (chunk_key x z) (new_room_at x z s) (with_room x z s) s'
    → Enters p (chunk_key x z) (new_room_at x z s) s s'
with_room-Enters p x z s s' e = record {
  new_room = e.new_room;
  new_index = e.new_index;
  new_rooms = λ j.
      ground (arith, e.new_rooms j, lookup-insert (chunk_key x z) j (new_room_at x z s) s.rooms);
}

enter_new :
    (p : ℕ) (x z : ℤ) (s : Guardian)
    → lookup (chunk_key x z) s.rooms ≡ none
    → Enters p (chunk_key x z) (new_room_at x z s) s (enter_room p x z s)
unfolding enter_room get_or_create_room
enter_new p x z s e =
    rw (e, enter_room, get_or_create_room)
      (with_room-Enters p x z s (add_player_to_room p (chunk_key x z) (with_room x z s)) (
        add_player_to_room-Enters p (chunk_key x z) (new_room_at x z s) (with_room x z s) (
          ground
            (arith, lookup-insert (chunk_key x z) (chunk_key x z) (new_room_at x z s) s.rooms))))

-- From `s` to `s'` only `p` changes its room, and it is in the chunk's room in `s'`, where the links hold.
abbrev pub HasEntered : ℕ → ℤ → ℤ → Guardian → Guardian → Type 0
HasEntered p x z s s' =
    Links s'.heap s'.rooms
    × ((q : ℕ)
        → (s'.heap q).current_chunk_room
          ≡ (if q == p then some (chunk_key x z) else (s.heap q).current_chunk_room))

module _ (p : ℕ) (x z : ℤ) (s : Guardian) (l : Links s.heap s.rooms)
    (out : (s.heap p).current_chunk_room ≡ none) where
  entered :
      (r : ChunkRoom)
      → chunk_key r.chunk_x r.chunk_z ≡ chunk_key x z
      → Before r (lookup (chunk_key x z) s.rooms)
      → Enters p (chunk_key x z) r s (enter_room p x z s)
      → HasEntered p x z s (enter_room p x z s)
  entered r key now e = (
    link-Links s.heap s.rooms l p (chunk_key x z) out r key now (enter_room p x z s).heap
        (enter_room p x z s).rooms e.new_room e.new_index e.new_rooms,
    e.new_room,
  )

  -- Where the links hold and the player has no room, `add_player_to_room` after `get_or_create_room`
  -- puts it in the room of the chunk, and the links hold.
  pub enter_room-HasEntered : HasEntered p x z s (enter_room p x z s)
  enter_room-HasEntered = elim (Option-cases (lookup (chunk_key x z) s.rooms)) [
    | inl absent ↦
        entered (new_room_at x z s) refl (subst (Before (new_room_at x z s)) (sym absent) refl)
          (enter_new p x z s absent)
    | inr (r, e) ↦
        entered r (l.solid (chunk_key x z) r e).1 (subst (Before r) (sym e) refl)
          (enter_old p x z r s e)
  ]
