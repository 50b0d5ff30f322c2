-- ===== src/Guardian/Rooms.antt =====
-- The rooms of Guardian/src/guardian.cpp: who is in which chunk.
use nicechunk_guardian.Base.{
  ℕ, ◌-◌, Bool, true, false, not, ◌&&◌, ltb, if◌then◌else◌, Option, none, some, List, [], ◌∷◌, ◌++◌,
  length, get_or, set, take,
}
use nicechunk_guardian.Base.Int.{ℤ, eqb_ℤ}
use nicechunk_guardian.Base.Table.{lookup, insert, erase}
use nicechunk_guardian.Chunk.{
  chunk_key, contains_chunk, local_chunk_index, to_local_chunk_x, to_local_chunk_z,
}
use nicechunk_guardian.Guardian.{ChunkRoom, chunk_topic, Guardian, modify}

unfoldable pub find_room : ℤ → ℤ → Guardian → Option ChunkRoom
find_room chunk_x chunk_z s = lookup (chunk_key chunk_x chunk_z) s.rooms

-- The new state, and the room's key.
unfoldable pub get_or_create_room : ℤ → ℤ → Guardian → Guardian × ℕ
get_or_create_room chunk_x chunk_z s =
    let key = chunk_key chunk_x chunk_z in
    let index = local_chunk_index s.cfg chunk_x chunk_z in
    let rooms =
      insert key
        (record {
          chunk_x = chunk_x;
          chunk_z = chunk_z;
          local_chunk_index = index;
          topic = chunk_topic index;
          players = [];
        })
        s.rooms in
    elim (lookup key s.rooms) [
      | some room ↦ (s, key)
      | none ↦ (
        record s { rooms = rooms; metrics = record (s.metrics) { active_chunks = length rooms } },
        key,
      )
    ]

-- A room's key leads to the room, or to nothing if the pointer dangles.
unfoldable pub add_player_to_room : ℕ → ℕ → Guardian → Guardian
add_player_to_room p key s = elim (lookup key s.rooms) [
  | none ↦ s
  | some room ↦ record s {
    heap =
        modify p
          (λ q. record q {
            current_chunk_room = some key;
            index_in_chunk_vector = length room.players;
          })
          s.heap;
    rooms = insert key (record room { players = room.players ++ (p ∷ []) }) s.rooms;
  }
]

-- `room->players.back()`.
abbrev pub back_of : List ℕ → ℕ
back_of ps = get_or ps (length ps - 1) 0

-- `players[idx] = last; players.pop_back();`
unfoldable pub swap_remove : ℕ → List ℕ → List ℕ
swap_remove idx ps = take (length ps - 1) (set ps idx (back_of ps))

abbrev pub is_empty_room : List ℕ → Bool
is_empty_room [] = true
is_empty_room (p ∷ ps) = false

-- The body of `remove_player_from_room` for a player in a room.
unfoldable pub leave_room : ℕ → ℕ → ChunkRoom → Guardian → Guardian
leave_room p key room s =
    let idx = (s.heap p).index_in_chunk_vector in
    let ps = room.players in
    let inside = ltb idx (length ps) in
    let left = if inside then swap_remove idx ps else ps in
    let moved =
      if inside
      then modify (back_of ps) (λ q. record q { index_in_chunk_vector = idx }) s.heap
      else s.heap in
    let heap = modify p (λ q. record q { current_chunk_room = none }) moved in
    let fewer = erase (chunk_key room.chunk_x room.chunk_z) s.rooms in
    if is_empty_room left
    then record s {
      heap = heap;
      rooms = fewer;
      metrics = record (s.metrics) { active_chunks = length fewer };
    }
    else record s { heap = heap; rooms = insert key (record room { players = left }) s.rooms }

unfoldable pub remove_player_from_room : ℕ → Guardian → Guardian
unfolding leave_room
remove_player_from_room p s = elim ((s.heap p).current_chunk_room) [
  | none ↦ s
  | some key ↦ elim (lookup key s.rooms) [ none ↦ s | some room ↦ leave_room p key room s ]
]

-- The last two lines of `create_player` and `move_player_chunk`.
unfoldable pub enter_room : ℕ → ℤ → ℤ → Guardian → Guardian
unfolding add_player_to_room get_or_create_room
enter_room p chunk_x chunk_z s =
    let (s', key) = get_or_create_room chunk_x chunk_z s in add_player_to_room p key s'

unfoldable pub move_player_chunk : ℕ → ℤ → ℤ → Guardian → Guardian × Bool
unfolding remove_player_from_room enter_room
move_player_chunk p chunk_x chunk_z s =
    let here = s.heap p in
    let out = remove_player_from_room p s in
    let placed = record out {
      heap =
          modify p
            (λ q. record q {
              current_chunk_x = chunk_x;
              current_chunk_z = chunk_z;
              local_chunk_x = to_local_chunk_x s.cfg chunk_x;
              local_chunk_z = to_local_chunk_z s.cfg chunk_z;
            })
            out.heap;
    } in
    if not (contains_chunk s.cfg chunk_x chunk_z)
    then (s, false)
    else if eqb_ℤ here.current_chunk_x chunk_x && eqb_ℤ here.current_chunk_z chunk_z
    then (s, true)
    else (enter_room p chunk_x chunk_z placed, true)
