-- ===== src/Guardian/Moves.antt =====
-- `move_player_chunk` of Guardian/src/guardian.cpp and the links.
use nicechunk_guardian.Base.{
  ℕ, subst, ◌≡◌, refl, sym, Bool, true, false, not, ◌&&◌, if◌then◌else◌, arith,
}
use nicechunk_guardian.Base.Int.{ℤ, eqb_ℤ}
use nicechunk_guardian.Chunk.{contains_chunk, to_local_chunk_x, to_local_chunk_z}
use nicechunk_guardian.Guardian.{Guardian, modify}
use nicechunk_guardian.Guardian.Rooms.{enter_room, move_player_chunk, remove_player_from_room}
use nicechunk_guardian.Guardian.Links.{Links, Links-same}
use nicechunk_guardian.Guardian.Leaving.{HasLeft, remove_player_from_room-HasLeft}
use nicechunk_guardian.Guardian.Entering.{HasEntered, enter_room-HasEntered}

-- The state once the player has left its room and has its new chunk.
abbrev pub placed : ℕ → ℤ → ℤ → Guardian → Guardian
placed p x z s = record (remove_player_from_room p s) {
  heap =
      modify p
        (λ q. record q {
          current_chunk_x = x;
          current_chunk_z = z;
          local_chunk_x = to_local_chunk_x s.cfg x;
          local_chunk_z = to_local_chunk_z s.cfg z;
        })
        (remove_player_from_room p s).heap;
}

placed-HasLeft :
    (p : ℕ) (x z : ℤ) (s : Guardian) → Links s.heap s.rooms → HasLeft p s (placed p x z s)
placed-HasLeft p x z s l =
    let (links, room) = remove_player_from_room-HasLeft p s l in
    (
      Links-same (remove_player_from_room p s).heap (placed p x z s).heap
          (remove_player_from_room p s).rooms (λ q. ground arith) (λ q. ground arith) links,
      λ q. ground (arith, room q),
    )

-- A chunk that is not the player's own.
abbrev pub is_new_chunk : ℕ → ℤ → ℤ → Guardian → Bool
is_new_chunk p x z s =
    not (eqb_ℤ (s.heap p).current_chunk_x x && eqb_ℤ (s.heap p).current_chunk_z z)

abbrev pub Moves : Bool → Bool → ℕ → ℤ → ℤ → Guardian → Guardian × Bool → Type 0
Moves false new p x z s r = r ≡ (s, false)
Moves true false p x z s r = r ≡ (s, true)
Moves true true p x z s r = HasEntered p x z s r.0 × (r.1 ≡ true)

pub moves_in :
    (p : ℕ) (x z : ℤ) (s : Guardian)
    → Links s.heap s.rooms
    → HasEntered p x z s (enter_room p x z (placed p x z s))
moves_in p x z s l =
    let (links, room) = placed-HasLeft p x z s l in
    let (links', room') =
      enter_room-HasEntered p x z (placed p x z s) links (ground (arith, room p)) in
    (links', λ q. ground (arith, room q, room' q))

-- The clauses of `move_player_chunk`.
pub move_player_chunk_cases :
    (p : ℕ) (x z : ℤ) (s : Guardian)
    → move_player_chunk p x z s ≡ (
        if contains_chunk s.cfg x z
        then (if is_new_chunk p x z s then (enter_room p x z (placed p x z s), true) else (s, true))
        else (s, false))
unfolding move_player_chunk
move_player_chunk_cases p x z s = ground arith

moves :
    (inside new : Bool) (p : ℕ) (x z : ℤ) (s : Guardian)
    → Links s.heap s.rooms
    → Moves inside new p x z s (
        if inside
        then (if new then (enter_room p x z (placed p x z s), true) else (s, true))
        else (s, false))
moves false new p x z s l = refl
moves true false p x z s l = refl
moves true true p x z s l = (moves_in p x z s l, refl)

-- Where players and rooms point at one another: `move_player_chunk` refuses a chunk outside the area and
-- changes nothing; in the player's own chunk it succeeds and changes nothing; for any other chunk it
-- succeeds, the player is in the room of that chunk, no other player changes its room, and players and
-- rooms still point at one another.
pub move_player_chunk-Moves :
    (p : ℕ) (x z : ℤ) (s : Guardian)
    → Links s.heap s.rooms
    → Moves (contains_chunk s.cfg x z) (is_new_chunk p x z s) p x z s (move_player_chunk p x z s)
move_player_chunk-Moves p x z s l =
    subst (Moves (contains_chunk s.cfg x z) (is_new_chunk p x z s) p x z s)
      (sym (move_player_chunk_cases p x z s))
      (moves (contains_chunk s.cfg x z) (is_new_chunk p x z s) p x z s l)
