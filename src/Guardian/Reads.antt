-- ===== src/Guardian/Reads.antt =====
-- The pointers that Guardian/src/guardian.cpp follows when players leave rooms: to the room of a player, and to
-- the last player of that room.
pub mod Held
use nicechunk_guardian.Base.{
  ℕ, Bool, true, false, not, ◌&&◌, ◌||◌, ltb, if◌then◌else◌, none, some, List, [], ◌∷◌, length,
}
use nicechunk_guardian.Base.Int.{ℤ, eqb_ℤ}
use nicechunk_guardian.Base.Table.{lookup}
use nicechunk_guardian.Wire.{Bytes}
use nicechunk_guardian.Chunk.{contains_chunk}
use nicechunk_guardian.Building.{all_zero}
use nicechunk_guardian.Guardian.{Guardian}
use nicechunk_guardian.Guardian.Rooms.{back_of}
use nicechunk_guardian.Guardian.Wallet.{wallet_equal}
use nicechunk_guardian.Guardian.Players.{retire}
use nicechunk_guardian.Guardian.Publish.{is_alive}

-- `remove_player_from_room` follows the room, and `last` if the index is inside.
unfoldable pub can_leave_room : ℕ → Guardian → Bool
unfolding is_alive
can_leave_room p s = elim (s.heap p).current_chunk_room [
  | none ↦ true
  | some key ↦ elim (lookup key s.rooms) [
    | none ↦ false
    | some room ↦
        not (ltb (s.heap p).index_in_chunk_vector (length room.players))
        || is_alive (back_of room.players) s
  ]
]

-- `move_player_chunk` comes to that for a chunk of the area that is not the player's own.
unfoldable pub can_move : ℕ → ℤ → ℤ → Guardian → Bool
unfolding can_leave_room
can_move p x z s =
    not (contains_chunk s.cfg x z)
    || eqb_ℤ (s.heap p).current_chunk_x x && eqb_ℤ (s.heap p).current_chunk_z z
    || can_leave_room p s

-- The loop of `retire_players_with_wallet`, over the entries that are left; the table owns their players.
unfoldable pub can_retire_loop : Bytes → List (ℕ × ℕ) → Guardian → Bool
unfolding can_leave_room
can_retire_loop wallet [] s = true
can_retire_loop wallet ((id, p) ∷ entries) s =
    let match = wallet_equal (s.heap p).wallet_pubkey wallet in
    let rest = can_retire_loop wallet entries (if match then retire id p s else s) in
    (not match || can_leave_room p s) && rest

unfoldable pub can_retire : Bytes → Guardian → Bool
unfolding can_retire_loop
can_retire wallet s = all_zero wallet || can_retire_loop wallet s.players s
