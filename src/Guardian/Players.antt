-- ===== src/Guardian/Players.antt =====
-- The tables of players in Guardian/src/guardian.cpp: who joins and who leaves. An unordered_map is
-- walked in the order of the association list.
use nicechunk_guardian.Base.{
  ℕ, zero, suc, ◌+◌, ◌%◌, ◌^◌, ◌==◌, ltb, Bool, false, not, ◌||◌, if◌then◌else◌, Option, none, some,
  List, [], ◌∷◌, ◌++◌, length,
}
use nicechunk_guardian.Base.Int.{ℤ}
use nicechunk_guardian.Base.Table.{lookup, insert, erase}
use nicechunk_guardian.Wire.{Bytes}
use nicechunk_guardian.Chunk.{contains_chunk, to_local_chunk_x, to_local_chunk_z}
use nicechunk_guardian.Protocol.Messages.{Hello}
use nicechunk_guardian.Protocol.Events.{PlayerLeave}
use nicechunk_guardian.Building.{all_zero}
use nicechunk_guardian.RateLimit.{RateWindow}
use nicechunk_guardian.Guardian.{Player, Guardian, modify, new_player}
use nicechunk_guardian.Guardian.Rooms.{enter_room, remove_player_from_room}
use nicechunk_guardian.Guardian.Wallet.{hash_wallet, fingerprint_wallet, wallet_equal}
use nicechunk_guardian.Guardian.Events.{make_leave}

unfoldable pub can_accept_player : Guardian → Bool
can_accept_player s = ltb (length s.players) s.cfg.max_players

-- `next_local_player_id_++`, and 1 in place of 0.
abbrev pub next_id : ℕ → ℕ
next_id id = let next = (id + 1) % 2 ^ 16 in if next == 0 then 1 else next

-- The rounds of `allocate_player_id`: the result, and the next id.
unfoldable pub allocate_loop : ℕ → ℕ → List (ℕ × ℕ) → ℕ × ℕ
allocate_loop zero next players = (0, next)
allocate_loop (suc n) next players = elim (lookup next players) [
  | none ↦ (next, next_id next)
  | some p ↦ allocate_loop n (next_id next) players
]

unfoldable pub allocate_player_id : Guardian → Guardian × ℕ
unfolding allocate_loop
allocate_player_id s =
    let (id, next) = allocate_loop 65535 s.next_local_player_id s.players in
    (record s { next_local_player_id = next }, id)

abbrev window_at : ℕ → RateWindow
window_at t_ms = record { window_ms = t_ms; count = 0 }

-- The new Player of `create_player`.
unfoldable pub player_of : Hello → ℕ → ℕ → Guardian → Player
unfolding hash_wallet fingerprint_wallet
player_of hello id t_ms s = record new_player {
  local_player_id = id;
  wallet_pubkey = hello.wallet_pubkey;
  owner_hash = hash_wallet hello.wallet_pubkey;
  owner_fingerprint = fingerprint_wallet hello.wallet_pubkey;
  current_chunk_x = hello.start_chunk_x;
  current_chunk_z = hello.start_chunk_z;
  local_chunk_x = to_local_chunk_x s.cfg hello.start_chunk_x;
  local_chunk_z = to_local_chunk_z s.cfg hello.start_chunk_z;
  connected_at_ms = t_ms;
  last_seen_ms = t_ms;
  move_window = window_at t_ms;
  dig_window = window_at t_ms;
  equipment_window = window_at t_ms;
  building_window = window_at t_ms;
}

-- The player goes to a new address, the table and the room.
unfoldable pub register : Hello → ℕ → ℕ → Guardian → Guardian
unfolding player_of enter_room
register hello id t_ms s =
    let p = s.next_address in
    let players = insert id p s.players in
    let added = record s {
      heap = λ q. if q == p then player_of hello id t_ms s else s.heap q;
      next_address = p + 1;
      players = players;
    } in
    let entered = enter_room p hello.start_chunk_x hello.start_chunk_z added in
    record entered { metrics = record (entered.metrics) { players = length players } }

unfoldable pub create_player : Hello → ℕ → Guardian → Guardian × Option ℕ
unfolding can_accept_player allocate_player_id register
create_player hello t_ms s =
    let (allocated, id) = allocate_player_id s in
    if not (can_accept_player s)
      || not (contains_chunk s.cfg hello.start_chunk_x hello.start_chunk_z)
    then (s, none)
    else if id == 0
    then (allocated, none)
    else (register hello id t_ms allocated, some s.next_address)

unfoldable pub remove_player : ℕ → Guardian → Guardian
unfolding remove_player_from_room
remove_player p s =
    let out = remove_player_from_room p s in
    let players = erase (out.heap p).local_player_id out.players in
    record out { players = players; metrics = record (out.metrics) { players = length players } }

unfoldable pub is_active_player : ℕ → Guardian → Bool
is_active_player p s = elim (lookup (s.heap p).local_player_id s.players) [
  | none ↦ false
  | some q ↦ q == p
]

-- `find_if` and `erase` of what it finds.
unfoldable pub erase_first : ℕ → List ℕ → List ℕ
erase_first p [] = []
erase_first p (q ∷ qs) = let rest = erase_first p qs in if q == p then qs else q ∷ rest

unfoldable pub release_retired_player : ℕ → Guardian → Guardian
unfolding erase_first
release_retired_player p s = record s { retired_players = erase_first p s.retired_players }

pub record RetiredPlayerNotice : Type 0 where
  pub chunk_x : ℤ
  pub chunk_z : ℤ
  pub leave : PlayerLeave

-- The body of the loop of `retire_players_with_wallet` for a player with the wallet.
unfoldable pub retire : ℕ → ℕ → Guardian → Guardian
unfolding remove_player_from_room
retire id p s =
    let out = remove_player_from_room p s in
    record out {
      heap = modify p (λ q. record q { connected = false }) out.heap;
      retired_players = out.retired_players ++ (p ∷ []);
      players = erase id out.players;
    }

-- The loop, over the entries that are left to walk.
unfoldable pub retire_loop : Bytes → List (ℕ × ℕ) → Guardian → Guardian × List RetiredPlayerNotice
unfolding retire make_leave wallet_equal
retire_loop wallet [] s = (s, [])
retire_loop wallet ((id, p) ∷ entries) s =
    let q = s.heap p in
    let match = wallet_equal q.wallet_pubkey wallet in
    let (s', notices) = retire_loop wallet entries (if match then retire id p s else s) in
    (
      s',
      if match
          then record {
            chunk_x = q.current_chunk_x;
            chunk_z = q.current_chunk_z;
            leave = make_leave q 3;
          }
            ∷ notices
          else notices,
    )

unfoldable pub retire_players_with_wallet : Bytes → Guardian → Guardian × List RetiredPlayerNotice
unfolding retire_loop
retire_players_with_wallet wallet s =
    let (s', notices) = retire_loop wallet s.players s in
    if all_zero wallet
    then (s, [])
    else (record s' { metrics = record (s'.metrics) { players = length s'.players } }, notices)
