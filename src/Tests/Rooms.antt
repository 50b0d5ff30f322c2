-- ===== src/Tests/Rooms.antt =====
-- Concrete players of Guardian/src/guardian.cpp: two in one chunk of the default service area.
use nicechunk_guardian.Base.{
  ◌%◌, ◌^◌, List, ℕ, ◌+◌, ◌≡◌, refl, ◌==◌, true, false, ◌&&◌, if◌then◌else◌, [], ◌∷◌, some, none,
  length, arith, All,
}
use nicechunk_guardian.Base.Int.{pos, negsuc, ◌-ℤ◌}
use nicechunk_guardian.Base.Table.{lookup, erase}
use nicechunk_guardian.Wire.{Bytes}
use nicechunk_guardian.Config.{Config, default_config}
use nicechunk_guardian.Aoi.Offsets.{is_near}
use nicechunk_guardian.Chunk.{contains_chunk, local_chunk_index}
use nicechunk_guardian.Building.{all_zero}
use nicechunk_guardian.Guardian.{Player, Guardian, Metrics, new_player, Topic}
use nicechunk_guardian.Guardian.Rooms.{enter_room, remove_player_from_room, move_player_chunk}
use nicechunk_guardian.Guardian.Links.{Links}
use nicechunk_guardian.Guardian.Leaving.{HasLeft, remove_player_from_room-HasLeft}
use nicechunk_guardian.Guardian.Entering.{HasEntered, enter_room-HasEntered}
use nicechunk_guardian.Guardian.Moves.{Moves, is_new_chunk, move_player_chunk-Moves}
use nicechunk_guardian.Guardian.Wallet.{wallet_equal}
use nicechunk_guardian.Guardian.Events.{update_player_move}
use nicechunk_guardian.Guardian.Keeps.{Keeps}
use nicechunk_guardian.Guardian.Players.{
  remove_player, retire_players_with_wallet, retire_loop, retire,
}
use nicechunk_guardian.Guardian.Publish.{
  publish_to_aoi, flush_pending_moves, send_batch, is_alive, has_player, has_retired,
}
use nicechunk_guardian.Guardian.Delivery.{deliveries, publish_to_aoi-deliveries}
use nicechunk_guardian.Guardian.Flush.{Counted, Sends, send_batch_all, is_none, all_alive}
use nicechunk_guardian.Guardian.Due.{moves_due}
use nicechunk_guardian.Guardian.Sendoff.{to_chunk, flush_pending_moves-Sends}
use nicechunk_guardian.Guardian.Dangling.{IsSoleOwned, flush_pending_moves-remove_player}
use nicechunk_guardian.Guardian.Retire.{retire_players_with_wallet-gone}
use nicechunk_guardian.Tests.Wire.{some_wallet, some_move, some_item}
use nicechunk_guardian.Tests.Geometry.{in_area}
use nicechunk_guardian.Tests.Buildings.{one_building}

abbrev no_counts : Metrics
no_counts = record {
  connections = 2;
  players = 2;
  active_chunks = 0;
  move_in = 0;
  dig_in = 0;
  messages_out = 0;
  bytes_in = 0;
  bytes_out = 0;
  move_batches = 0;
  move_items = 0;
  dropped_move_packets = 0;
  backpressure_connections = 0;
}

abbrev other_wallet : Bytes
other_wallet = 7 ∷ some_wallet

abbrev first_player : Player
first_player = record new_player {
  local_player_id = 1;
  wallet_pubkey = some_wallet;
  current_chunk_x = negsuc 4;
  current_chunk_z = pos 6;
}

abbrev second_player : Player
second_player = record first_player { local_player_id = 2; wallet_pubkey = other_wallet }

-- Two players that are in no room yet.
abbrev outside : Guardian
outside = record {
  cfg = default_config;
  metrics = no_counts;
  next_local_player_id = 3;
  server_tick = 65535;
  heap = λ q. if q == 0 then first_player else if q == 1 then second_player else new_player;
  next_address = 2;
  players = (1, 0) ∷ (2, 1) ∷ [];
  retired_players = [];
  rooms = [];
  pending_move_players = [];
  buildings = one_building;
}

nobody : (q : ℕ) → (outside.heap q).current_chunk_room ≡ none
nobody q = ground arith

outside-Links : Links outside.heap outside.rooms
unfolding lookup
outside-Links = record {
  forth = λ p k e. ground (arith, nobody p);
  back = λ k i p r at e. ground arith;
  solid = λ k r at. ground arith;
}

abbrev one_inside : Guardian
one_inside = enter_room 0 (negsuc 4) (pos 6) outside

abbrev two_inside : Guardian
two_inside = enter_room 1 (negsuc 4) (pos 6) one_inside

one_inside-HasEntered : HasEntered 0 (negsuc 4) (pos 6) outside one_inside
one_inside-HasEntered = enter_room-HasEntered 0 (negsuc 4) (pos 6) outside outside-Links (nobody 0)

enter_room-HasEntered_example : HasEntered 1 (negsuc 4) (pos 6) one_inside two_inside
enter_room-HasEntered_example =
    enter_room-HasEntered 1 (negsuc 4) (pos 6) one_inside one_inside-HasEntered.0
      (one_inside-HasEntered.1 1)

two_inside-Links : Links two_inside.heap two_inside.rooms
two_inside-Links =
    (enter_room-HasEntered 1 (negsuc 4) (pos 6) one_inside one_inside-HasEntered.0
      (one_inside-HasEntered.1 1)).0

remove_player_from_room-HasLeft_example :
    HasLeft 0 two_inside (remove_player_from_room 0 two_inside)
remove_player_from_room-HasLeft_example =
    remove_player_from_room-HasLeft 0 two_inside two_inside-Links

move_player_chunk-Moves_example :
    Moves
      (contains_chunk two_inside.cfg (pos 9) (pos 6))
      (is_new_chunk 0 (pos 9) (pos 6) two_inside)
      0
      (pos 9)
      (pos 6)
      two_inside
      (move_player_chunk 0 (pos 9) (pos 6) two_inside)
move_player_chunk-Moves_example =
    move_player_chunk-Moves 0 (pos 9) (pos 6) two_inside two_inside-Links

publish_to_aoi-deliveries_example :
    let r = default_config.player_aoi_radius_chunks in
    let (s', sent) = publish_to_aoi (pos 1) (pos 2) some_wallet outside in
    (deliveries (local_chunk_index default_config (negsuc 4) (pos 6)) sent
      ≡ (if is_near r (negsuc 4 -ℤ pos 1) && is_near r (pos 6 -ℤ pos 2) then 1 else 0))
    × All (λ m. m.1 ≡ some_wallet) sent
    × (s'.metrics.messages_out ≡ outside.metrics.messages_out + length sent)
publish_to_aoi-deliveries_example =
    publish_to_aoi-deliveries (pos 1) (pos 2) (negsuc 4) (pos 6) some_wallet outside (omega arith)
      (omega arith) in_area

send_batch_all_example :
    let r = send_batch 2 5 (some_item ∷ some_item ∷ []) outside in
    Sends 65535 5 (some_item ∷ some_item ∷ []) r.1
    × Counted outside r.0 (some_item ∷ some_item ∷ []) r.1
send_batch_all_example = send_batch_all 2 5 (some_item ∷ some_item ∷ []) outside (omega arith)

-- The two players have moves to send, and the first stands twice in the queue.
abbrev two_queued : Guardian
two_queued = record outside {
  heap = λ q. record (outside.heap q) { pending_move = some_item; has_pending_move = true };
  pending_move_players = 0 ∷ 1 ∷ 0 ∷ [];
}

two_queued-all_alive : all_alive two_queued.pending_move_players two_queued ≡ true
unfolding all_alive is_alive has_player has_retired
two_queued-all_alive = refl

flush_pending_moves-Sends_example :
    (s' : Guardian) × (sent : List (Topic × Bytes)) × (flush_pending_moves two_queued
      ≡ some (s', sent))
    × Sends
        ((65535 + 1) % 2 ^ 16)
        (local_chunk_index default_config (negsuc 4) (pos 6))
        (moves_due default_config two_queued.heap (negsuc 4) (pos 6) [] (0 ∷ 1 ∷ 0 ∷ []))
        (to_chunk (local_chunk_index default_config (negsuc 4) (pos 6)) sent)
flush_pending_moves-Sends_example =
    flush_pending_moves-Sends two_queued (negsuc 4) (pos 6) (omega arith) (omega arith) in_area
      two_queued-all_alive

-- Each of the two is due once.
two_due :
    moves_due default_config two_queued.heap (negsuc 4) (pos 6) [] (0 ∷ 1 ∷ 0 ∷ [])
    ≡ some_item ∷ some_item ∷ []
unfolding ◌-ℤ◌
two_due = refl

first_sole : IsSoleOwned 0 outside
unfolding has_player has_retired erase
first_sole = (refl, refl)

flush_pending_moves-remove_player_example :
    is_none (flush_pending_moves (remove_player 0 (update_player_move 0 some_move 1000 outside)))
    ≡ true
flush_pending_moves-remove_player_example =
    flush_pending_moves-remove_player 0 some_move 1000 outside first_sole refl

a_wallet : all_zero some_wallet ≡ false
unfolding all_zero
a_wallet = refl

still_there : lookup 2 (retire_players_with_wallet some_wallet outside).0.players ≡ some 1
unfolding lookup erase wallet_equal all_zero retire_players_with_wallet retire_loop retire
    remove_player_from_room
still_there = refl

retire_players_with_wallet-gone_example :
    (lookup 2 outside.players ≡ some 1)
    × (wallet_equal
          ((retire_players_with_wallet some_wallet outside).0.heap 1).wallet_pubkey
          some_wallet
        ≡ false)
retire_players_with_wallet-gone_example =
    retire_players_with_wallet-gone some_wallet outside 2 1 a_wallet still_there

-- Both players have sent a pose.
abbrev seen : Guardian
seen = update_player_move 1 some_move 1001 (update_player_move 0 some_move 1000 two_inside)
