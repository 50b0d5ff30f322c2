-- ===== src/App/Hello.antt =====
-- `handle_hello` of Guardian/src/app.cpp.
use nicechunk_guardian.Base.{
  ℕ, ◌+◌, not, if◌then◌else◌, Option, none, some, List, [], ◌∷◌, ◌++◌, map,
}
use nicechunk_guardian.Wire.{Bytes}
use nicechunk_guardian.Protocol.{
  k_protocol_version, k_server_flag_equipment_sync, k_server_flag_dig_batch,
  k_server_flag_building_manifest, error_bad_protocol, error_server_full, error_out_of_range,
}
use nicechunk_guardian.Protocol.Messages.{Hello}
use nicechunk_guardian.Protocol.Events.{HelloAck}
use nicechunk_guardian.Protocol.Decode.{decode_hello}
use nicechunk_guardian.Protocol.Encode.{
  encode_hello_ack, encode_player_join, encode_player_leave, encode_equipment_event,
  encode_player_identity,
}
use nicechunk_guardian.Protocol.Buildings.{encode_building_region_digest}
use nicechunk_guardian.Building.{all_zero}
use nicechunk_guardian.Building.Registry.{building_digest}
use nicechunk_guardian.Guardian.{Guardian, Player}
use nicechunk_guardian.Guardian.Players.{
  RetiredPlayerNotice, retire_players_with_wallet, can_accept_player, create_player,
}
use nicechunk_guardian.Guardian.Reads.{can_retire}
use nicechunk_guardian.Guardian.Publish.{publish_to_aoi}
use nicechunk_guardian.Guardian.Snapshots.{
  collect_snapshot, collect_equipment_snapshot, collect_identity_snapshot,
}
use nicechunk_guardian.App.{
  PerSocketData, Call, send, subscribe, close_with_error, published_all, topic_of_room,
}

-- The loop over the players that were retired.
unfoldable pub publish_notices : List RetiredPlayerNotice → Guardian → Guardian × List Call
publish_notices [] s = (s, [])
publish_notices (notice ∷ notices) s =
    let (told, sent) =
      publish_to_aoi notice.chunk_x notice.chunk_z (encode_player_leave notice.leave) s in
    let (s', calls) = publish_notices notices told in (s', published_all sent ++ calls)

unfoldable pub hello_ack : Player → Guardian → HelloAck
hello_ack player s = record {
  protocol_version = k_protocol_version;
  local_player_id = player.local_player_id;
  server_flags =
      k_server_flag_equipment_sync + k_server_flag_dig_batch + k_server_flag_building_manifest;
  center_chunk_x = s.cfg.guardian_center_chunk_x;
  center_chunk_z = s.cfg.guardian_center_chunk_z;
  service_radius_chunks = s.cfg.service_radius_chunks;
  aoi_radius_chunks = s.cfg.player_aoi_radius_chunks;
  chunk_index_mode = 1;
  server_tick = 0;
}

-- What a player is sent that has entered.
unfoldable pub greet : ℕ → Guardian → Option (List Call)
unfolding hello_ack
greet p s = elim (collect_snapshot p s) [
  | none ↦ none
  | some joins ↦ elim (collect_equipment_snapshot p s) [
    | none ↦ none
    | some equipments ↦ elim (collect_identity_snapshot p s) [
      | none ↦ none
      | some identities ↦ some (
          send (encode_hello_ack (hello_ack (s.heap p) s))
          ∷ send (encode_building_region_digest (building_digest s.buildings))
          ∷ (map (λ join. send (encode_player_join join)) joins
              ++ (map (λ equipment. send (encode_equipment_event equipment)) equipments
                  ++ map (λ identity. send (encode_player_identity identity)) identities)))
    ]
  ]
]

-- The part behind `create_player`, with what it gives; `calls` are those before it.
unfoldable pub seat_player :
    PerSocketData → List Call → Guardian × Option ℕ → Option (Guardian × PerSocketData × List Call)
unfolding greet
seat_player user calls (s, none) = some (s, user, calls ++ close_with_error error_out_of_range)
seat_player user calls (s, some p) = elim (topic_of_room p s) [
  | none ↦ none
  | some topic ↦ elim (greet p s) [
    | none ↦ none
    | some sent ↦ some (s, record user { player = some p }, calls ++ (subscribe topic ∷ sent))
  ]
]

-- The handler for a socket without a player.
unfoldable pub welcome :
    ℕ → Hello → PerSocketData → Guardian → Option (Guardian × PerSocketData × List Call)
unfolding publish_notices seat_player
welcome now hello user s =
    let (without, notices) = retire_players_with_wallet hello.wallet_pubkey s in
    let (told, calls) = publish_notices notices without in
    if all_zero hello.wallet_pubkey
    then some (s, user, close_with_error error_bad_protocol)
    else if not (can_retire hello.wallet_pubkey s)
    then none
    else if not (can_accept_player told)
    then some (told, user, calls ++ close_with_error error_server_full)
    else seat_player user calls (create_player hello now told)

unfoldable pub handle_hello :
    ℕ → Bytes → PerSocketData → Guardian → Option (Guardian × PerSocketData × List Call)
unfolding welcome
handle_hello now message user s = elim (decode_hello message) [
  | none ↦ some (s, user, close_with_error error_bad_protocol)
  | some hello ↦ elim user.player [
    | some p ↦ some (s, user, close_with_error error_bad_protocol)
    | none ↦ welcome now hello user s
  ]
]
