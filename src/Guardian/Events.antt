-- ===== src/Guardian/Events.antt =====
-- What Guardian/src/guardian.cpp reads off a player, and what a message of a player writes to it.
use nicechunk_guardian.Base.{ℕ, ◌+◌, ◌==◌, Bool, true, false, ◌&&◌, if◌then◌else◌, [], ◌∷◌, ◌++◌}
use nicechunk_guardian.Protocol.Messages.{Move, Dig, Equipment, PlayerIdentity}
use nicechunk_guardian.Protocol.Events.{MoveItem, DigEvent, PlayerJoin, PlayerLeave, EquipmentEvent}
use nicechunk_guardian.Guardian.{Player, Guardian, modify}

unfoldable pub make_join : Player → PlayerJoin
make_join q = record {
  local_player_id = q.local_player_id;
  owner_hash = q.owner_hash;
  owner_fingerprint = q.owner_fingerprint;
  owner_wallet = q.wallet_pubkey;
  local_chunk_x = q.local_chunk_x;
  local_chunk_z = q.local_chunk_z;
  pos_x = q.pos_x;
  pos_y = q.pos_y;
  pos_z = q.pos_z;
  yaw = q.yaw;
  pitch = q.pitch;
}

unfoldable pub make_leave : Player → ℕ → PlayerLeave
make_leave q reason = record {
  local_player_id = q.local_player_id;
  reason = reason;
  owner_hash = q.owner_hash;
  owner_fingerprint = q.owner_fingerprint;
  owner_wallet = q.wallet_pubkey;
}

unfoldable pub make_move_item : Player → MoveItem
make_move_item q = record {
  local_player_id = q.local_player_id;
  local_chunk_x = q.local_chunk_x;
  local_chunk_z = q.local_chunk_z;
  pos_x = q.pos_x;
  pos_y = q.pos_y;
  pos_z = q.pos_z;
  yaw = q.yaw;
  pitch = q.pitch;
}

unfoldable pub make_dig_event : Player → Dig → Guardian → DigEvent
make_dig_event q dig s = record {
  local_player_id = q.local_player_id;
  seq = dig.seq;
  local_chunk_x = dig.local_chunk_x;
  local_chunk_z = dig.local_chunk_z;
  block_x = dig.block_x;
  block_y = dig.block_y;
  block_z = dig.block_z;
  action = dig.action;
  server_tick = s.server_tick;
}

unfoldable pub make_equipment_event : Player → EquipmentEvent
make_equipment_event q = record {
  local_player_id = q.local_player_id;
  seq = q.equipment_seq;
  right_hand_kind = q.equipment_right_hand_kind;
  right_hand_variant = q.equipment_right_hand_variant;
  flags = q.equipment_flags;
  design_hash = q.equipment_design_hash;
  payload = q.equipment_payload;
}

unfoldable pub make_identity : Player → PlayerIdentity
make_identity q = record {
  local_player_id = q.local_player_id;
  owner_wallet = q.wallet_pubkey;
  display_name = q.display_name;
}

-- The pose and the times that a MOVE writes.
unfoldable pub take_pose : Move → ℕ → Player → Player
take_pose m t_ms q = record q {
  pos_x = m.pos_x;
  pos_y = m.pos_y;
  pos_z = m.pos_z;
  yaw = m.yaw;
  pitch = m.pitch;
  has_pose = true;
  last_seen_ms = t_ms;
  last_move_ms = t_ms;
}

unfoldable pub update_player_move : ℕ → Move → ℕ → Guardian → Guardian
unfolding take_pose make_move_item
update_player_move p m t_ms s =
    let posed = modify p (take_pose m t_ms) s.heap in
    let pending =
      modify p (λ q. record q { pending_move = make_move_item q; has_pending_move = true }) posed in
    if (s.heap p).queued_pending_move
    then record s {
      heap = pending;
      metrics = record (s.metrics) { dropped_move_packets = s.metrics.dropped_move_packets + 1 };
    }
    else record s {
      heap = modify p (λ q. record q { queued_pending_move = true }) pending;
      pending_move_players = s.pending_move_players ++ (p ∷ []);
    }

unfoldable pub update_player_equipment : ℕ → Equipment → ℕ → Guardian → Guardian
update_player_equipment p e t_ms s = record s {
  heap =
      modify p
        (λ q. record q {
          equipment_seq = e.seq;
          equipment_right_hand_kind = e.right_hand_kind;
          equipment_right_hand_variant = e.right_hand_variant;
          equipment_flags = e.flags;
          equipment_design_hash = e.design_hash;
          equipment_payload = e.payload;
          has_equipment = true;
          last_seen_ms = t_ms;
        })
        s.heap;
}

unfoldable pub update_player_identity : ℕ → PlayerIdentity → ℕ → Guardian → Guardian
update_player_identity p i t_ms s = record s {
  heap =
      modify p
        (λ q. record q { display_name = i.display_name; has_identity = true; last_seen_ms = t_ms })
        s.heap;
}

unfoldable pub accept_dig_seq : ℕ → ℕ → Guardian → Guardian × Bool
accept_dig_seq p seq s =
    if (s.heap p).has_dig_seq && seq == (s.heap p).last_dig_seq then (s, false) else (
      record s {
        heap = modify p (λ q. record q { last_dig_seq = seq; has_dig_seq = true }) s.heap;
      },
      true,
    )
