-- ===== src/Protocol/Events.antt =====
-- The structs of Guardian/src/protocol.h that only the server sends.
use nicechunk_guardian.Base.{ℕ, All}
use nicechunk_guardian.Base.Int.{ℤ, IsI8, IsI32}
use nicechunk_guardian.Wire.{Bytes, IsByte}
use nicechunk_guardian.Protocol.Messages.{IsU8, IsU16, IsU32, IsU64, IsArray}

pub record HelloAck : Type 0 where
  pub protocol_version : ℕ
  pub local_player_id : ℕ
  pub server_flags : ℕ
  pub center_chunk_x : ℤ
  pub center_chunk_z : ℤ
  pub service_radius_chunks : ℕ
  pub aoi_radius_chunks : ℕ
  pub chunk_index_mode : ℕ
  pub server_tick : ℕ

-- The fields are within their types.
pub record IsHelloAck (m : HelloAck) : Type 0 where
  pub protocol_version : IsU8 m.protocol_version
  pub local_player_id : IsU16 m.local_player_id
  pub server_flags : IsU16 m.server_flags
  pub center_chunk_x : IsI32 m.center_chunk_x
  pub center_chunk_z : IsI32 m.center_chunk_z
  pub service_radius_chunks : IsU16 m.service_radius_chunks
  pub aoi_radius_chunks : IsU8 m.aoi_radius_chunks
  pub chunk_index_mode : IsU8 m.chunk_index_mode
  pub server_tick : IsU16 m.server_tick

pub record MoveItem : Type 0 where
  pub local_player_id : ℕ
  pub local_chunk_x : ℕ
  pub local_chunk_z : ℕ
  pub pos_x : ℕ
  pub pos_y : ℕ
  pub pos_z : ℕ
  pub yaw : ℕ
  pub pitch : ℤ

-- The fields are within their types.
pub record IsMoveItem (m : MoveItem) : Type 0 where
  pub local_player_id : IsU16 m.local_player_id
  pub local_chunk_x : IsU8 m.local_chunk_x
  pub local_chunk_z : IsU8 m.local_chunk_z
  pub pos_x : IsU16 m.pos_x
  pub pos_y : IsU16 m.pos_y
  pub pos_z : IsU16 m.pos_z
  pub yaw : IsU8 m.yaw
  pub pitch : IsI8 m.pitch

pub record DigEvent : Type 0 where
  pub local_player_id : ℕ
  pub seq : ℕ
  pub local_chunk_x : ℕ
  pub local_chunk_z : ℕ
  pub block_x : ℕ
  pub block_y : ℕ
  pub block_z : ℕ
  pub action : ℕ
  pub server_tick : ℕ

-- The fields are within their types.
pub record IsDigEvent (m : DigEvent) : Type 0 where
  pub local_player_id : IsU16 m.local_player_id
  pub seq : IsU16 m.seq
  pub local_chunk_x : IsU8 m.local_chunk_x
  pub local_chunk_z : IsU8 m.local_chunk_z
  pub block_x : IsU8 m.block_x
  pub block_y : IsU16 m.block_y
  pub block_z : IsU8 m.block_z
  pub action : IsU8 m.action
  pub server_tick : IsU16 m.server_tick

pub record PlayerJoin : Type 0 where
  pub local_player_id : ℕ
  pub owner_hash : ℕ
  pub owner_fingerprint : ℕ
  pub owner_wallet : Bytes
  pub local_chunk_x : ℕ
  pub local_chunk_z : ℕ
  pub pos_x : ℕ
  pub pos_y : ℕ
  pub pos_z : ℕ
  pub yaw : ℕ
  pub pitch : ℤ

-- The fields are within their types.
pub record IsPlayerJoin (m : PlayerJoin) : Type 0 where
  pub local_player_id : IsU16 m.local_player_id
  pub owner_hash : IsU32 m.owner_hash
  pub owner_fingerprint : IsU64 m.owner_fingerprint
  pub owner_wallet : IsArray 32 m.owner_wallet
  pub local_chunk_x : IsU8 m.local_chunk_x
  pub local_chunk_z : IsU8 m.local_chunk_z
  pub pos_x : IsU16 m.pos_x
  pub pos_y : IsU16 m.pos_y
  pub pos_z : IsU16 m.pos_z
  pub yaw : IsU8 m.yaw
  pub pitch : IsI8 m.pitch

pub record PlayerLeave : Type 0 where
  pub local_player_id : ℕ
  pub reason : ℕ
  pub owner_hash : ℕ
  pub owner_fingerprint : ℕ
  pub owner_wallet : Bytes

-- The fields are within their types.
pub record IsPlayerLeave (m : PlayerLeave) : Type 0 where
  pub local_player_id : IsU16 m.local_player_id
  pub reason : IsU8 m.reason
  pub owner_hash : IsU32 m.owner_hash
  pub owner_fingerprint : IsU64 m.owner_fingerprint
  pub owner_wallet : IsArray 32 m.owner_wallet

pub record ChatEvent : Type 0 where
  pub local_player_id : ℕ
  pub seq : ℕ
  pub message : Bytes

-- The fields are within their types.
pub record IsChatEvent (m : ChatEvent) : Type 0 where
  pub local_player_id : IsU16 m.local_player_id
  pub seq : IsU16 m.seq
  pub message : All IsByte m.message

pub record EquipmentEvent : Type 0 where
  pub local_player_id : ℕ
  pub seq : ℕ
  pub right_hand_kind : ℕ
  pub right_hand_variant : ℕ
  pub flags : ℕ
  pub design_hash : ℕ
  pub payload : Bytes

-- The fields are within their types.
pub record IsEquipmentEvent (m : EquipmentEvent) : Type 0 where
  pub local_player_id : IsU16 m.local_player_id
  pub seq : IsU16 m.seq
  pub right_hand_kind : IsU8 m.right_hand_kind
  pub right_hand_variant : IsU8 m.right_hand_variant
  pub flags : IsU8 m.flags
  pub design_hash : IsU32 m.design_hash
  pub payload : All IsByte m.payload
