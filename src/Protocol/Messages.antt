-- ===== src/Protocol/Messages.antt =====
-- The structs of Guardian/src/protocol.h that come in from clients, or go both ways. A field of an unsigned type is a number, one of a
-- signed type an integer, a byte array or a string view a list of bytes.
use nicechunk_guardian.Base.{ℕ, ◌<◌, ◌≡◌, ◌^◌, All, length}
use nicechunk_guardian.Base.Int.{ℤ, IsI8, IsI16, IsI32}
use nicechunk_guardian.Wire.{Bytes, IsByte}

abbrev pub IsU8 : ℕ → Type 0
IsU8 v = v < 2 ^ 8

abbrev pub IsU16 : ℕ → Type 0
IsU16 v = v < 2 ^ 16

abbrev pub IsU32 : ℕ → Type 0
IsU32 v = v < 2 ^ 32

abbrev pub IsU64 : ℕ → Type 0
IsU64 v = v < 2 ^ 64

-- `std::array<uint8_t, n>`.
abbrev pub IsArray : ℕ → Bytes → Type 0
IsArray n a = (length a ≡ n) × All IsByte a

pub record Hello : Type 0 where
  pub protocol_version : ℕ
  pub client_flags : ℕ
  pub wallet_pubkey : Bytes
  pub start_chunk_x : ℤ
  pub start_chunk_z : ℤ
  pub client_nonce : ℕ

-- The fields are within their types.
pub record IsHello (m : Hello) : Type 0 where
  pub protocol_version : IsU8 m.protocol_version
  pub client_flags : IsU16 m.client_flags
  pub wallet_pubkey : IsArray 32 m.wallet_pubkey
  pub start_chunk_x : IsI32 m.start_chunk_x
  pub start_chunk_z : IsI32 m.start_chunk_z
  pub client_nonce : IsU64 m.client_nonce

pub record Move : Type 0 where
  pub local_chunk_x : ℕ
  pub local_chunk_z : ℕ
  pub pos_x : ℕ
  pub pos_y : ℕ
  pub pos_z : ℕ
  pub yaw : ℕ
  pub pitch : ℤ
  pub client_tick : ℕ

-- The fields are within their types.
pub record IsMove (m : Move) : Type 0 where
  pub local_chunk_x : IsU8 m.local_chunk_x
  pub local_chunk_z : IsU8 m.local_chunk_z
  pub pos_x : IsU16 m.pos_x
  pub pos_y : IsU16 m.pos_y
  pub pos_z : IsU16 m.pos_z
  pub yaw : IsU8 m.yaw
  pub pitch : IsI8 m.pitch
  pub client_tick : IsU16 m.client_tick

pub record Dig : Type 0 where
  pub seq : ℕ
  pub local_chunk_x : ℕ
  pub local_chunk_z : ℕ
  pub block_x : ℕ
  pub block_y : ℕ
  pub block_z : ℕ
  pub action : ℕ
  pub tool_hint : ℕ

-- The fields are within their types.
pub record IsDig (m : Dig) : Type 0 where
  pub seq : IsU16 m.seq
  pub local_chunk_x : IsU8 m.local_chunk_x
  pub local_chunk_z : IsU8 m.local_chunk_z
  pub block_x : IsU8 m.block_x
  pub block_y : IsU16 m.block_y
  pub block_z : IsU8 m.block_z
  pub action : IsU8 m.action
  pub tool_hint : IsU8 m.tool_hint

pub record Chat : Type 0 where
  pub seq : ℕ
  pub message : Bytes

-- The fields are within their types.
pub record IsChat (m : Chat) : Type 0 where
  pub seq : IsU16 m.seq
  pub message : All IsByte m.message

pub record Equipment : Type 0 where
  pub seq : ℕ
  pub right_hand_kind : ℕ
  pub right_hand_variant : ℕ
  pub flags : ℕ
  pub design_hash : ℕ
  pub payload : Bytes

-- The fields are within their types.
pub record IsEquipment (m : Equipment) : Type 0 where
  pub seq : IsU16 m.seq
  pub right_hand_kind : IsU8 m.right_hand_kind
  pub right_hand_variant : IsU8 m.right_hand_variant
  pub flags : IsU8 m.flags
  pub design_hash : IsU32 m.design_hash
  pub payload : All IsByte m.payload

pub record PlayerIdentity : Type 0 where
  pub local_player_id : ℕ
  pub owner_wallet : Bytes
  pub display_name : Bytes

-- The fields are within their types.
pub record IsPlayerIdentity (m : PlayerIdentity) : Type 0 where
  pub local_player_id : IsU16 m.local_player_id
  pub owner_wallet : IsArray 32 m.owner_wallet
  pub display_name : All IsByte m.display_name

pub record BuildingRecord : Type 0 where
  pub foundation_id : ℕ
  pub min_x : ℤ
  pub min_z : ℤ
  pub surface_y : ℤ
  pub flags : ℕ
  pub width : ℕ
  pub depth : ℕ
  pub active_revision : ℕ
  pub content_hash : Bytes
  pub updated_slot : ℕ

-- The fields are within their types.
pub record IsBuildingRecord (m : BuildingRecord) : Type 0 where
  pub foundation_id : IsU64 m.foundation_id
  pub min_x : IsI32 m.min_x
  pub min_z : IsI32 m.min_z
  pub surface_y : IsI16 m.surface_y
  pub flags : IsU16 m.flags
  pub width : IsU32 m.width
  pub depth : IsU32 m.depth
  pub active_revision : IsU32 m.active_revision
  pub content_hash : IsArray 16 m.content_hash
  pub updated_slot : IsU64 m.updated_slot

pub record BuildingRegionDigest : Type 0 where
  pub region_x : ℤ
  pub region_z : ℤ
  pub revision : ℕ
  pub record_count : ℕ
  pub hash : Bytes

-- The fields are within their types.
pub record IsBuildingRegionDigest (m : BuildingRegionDigest) : Type 0 where
  pub region_x : IsI32 m.region_x
  pub region_z : IsI32 m.region_z
  pub revision : IsU64 m.revision
  pub record_count : IsU32 m.record_count
  pub hash : IsArray 16 m.hash

pub record BuildingManifestRequest : Type 0 where
  pub known_revision : ℕ

-- The fields are within their types.
pub record IsBuildingManifestRequest (m : BuildingManifestRequest) : Type 0 where
  pub known_revision : IsU64 m.known_revision
