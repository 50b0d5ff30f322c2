-- ===== src/Guardian.antt =====
-- The state of Guardian/src/guardian.h, with the structs of Guardian/src/player.h, Guardian/src/chunk.h
-- and Guardian/src/metrics.h that it holds. A `Player *` is a number, and `heap` says what it points to; it
-- may be followed while players_ or retired_players_ owns it. A `ChunkRoom *` is the key of the
-- room in rooms_. The log and the terminal dashboard are left out.
pub mod Rooms
pub mod Links
pub mod Unlink
pub mod Leaving
pub mod Link
pub mod Entering
pub mod Moves
pub mod Players
pub mod Wallet
pub mod Events
pub mod Publish
pub mod Delivery
pub mod Snapshots
pub mod Reads
pub mod Flush
pub mod Due
pub mod Gather
pub mod Sendoff
pub mod Keeps
pub mod State
pub mod Untouched
pub mod Drops
pub mod Settles
pub mod Presence
pub mod Arrivals
pub mod Grows
pub mod Creates
pub mod Retire
pub mod Dangling
pub mod Ids
use nicechunk_guardian.Base.{ℕ, ◌+◌, Bool, true, false, ◌==◌, if◌then◌else◌, Option, none, List, []}
use nicechunk_guardian.Base.Int.{ℤ, pos}
use nicechunk_guardian.Wire.{Bytes}
use nicechunk_guardian.Config.{Config}
use nicechunk_guardian.RateLimit.{RateWindow}
use nicechunk_guardian.Protocol.Events.{MoveItem}
use nicechunk_guardian.Building.Registry.{Registry}

pub record Player : Type 0 where
  pub local_player_id : ℕ
  pub wallet_pubkey : Bytes
  pub owner_hash : ℕ
  pub owner_fingerprint : ℕ
  pub current_chunk_x : ℤ
  pub current_chunk_z : ℤ
  pub local_chunk_x : ℕ
  pub local_chunk_z : ℕ
  pub pos_x : ℕ
  pub pos_y : ℕ
  pub pos_z : ℕ
  pub yaw : ℕ
  pub pitch : ℤ
  pub has_pose : Bool
  pub connected_at_ms : ℕ
  pub last_seen_ms : ℕ
  pub last_move_ms : ℕ
  pub last_dig_seq : ℕ
  pub has_dig_seq : Bool
  pub has_equipment : Bool
  pub has_identity : Bool
  pub display_name : Bytes
  pub equipment_seq : ℕ
  pub equipment_right_hand_kind : ℕ
  pub equipment_right_hand_variant : ℕ
  pub equipment_flags : ℕ
  pub equipment_design_hash : ℕ
  pub equipment_payload : Bytes
  -- The pairs of move_window_ms and move_count, and so on.
  pub move_window : RateWindow
  pub dig_window : RateWindow
  pub equipment_window : RateWindow
  pub building_window : RateWindow
  pub current_chunk_room : Option ℕ
  pub index_in_chunk_vector : ℕ
  pub has_pending_move : Bool
  pub queued_pending_move : Bool
  pub pending_move : MoveItem
  pub connected : Bool

-- What a message is published to. The vector topics_ holds "c/0", "c/1", ..., one text for each chunk, so
-- its index stands for the text; the other two are the constants of Guardian/src/app.cpp.
pub data Topic : Type 0 where
  chunk_topic : ℕ → Topic
  heartbeat_topic building_manifest_topic : Topic

pub record ChunkRoom : Type 0 where
  pub chunk_x : ℤ
  pub chunk_z : ℤ
  pub local_chunk_index : ℕ
  pub topic : Topic
  pub players : List ℕ

-- The counters that the modelled code changes.
pub record Metrics : Type 0 where
  pub connections : ℕ
  pub players : ℕ
  pub active_chunks : ℕ
  pub move_in : ℕ
  pub dig_in : ℕ
  pub messages_out : ℕ
  pub bytes_in : ℕ
  pub bytes_out : ℕ
  pub move_batches : ℕ
  pub move_items : ℕ
  pub dropped_move_packets : ℕ
  pub backpressure_connections : ℕ

pub record Guardian : Type 0 where
  pub cfg : Config
  pub metrics : Metrics
  pub next_local_player_id : ℕ
  pub server_tick : ℕ
  pub heap : ℕ → Player
  -- The next address that an allocation gives.
  pub next_address : ℕ
  pub players : List (ℕ × ℕ)
  pub retired_players : List ℕ
  pub rooms : List (ℕ × ChunkRoom)
  pub pending_move_players : List ℕ
  pub buildings : Registry

-- A write through a pointer.
abbrev pub modify : ℕ → (Player → Player) → (ℕ → Player) → ℕ → Player
modify p f heap q = if q == p then f (heap q) else heap q

abbrev pub no_move_item : MoveItem
no_move_item = record {
  local_player_id = 0;
  local_chunk_x = 0;
  local_chunk_z = 0;
  pos_x = 0;
  pos_y = 0;
  pos_z = 0;
  yaw = 0;
  pitch = pos 0;
}

abbrev no_window : RateWindow
no_window = record { window_ms = 0; count = 0 }

-- A new Player.
abbrev pub new_player : Player
new_player = record {
  local_player_id = 0;
  wallet_pubkey = [];
  owner_hash = 0;
  owner_fingerprint = 0;
  current_chunk_x = pos 0;
  current_chunk_z = pos 0;
  local_chunk_x = 0;
  local_chunk_z = 0;
  pos_x = 0;
  pos_y = 0;
  pos_z = 0;
  yaw = 0;
  pitch = pos 0;
  has_pose = false;
  connected_at_ms = 0;
  last_seen_ms = 0;
  last_move_ms = 0;
  last_dig_seq = 0;
  has_dig_seq = false;
  has_equipment = false;
  has_identity = false;
  display_name = [];
  equipment_seq = 0;
  equipment_right_hand_kind = 0;
  equipment_right_hand_variant = 0;
  equipment_flags = 0;
  equipment_design_hash = 0;
  equipment_payload = [];
  move_window = no_window;
  dig_window = no_window;
  equipment_window = no_window;
  building_window = no_window;
  current_chunk_room = none;
  index_in_chunk_vector = 0;
  has_pending_move = false;
  queued_pending_move = false;
  pending_move = no_move_item;
  connected = true;
}
