-- ===== src/Protocol/RoundTrip.antt =====
-- The encoders of Guardian/src/protocol.cpp against the decoders: what a client sends is what the server
-- reads.
use nicechunk_guardian.Base.{
  ℕ, ◌+◌, ◌-◌, ◌%◌, ◌≤◌, ◌≡◌, refl, ap, ◌∙◌, List, [], ◌∷◌, ◌++◌, some, arith, length, drop,
  take_all, take-append, drop-append, drop-append_past, length-append,
}
use nicechunk_guardian.Base.Int.{ℤ, IsI8, to_i8, to_u8, to_i8-to_u8, to_u8-lt}
use nicechunk_guardian.Wire.{
  Bytes, byte_at, push_u8, rd_u16, rd_u64, rd_i32, wr_u16, wr_u32, wr_u64, wr_i32,
}
use nicechunk_guardian.Wire.Words.{
  length-wr_i32, rd_u16-wr_u16, rd_u32-wr_u32, rd_u64-wr_u64, rd_i32-wr_i32,
}
use nicechunk_guardian.Protocol.{k_protocol_version, msg_chat, msg_equipment, msg_player_identity}
use nicechunk_guardian.Protocol.Sizes.{
  k_max_chat_bytes, k_max_equipment_payload_bytes, k_max_player_identity_name_bytes,
}
use nicechunk_guardian.Protocol.Messages.{
  IsU16, Hello, IsHello, Move, IsMove, Dig, IsDig, Equipment, IsEquipment,
}
use nicechunk_guardian.Protocol.Decode.{
  hello_fields, equipment_fields, decode_hello, decode_move, decode_dig, decode_chat,
  decode_equipment, decode_player_identity,
}
use nicechunk_guardian.Protocol.Encode.{concat, encode_hello, encode_move, encode_dig}

-- `(int8_t)` of the byte that `(char)` of an int8_t makes.
i8_byte : (z : ℤ) → IsI8 z → to_i8 (to_u8 z % 256) ≡ z
i8_byte z h = let e : to_u8 z % 256 ≡ to_u8 z = omega (arith, to_u8-lt z) in rw e (to_i8-to_u8 z h)

-- A MOVE with fields in range is read back as it was.
pub decode_move-encode_move : (m : Move) → IsMove m → decode_move (encode_move m) ≡ some m
unfolding decode_move encode_move wr_u16
decode_move-encode_move m h = ground (
  arith,
  rd_u16-wr_u16 m.pos_x (concat (wr_u16 m.pos_y ∷ wr_u16 m.pos_z ∷ after_pos)) h.pos_x,
  rd_u16-wr_u16 m.pos_y (concat (wr_u16 m.pos_z ∷ after_pos)) h.pos_y,
  rd_u16-wr_u16 m.pos_z (concat after_pos) h.pos_z,
  i8_byte m.pitch h.pitch,
  rd_u16-wr_u16 m.client_tick [] h.client_tick,
)
  where
    after_pos : List Bytes
    after_pos = push_u8 m.yaw ∷ push_u8 (to_u8 m.pitch) ∷ wr_u16 m.client_tick ∷ []

-- A DIG with fields in range is read back as it was.
pub decode_dig-encode_dig : (m : Dig) → IsDig m → decode_dig (encode_dig m) ≡ some m
unfolding decode_dig encode_dig wr_u16
decode_dig-encode_dig m h = ground (
  arith,
  rd_u16-wr_u16 m.seq
      (concat (
        push_u8 m.local_chunk_x
        ∷ push_u8 m.local_chunk_z
        ∷ push_u8 m.block_x
        ∷ wr_u16 m.block_y
        ∷ push_u8 m.block_z
        ∷ push_u8 m.action
        ∷ push_u8 m.tool_hint
        ∷ []))
      h.seq,
  rd_u16-wr_u16 m.block_y (concat (push_u8 m.block_z ∷ push_u8 m.action ∷ push_u8 m.tool_hint ∷ []))
      h.block_y,
)

abbrev hello_tail : Hello → Bytes
hello_tail m = concat (wr_i32 m.start_chunk_x ∷ wr_i32 m.start_chunk_z ∷ wr_u64 m.client_nonce ∷ [])

length-encode_hello : (m : Hello) → length m.wallet_pubkey ≡ 32 → length (encode_hello m) ≡ 52
unfolding encode_hello wr_u16 wr_i32 wr_u64
length-encode_hello m h = omega (arith, length-append m.wallet_pubkey (hello_tail m))

hello_fields-encode_hello : (m : Hello) → IsHello m → hello_fields (encode_hello m) ≡ m
unfolding encode_hello wr_u16
hello_fields-encode_hello m h = ground (
  arith,
  rd_u16-wr_u16 m.client_flags (m.wallet_pubkey ++ hello_tail m) h.client_flags,
  take-append 32 m.wallet_pubkey (hello_tail m) h.wallet_pubkey.0,
  past 32 (omega arith),
  past 36 (omega arith),
  past 40 (omega arith),
  rd_i32-wr_i32 m.start_chunk_x (concat (wr_i32 m.start_chunk_z ∷ last)) h.start_chunk_x,
  z_field,
  nonce_field,
)
  where
    last : List Bytes
    last = wr_u64 m.client_nonce ∷ []

    past :
        (k : ℕ) → 32 ≤ k → drop k (m.wallet_pubkey ++ hello_tail m) ≡ drop (k - 32) (hello_tail m)
    past k = drop-append_past k 32 m.wallet_pubkey (hello_tail m) h.wallet_pubkey.0

    z_field : rd_i32 (drop 4 (hello_tail m)) ≡ m.start_chunk_z
    z_field =
        ap rd_i32 (drop-append 4 (wr_i32 m.start_chunk_x) _ (length-wr_i32 m.start_chunk_x))
        ∙ rd_i32-wr_i32 m.start_chunk_z (concat last) h.start_chunk_z

    nonce_field : rd_u64 (drop 8 (hello_tail m)) ≡ m.client_nonce
    nonce_field =
        ap rd_u64 (
          drop-append_past 8 4 (wr_i32 m.start_chunk_x) _ (length-wr_i32 m.start_chunk_x)
            (omega arith)
          ∙ drop-append 4 (wr_i32 m.start_chunk_z) _ (length-wr_i32 m.start_chunk_z))
        ∙ rd_u64-wr_u64 m.client_nonce [] h.client_nonce

-- A HELLO of the current version with fields in range is read back as it was.
pub decode_hello-encode_hello :
    (m : Hello)
    → IsHello m
    → m.protocol_version ≡ k_protocol_version
    → decode_hello (encode_hello m) ≡ some m
unfolding decode_hello
decode_hello-encode_hello m h v =
    let version : byte_at (encode_hello m) 1 ≡ 1 = unfold encode_hello in omega arith in
    let first : byte_at (encode_hello m) 0 ≡ 1 = unfold encode_hello in refl in
    ground (
      arith,
      version,
      first,
      length-encode_hello m h.wallet_pubkey.0,
      hello_fields-encode_hello m h,
    )

-- A CHAT frame with a 16-bit sequence number and 1 to 120 bytes of text gives its sequence number and text.
pub decode_chat_frame :
    (seq : ℕ) (text : Bytes)
    → IsU16 seq
    → 1 ≤ length text
    → length text ≤ k_max_chat_bytes
    → decode_chat (msg_chat ∷ (wr_u16 seq ++ (length text ∷ text)))
      ≡ some (record { seq = seq; message = text })
unfolding decode_chat wr_u16
decode_chat_frame seq text hs lo hi =
    ground
      (arith, rd_u16-wr_u16 seq (length text ∷ text) hs, take_all (length text) text (omega arith))

decode_equipment_fields :
    (bytes : Bytes) (n : ℕ)
    → byte_at bytes 0 ≡ msg_equipment
    → rd_u16 (drop 6 bytes) ≡ n
    → n ≤ k_max_equipment_payload_bytes
    → length bytes ≡ 12 + n
    → decode_equipment bytes ≡ some (equipment_fields n bytes)
unfolding decode_equipment
decode_equipment_fields bytes n first len hi whole = rw len (ground arith)

-- The bytes that a client sends for an EQUIPMENT.
abbrev pub equipment_frame : Equipment → Bytes
equipment_frame m =
    msg_equipment
    ∷ (wr_u16 m.seq
        ++ (m.right_hand_kind
            ∷ m.right_hand_variant
            ∷ m.flags
            ∷ (wr_u16 (length m.payload) ++ (wr_u32 m.design_hash ++ m.payload))))

-- An EQUIPMENT frame with fields in range and a payload of at most 2048 bytes gives its fields.
pub decode_equipment_frame :
    (m : Equipment)
    → IsEquipment m
    → length m.payload ≤ k_max_equipment_payload_bytes
    → decode_equipment (equipment_frame m) ≡ some m
unfolding wr_u16 wr_u32
decode_equipment_frame m h hi =
    decode_equipment_fields (equipment_frame m) (length m.payload) refl payload_len hi (omega arith)
    ∙ ground (
      arith,
      rd_u16-wr_u16 m.seq (m.right_hand_kind ∷ m.right_hand_variant ∷ m.flags ∷ rest) h.seq,
      rd_u32-wr_u32 m.design_hash m.payload h.design_hash,
      take_all (length m.payload) m.payload (omega arith),
    )
  where
    rest : Bytes
    rest = wr_u16 (length m.payload) ++ (wr_u32 m.design_hash ++ m.payload)

    payload_len : rd_u16 rest ≡ length m.payload
    payload_len = rd_u16-wr_u16 (length m.payload) (wr_u32 m.design_hash ++ m.payload) (omega arith)

-- A PLAYER_IDENTITY frame with a name of at most 64 bytes, the empty one too, gives the name.
pub decode_player_identity_frame :
    (name : Bytes)
    → length name ≤ k_max_player_identity_name_bytes
    → decode_player_identity (msg_player_identity ∷ length name ∷ name) ≡ some name
unfolding decode_player_identity
decode_player_identity_frame name h = ground (arith, take_all (length name) name (omega arith))
