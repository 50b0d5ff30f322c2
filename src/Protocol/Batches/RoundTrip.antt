-- ===== src/Protocol/Batches/RoundTrip.antt =====
-- DIG_BATCH written and read back, and the sizes of the batches.
use nicechunk_guardian.Base.{
  ℕ, zero, suc, ◌+◌, ◌*◌, ◌≤◌, ◌≡◌, refl, ap, List, [], ◌∷◌, ◌++◌, some, arith, All, length, take,
  drop, min, length-take, All-take, append-nil,
}
use nicechunk_guardian.Protocol.Sizes.{
  k_move_batch_header_size, k_move_item_size, k_dig_event_batch_header_size,
  k_dig_event_batch_item_size,
}
use nicechunk_guardian.Wire.{Bytes, byte_at, push_u8, wr_u16}
use nicechunk_guardian.Wire.Words.{rd_u16-wr_u16}
use nicechunk_guardian.Protocol.{msg_move_batch, msg_dig_batch, msg_dig_event_batch}
use nicechunk_guardian.Protocol.Messages.{Dig, IsDig}
use nicechunk_guardian.Protocol.Events.{MoveItem, DigEvent}
use nicechunk_guardian.Protocol.Encode.{concat}
use nicechunk_guardian.Protocol.Batches.{
  clamp_count, encode_move_item, encode_move_items, encode_move_batch, encode_dig_item,
  encode_dig_items, encode_dig_batch, encode_dig_event_item, encode_dig_event_items,
  encode_dig_event_batch, dig_item_fields, decode_dig_items, decode_dig_batch,
}

dig_item_fields-encode_dig_item :
    (m : Dig) (r : Bytes) → IsDig m → dig_item_fields (encode_dig_item m ++ r) ≡ m
unfolding encode_dig_item wr_u16
dig_item_fields-encode_dig_item m r h = ground (
  arith,
  rd_u16-wr_u16 m.seq
      (concat (
          push_u8 m.local_chunk_x
          ∷ push_u8 m.local_chunk_z
          ∷ push_u8 m.block_x
          ∷ wr_u16 m.block_y
          ∷ push_u8 m.block_z
          ∷ push_u8 m.action
          ∷ push_u8 m.tool_hint
          ∷ [])
        ++ r)
      h.seq,
  rd_u16-wr_u16 m.block_y
      (concat (push_u8 m.block_z ∷ push_u8 m.action ∷ push_u8 m.tool_hint ∷ []) ++ r) h.block_y,
)

drop-encode_dig_item : (m : Dig) (r : Bytes) → drop 10 (encode_dig_item m ++ r) ≡ r
unfolding encode_dig_item wr_u16
drop-encode_dig_item m r = refl

decode_dig_items-encode_dig_items :
    (ms : List Dig) (n : ℕ)
    → All IsDig ms
    → length ms ≡ n
    → decode_dig_items n (encode_dig_items ms) ≡ ms
unfolding decode_dig_items encode_dig_items
decode_dig_items-encode_dig_items [] zero h e = refl
decode_dig_items-encode_dig_items [] (suc n) h e = absurd (omega arith)
decode_dig_items-encode_dig_items (m ∷ ms) zero h e = absurd (omega arith)
decode_dig_items-encode_dig_items (m ∷ ms) (suc n) h e =
    rw (dig_item_fields-encode_dig_item m (encode_dig_items ms) h.0, drop-encode_dig_item)
      (ap (◌∷◌ m) (decode_dig_items-encode_dig_items ms n h.1 (omega arith)))

length-encode_dig_items : (ms : List Dig) → length (encode_dig_items ms) ≡ 10 * length ms
unfolding encode_dig_items encode_dig_item wr_u16
length-encode_dig_items [] = refl
length-encode_dig_items (m ∷ ms) = omega (arith, length-encode_dig_items ms)

-- The batches over a count that stays as it is.
encode_dig_batch_lem :
    (ms : List Dig) (count : ℕ)
    → encode_dig_batch ms count
      ≡ concat (
          push_u8 msg_dig_batch
          ∷ push_u8 (clamp_count count)
          ∷ encode_dig_items (take (clamp_count count) ms)
          ∷ [])
unfolding encode_dig_batch
encode_dig_batch_lem ms count = refl

encode_move_batch_lem :
    (tick : ℕ) (ms : List MoveItem) (count : ℕ)
    → encode_move_batch tick ms count
      ≡ concat (
          push_u8 msg_move_batch
          ∷ wr_u16 tick
          ∷ push_u8 (clamp_count count)
          ∷ encode_move_items (take (clamp_count count) ms)
          ∷ [])
unfolding encode_move_batch
encode_move_batch_lem tick ms count = refl

encode_dig_event_batch_lem :
    (id tick : ℕ) (ms : List DigEvent) (count : ℕ)
    → encode_dig_event_batch id tick ms count
      ≡ concat (
          push_u8 msg_dig_event_batch
          ∷ wr_u16 id
          ∷ wr_u16 tick
          ∷ push_u8 (clamp_count count)
          ∷ encode_dig_event_items (take (clamp_count count) ms)
          ∷ [])
unfolding encode_dig_event_batch
encode_dig_event_batch_lem id tick ms count = refl

pub clamp_count-min : (count : ℕ) → clamp_count count ≡ min count 255
unfolding clamp_count
clamp_count-min count = ground arith

-- Where `count` is at least 1 and at most the number of digs, all with fields in range, a DIG_BATCH
-- of the first `count` digs is read back item by item, cut to 255 items.
pub decode_dig_batch-encode_dig_batch :
    (ms : List Dig) (count : ℕ)
    → All IsDig ms
    → 1 ≤ count
    → count ≤ length ms
    → decode_dig_batch (encode_dig_batch ms count) ≡ some (take (clamp_count count) ms)
decode_dig_batch-encode_dig_batch ms count h lo hi =
    rw (encode_dig_batch_lem ms count, append-nil)
      (unfold decode_dig_batch in
        ground (
          arith,
          clamp_count-min count,
          length-take (clamp_count count) ms,
          length-encode_dig_items (take (clamp_count count) ms),
          decode_dig_items-encode_dig_items (take (clamp_count count) ms) (clamp_count count)
              (All-take IsDig (clamp_count count) ms h),
        ))

length-encode_move_items : (ms : List MoveItem) → length (encode_move_items ms) ≡ 12 * length ms
unfolding encode_move_items encode_move_item wr_u16
length-encode_move_items [] = refl
length-encode_move_items (m ∷ ms) = omega (arith, length-encode_move_items ms)

length-encode_dig_event_items :
    (ms : List DigEvent) → length (encode_dig_event_items ms) ≡ 9 * length ms
unfolding encode_dig_event_items encode_dig_event_item wr_u16
length-encode_dig_event_items [] = refl
length-encode_dig_event_items (m ∷ ms) = omega (arith, length-encode_dig_event_items ms)

-- A MOVE_BATCH and a DIG_EVENT_BATCH of the first `count` items, where there are that many, have
-- the size of their header and of at most 255 items, and their count byte is the smaller of `count`
-- and 255.
pub batch_sizes :
    (id tick count : ℕ) (moves : List MoveItem) (digs : List DigEvent)
    → count ≤ length moves
    → count ≤ length digs
    → (length (encode_move_batch tick moves count)
        ≡ k_move_batch_header_size + clamp_count count * k_move_item_size)
      × (byte_at (encode_move_batch tick moves count) 3 ≡ min count 255)
      × (length (encode_dig_event_batch id tick digs count)
          ≡ k_dig_event_batch_header_size + clamp_count count * k_dig_event_batch_item_size)
      × (byte_at (encode_dig_event_batch id tick digs count) 5 ≡ min count 255)
batch_sizes id tick count moves digs hm hd =
    rw (encode_move_batch_lem tick moves count, encode_dig_event_batch_lem id tick digs count)
      (unfold wr_u16 in
        rw (append-nil, append-nil)
          (omega (
            arith,
            clamp_count-min count,
            length-take (clamp_count count) moves,
            length-take (clamp_count count) digs,
            length-encode_move_items (take (clamp_count count) moves),
            length-encode_dig_event_items (take (clamp_count count) digs),
          )))
