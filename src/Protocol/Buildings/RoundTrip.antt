-- ===== src/Protocol/Buildings/RoundTrip.antt =====
-- A building record written and read back, current and legacy.
use nicechunk_guardian.Base.{
  ℕ, zero, suc, ◌+◌, ◌*◌, ◌≡◌, refl, ap, ◌∙◌, List, [], ◌∷◌, ◌++◌, some, arith, length, take, drop,
  drop-drop, drop-append, All, get_elem?, length-append, append_assoc, take-append, drop_advance,
  ◌==◌, if◌then◌else◌,
}
use nicechunk_guardian.Wire.{Bytes, rd_u64, wr_u16, wr_u32, wr_u64, wr_i16, wr_i32}
use nicechunk_guardian.Wire.Words.{
  length-wr_u16, length-wr_u32, length-wr_u64, length-wr_i16, length-wr_i32, rd_u16-wr_u16,
  rd_u32-wr_u32, rd_u64-wr_u64, rd_i16-wr_i16, rd_i32-wr_i32,
}
use nicechunk_guardian.Protocol.{msg_building_announce}
use nicechunk_guardian.Protocol.Messages.{BuildingRecord, IsBuildingRecord}
use nicechunk_guardian.Protocol.Buildings.{
  building_record_fields, decode_building_record, decode_building_announce, append_building_record,
  append_building_records, encode_building_announce,
}

-- A packed record from each of its fields on, with `rest` for what follows the content hash.
module _ (r : BuildingRecord) (rest : Bytes) where
  abbrev from_content_hash : Bytes
  from_content_hash = r.content_hash ++ rest

  abbrev from_active_revision : Bytes
  from_active_revision = wr_u32 r.active_revision ++ from_content_hash

  abbrev from_depth : Bytes
  from_depth = wr_u32 r.depth ++ from_active_revision

  abbrev from_width : Bytes
  from_width = wr_u32 r.width ++ from_depth

  abbrev from_flags : Bytes
  from_flags = wr_u16 r.flags ++ from_width

  abbrev from_surface_y : Bytes
  from_surface_y = wr_i16 r.surface_y ++ from_flags

  abbrev from_min_z : Bytes
  from_min_z = wr_i32 r.min_z ++ from_surface_y

  abbrev from_min_x : Bytes
  from_min_x = wr_i32 r.min_x ++ from_min_z

  abbrev from_foundation_id : Bytes
  from_foundation_id = wr_u64 r.foundation_id ++ from_min_x

  at_min_x : drop 8 from_foundation_id ≡ from_min_x
  at_min_x =
      drop_advance 0 8 from_foundation_id (wr_u64 r.foundation_id) from_min_x refl
        (length-wr_u64 r.foundation_id)

  at_min_z : drop 12 from_foundation_id ≡ from_min_z
  at_min_z =
      drop_advance 8 4 from_foundation_id (wr_i32 r.min_x) from_min_z at_min_x
        (length-wr_i32 r.min_x)

  at_surface_y : drop 16 from_foundation_id ≡ from_surface_y
  at_surface_y =
      drop_advance 12 4 from_foundation_id (wr_i32 r.min_z) from_surface_y at_min_z
        (length-wr_i32 r.min_z)

  at_flags : drop 18 from_foundation_id ≡ from_flags
  at_flags =
      drop_advance 16 2 from_foundation_id (wr_i16 r.surface_y) from_flags at_surface_y
        (length-wr_i16 r.surface_y)

  at_width : drop 20 from_foundation_id ≡ from_width
  at_width =
      drop_advance 18 2 from_foundation_id (wr_u16 r.flags) from_width at_flags
        (length-wr_u16 r.flags)

  at_depth : drop 24 from_foundation_id ≡ from_depth
  at_depth =
      drop_advance 20 4 from_foundation_id (wr_u32 r.width) from_depth at_width
        (length-wr_u32 r.width)

  at_active_revision : drop 28 from_foundation_id ≡ from_active_revision
  at_active_revision =
      drop_advance 24 4 from_foundation_id (wr_u32 r.depth) from_active_revision at_depth
        (length-wr_u32 r.depth)

  at_content_hash : drop 32 from_foundation_id ≡ from_content_hash
  at_content_hash =
      drop_advance 28 4 from_foundation_id (wr_u32 r.active_revision) from_content_hash
        at_active_revision (length-wr_u32 r.active_revision)

  at_rest : length r.content_hash ≡ 16 → drop 48 from_foundation_id ≡ rest
  at_rest h = drop_advance 32 16 from_foundation_id r.content_hash rest at_content_hash h

  length_packed : length r.content_hash ≡ 16 → length from_foundation_id ≡ 48 + length rest
  unfolding wr_u64 wr_i32 wr_i16 wr_u16 wr_u32
  length_packed h = omega (arith, length-append r.content_hash rest)

  -- All fields but the last, whatever follows.
  fields_packed :
      IsBuildingRecord r
      → building_record_fields from_foundation_id ≡ record r {
        updated_slot =
            if length from_foundation_id == 56 then rd_u64 (drop 48 from_foundation_id) else 0;
      }
  fields_packed h =
      rw
        (
          at_min_x, at_min_z, at_surface_y, at_flags, at_width, at_depth, at_active_revision,
          at_content_hash,
        )
        (rw (
          rd_u64-wr_u64 r.foundation_id from_min_x h.foundation_id,
          rd_i32-wr_i32 r.min_x from_min_z h.min_x,
          rd_i32-wr_i32 r.min_z from_surface_y h.min_z,
          rd_i16-wr_i16 r.surface_y from_flags h.surface_y,
          rd_u16-wr_u16 r.flags from_width h.flags,
          rd_u32-wr_u32 r.width from_depth h.width,
          rd_u32-wr_u32 r.depth from_active_revision h.depth,
          rd_u32-wr_u32 r.active_revision from_content_hash h.active_revision,
          take-append 16 r.content_hash rest h.content_hash.0,
        ))

append_building_record_lem :
    (r : BuildingRecord)
    → append_building_record r ≡ from_foundation_id r (wr_u64 r.updated_slot ++ [])
unfolding append_building_record
append_building_record_lem r = refl

pub length-append_building_record :
    (r : BuildingRecord) → IsBuildingRecord r → length (append_building_record r) ≡ 56
length-append_building_record r h =
    rw append_building_record_lem
      (length_packed r (wr_u64 r.updated_slot ++ []) h.content_hash.0 ∙ (unfold wr_u64 in refl))

-- A record with fields in range, packed to 56 bytes, is read back as it was.
pub decode_building_record-append_building_record :
    (r : BuildingRecord)
    → IsBuildingRecord r
    → decode_building_record (append_building_record r) ≡ some r
unfolding decode_building_record
decode_building_record-append_building_record r h =
    let slot = wr_u64 r.updated_slot ++ [] in
    let whole : length (append_building_record r) ≡ 56 = length-append_building_record r h in
    ground (
      arith,
      whole,
      append_building_record_lem r,
      fields_packed r slot h,
      at_rest r slot h.content_hash.0,
      rd_u64-wr_u64 r.updated_slot [] h.updated_slot,
    )

packed_split :
    (r : BuildingRecord) (slot : Bytes)
    → from_foundation_id r slot ≡ from_foundation_id r [] ++ slot
packed_split r slot = simp append_assoc

-- The first 48 bytes of a packed record with fields in range, the legacy form, give the record with slot 0.
pub decode_building_record_legacy :
    (r : BuildingRecord)
    → IsBuildingRecord r
    → decode_building_record (take 48 (append_building_record r))
      ≡ some (record r { updated_slot = 0 })
decode_building_record_legacy r h =
    rw (append_building_record_lem, cut)
      (unfold decode_building_record in
        ground (arith, length_packed r [] h.content_hash.0, fields_packed r [] h))
  where
    slot : Bytes
    slot = wr_u64 r.updated_slot ++ []

    cut : take 48 (from_foundation_id r slot) ≡ from_foundation_id r []
    cut =
        ap (take 48) (packed_split r slot)
        ∙ take-append 48 (from_foundation_id r []) slot (length_packed r [] h.content_hash.0)

decode_building_announce_body :
    (body : Bytes)
    → length body ≡ 56
    → decode_building_announce (msg_building_announce ∷ body) ≡ decode_building_record body
unfolding decode_building_announce
decode_building_announce_body body h = rw h refl

-- A BUILDING_ANNOUNCE of a record with fields in range is read back as that record.
pub decode_building_announce-encode_building_announce :
    (r : BuildingRecord)
    → IsBuildingRecord r
    → decode_building_announce (encode_building_announce r) ≡ some r
unfolding encode_building_announce
decode_building_announce-encode_building_announce r h =
    decode_building_announce_body (append_building_record r) (length-append_building_record r h)
    ∙ decode_building_record-append_building_record r h

-- Of records packed one behind the other, the i-th is read from byte 56 * i on.
pub decode_building_record-append_building_records :
    (rs : List BuildingRecord) (i : ℕ) (r : BuildingRecord)
    → All IsBuildingRecord rs
    → get_elem? rs i ≡ some r
    → decode_building_record (take 56 (drop (i * 56) (append_building_records rs))) ≡ some r
unfolding append_building_records
decode_building_record-append_building_records [] i r h e = cc
decode_building_record-append_building_records (x ∷ rs) zero r h e =
    rw
      (take-append 56 (append_building_record x) (append_building_records rs)
        (length-append_building_record x h.0))
      (decode_building_record-append_building_record x h.0 ∙ e)
decode_building_record-append_building_records (x ∷ rs) (suc i) r h e =
    let k : suc i * 56 ≡ 56 + i * 56 = omega arith in
    rw
      (
        k,
        drop-drop 56 (i * 56) (append_building_record x ++ append_building_records rs),
        drop-append 56 (append_building_record x) (append_building_records rs)
            (length-append_building_record x h.0),
      )
      (decode_building_record-append_building_records rs i r h.1 e)

pub length-append_building_records :
    (rs : List BuildingRecord)
    → All IsBuildingRecord rs
    → length (append_building_records rs) ≡ 56 * length rs
unfolding append_building_records
length-append_building_records [] h = refl
length-append_building_records (r ∷ rs) h = omega (
  arith,
  length-append (append_building_record r) (append_building_records rs),
  length-append_building_record r h.0,
  length-append_building_records rs h.1,
)
