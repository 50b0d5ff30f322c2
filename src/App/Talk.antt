-- ===== src/App/Talk.antt =====
-- The other handlers of Guardian/src/app.cpp: chat, names, equipment and buildings.
use nicechunk_guardian.Base.{
  ℕ, ◌==◌, ltb, Bool, not, if◌then◌else◌, Option, none, some, List, [], ◌∷◌,
}
use nicechunk_guardian.Wire.{Bytes}
use nicechunk_guardian.RateLimit.{rate_limit_allow}
use nicechunk_guardian.Protocol.{error_bad_payload_length, error_rate_limit, equipment_forged}
use nicechunk_guardian.Protocol.Messages.{PlayerIdentity, BuildingRecord}
use nicechunk_guardian.Protocol.Decode.{
  decode_chat, decode_equipment, decode_player_identity, decode_building_manifest_request,
}
use nicechunk_guardian.Protocol.Encode.{
  encode_chat_event, encode_equipment_event, encode_player_identity,
}
use nicechunk_guardian.Protocol.Buildings.{decode_building_announce, encode_building_region_digest}
use nicechunk_guardian.Building.Registry.{building_digest, building_manifest_pages, upsert_building}
use nicechunk_guardian.Guardian.{Guardian, building_manifest_topic, modify}
use nicechunk_guardian.Guardian.Events.{
  make_equipment_event, make_identity, update_player_equipment, update_player_identity,
}
use nicechunk_guardian.Guardian.Publish.{publish_to_aoi, count_message}
use nicechunk_guardian.App.{
  PerSocketData, send, publish_all, Outcome, send_error, close_with_error, published, with_player,
  count_bytes_in,
}

-- A message to the chunks around the player, and the bytes that came in.
unfoldable pub tell_around : ℕ → Bytes → Bytes → Guardian → Outcome
tell_around p payload message s =
    let (told, sent) =
      publish_to_aoi (s.heap p).current_chunk_x (s.heap p).current_chunk_z payload s in
    (count_bytes_in message told, published sent)

unfoldable pub handle_chat : Bytes → PerSocketData → Guardian → Option Outcome
unfolding tell_around
handle_chat message user s = with_player user s (λ p. elim (decode_chat message) [
  | none ↦ some (s, close_with_error error_bad_payload_length)
  | some chat ↦ some (
      tell_around p
        (encode_chat_event (record {
          local_player_id = (s.heap p).local_player_id;
          seq = chat.seq;
          message = chat.message;
        }))
        message s)
])

unfoldable pub handle_player_identity : ℕ → Bytes → PerSocketData → Guardian → Option Outcome
unfolding tell_around
handle_player_identity now message user s = with_player user s (λ p.
    elim (decode_player_identity message) [
      | none ↦ some (s, close_with_error error_bad_payload_length)
      | some name ↦
          let identity : PlayerIdentity = record {
            local_player_id = 0;
            owner_wallet = [];
            display_name = name;
          } in
          let updated = update_player_identity p identity now s in
          some (
            tell_around p (encode_player_identity (make_identity (updated.heap p))) message updated)
    ])

-- `rate_limit_allow` on the player's equipment window.
unfoldable pub limit_equipment : ℕ → ℕ → Guardian → Guardian × Bool
limit_equipment now p s =
    let (window, allowed) =
      rate_limit_allow now (s.heap p).equipment_window s.cfg.client_equipment_rate_limit_per_sec in
    (record s { heap = modify p (λ q. record q { equipment_window = window }) s.heap }, allowed)

unfoldable pub handle_equipment : ℕ → Bytes → PerSocketData → Guardian → Option Outcome
unfolding tell_around limit_equipment
handle_equipment now message user s = with_player user s (λ p. elim (decode_equipment message) [
  | none ↦ some (s, close_with_error error_bad_payload_length)
  | some equipment ↦
      let (limited, allowed) = limit_equipment now p s in
      let updated = update_player_equipment p equipment now limited in
      if ltb equipment_forged equipment.right_hand_kind
      then some (s, close_with_error error_bad_payload_length)
      else if not allowed
      then some (limited, send_error error_rate_limit)
      else some (
          tell_around p (encode_equipment_event (make_equipment_event (updated.heap p))) message
            updated)
])

-- The loop over the pages.
unfoldable pub send_pages : List Bytes → Guardian → Outcome
send_pages [] s = (s, [])
send_pages (page ∷ pages) s =
    let (s', calls) = send_pages pages (count_message page s) in (s', send page ∷ calls)

unfoldable pub handle_building_manifest_request : Bytes → PerSocketData → Guardian → Option Outcome
unfolding send_pages
handle_building_manifest_request message user s = with_player user s (λ p.
    elim (decode_building_manifest_request message) [
      | none ↦ some (s, close_with_error error_bad_payload_length)
      | some request ↦
          let digest = building_digest s.buildings in
          let pages =
            if request.known_revision == digest.revision
            then encode_building_region_digest digest ∷ []
            else building_manifest_pages s.buildings in
          let (s', calls) = send_pages pages s in some (count_bytes_in message s', calls)
    ])

-- `rate_limit_allow` on the player's building window.
unfoldable pub limit_building : ℕ → ℕ → Guardian → Guardian × Bool
limit_building now p s =
    let (window, allowed) =
      rate_limit_allow now (s.heap p).building_window
        s.cfg.client_building_announce_rate_limit_per_sec in
    (record s { heap = modify p (λ q. record q { building_window = window }) s.heap }, allowed)

-- A record that passed the limit goes to the registry; `written` says whether its file can be written.
unfoldable pub announce_building :
    (Bytes → Bytes) → Bool → BuildingRecord → Bytes → Guardian → Outcome
announce_building sha256 written r message s =
    let (registry, changed) = upsert_building sha256 s.cfg written r s.buildings in
    let payload = encode_building_region_digest (building_digest registry) in
    (
      count_bytes_in message (record s { buildings = registry }),
      if changed then publish_all building_manifest_topic payload ∷ [] else send payload ∷ [],
    )

unfoldable pub handle_building_announce :
    (Bytes → Bytes) → Bool → ℕ → Bytes → PerSocketData → Guardian → Option Outcome
unfolding announce_building limit_building
handle_building_announce sha256 written now message user s = with_player user s (λ p.
    elim (decode_building_announce message) [
      | none ↦ some (s, close_with_error error_bad_payload_length)
      | some r ↦
          let (limited, allowed) = limit_building now p s in
          if not allowed
          then some (limited, send_error error_rate_limit)
          else some (announce_building sha256 written r message limited)
    ])
