-- ===== src/App/Fine.antt =====
-- About the handlers of Guardian/src/app.cpp: the pointers that they follow and the players that they free.
pub mod Move
pub mod Hello
pub mod Dig
pub mod Message
pub mod Close
use nicechunk_guardian.Base.{
  ℕ, ◌+◌, ◌≡◌, refl, sym, ap, ◌∙◌, subst, ◌==◌, ltb, Bool, true, false, not, ◌&&◌, if◌then◌else◌,
  List, [], ◌∷◌, ◌++◌, Option, none, some, length, arith, Bool-cases, Option-cases, &&-true, inl,
  inr, min, drop,
}
use nicechunk_guardian.Base.Table.{lookup}
use nicechunk_guardian.Wire.{Bytes}
use nicechunk_guardian.Chunk.{local_to_global}
use nicechunk_guardian.Protocol.{error_not_hello, equipment_forged}
use nicechunk_guardian.Protocol.Messages.{PlayerIdentity, BuildingRecord}
use nicechunk_guardian.Protocol.Events.{DigEvent}
use nicechunk_guardian.Protocol.Decode.{
  decode_dig, decode_chat, decode_equipment, decode_player_identity,
  decode_building_manifest_request,
}
use nicechunk_guardian.Protocol.Batches.{decode_dig_batch}
use nicechunk_guardian.Protocol.Buildings.{decode_building_announce, encode_building_region_digest}
use nicechunk_guardian.Building.Registry.{building_digest, building_manifest_pages}
use nicechunk_guardian.Guardian.{Guardian, Metrics}
use nicechunk_guardian.Guardian.Players.{is_active_player}
use nicechunk_guardian.Guardian.Events.{
  accept_dig_seq, update_player_identity, update_player_equipment,
}
use nicechunk_guardian.Guardian.Publish.{publish_to_aoi, count_message}
use nicechunk_guardian.Guardian.State.{IsState, IsAlive, Same, Same-others, metrics-Same}
use nicechunk_guardian.Guardian.Untouched.{
  Same-refl, Same-trans, heap-Same, publish_to_aoi-Same, accept_dig_seq-Same,
  update_player_identity-Same, update_player_equipment-Same,
}
use nicechunk_guardian.Guardian.Grows.{Grows, Grows-refl, Grows-trans, Same-Grows}
use nicechunk_guardian.App.{
  PerSocketData, Outcome, with_player, is_in_session, close_with_error, count_bytes_in,
}
use nicechunk_guardian.App.Talk.{
  tell_around, handle_chat, handle_player_identity, handle_equipment, limit_equipment, send_pages,
  handle_building_manifest_request, handle_building_announce, limit_building, announce_building,
}

-- A handler that has a result, and what the result keeps.
abbrev pub IsFine : Guardian → Option Outcome → Type 0
IsFine s none = ⊥
IsFine s (some r) = Grows s r.0

-- The same for a handler whose state differs in nothing that the invariant mentions.
abbrev pub IsQuiet : Guardian → Option Outcome → Type 0
IsQuiet s none = ⊥
IsQuiet s (some r) = Same s r.0

pub IsQuiet-IsFine : (s : Guardian) (r : Option Outcome) → IsState s → IsQuiet s r → IsFine s r
IsQuiet-IsFine s none i q = q
IsQuiet-IsFine s (some r) i q = Same-Grows s r.0 q i

-- An active player is in the table.
pub is_active_player-lookup :
    (p : ℕ) (s : Guardian)
    → is_active_player p s ≡ true
    → lookup (s.heap p).local_player_id s.players ≡ some p
unfolding is_active_player
is_active_player-lookup p s h = ground (arith, h)

pub with_player_cases :
    (P : Option Outcome → Type 0) (user : PerSocketData) (s : Guardian) (body : ℕ → Option Outcome)
    → P (some (s, close_with_error error_not_hello))
    → ((p : ℕ) → lookup (s.heap p).local_player_id s.players ≡ some p → P (body p))
    → P (with_player user s body)
unfolding with_player is_in_session
with_player_cases P user s body refused go = elim (Option-cases user.player) [
  | inl outside ↦ rw (outside, with_player) refused
  | inr (p, e) ↦ elim (Bool-cases ((s.heap p).connected && is_active_player p s)) [
    | inr passive ↦ rw (e, passive, with_player) refused
    | inl active ↦
        rw (e, active, with_player)
          (go p (
            is_active_player-lookup p s
              (&&-true (s.heap p).connected (is_active_player p s) active).1))
  ]
]

tell_around-Same :
    (p : ℕ) (payload message : Bytes) (s : Guardian) → Same s (tell_around p payload message s).0
unfolding tell_around
tell_around-Same p payload message s =
    let told = (publish_to_aoi (s.heap p).current_chunk_x (s.heap p).current_chunk_z payload s).0 in
    Same-trans s told (count_bytes_in message told)
      (publish_to_aoi-Same (s.heap p).current_chunk_x (s.heap p).current_chunk_z payload s)
      (metrics-Same told (count_bytes_in message told).metrics)

pub handle_chat-IsQuiet :
    (message : Bytes) (user : PerSocketData) (s : Guardian) → IsQuiet s (handle_chat message user s)
unfolding handle_chat
handle_chat-IsQuiet message user s = with_player_cases (IsQuiet s) user s _ (Same-refl s) (λ p at.
    elim (Option-cases (decode_chat message)) [
      | inl bad ↦ rw bad (Same-refl s)
      | inr (chat, e) ↦ rw e (tell_around-Same p _ message s)
    ])

pub handle_player_identity-IsQuiet :
    (now : ℕ) (message : Bytes) (user : PerSocketData) (s : Guardian)
    → IsQuiet s (handle_player_identity now message user s)
unfolding handle_player_identity
handle_player_identity-IsQuiet now message user s =
    with_player_cases (IsQuiet s) user s _ (Same-refl s) (λ p at.
      elim (Option-cases (decode_player_identity message)) [
        | inl bad ↦ rw bad (Same-refl s)
        | inr (name, e) ↦
            let identity : PlayerIdentity = record {
              local_player_id = 0;
              owner_wallet = [];
              display_name = name;
            } in
            let updated = update_player_identity p identity now s in
            rw e (
              Same-trans s updated _ (update_player_identity-Same p identity now s)
                (tell_around-Same p _ message updated))
      ])

limit_equipment-Same : (now p : ℕ) (s : Guardian) → Same s (limit_equipment now p s).0
unfolding limit_equipment
limit_equipment-Same now p s = heap-Same s _ (λ q. ground arith)

pub handle_equipment-IsQuiet :
    (now : ℕ) (message : Bytes) (user : PerSocketData) (s : Guardian)
    → IsQuiet s (handle_equipment now message user s)
unfolding handle_equipment
handle_equipment-IsQuiet now message user s =
    with_player_cases (IsQuiet s) user s _ (Same-refl s) (λ p at.
      elim (Option-cases (decode_equipment message)) [
        | inl bad ↦ rw bad (Same-refl s)
        | inr (equipment, e) ↦
            let limited = (limit_equipment now p s).0 in
            let updated = update_player_equipment p equipment now limited in
            rw e (elim (Bool-cases (ltb equipment_forged equipment.right_hand_kind)) [
              | inl unknown ↦ rw unknown (Same-refl s)
              | inr known ↦ elim (Bool-cases (limit_equipment now p s).1) [
                | inr refused ↦ rw (known, refused) (limit_equipment-Same now p s)
                | inl allowed ↦
                    rw (known, allowed)
                      (Same-trans s limited _ (limit_equipment-Same now p s) (
                        Same-trans limited updated _
                          (update_player_equipment-Same p equipment now limited)
                          (tell_around-Same p _ message updated)))
              ]
            ])
      ])

send_pages-Same : (pages : List Bytes) (s : Guardian) → Same s (send_pages pages s).0
unfolding send_pages
send_pages-Same [] s = Same-refl s
send_pages-Same (page ∷ pages) s =
    Same-trans s (count_message page s) _ (metrics-Same s (count_message page s).metrics)
      (send_pages-Same pages (count_message page s))

pub handle_building_manifest_request-IsQuiet :
    (message : Bytes) (user : PerSocketData) (s : Guardian)
    → IsQuiet s (handle_building_manifest_request message user s)
unfolding handle_building_manifest_request
handle_building_manifest_request-IsQuiet message user s =
    with_player_cases (IsQuiet s) user s _ (Same-refl s) (λ p at.
      elim (Option-cases (decode_building_manifest_request message)) [
        | inl bad ↦ rw bad (Same-refl s)
        | inr (request, e) ↦
            let digest = building_digest s.buildings in
            let pages =
              if request.known_revision == digest.revision
              then encode_building_region_digest digest ∷ []
              else building_manifest_pages s.buildings in
            rw e (
              Same-trans s (send_pages pages s).0 _ (send_pages-Same pages s)
                (metrics-Same (send_pages pages s).0 _))
      ])

limit_building-Same : (now p : ℕ) (s : Guardian) → Same s (limit_building now p s).0
unfolding limit_building
limit_building-Same now p s = heap-Same s _ (λ q. ground arith)

announce_building-Same :
    (sha256 : Bytes → Bytes) (written : Bool) (r : BuildingRecord) (message : Bytes) (s : Guardian)
    → Same s (announce_building sha256 written r message s).0
unfolding announce_building
announce_building-Same sha256 written r message s =
    Same-others s _ s.next_local_player_id s.server_tick s.pending_move_players _

pub handle_building_announce-IsQuiet :
    (sha256 : Bytes → Bytes) (written : Bool) (now : ℕ) (message : Bytes) (user : PerSocketData)
    (s : Guardian)
    → IsQuiet s (handle_building_announce sha256 written now message user s)
unfolding handle_building_announce
handle_building_announce-IsQuiet sha256 written now message user s =
    with_player_cases (IsQuiet s) user s _ (Same-refl s) (λ p at.
      elim (Option-cases (decode_building_announce message)) [
        | inl bad ↦ rw bad (Same-refl s)
        | inr (r, e) ↦ rw e (elim (Bool-cases (limit_building now p s).1) [
          | inr refused ↦ rw refused (limit_building-Same now p s)
          | inl allowed ↦ rw allowed (
              Same-trans s (limit_building now p s).0 _ (limit_building-Same now p s)
                (announce_building-Same sha256 written r message (limit_building now p s).0))
        ])
      ])
