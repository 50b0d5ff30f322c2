-- ===== src/App/Fine/Message.antt =====
-- About `.message` of Guardian/src/app.cpp: the pointers that it follows.
use nicechunk_guardian.Base.{
  ℕ, ◌≡◌, refl, ◌==◌, Bool, true, false, not, if◌then◌else◌, [], ◌∷◌, Option, none, some, arith,
  Bool-cases, Option-cases, inl, inr, if_both,
}
use nicechunk_guardian.Wire.{Bytes}
use nicechunk_guardian.Protocol.{
  valid_type, error_bad_protocol, error_bad_payload_length, msg_hello, msg_move, msg_dig,
  msg_dig_batch, msg_chat, msg_player_identity, msg_equipment, msg_building_manifest_request,
  msg_building_announce, msg_pong,
}
use nicechunk_guardian.Protocol.Decode.{decode_pong}
use nicechunk_guardian.Guardian.{Guardian}
use nicechunk_guardian.Guardian.Players.{is_active_player}
use nicechunk_guardian.Guardian.State.{IsState, IsAlive, Same}
use nicechunk_guardian.Guardian.Untouched.{Same-refl, heap-Same}
use nicechunk_guardian.Guardian.Grows.{Grows-refl, Same-Grows}
use nicechunk_guardian.Guardian.Reads.Held.{IsAlive-is_alive}
use nicechunk_guardian.App.{PerSocketData, Outcome, close_with_error}
use nicechunk_guardian.App.Move.{handle_move}
use nicechunk_guardian.App.Dig.{handle_dig, handle_dig_batch}
use nicechunk_guardian.App.Talk.{
  handle_chat, handle_player_identity, handle_equipment, handle_building_manifest_request,
  handle_building_announce,
}
use nicechunk_guardian.App.Routes.{keeping, dispatch, can_follow, see_player, on_message, Received}
use nicechunk_guardian.App.Fine.{
  IsFine, IsQuiet, IsQuiet-IsFine, handle_chat-IsQuiet, handle_player_identity-IsQuiet,
  handle_equipment-IsQuiet, handle_building_manifest_request-IsQuiet,
  handle_building_announce-IsQuiet,
}
use nicechunk_guardian.App.Fine.Move.{handle_move-IsFine}
use nicechunk_guardian.App.Fine.Dig.{handle_dig-IsQuiet, handle_dig_batch-IsQuiet}
use nicechunk_guardian.App.Fine.Hello.{IsHandled, IsHandled-trans, handle_hello-IsHandled}

keeping-IsHandled :
    (user : PerSocketData) (s : Guardian) (r : Option Outcome)
    → IsFine s r
    → IsHandled user s (keeping user r)
keeping-IsHandled user s none h = h
keeping-IsHandled user s (some r) h = (h, inl refl)

module _ (sha256 : Bytes → Bytes) (written : Bool) (now : ℕ) (message : Bytes)
    (user : PerSocketData) (s : Guardian) (i : IsState s) where
  quiet : (r : Option Outcome) → IsQuiet s r → IsHandled user s (keeping user r)
  quiet r q = keeping-IsHandled user s r (IsQuiet-IsFine s r i q)

  otherwise :
      (b : Bool) (x y : Received)
      → IsHandled user s x
      → IsHandled user s y
      → IsHandled user s (if b then x else y)
  otherwise = if_both (IsHandled user s)

  -- The cases of the `switch` behind MSG_CHAT.
  rest_of_dispatch :
      (type : ℕ)
      → IsHandled user s (
          if type == msg_player_identity
          then keeping user (handle_player_identity now message user s)
          else if type == msg_equipment
          then keeping user (handle_equipment now message user s)
          else if type == msg_building_manifest_request
          then keeping user (handle_building_manifest_request message user s)
          else if type == msg_building_announce
          then keeping user (handle_building_announce sha256 written now message user s)
          else if type == msg_pong
          then some (
            s,
            user,
            if decode_pong message then [] else close_with_error error_bad_payload_length,
          )
          else some (s, user, close_with_error error_bad_protocol))
  rest_of_dispatch type =
      otherwise (type == msg_player_identity) _ _
        (quiet (handle_player_identity now message user s)
          (handle_player_identity-IsQuiet now message user s))
        (otherwise (type == msg_equipment) _ _
          (quiet (handle_equipment now message user s)
            (handle_equipment-IsQuiet now message user s))
          (otherwise (type == msg_building_manifest_request) _ _
            (quiet (handle_building_manifest_request message user s)
              (handle_building_manifest_request-IsQuiet message user s))
            (otherwise (type == msg_building_announce) _ _
              (quiet (handle_building_announce sha256 written now message user s)
                (handle_building_announce-IsQuiet sha256 written now message user s))
              (otherwise (type == msg_pong) _ _ (Grows-refl s i, inl refl)
                (Grows-refl s i, inl refl)))))

  dispatch-IsHandled :
      (type : ℕ) → IsHandled user s (dispatch sha256 written type now message user s)
  unfolding dispatch
  dispatch-IsHandled type =
      otherwise (type == msg_hello) _ _ (handle_hello-IsHandled now message user s i) (
        otherwise (type == msg_move) _ _
          (keeping-IsHandled user s (handle_move now message user s)
            (handle_move-IsFine now message user s i))
          (otherwise (type == msg_dig) _ _
            (quiet (handle_dig now message user s) (handle_dig-IsQuiet now message user s))
            (otherwise (type == msg_dig_batch) _ _
              (quiet (handle_dig_batch now message user s)
                (handle_dig_batch-IsQuiet now message user s))
              (otherwise (type == msg_chat) _ _
                (quiet (handle_chat message user s) (handle_chat-IsQuiet message user s))
                (rest_of_dispatch type)))))

see_player-Same : (now : ℕ) (user : PerSocketData) (s : Guardian) → Same s (see_player now user s)
unfolding see_player
see_player-Same now user s = elim (Option-cases user.player) [
  | inl out ↦ rw (out, see_player) (Same-refl s)
  | inr (p, e) ↦ elim (Bool-cases (is_active_player p s)) [
    | inl active ↦ rw (e, active, see_player) (heap-Same s _ (λ q. ground arith))
    | inr passive ↦ rw (e, passive, see_player) (Same-refl s)
  ]
]

-- The socket's player, if it has one, is alive.
abbrev pub IsHeld : PerSocketData → Guardian → Type 0
IsHeld user s = (p : ℕ) → user.player ≡ some p → IsAlive p s

pub IsHeld-can_follow :
    (user : PerSocketData) (s : Guardian) → IsHeld user s → can_follow user s ≡ true
unfolding can_follow
IsHeld-can_follow user s held = elim (Option-cases user.player) [
  | inl out ↦ rw (out, can_follow) refl
  | inr (p, e) ↦ rw (e, can_follow) (IsAlive-is_alive p s (held p e))
]

-- Within the invariant, and while the socket's player is alive, every message is handled: no handler
-- follows a pointer that is null or dangles, no player is freed, and the socket keeps its player or has a
-- new one.
pub on_message-IsHandled :
    (sha256 : Bytes → Bytes) (written binary : Bool) (seen now : ℕ) (message : Bytes)
    (user : PerSocketData) (s : Guardian)
    → IsState s
    → IsHeld user s
    → IsHandled user s (on_message sha256 written binary seen now message user s)
unfolding on_message
on_message-IsHandled sha256 written false seen now message user s i held =
    (Grows-refl s i, inl refl)
on_message-IsHandled sha256 written true seen now [] user s i held = (Grows-refl s i, inl refl)
on_message-IsHandled sha256 written true seen now (type ∷ rest) user s i held =
    let saw = see_player seen user s in
    let g = Same-Grows s saw (see_player-Same seen user s) i in
    rw (IsHeld-can_follow user s held, on_message)
      (if_both (IsHandled user s) (not (valid_type type)) _ _ (Grows-refl s i, inl refl)
        (IsHandled-trans user s saw _ g
          (dispatch-IsHandled sha256 written now (type ∷ rest) user saw g.state type)))
