-- ===== src/App/Fine/Move.antt =====
-- About `handle_move` of Guardian/src/app.cpp: the pointers that it follows.
use nicechunk_guardian.Base.{
  ℕ, ◌≡◌, refl, sym, ap, ◌∙◌, Bool, true, false, not, ◌||◌, if◌then◌else◌, [], ◌∷◌, ◌++◌, Option,
  none, some, arith, Bool-cases, Option-cases, inl, inr,
}
use nicechunk_guardian.Base.Int.{ℤ, eqb_ℤ}
use nicechunk_guardian.Base.Table.{lookup}
use nicechunk_guardian.Wire.{Bytes}
use nicechunk_guardian.Chunk.{local_to_global}
use nicechunk_guardian.Protocol.Messages.{Move}
use nicechunk_guardian.Protocol.Decode.{decode_move}
use nicechunk_guardian.Protocol.Encode.{
  encode_player_join, encode_player_leave, encode_equipment_event,
}
use nicechunk_guardian.Guardian.{Guardian, Topic}
use nicechunk_guardian.Guardian.Rooms.{move_player_chunk}
use nicechunk_guardian.Guardian.Events.{
  make_join, make_leave, make_equipment_event, update_player_move,
}
use nicechunk_guardian.Guardian.State.{IsState, Same, metrics-Same}
use nicechunk_guardian.Guardian.Untouched.{
  Same-refl, Same-trans, heap-Same, publish_to_aoi-Same, update_player_move-Same,
}
use nicechunk_guardian.Guardian.Grows.{Grows, Grows-refl, Grows-trans, Same-Grows}
use nicechunk_guardian.Guardian.Creates.{move_player_chunk-Grows}
use nicechunk_guardian.Guardian.Reads.Held.{IsState-can_move}
use nicechunk_guardian.App.{PerSocketData, Outcome, topic_of_room, unsubscribe}
use nicechunk_guardian.App.Move.{
  publish_if, unsubscribe_room, Transfer, transfer, announce, move_to, limit_move, handle_move,
  count_move_in,
}
use nicechunk_guardian.App.Fine.{IsFine, with_player_cases}

publish_if-Same :
    (b : Bool) (x z : ℤ) (payload : Bytes) (s : Guardian) → Same s (publish_if b x z payload s).0
unfolding publish_if
publish_if-Same true x z payload s = publish_to_aoi-Same x z payload s
publish_if-Same false x z payload s = Same-refl s

-- A player of the table is in a room that there is.
pub topic_of_room-some :
    (id p : ℕ) (s : Guardian)
    → IsState s
    → lookup id s.players ≡ some p
    → (topic : Topic) × (topic_of_room p s ≡ some topic)
unfolding topic_of_room
topic_of_room-some id p s i at =
    let settled = i.settled id p at in
    let (room, there, seat) = i.links.forth p _ settled.room in
    (room.topic, rw (settled.room, there, topic_of_room) refl)

unsubscribe_room-some :
    (id p : ℕ) (s : Guardian)
    → IsState s
    → lookup id s.players ≡ some p
    → (topic : Topic) × (unsubscribe_room p s ≡ some (unsubscribe topic ∷ []))
unfolding unsubscribe_room
unsubscribe_room-some id p s i at =
    let (topic, e) = topic_of_room-some id p s i at in
    (topic, rw ((i.settled id p at).room, e, unsubscribe_room) refl)

-- A transfer that has a result, and what the result keeps.
abbrev IsCarried : ℕ → ℕ → Guardian → Option Transfer → Type 0
IsCarried id p s none = ⊥
IsCarried id p s (some t) = Grows s t.state × (lookup id t.state.players ≡ some p)

transfer-IsCarried :
    (id p : ℕ) (x z : ℤ) (s : Guardian)
    → IsState s
    → lookup id s.players ≡ some p
    → IsCarried id p s (transfer p x z s)
unfolding transfer
transfer-IsCarried id p x z s i at =
    let q = s.heap p in
    let payload = encode_player_leave (make_leave q 1) in
    let told = (publish_if q.has_pose q.current_chunk_x q.current_chunk_z payload s).0 in
    let same = publish_if-Same q.has_pose q.current_chunk_x q.current_chunk_z payload s in
    let g = Same-Grows s told same i in
    let at' = ap (lookup id) (sym same.keeps.players) ∙ at in
    let moved = (move_player_chunk p x z told).0 in
    let (h, still) = move_player_chunk-Grows id p x z told g.state at' in
    let (old_topic, left) = unsubscribe_room-some id p told g.state at' in
    let (new_topic, joined) = topic_of_room-some id p moved h.state still in
    rw (left, joined, IsState-can_move p x z told g.state, transfer)
      (elim (Bool-cases (move_player_chunk p x z told).1) [
        | inl done ↦ rw done (Grows-trans s told moved g h, still)
        | inr failed ↦ rw failed (Grows-trans s told moved g h, still)
      ])

announce-Same : (p : ℕ) (x z : ℤ) (s : Guardian) → Same s (announce p x z s).0
unfolding announce
announce-Same p x z s =
    let q = s.heap p in
    let joined = (publish_if true x z (encode_player_join (make_join q)) s).0 in
    Same-trans s joined _ (publish_if-Same true x z (encode_player_join (make_join q)) s)
      (publish_if-Same q.has_equipment x z (encode_equipment_event (make_equipment_event q)) joined)

-- The part of the handler behind the transfer.
moved-Grows :
    (b : Bool) (p : ℕ) (m : Move) (now : ℕ) (x z : ℤ) (message : Bytes) (s : Guardian)
    → IsState s
    → Grows s (
        count_move_in message (
          if b
          then (announce p x z (update_player_move p m now s)).0
          else update_player_move p m now s))
moved-Grows b p m now x z message s i = Same-Grows s _ (all b) i
  where
    updated : Guardian
    updated = update_player_move p m now s

    all :
        (b : Bool)
        → Same s (count_move_in message (if b then (announce p x z updated).0 else updated))
    all true = Same-trans s updated _ (update_player_move-Same p m now s) (
        Same-trans updated (announce p x z updated).0 _ (announce-Same p x z updated)
          (metrics-Same (announce p x z updated).0 _))
    all false = Same-trans s updated _ (update_player_move-Same p m now s) (metrics-Same updated _)

-- What `move_to` does after the transfer; `b` says whether the others are told.
abbrev after_transfer : ℕ → Move → ℕ → ℤ → ℤ → Bytes → Bool → Option Transfer → Option Outcome
after_transfer p m now x z message b none = none
after_transfer p m now x z message b (some t) =
    let updated = update_player_move p m now t.state in
    let (told, calls) = announce p x z updated in
    if not t.goes_on
    then some (t.state, t.calls)
    else if b
    then some (count_move_in message told, t.calls ++ calls)
    else some (count_move_in message updated, t.calls)

after_transfer-IsFine :
    (id p : ℕ) (m : Move) (now : ℕ) (x z : ℤ) (message : Bytes) (b : Bool) (s : Guardian)
    (r : Option Transfer)
    → IsCarried id p s r
    → IsFine s (after_transfer p m now x z message b r)
after_transfer-IsFine id p m now x z message b s none h = h
after_transfer-IsFine id p m now x z message b s (some t) (g, still) = elim (Bool-cases t.goes_on) [
  | inr closed ↦ rw closed g
  | inl open_still ↦ elim (Bool-cases b) [
    | inl tell ↦
        rw (open_still, tell)
          (Grows-trans s t.state _ g (moved-Grows true p m now x z message t.state g.state))
    | inr quiet ↦
        rw (open_still, quiet)
          (Grows-trans s t.state _ g (moved-Grows false p m now x z message t.state g.state))
  ]
]

move_to-IsFine :
    (id p : ℕ) (m : Move) (now : ℕ) (x z : ℤ) (message : Bytes) (s : Guardian)
    → IsState s
    → lookup id s.players ≡ some p
    → IsFine s (move_to p m now x z message s)
unfolding move_to
move_to-IsFine id p m now x z message s i at =
    let q = s.heap p in
    let changed = not (eqb_ℤ x q.current_chunk_x) || not (eqb_ℤ z q.current_chunk_z) in
    elim (Bool-cases changed) [
      | inl moves ↦
          rw (moves, move_to)
            (after_transfer-IsFine id p m now x z message (changed || not q.has_pose) s
              (transfer p x z s) (transfer-IsCarried id p x z s i at))
      | inr stays ↦
          rw (stays, move_to)
            (after_transfer-IsFine id p m now x z message (changed || not q.has_pose) s
              (some (record { state = s; calls = []; goes_on = true })) (Grows-refl s i, at))
    ]

IsFine-trans : (a b : Guardian) (r : Option Outcome) → Grows a b → IsFine b r → IsFine a r
IsFine-trans a b none g h = h
IsFine-trans a b (some r) g h = Grows-trans a b r.0 g h

limit_move-Same : (now p : ℕ) (s : Guardian) → Same s (limit_move now p s).0
unfolding limit_move
limit_move-Same now p s = heap-Same s _ (λ q. ground arith)

pub handle_move-IsFine :
    (now : ℕ) (message : Bytes) (user : PerSocketData) (s : Guardian)
    → IsState s
    → IsFine s (handle_move now message user s)
unfolding handle_move
handle_move-IsFine now message user s i =
    with_player_cases (IsFine s) user s _ (Grows-refl s i) (λ p at.
      elim (Option-cases (decode_move message)) [
        | inl bad ↦ rw bad (Grows-refl s i)
        | inr (m, e) ↦
            let limited = (limit_move now p s).0 in
            let same = limit_move-Same now p s in
            let g = Same-Grows s limited same i in
            let (inside, x, z) = local_to_global s.cfg m.local_chunk_x m.local_chunk_z in
            rw e (elim (Bool-cases (limit_move now p s).1) [
              | inr refused ↦ rw refused g
              | inl allowed ↦ rw allowed (elim (Bool-cases inside) [
                | inr outside ↦ rw outside g
                | inl within ↦ rw within (
                    IsFine-trans s limited (move_to p m now x z message limited) g (
                      move_to-IsFine (s.heap p).local_player_id p m now x z message limited g.state
                        (ap (lookup (s.heap p).local_player_id) (sym same.keeps.players) ∙ at)))
              ])
            ])
      ])
