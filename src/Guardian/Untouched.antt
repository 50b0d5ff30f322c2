-- ===== src/Guardian/Untouched.antt =====
-- Functions of Guardian/src/guardian.cpp that leave tables, rooms and chunks alone.
use nicechunk_guardian.Base.{
  ℕ, ◌≡◌, refl, sym, ◌∙◌, ◌==◌, true, ◌&&◌, List, [], ◌∷◌, ◌++◌, arith, Bool-cases, inl, inr,
}
use nicechunk_guardian.Base.Int.{ℤ, ◌+ℤ◌}
use nicechunk_guardian.Wire.{Bytes}
use nicechunk_guardian.Aoi.{AoiOffset}
use nicechunk_guardian.Chunk.{contains_chunk}
use nicechunk_guardian.Protocol.Messages.{Move, Equipment, PlayerIdentity}
use nicechunk_guardian.Guardian.{Player, Guardian, modify}
use nicechunk_guardian.Guardian.Events.{
  update_player_move, update_player_equipment, update_player_identity, accept_dig_seq, take_pose,
  make_move_item,
}
use nicechunk_guardian.Guardian.Publish.{publish_loop, publish_to_aoi, count_message, aoi_offsets}
use nicechunk_guardian.Guardian.Keeps.{Keeps-trans}
use nicechunk_guardian.Guardian.State.{Same, Same-others, metrics-Same}

pub Same-refl : (s : Guardian) → Same s s
Same-refl s = metrics-Same s s.metrics

pub Same-trans : (a b c : Guardian) → Same a b → Same b c → Same a c
Same-trans a b c f g = record {
  keeps = Keeps-trans a b c f.keeps g.keeps;
  rooms = f.rooms ∙ g.rooms;
  room = λ q. g.room q ∙ f.room q;
  index = λ q. g.index q ∙ f.index q;
}

-- What a write to a player has to leave alone.
abbrev pub IsGentle : (ℕ → Player) → (ℕ → Player) → Type 0
IsGentle heap heap' =
    (q : ℕ)
    → ((heap' q).local_player_id ≡ (heap q).local_player_id)
      × ((heap' q).wallet_pubkey ≡ (heap q).wallet_pubkey)
      × ((heap' q).current_chunk_x ≡ (heap q).current_chunk_x)
      × ((heap' q).current_chunk_z ≡ (heap q).current_chunk_z)
      × ((heap' q).current_chunk_room ≡ (heap q).current_chunk_room)
      × ((heap' q).index_in_chunk_vector ≡ (heap q).index_in_chunk_vector)

pub heap-Same :
    (s : Guardian) (heap' : ℕ → Player) → IsGentle s.heap heap' → Same s (record s { heap = heap' })
heap-Same s heap' g = record {
  keeps = record {
    players = refl;
    retired_players = refl;
    local_player_id = λ q. sym (g q).0;
    wallet_pubkey = λ q. sym (g q).1;
    current_chunk_x = λ q. sym (g q).2;
    current_chunk_z = λ q. sym (g q).3;
    next_address = refl;
    cfg = refl;
  };
  rooms = refl;
  room = λ q. (g q).4;
  index = λ q. (g q).5;
}

publish_loop-Same :
    (x z : ℤ) (payload : Bytes) (offsets : List AoiOffset) (s : Guardian)
    → Same s (publish_loop x z payload offsets s).0
unfolding publish_loop
publish_loop-Same x z payload [] s = Same-refl s
publish_loop-Same x z payload (o ∷ offsets) s =
    elim (Bool-cases (contains_chunk s.cfg (x +ℤ o.dx) (z +ℤ o.dz))) [
      | inl inside ↦ rw inside (
          Same-trans s (count_message payload s)
            (publish_loop x z payload offsets (count_message payload s)).0
            (metrics-Same s (count_message payload s).metrics)
            (publish_loop-Same x z payload offsets (count_message payload s)))
      | inr outside ↦ rw outside (publish_loop-Same x z payload offsets s)
    ]

pub publish_to_aoi-Same :
    (x z : ℤ) (payload : Bytes) (s : Guardian) → Same s (publish_to_aoi x z payload s).0
unfolding publish_to_aoi
publish_to_aoi-Same x z payload s = publish_loop-Same x z payload (aoi_offsets s) s

pub update_player_equipment-Same :
    (p : ℕ) (e : Equipment) (t_ms : ℕ) (s : Guardian) → Same s (update_player_equipment p e t_ms s)
unfolding update_player_equipment
update_player_equipment-Same p e t_ms s = heap-Same s _ (λ q. ground arith)

pub update_player_identity-Same :
    (p : ℕ) (e : PlayerIdentity) (t_ms : ℕ) (s : Guardian)
    → Same s (update_player_identity p e t_ms s)
unfolding update_player_identity
update_player_identity-Same p e t_ms s = heap-Same s _ (λ q. ground arith)

pub accept_dig_seq-Same : (p seq : ℕ) (s : Guardian) → Same s (accept_dig_seq p seq s).0
unfolding accept_dig_seq
accept_dig_seq-Same p seq s =
    elim (Bool-cases ((s.heap p).has_dig_seq && seq == (s.heap p).last_dig_seq)) [
      | inl seen ↦ rw seen (Same-refl s)
      | inr fresh ↦ rw fresh (heap-Same s _ (λ q. ground arith))
    ]

-- The state of a MOVE before the player is queued.
abbrev posed : ℕ → Move → ℕ → Guardian → Guardian
posed p m t_ms s = record s {
  heap =
      modify p (λ q. record q { pending_move = make_move_item q; has_pending_move = true })
        (modify p (take_pose m t_ms) s.heap);
}

posed-Same : (p : ℕ) (m : Move) (t_ms : ℕ) (s : Guardian) → Same s (posed p m t_ms s)
unfolding take_pose
posed-Same p m t_ms s =
    let first = record s { heap = modify p (take_pose m t_ms) s.heap } in
    Same-trans s first (posed p m t_ms s)
      (heap-Same s (modify p (take_pose m t_ms) s.heap) (λ q. ground arith))
      (heap-Same first _ (λ q. ground arith))

pub update_player_move-Same :
    (p : ℕ) (m : Move) (t_ms : ℕ) (s : Guardian) → Same s (update_player_move p m t_ms s)
unfolding update_player_move
update_player_move-Same p m t_ms s = elim (Bool-cases (s.heap p).queued_pending_move) [
  | inl queued ↦
      rw (queued, update_player_move)
        (Same-trans s (posed p m t_ms s) _ (posed-Same p m t_ms s)
          (metrics-Same (posed p m t_ms s) _))
  | inr idle ↦
      rw (idle, update_player_move)
        (let queued = record (posed p m t_ms s) {
          heap = modify p (λ q. record q { queued_pending_move = true }) (posed p m t_ms s).heap;
        } in
          Same-trans s (posed p m t_ms s)
            (record queued { pending_move_players = s.pending_move_players ++ (p ∷ []) })
            (posed-Same p m t_ms s)
            (Same-trans (posed p m t_ms s) queued _
              (heap-Same (posed p m t_ms s) queued.heap (λ q. ground arith))
              (Same-others queued s.metrics s.next_local_player_id s.server_tick
                (s.pending_move_players ++ (p ∷ [])) s.buildings)))
]
