-- ===== src/Guardian/Dangling.antt =====
-- A player that goes between its MOVE and the next flush of Guardian/src/guardian.cpp.
use nicechunk_guardian.Base.{
  ℕ, ◌≡◌, refl, ap, ◌∙◌, subst, ◌==◌, Bool, true, false, not, ◌||◌, List, [], ◌∷◌, ◌++◌, arith,
  Bool-cases, inl, inr,
}
use nicechunk_guardian.Base.Table.{erase}
use nicechunk_guardian.Protocol.Messages.{Move}
use nicechunk_guardian.Guardian.{Guardian}
use nicechunk_guardian.Guardian.Rooms.{remove_player_from_room}
use nicechunk_guardian.Guardian.Events.{update_player_move, take_pose}
use nicechunk_guardian.Guardian.Keeps.{
  Keeps, remove_player_from_room-Keeps, remove_player_from_room-pending_move_players,
}
use nicechunk_guardian.Guardian.Players.{remove_player}
use nicechunk_guardian.Guardian.Publish.{flush_pending_moves, is_alive, has_player, has_retired}
use nicechunk_guardian.Guardian.Flush.{is_none, all_alive, flush_pending_moves-all_alive}

unfoldable pub is_pending : ℕ → List ℕ → Bool
is_pending p [] = false
is_pending p (q ∷ ps) = q == p || is_pending p ps

same_pointer : (q p : ℕ) → (q == p) ≡ true → q ≡ p
same_pointer q p h = ground arith

dead_one :
    (p : ℕ) (ps : List ℕ) (s : Guardian)
    → is_pending p ps ≡ true
    → is_alive p s ≡ false
    → all_alive ps s ≡ false
unfolding is_pending all_alive
dead_one p [] s h dead = ground arith
dead_one p (q ∷ ps) s h dead = elim (Bool-cases (q == p)) [
  | inl same ↦ ground (arith, ap (λ x. is_alive x s) (same_pointer q p same))
  | inr other ↦ ground (arith, other, dead_one p ps s)
]

is_pending_last : (p : ℕ) (ps : List ℕ) → is_pending p (ps ++ (p ∷ [])) ≡ true
unfolding is_pending
is_pending_last p [] = ground arith
is_pending_last p (q ∷ ps) = ground (arith, is_pending_last p ps)

-- Only the entry under its own id owns `p`.
abbrev pub IsSoleOwned : ℕ → Guardian → Type 0
IsSoleOwned p s =
    (has_player p (erase (s.heap p).local_player_id s.players) ≡ false)
    × (has_retired p s.retired_players ≡ false)

removed_dead : (p : ℕ) (s : Guardian) → IsSoleOwned p s → is_alive p (remove_player p s) ≡ false
unfolding remove_player is_alive
removed_dead p s (sole, live) =
    let k = remove_player_from_room-Keeps p s in
    ground (
      arith,
      sole,
      live,
      ap (has_retired p) k.retired_players,
      has_player-erase p s (remove_player_from_room p s) k,
    )
  where
    has_player-erase :
        (p : ℕ) (s s' : Guardian)
        → Keeps s s'
        → has_player p (erase (s.heap p).local_player_id s.players)
          ≡ has_player p (erase (s'.heap p).local_player_id s'.players)
    has_player-erase p s s' k = rw (k.local_player_id p, k.players) refl

-- If a pointer to a player is pending when `remove_player` frees the player, the next
-- `flush_pending_moves` reads a player that is not alive.
pub remove_player_pending :
    (p : ℕ) (s : Guardian)
    → IsSoleOwned p s
    → is_pending p s.pending_move_players ≡ true
    → is_none (flush_pending_moves (remove_player p s)) ≡ true
unfolding remove_player
remove_player_pending p s sole pending =
    flush_pending_moves-all_alive (remove_player p s)
    ∙ ap not (
        dead_one p (remove_player_from_room p s).pending_move_players (remove_player p s)
          (subst (λ ps. is_pending p ps ≡ true) (remove_player_from_room-pending_move_players p s)
            pending)
          (removed_dead p s sole))

moved_sole :
    (p : ℕ) (m : Move) (t_ms : ℕ) (s : Guardian)
    → IsSoleOwned p s
    → (s.heap p).queued_pending_move ≡ false
    → IsSoleOwned p (update_player_move p m t_ms s)
unfolding update_player_move take_pose
moved_sole p m t_ms s sole idle = ground (arith, sole, idle)

moved_pending :
    (p : ℕ) (m : Move) (t_ms : ℕ) (s : Guardian)
    → (s.heap p).queued_pending_move ≡ false
    → is_pending p (update_player_move p m t_ms s).pending_move_players ≡ true
unfolding update_player_move
moved_pending p m t_ms s idle = ground (arith, idle, is_pending_last p s.pending_move_players)

-- If a player without a queued move sends a MOVE, and it is removed before the next
-- `flush_pending_moves`, then that call reads the player although `remove_player` has freed it.
pub flush_pending_moves-remove_player :
    (p : ℕ) (m : Move) (t_ms : ℕ) (s : Guardian)
    → IsSoleOwned p s
    → (s.heap p).queued_pending_move ≡ false
    → is_none (flush_pending_moves (remove_player p (update_player_move p m t_ms s))) ≡ true
flush_pending_moves-remove_player p m t_ms s sole idle =
    remove_player_pending p (update_player_move p m t_ms s) (moved_sole p m t_ms s sole idle)
      (moved_pending p m t_ms s idle)
