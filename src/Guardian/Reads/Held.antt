-- ===== src/Guardian/Reads/Held.antt =====
-- About the pointers that Guardian/src/guardian.cpp follows in a state within the invariant.
use nicechunk_guardian.Base.{
  ℕ, ◌-◌, ◌<◌, ◌≡◌, refl, true, some, List, [], ◌∷◌, length, get_elem?, arith, Bool-cases,
  Option-cases, inl, inr,
}
use nicechunk_guardian.Base.Int.{ℤ}
use nicechunk_guardian.Base.Table.{lookup, Distinct}
use nicechunk_guardian.Base.Slots.{get_elem?-lt}
use nicechunk_guardian.Wire.{Bytes}
use nicechunk_guardian.Guardian.{Guardian, ChunkRoom}
use nicechunk_guardian.Guardian.Rooms.{back_of}
use nicechunk_guardian.Guardian.Links.{back_of_slot}
use nicechunk_guardian.Guardian.Wallet.{wallet_equal}
use nicechunk_guardian.Guardian.Players.{retire}
use nicechunk_guardian.Guardian.Publish.{is_alive, has_player}
use nicechunk_guardian.Guardian.State.{IsState, IsAlive}
use nicechunk_guardian.Guardian.Grows.{retire-Grows, lookup_head, lookup_tail, retired_entries}
use nicechunk_guardian.Guardian.Reads.{can_leave_room, can_move, can_retire_loop, can_retire}

has_player-lookup : (id p : ℕ) (m : List (ℕ × ℕ)) → lookup id m ≡ some p → has_player p m ≡ true
unfolding lookup has_player
has_player-lookup id p [] e = cc
has_player-lookup id p (entry ∷ m) e = ground (arith, has_player-lookup id p m)

pub IsAlive-is_alive : (p : ℕ) (s : Guardian) → IsAlive p s → is_alive p s ≡ true
unfolding is_alive
IsAlive-is_alive p s (inl (id, e)) = ground (arith, has_player-lookup id p s.players e)
IsAlive-is_alive p s (inr e) = ground (arith, e)

-- The players in a room are in the table.
pub member_housed :
    (k i q : ℕ) (room : ChunkRoom) (s : Guardian)
    → IsState s
    → lookup k s.rooms ≡ some room
    → get_elem? room.players i ≡ some q
    → lookup (s.heap q).local_player_id s.players ≡ some q
member_housed k i q room s state there at =
    state.housed q k (state.links.back k i q room there at).0

pub member_alive :
    (k i q : ℕ) (room : ChunkRoom) (s : Guardian)
    → IsState s
    → lookup k s.rooms ≡ some room
    → get_elem? room.players i ≡ some q
    → is_alive q s ≡ true
member_alive k i q room s state there at =
    IsAlive-is_alive q s
      (inl ((s.heap q).local_player_id, member_housed k i q room s state there at))

pub IsState-can_leave_room : (p : ℕ) (s : Guardian) → IsState s → can_leave_room p s ≡ true
unfolding can_leave_room
IsState-can_leave_room p s state = elim (Option-cases (s.heap p).current_chunk_room) [
  | inl out ↦ rw (out, can_leave_room) refl
  | inr (k, e) ↦
      let (room, there, seat) = state.links.forth p k e in
      let filled : 0 < length room.players =
        ground (arith, get_elem?-lt room.players (s.heap p).index_in_chunk_vector p seat) in
      let last =
        member_alive k (length room.players - 1) (back_of room.players) room s state there
          (back_of_slot room.players filled) in
      rw (e, there, can_leave_room) (ground (arith, last))
]

pub IsState-can_move : (p : ℕ) (x z : ℤ) (s : Guardian) → IsState s → can_move p x z s ≡ true
unfolding can_move
IsState-can_move p x z s state = ground (arith, IsState-can_leave_room p s state)

can_retire_loop-true :
    (wallet : Bytes) (entries : List (ℕ × ℕ)) (s : Guardian)
    → IsState s
    → Distinct entries
    → ((j q : ℕ) → lookup j entries ≡ some q → lookup j s.players ≡ some q)
    → can_retire_loop wallet entries s ≡ true
unfolding can_retire_loop
can_retire_loop-true wallet [] s i d sub = refl
can_retire_loop-true wallet ((id, p) ∷ entries) s i d sub =
    elim (Bool-cases (wallet_equal (s.heap p).wallet_pubkey wallet)) [
      | inl match ↦
          let at = sub id p (lookup_head id p entries) in
          let next = (retire-Grows id p s i at).state in
          rw (match, IsState-can_leave_room p s i, can_retire_loop)
            (can_retire_loop-true wallet entries (retire id p s) next d.1
              (retired_entries id p entries s i d.0 sub))
      | inr other ↦
          rw (other, can_retire_loop)
            (can_retire_loop-true wallet entries s i d.1
              (λ j q e. sub j q (lookup_tail id p j q entries d.0 e)))
    ]

pub IsState-can_retire : (wallet : Bytes) (s : Guardian) → IsState s → can_retire wallet s ≡ true
unfolding can_retire
IsState-can_retire wallet s i =
    ground (arith, can_retire_loop-true wallet s.players s i i.distinct (λ j q e. e))
