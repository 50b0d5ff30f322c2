-- ===== src/Guardian/Keeps.antt =====
-- What the rooms of Guardian/src/guardian.cpp do not touch.
use nicechunk_guardian.Base.{ℕ, ◌≡◌, refl, ◌∙◌, none, some, arith, Option-cases, inl, inr}
use nicechunk_guardian.Base.Int.{ℤ}
use nicechunk_guardian.Chunk.{chunk_key}
use nicechunk_guardian.Base.Table.{lookup}
use nicechunk_guardian.Guardian.{Guardian, ChunkRoom}
use nicechunk_guardian.Guardian.Rooms.{
  leave_room, remove_player_from_room, add_player_to_room, get_or_create_room, enter_room,
}

-- What leaving a room does not touch.
pub record Keeps (s s' : Guardian) : Type 0 where
  pub players : s.players ≡ s'.players
  pub retired_players : s.retired_players ≡ s'.retired_players
  pub local_player_id : (q : ℕ) → (s.heap q).local_player_id ≡ (s'.heap q).local_player_id
  pub wallet_pubkey : (q : ℕ) → (s.heap q).wallet_pubkey ≡ (s'.heap q).wallet_pubkey
  pub current_chunk_x : (q : ℕ) → (s.heap q).current_chunk_x ≡ (s'.heap q).current_chunk_x
  pub current_chunk_z : (q : ℕ) → (s.heap q).current_chunk_z ≡ (s'.heap q).current_chunk_z
  pub next_address : s.next_address ≡ s'.next_address
  pub cfg : s.cfg ≡ s'.cfg

pub Keeps-refl : (s : Guardian) → Keeps s s
Keeps-refl s = record {
  players = refl;
  retired_players = refl;
  local_player_id = λ q. refl;
  wallet_pubkey = λ q. refl;
  current_chunk_x = λ q. refl;
  current_chunk_z = λ q. refl;
  next_address = refl;
  cfg = refl;
}

leave_room-Keeps : (p k : ℕ) (r : ChunkRoom) (s : Guardian) → Keeps s (leave_room p k r s)
unfolding leave_room
leave_room-Keeps p k r s = record {
  players = ground arith;
  retired_players = ground arith;
  local_player_id = λ q. ground arith;
  wallet_pubkey = λ q. ground arith;
  current_chunk_x = λ q. ground arith;
  current_chunk_z = λ q. ground arith;
  next_address = ground arith;
  cfg = ground arith;
}

pub remove_player_from_room-Keeps : (p : ℕ) (s : Guardian) → Keeps s (remove_player_from_room p s)
unfolding remove_player_from_room
remove_player_from_room-Keeps p s =
    elim (s.heap p).current_chunk_room
      as (λ o. Keeps s (elim o [
        | none ↦ s
        | some key ↦ elim (lookup key s.rooms) [ none ↦ s | some room ↦ leave_room p key room s ]
      ])) [
        | none ↦ Keeps-refl s
        | some key ↦
            elim (lookup key s.rooms)
              as (λ o. Keeps s (elim o [ none ↦ s | some room ↦ leave_room p key room s ])) [
                | none ↦ Keeps-refl s
                | some room ↦ leave_room-Keeps p key room s
              ]
      ]

-- The same, one after the other.
pub Keeps-trans : (a b c : Guardian) → Keeps a b → Keeps b c → Keeps a c
Keeps-trans a b c k l = record {
  players = k.players ∙ l.players;
  retired_players = k.retired_players ∙ l.retired_players;
  local_player_id = λ q. k.local_player_id q ∙ l.local_player_id q;
  wallet_pubkey = λ q. k.wallet_pubkey q ∙ l.wallet_pubkey q;
  current_chunk_x = λ q. k.current_chunk_x q ∙ l.current_chunk_x q;
  current_chunk_z = λ q. k.current_chunk_z q ∙ l.current_chunk_z q;
  next_address = k.next_address ∙ l.next_address;
  cfg = k.cfg ∙ l.cfg;
}

add_player_to_room-Keeps : (p k : ℕ) (s : Guardian) → Keeps s (add_player_to_room p k s)
unfolding add_player_to_room
add_player_to_room-Keeps p k s = elim (Option-cases (lookup k s.rooms)) [
  | inl absent ↦ rw (absent, add_player_to_room) (Keeps-refl s)
  | inr (r, e) ↦
      rw (e, add_player_to_room)
        (record {
          players = refl;
          retired_players = refl;
          local_player_id = λ q. ground arith;
          wallet_pubkey = λ q. ground arith;
          current_chunk_x = λ q. ground arith;
          current_chunk_z = λ q. ground arith;
          next_address = refl;
          cfg = refl;
        })
]

get_or_create_room-Keeps : (x z : ℤ) (s : Guardian) → Keeps s (get_or_create_room x z s).0
unfolding get_or_create_room
get_or_create_room-Keeps x z s = elim (Option-cases (lookup (chunk_key x z) s.rooms)) [
  | inl absent ↦
      rw (absent, get_or_create_room)
        (record {
          players = refl;
          retired_players = refl;
          local_player_id = λ q. refl;
          wallet_pubkey = λ q. refl;
          current_chunk_x = λ q. refl;
          current_chunk_z = λ q. refl;
          next_address = refl;
          cfg = refl;
        })
  | inr (r, e) ↦ rw (e, get_or_create_room) (Keeps-refl s)
]

pub enter_room-Keeps : (p : ℕ) (x z : ℤ) (s : Guardian) → Keeps s (enter_room p x z s)
unfolding enter_room
enter_room-Keeps p x z s =
    let (s', key) = get_or_create_room x z s in
    Keeps-trans s s' (add_player_to_room p key s') (get_or_create_room-Keeps x z s)
      (add_player_to_room-Keeps p key s')

leave_room-pending_move_players :
    (p k : ℕ) (r : ChunkRoom) (s : Guardian)
    → s.pending_move_players ≡ (leave_room p k r s).pending_move_players
unfolding leave_room
leave_room-pending_move_players p k r s = ground arith

-- The queue of moves is left alone, too.
pub remove_player_from_room-pending_move_players :
    (p : ℕ) (s : Guardian)
    → s.pending_move_players ≡ (remove_player_from_room p s).pending_move_players
unfolding remove_player_from_room
remove_player_from_room-pending_move_players p s =
    elim (Option-cases (s.heap p).current_chunk_room) [
      | inl outside ↦ rw (outside, remove_player_from_room) refl
      | inr (k, e) ↦ elim (Option-cases (lookup k s.rooms)) [
        | inl absent ↦ rw (e, absent, remove_player_from_room) refl
        | inr (r, at) ↦
            rw (e, at, remove_player_from_room) (leave_room-pending_move_players p k r s)
      ]
    ]
