-- ===== src/Guardian/State.antt =====
-- The invariant of GuardianState in Guardian/src/guardian.cpp that ties the tables, the rooms and the chunks
-- of the players together.
use nicechunk_guardian.Base.{
  ℕ, ◌<◌, ◌≡◌, refl, sym, ap, ◌∙◌, subst, true, List, some, inl, inr, ◌⊎◌,
}
use nicechunk_guardian.Base.Table.{lookup, Distinct}
use nicechunk_guardian.Building.Registry.{Registry}
use nicechunk_guardian.Chunk.{chunk_key, contains_chunk}
use nicechunk_guardian.Guardian.{Guardian, Metrics}
use nicechunk_guardian.Guardian.Links.{Links, Links-same}
use nicechunk_guardian.Guardian.Publish.{has_retired}
use nicechunk_guardian.Guardian.Keeps.{Keeps}

-- The player at `p` has the id, stands in the room of its chunk, and the chunk is in the service area.
pub record Settled (id p : ℕ) (s : Guardian) : Type 0 where
  pub local_player_id : (s.heap p).local_player_id ≡ id
  pub room :
      (s.heap p).current_chunk_room
      ≡ some (chunk_key (s.heap p).current_chunk_x (s.heap p).current_chunk_z)
  pub inside : contains_chunk s.cfg (s.heap p).current_chunk_x (s.heap p).current_chunk_z ≡ true
  pub old : p < s.next_address

pub record IsState (s : Guardian) : Type 0 where
  pub links : Links s.heap s.rooms
  pub distinct : Distinct s.players
  pub settled : (id p : ℕ) → lookup id s.players ≡ some p → Settled id p s
  -- Only players of the table are in a room.
  pub housed :
      (p k : ℕ)
      → (s.heap p).current_chunk_room ≡ some k
      → lookup (s.heap p).local_player_id s.players ≡ some p
  pub retired : (p : ℕ) → has_retired p s.retired_players ≡ true → p < s.next_address

-- Somebody owns the player: the table, or the list of the retired.
abbrev pub IsAlive : ℕ → Guardian → Type 0
IsAlive p s = ((id : ℕ) × (lookup id s.players ≡ some p)) ⊎ (has_retired p s.retired_players ≡ true)

-- The state differs in fields that the invariant does not mention.
pub record Same (s s' : Guardian) : Type 0 where
  pub keeps : Keeps s s'
  pub rooms : s.rooms ≡ s'.rooms
  pub room : (q : ℕ) → (s'.heap q).current_chunk_room ≡ (s.heap q).current_chunk_room
  pub index : (q : ℕ) → (s'.heap q).index_in_chunk_vector ≡ (s.heap q).index_in_chunk_vector

pub Keeps-IsAlive : (p : ℕ) (s s' : Guardian) → Keeps s s' → IsAlive p s → IsAlive p s'
Keeps-IsAlive p s s' k (inl (id, e)) = inl (id, sym (ap (lookup id) k.players) ∙ e)
Keeps-IsAlive p s s' k (inr e) = inr (sym (ap (has_retired p) k.retired_players) ∙ e)

pub Same-IsState : (s s' : Guardian) → Same s s' → IsState s → IsState s'
Same-IsState s s' f i = record {
  links = subst (Links s'.heap) f.rooms (Links-same s.heap s'.heap s.rooms f.room f.index i.links);
  distinct = subst Distinct f.keeps.players i.distinct;
  settled = λ id p e.
      let old = i.settled id p (ap (lookup id) f.keeps.players ∙ e) in
      let k = f.keeps in
      record {
        local_player_id = sym (k.local_player_id p) ∙ old.local_player_id;
        room = rw (f.room p, ← k.current_chunk_x p, ← k.current_chunk_z p) old.room;
        inside = rw (← k.cfg, ← k.current_chunk_x p, ← k.current_chunk_z p) old.inside;
        old = rw (← k.next_address) old.old;
      };
  housed = λ p k e.
      rw (← f.keeps.players, ← f.keeps.local_player_id p) (i.housed p k (sym (f.room p) ∙ e));
  retired = λ p e.
      rw (← f.keeps.next_address) (i.retired p (ap (has_retired p) f.keeps.retired_players ∙ e));
}

-- The counters, the next id, the tick, the registry and the queue of moves are not mentioned.
pub Same-others :
    (s : Guardian) (m : Metrics) (id tick : ℕ) (pending : List ℕ) (registry : Registry)
    → Same s (record s {
      metrics = m;
      next_local_player_id = id;
      server_tick = tick;
      pending_move_players = pending;
      buildings = registry;
    })
Same-others s m id tick pending registry = record {
  keeps = record {
    players = refl;
    retired_players = refl;
    local_player_id = λ q. refl;
    wallet_pubkey = λ q. refl;
    current_chunk_x = λ q. refl;
    current_chunk_z = λ q. refl;
    next_address = refl;
    cfg = refl;
  };
  rooms = refl;
  room = λ q. refl;
  index = λ q. refl;
}

pub metrics-Same : (s : Guardian) (m : Metrics) → Same s (record s { metrics = m })
metrics-Same s m =
    Same-others s m s.next_local_player_id s.server_tick s.pending_move_players s.buildings
