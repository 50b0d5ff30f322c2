-- ===== src/Guardian/Settles.antt =====
-- The invariant when a player of Guardian/src/guardian.cpp enters a chunk: a new one, or one that comes from
-- another chunk.
use nicechunk_guardian.Base.{
  ℕ, ◌≤◌, ◌<◌, ◌≡◌, sym, ap, ◌∙◌, subst, ◌==◌, true, false, if◌then◌else◌, some, arith, Bool-cases,
  inl, inr,
}
use nicechunk_guardian.Base.Int.{ℤ}
use nicechunk_guardian.Base.Table.{lookup, Distinct}
use nicechunk_guardian.Chunk.{contains_chunk}
use nicechunk_guardian.Guardian.{Guardian}
use nicechunk_guardian.Guardian.Entering.{HasEntered}
use nicechunk_guardian.Guardian.Publish.{has_retired}
use nicechunk_guardian.Guardian.State.{IsState, Settled, IsAlive}

-- From `s` to `s'` the player `p` enters the chunk at (x, z), and the table holds it under `id`.
pub record Settles (id p : ℕ) (x z : ℤ) (s s' : Guardian) : Type 0 where
  pub entered : HasEntered p x z s s'
  pub inside : contains_chunk s'.cfg x z ≡ true
  pub cfg : s.cfg ≡ s'.cfg
  pub players : (j : ℕ) → lookup j s'.players ≡ (if id == j then some p else lookup j s.players)
  pub distinct : Distinct s'.players
  pub retired_players : s.retired_players ≡ s'.retired_players
  pub local_player_id : (s'.heap p).local_player_id ≡ id
  pub current_chunk_x : (s'.heap p).current_chunk_x ≡ x
  pub current_chunk_z : (s'.heap p).current_chunk_z ≡ z
  pub next_address : s.next_address ≤ s'.next_address
  pub old : p < s'.next_address
  pub others :
      (q : ℕ)
      → (q == p) ≡ false
      → ((s'.heap q).local_player_id ≡ (s.heap q).local_player_id)
        × ((s'.heap q).current_chunk_x ≡ (s.heap q).current_chunk_x)
        × ((s'.heap q).current_chunk_z ≡ (s.heap q).current_chunk_z)
        × ((s'.heap q).wallet_pubkey ≡ (s.heap q).wallet_pubkey)

module _ (id p : ℕ) (x z : ℤ) (s s' : Guardian) (e : Settles id p x z s s') (i : IsState s)
    (own : (q : ℕ) → lookup id s.players ≡ some q → q ≡ p)
    (sole : (j : ℕ) → lookup j s.players ≡ some p → j ≡ id) where
  settles-Settled : (j q : ℕ) → lookup j s'.players ≡ some q → Settled j q s'
  settles-Settled j q at = elim (Bool-cases (id == j)) [
    | inl same ↦
        let here : p ≡ q = ground (arith, e.players j) in
        let key : id ≡ j = ground (arith, same) in
        subst (λ k. Settled k q s') key
          (subst (λ r. Settled id r s') here
            (record {
              local_player_id = e.local_player_id;
              room = rw (e.current_chunk_x, e.current_chunk_z) (ground (arith, e.entered.1 p));
              inside = rw (e.current_chunk_x, e.current_chunk_z) e.inside;
              old = e.old;
            }))
    | inr other ↦
        let at' : lookup j s.players ≡ some q = ground (arith, e.players j) in
        let old = i.settled j q at' in
        let away : (q == p) ≡ false =
          ground (arith, at', sole j, ap (λ r. lookup j s.players ≡ some r)) in
        let (same_id, same_x, same_z, same_wallet) = e.others q away in
        record {
          local_player_id = same_id ∙ old.local_player_id;
          room = rw (e.entered.1 q, away, same_x, same_z) old.room;
          inside = rw (← e.cfg, same_x, same_z) old.inside;
          old = ground (arith, old.old, e.next_address);
        }
  ]

  settles-housed :
      (q k : ℕ)
      → (s'.heap q).current_chunk_room ≡ some k
      → lookup (s'.heap q).local_player_id s'.players ≡ some q
  settles-housed q k room = elim (Bool-cases (q == p)) [
    | inl same ↦
        let here : p ≡ q = ground (arith, same) in
        subst (λ r. lookup (s'.heap r).local_player_id s'.players ≡ some r) here
          (rw e.local_player_id (ground (arith, e.players id)))
    | inr away ↦
        let old = i.housed q k (ground (arith, e.entered.1 q)) in
        rw ((e.others q away).0, e.players (s.heap q).local_player_id)
          (ground (arith, old, away, own q, ap (λ j. lookup j s.players)))
  ]

  pub Settles-IsState : IsState s'
  Settles-IsState = record {
    links = e.entered.0;
    distinct = e.distinct;
    settled = settles-Settled;
    housed = settles-housed;
    retired =
        λ q r. ground (arith, i.retired q, ap (has_retired q) e.retired_players, e.next_address);
  }

  pub Settles-IsAlive : (q : ℕ) → IsAlive q s → IsAlive q s'
  Settles-IsAlive q (inr old) = inr (sym (ap (has_retired q) e.retired_players) ∙ old)
  Settles-IsAlive q (inl (j, at)) = elim (Bool-cases (id == j)) [
    | inl same ↦
        inl (j, e.players j ∙ ground (arith, same, at, own q, ap (λ k. lookup k s.players)))
    | inr other ↦ inl (j, e.players j ∙ rw other at)
  ]
