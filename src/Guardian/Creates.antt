-- ===== src/Guardian/Creates.antt =====
-- About `create_player` and `move_player_chunk` of Guardian/src/guardian.cpp: the players that are alive.
use nicechunk_guardian.Base.{
  ℕ, suc, ◌≤◌, ◌≡◌, ◌≢◌, refl, sym, ap, ◌∙◌, subst, ◌==◌, true, false, not, ◌||◌, if◌then◌else◌,
  Option, none, some, arith, Bool-cases, inl, inr,
}
use nicechunk_guardian.Base.Int.{ℤ}
use nicechunk_guardian.Base.Table.{lookup}
use nicechunk_guardian.Protocol.Messages.{Hello}
use nicechunk_guardian.Chunk.{contains_chunk}
use nicechunk_guardian.Guardian.{Guardian}
use nicechunk_guardian.Guardian.Rooms.{enter_room, move_player_chunk}
use nicechunk_guardian.Guardian.Players.{
  register, create_player, allocate_player_id, can_accept_player,
}
use nicechunk_guardian.Guardian.Ids.{found_free}
use nicechunk_guardian.Guardian.Moves.{placed, is_new_chunk, move_player_chunk_cases}
use nicechunk_guardian.Guardian.State.{IsState, IsAlive, Same, Same-others}
use nicechunk_guardian.Guardian.Presence.{presence, IsNew}
use nicechunk_guardian.Guardian.Presence.Views.{Settles-enters, Settles-moves, Keeps-IsNew}
use nicechunk_guardian.Guardian.Arrivals.{
  moves-Settles, register-Settles, moves_wallet, register_wallet,
}
use nicechunk_guardian.Guardian.Keeps.{Keeps}
use nicechunk_guardian.Guardian.Grows.{Grows, Grows-refl, Grows-trans, Same-Grows, Settles-Grows}

-- What `create_player` gives: nothing, or the new player at the next address, in its room.
abbrev pub Creates : Guardian → Guardian × Option ℕ → Type 0
Creates s (s', none) = Unit {0}
Creates s (s', some p) =
    (p ≡ s.next_address)
    × IsAlive p s'
    × (suc p ≤ s'.next_address)
    × ((s'.heap p).current_chunk_room ≢ none)

registers :
    (hello : Hello) (id t_ms : ℕ) (s : Guardian)
    → IsState s
    → lookup id s.players ≡ none
    → contains_chunk s.cfg hello.start_chunk_x hello.start_chunk_z ≡ true
    → IsNew hello.wallet_pubkey (presence s)
    → Grows s (register hello id t_ms s) × Creates s (register hello id t_ms s, some s.next_address)
registers hello id t_ms s i free inside new =
    let e = register-Settles hello id t_ms s i free inside in
    let x = hello.start_chunk_x in
    let z = hello.start_chunk_z in
    let s' = register hello id t_ms s in
    let sole : (j : ℕ) → lookup j s.players ≡ some s.next_address → j ≡ id =
      λ j at. absurd (omega (arith, (i.settled j s.next_address at).old)) in
    (
      Settles-Grows id s.next_address x z s s' e i (λ q at. ground (arith, at, free)) sole
          (Settles-enters id s.next_address x z s s' e hello.wallet_pubkey
            (register_wallet hello id t_ms s) sole inside free new (omega arith)),
      (
        refl,
        inl (id, ground (arith, e.players id)),
        e.old,
        ground (arith, e.entered.1 s.next_address),
      ),
    )

-- The clauses of `create_player`.
create_player_cases :
    (hello : Hello) (t_ms : ℕ) (s : Guardian)
    → create_player hello t_ms s ≡ (
        if not (can_accept_player s)
          || not (contains_chunk s.cfg hello.start_chunk_x hello.start_chunk_z)
        then (s, none)
        else if (allocate_player_id s).1 == 0
        then ((allocate_player_id s).0, none)
        else (
          register hello (allocate_player_id s).1 t_ms (allocate_player_id s).0,
          some s.next_address,
        ))
unfolding create_player
create_player_cases hello t_ms s = refl

next_id-Same : (s : Guardian) (n : ℕ) → Same s (record s { next_local_player_id = n })
next_id-Same s n = Same-others s s.metrics n s.server_tick s.pending_move_players s.buildings

allocates :
    (s : Guardian)
    → IsState s
    → Grows s (allocate_player_id s).0
      × Keeps s (allocate_player_id s).0
      × ((allocate_player_id s).0.players ≡ s.players)
      × ((allocate_player_id s).0.cfg ≡ s.cfg)
      × ((allocate_player_id s).0.next_address ≡ s.next_address)
unfolding allocate_player_id
allocates s i = (
  Same-Grows s (allocate_player_id s).0 (next_id-Same s _) i,
  (next_id-Same s _).keeps,
  refl,
  refl,
  refl,
)

allocated_free :
    (s : Guardian)
    → ((allocate_player_id s).1 == 0) ≡ false
    → lookup (allocate_player_id s).1 s.players ≡ none
unfolding allocate_player_id
allocated_free s h = found_free 65535 s.next_local_player_id s.players (ground (arith, h))

pub create_player-Grows :
    (hello : Hello) (t_ms : ℕ) (s : Guardian)
    → IsState s
    → IsNew hello.wallet_pubkey (presence s)
    → Grows s (create_player hello t_ms s).0 × Creates s (create_player hello t_ms s)
create_player-Grows hello t_ms s i new =
    subst (λ r. Grows s r.0 × Creates s r) (sym (create_player_cases hello t_ms s))
      (elim (Bool-cases (
        not (can_accept_player s)
        || not (contains_chunk s.cfg hello.start_chunk_x hello.start_chunk_z))) [
          | inl refused ↦ rw refused (Grows-refl s i, tt)
          | inr fine ↦ elim (Bool-cases ((allocate_player_id s).1 == 0)) [
            | inl no_id ↦ rw (fine, no_id) ((allocates s i).0, tt)
            | inr id ↦
                rw (fine, id)
                  (let a = (allocate_player_id s).0 in
                    let (g, k, players, cfg, next) = allocates s i in
                    let (h, created) =
                      registers hello (allocate_player_id s).1 t_ms a g.state
                        (ap (lookup (allocate_player_id s).1) players ∙ allocated_free s id)
                        (ap (λ c. contains_chunk c hello.start_chunk_x hello.start_chunk_z) cfg
                          ∙ ground (arith, fine))
                        (Keeps-IsNew hello.wallet_pubkey s a k new) in
                    let reg = register hello (allocate_player_id s).1 t_ms a in
                    (
                      Grows-trans s a reg g h,
                      subst
                          (λ n.
                            (n ≡ s.next_address)
                            × IsAlive n reg
                            × (suc n ≤ reg.next_address)
                            × ((reg.heap n).current_chunk_room ≢ none))
                          next (next, created.1, created.2, created.3),
                    ))
          ]
        ])

-- A chunk that a player of the table may move to.
pub move_player_chunk-Grows :
    (id p : ℕ) (x z : ℤ) (s : Guardian)
    → IsState s
    → lookup id s.players ≡ some p
    → Grows s (move_player_chunk p x z s).0
      × (lookup id (move_player_chunk p x z s).0.players ≡ some p)
move_player_chunk-Grows id p x z s i at =
    subst (λ r. Grows s r.0 × (lookup id r.0.players ≡ some p))
      (sym (move_player_chunk_cases p x z s))
      (elim (Bool-cases (contains_chunk s.cfg x z)) [
        | inr outside ↦ rw outside (Grows-refl s i, at)
        | inl inside ↦ elim (Bool-cases (is_new_chunk p x z s)) [
          | inr same ↦ rw (inside, same) (Grows-refl s i, at)
          | inl new ↦
              rw (inside, new)
                (let e = moves-Settles id p x z s i at inside in
                  (
                    Settles-Grows id p x z s (enter_room p x z (placed p x z s)) e i
                        (λ q at'. ground (arith, at, at'))
                        (λ j at'.
                          sym (i.settled j p at').local_player_id
                          ∙ (i.settled id p at).local_player_id)
                        (Settles-moves id p x z s (enter_room p x z (placed p x z s)) e
                          (s.heap p).wallet_pubkey (moves_wallet p x z s)
                          (λ j at'.
                            sym (i.settled j p at').local_player_id
                            ∙ (i.settled id p at).local_player_id)
                          inside at refl),
                    ground (arith, e.players id),
                  ))
        ]
      ])
