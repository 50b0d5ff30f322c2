-- ===== src/Guardian/Drops.antt =====
-- The invariant when a player leaves the table of Guardian/src/guardian.cpp, for good or to be retired.
use nicechunk_guardian.Base.{
  ℕ, ◌<◌, ◌≡◌, sym, ap, ◌∙◌, subst, ◌==◌, true, false, ◌||◌, List, [], ◌∷◌, ◌++◌, some, arith, inl,
  inr, ◌⊎◌,
}
use nicechunk_guardian.Base.Table.{lookup, erase, Distinct, lookup-erase, erase-Distinct}
use nicechunk_guardian.Guardian.{Guardian}
use nicechunk_guardian.Guardian.Links.{Links, Links-same}
use nicechunk_guardian.Guardian.Rooms.{remove_player_from_room}
use nicechunk_guardian.Guardian.Leaving.{HasLeft, remove_player_from_room-HasLeft}
use nicechunk_guardian.Guardian.Players.{remove_player, retire, release_retired_player, erase_first}
use nicechunk_guardian.Guardian.Publish.{has_retired}
use nicechunk_guardian.Guardian.Keeps.{remove_player_from_room-Keeps}
use nicechunk_guardian.Guardian.State.{IsState, Settled, IsAlive}

-- From `s` to `s'` the player `p` leaves its room and its entry under `id`.
pub record Drops (id p : ℕ) (s s' : Guardian) : Type 0 where
  pub left : HasLeft p s s'
  pub players : erase id s.players ≡ s'.players
  pub retired_players :
      (q : ℕ)
      → has_retired q s'.retired_players ≡ true
      → (has_retired q s.retired_players ≡ true) ⊎ (p ≡ q)
  pub still_retired :
      (q : ℕ) → has_retired q s.retired_players ≡ true → has_retired q s'.retired_players ≡ true
  pub local_player_id : (q : ℕ) → (s.heap q).local_player_id ≡ (s'.heap q).local_player_id
  pub wallet_pubkey : (q : ℕ) → (s.heap q).wallet_pubkey ≡ (s'.heap q).wallet_pubkey
  pub current_chunk_x : (q : ℕ) → (s.heap q).current_chunk_x ≡ (s'.heap q).current_chunk_x
  pub current_chunk_z : (q : ℕ) → (s.heap q).current_chunk_z ≡ (s'.heap q).current_chunk_z
  pub next_address : s.next_address ≡ s'.next_address
  pub cfg : s.cfg ≡ s'.cfg

module _ (id p : ℕ) (s s' : Guardian) (d : Drops id p s s') (i : IsState s)
    (at : lookup id s.players ≡ some p) where
  -- Who is left in the table.
  remains :
      (j q : ℕ) → lookup j s'.players ≡ some q → (lookup j s.players ≡ some q) × ((q == p) ≡ false)
  remains j q e =
      let found = sym (lookup-erase id j s.players) ∙ ap (lookup j) d.players ∙ e in
      let old : lookup j s.players ≡ some q = ground (arith, found) in
      (
        old,
        ground (
          arith,
          found,
          (i.settled id p at).local_player_id,
          (i.settled j q old).local_player_id,
          ap (λ x. (s.heap x).local_player_id),
        ),
      )

  drops-Settled : (j q : ℕ) → lookup j s'.players ≡ some q → Settled j q s'
  drops-Settled j q e =
      let (at', other) = remains j q e in
      let old = i.settled j q at' in
      record {
        local_player_id = sym (d.local_player_id q) ∙ old.local_player_id;
        room = rw (d.left.1 q, other, ← d.current_chunk_x q, ← d.current_chunk_z q) old.room;
        inside = rw (← d.cfg, ← d.current_chunk_x q, ← d.current_chunk_z q) old.inside;
        old = rw (← d.next_address) old.old;
      }

  drops-housed :
      (q k : ℕ)
      → (s'.heap q).current_chunk_room ≡ some k
      → lookup (s'.heap q).local_player_id s'.players ≡ some q
  drops-housed q k e =
      let room = d.left.1 q in
      let other : (q == p) ≡ false = ground (arith, room) in
      let old = i.housed q k (ground (arith, room)) in
      rw (← d.local_player_id q, ← d.players, lookup-erase id (s.heap q).local_player_id s.players)
        (ground (arith, other, old, at, ap (λ x. lookup x s.players)))

  drops-retired : (q : ℕ) → has_retired q s'.retired_players ≡ true → q < s'.next_address
  drops-retired q e = rw (← d.next_address) (elim (d.retired_players q e) [
    | inl old ↦ i.retired q old
    | inr same ↦ subst (λ x. x < s.next_address) same (i.settled id p at).old
  ])

  pub Drops-IsState : IsState s'
  Drops-IsState = record {
    links = d.left.0;
    distinct = subst Distinct d.players (erase-Distinct id s.players i.distinct);
    settled = drops-Settled;
    housed = drops-housed;
    retired = drops-retired;
  }

  pub Drops-IsAlive : (q : ℕ) → IsAlive q s → (q == p) ≡ false → IsAlive q s'
  Drops-IsAlive q (inr old) other = inr (d.still_retired q old)
  Drops-IsAlive q (inl (j, e)) other = inl (
    j,
    rw (← d.players, lookup-erase id j s.players)
        (ground (arith, e, other, at, ap (λ x. lookup x s.players))),
  )

pub remove_player-Drops :
    (p : ℕ) (s : Guardian)
    → Links s.heap s.rooms
    → Drops (s.heap p).local_player_id p s (remove_player p s)
unfolding remove_player
remove_player-Drops p s l =
    let k = remove_player_from_room-Keeps p s in
    record {
      left = remove_player_from_room-HasLeft p s l;
      players =
          ap (λ x. erase x s.players) (k.local_player_id p)
          ∙ ap (erase ((remove_player_from_room p s).heap p).local_player_id) k.players;
      retired_players = λ q e. inl (ap (has_retired q) k.retired_players ∙ e);
      still_retired = λ q e. sym (ap (has_retired q) k.retired_players) ∙ e;
      local_player_id = k.local_player_id;
      wallet_pubkey = k.wallet_pubkey;
      current_chunk_x = k.current_chunk_x;
      current_chunk_z = k.current_chunk_z;
      next_address = k.next_address;
      cfg = k.cfg;
    }

pub has_retired-append :
    (q p : ℕ) (ps : List ℕ) → has_retired q (ps ++ (p ∷ [])) ≡ (has_retired q ps || p == q)
unfolding has_retired
has_retired-append q p [] = ground arith
has_retired-append q p (r ∷ ps) = ground (arith, has_retired-append q p ps)

pub retire-Drops : (id p : ℕ) (s : Guardian) → Links s.heap s.rooms → Drops id p s (retire id p s)
unfolding retire
retire-Drops id p s l =
    let out = remove_player_from_room p s in
    let k = remove_player_from_room-Keeps p s in
    let (links, room) = remove_player_from_room-HasLeft p s l in
    record {
      left = (
        Links-same out.heap (retire id p s).heap out.rooms (λ q. ground arith) (λ q. ground arith)
            links,
        λ q. ground (arith, room q),
      );
      players = ap (erase id) k.players;
      retired_players = λ q e.
          ground (
            arith,
            has_retired-append q p out.retired_players,
            ap (has_retired q) k.retired_players,
          );
      still_retired = λ q e.
          ground (
            arith,
            has_retired-append q p out.retired_players,
            ap (has_retired q) k.retired_players,
          );
      local_player_id = λ q. ground (arith, k.local_player_id q);
      wallet_pubkey = λ q. ground (arith, k.wallet_pubkey q);
      current_chunk_x = λ q. ground (arith, k.current_chunk_x q);
      current_chunk_z = λ q. ground (arith, k.current_chunk_z q);
      next_address = k.next_address;
      cfg = k.cfg;
    }

-- The player itself stays alive when it is retired.
pub retire-IsAlive : (id p : ℕ) (s : Guardian) → IsAlive p (retire id p s)
unfolding retire
retire-IsAlive id p s =
    inr (ground (arith, has_retired-append p p (remove_player_from_room p s).retired_players))

-- Release of a retired player.
erase_first-has_retired :
    (p q : ℕ) (ps : List ℕ) → has_retired q (erase_first p ps) ≡ true → has_retired q ps ≡ true
unfolding has_retired erase_first
erase_first-has_retired p q [] e = e
erase_first-has_retired p q (r ∷ ps) e = ground (arith, erase_first-has_retired p q ps)

has_retired-erase_first :
    (p q : ℕ) (ps : List ℕ)
    → (q == p) ≡ false
    → has_retired q ps ≡ true
    → has_retired q (erase_first p ps) ≡ true
unfolding has_retired erase_first
has_retired-erase_first p q [] other e = e
has_retired-erase_first p q (r ∷ ps) other e = ground (arith, has_retired-erase_first p q ps)

pub release_retired_player-IsState :
    (p : ℕ) (s : Guardian) → IsState s → IsState (release_retired_player p s)
unfolding release_retired_player
release_retired_player-IsState p s i = record {
  links = i.links;
  distinct = i.distinct;
  settled = λ id q e.
      let old = i.settled id q e in
      record {
        local_player_id = old.local_player_id;
        room = old.room;
        inside = old.inside;
        old = old.old;
      };
  housed = i.housed;
  retired = λ q e. i.retired q (erase_first-has_retired p q s.retired_players e);
}

pub release_retired_player-IsAlive :
    (p q : ℕ) (s : Guardian)
    → (q == p) ≡ false
    → IsAlive q s
    → IsAlive q (release_retired_player p s)
unfolding release_retired_player
release_retired_player-IsAlive p q s other (inl e) = inl e
release_retired_player-IsAlive p q s other (inr e) =
    inr (has_retired-erase_first p q s.retired_players other e)
