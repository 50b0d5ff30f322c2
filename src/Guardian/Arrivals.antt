-- ===== src/Guardian/Arrivals.antt =====
-- `create_player` and `move_player_chunk` of Guardian/src/guardian.cpp keep the invariant.
use nicechunk_guardian.Base.{
  ℕ, ◌+◌, ◌≡◌, sym, ap, ◌∙◌, subst, ◌==◌, true, if◌then◌else◌, none, some, arith, Option-cases, inl,
  inr,
}
use nicechunk_guardian.Base.Int.{ℤ}
use nicechunk_guardian.Base.Table.{lookup, insert, Distinct, lookup-insert, insert-Distinct}
use nicechunk_guardian.Protocol.Messages.{Hello}
use nicechunk_guardian.Chunk.{contains_chunk}
use nicechunk_guardian.Guardian.{Guardian}
use nicechunk_guardian.Guardian.Links.{Links-outside}
use nicechunk_guardian.Guardian.Rooms.{enter_room}
use nicechunk_guardian.Guardian.Players.{register, player_of}
use nicechunk_guardian.Guardian.Entering.{HasEntered, enter_room-HasEntered}
use nicechunk_guardian.Guardian.Moves.{moves_in, placed}
use nicechunk_guardian.Guardian.Keeps.{enter_room-Keeps, remove_player_from_room-Keeps}
use nicechunk_guardian.Guardian.State.{IsState}
use nicechunk_guardian.Guardian.Settles.{Settles}

pub moves-Settles :
    (id p : ℕ) (x z : ℤ) (s : Guardian)
    → IsState s
    → lookup id s.players ≡ some p
    → contains_chunk s.cfg x z ≡ true
    → Settles id p x z s (enter_room p x z (placed p x z s))
moves-Settles id p x z s i at inside =
    let out = remove_player_from_room-Keeps p s in
    let k = enter_room-Keeps p x z (placed p x z s) in
    record {
      entered = moves_in p x z s i.links;
      inside = rw (← k.cfg, ← out.cfg) inside;
      cfg = out.cfg ∙ k.cfg;
      players = λ j. ground (
        arith,
        at,
        ap (lookup j) k.players,
        ap (lookup j) out.players,
        ap (λ j. lookup j s.players),
      );
      distinct = subst Distinct (out.players ∙ k.players) i.distinct;
      retired_players = out.retired_players ∙ k.retired_players;
      local_player_id =
          ground (
            arith,
            k.local_player_id p,
            out.local_player_id p,
            (i.settled id p at).local_player_id,
          );
      current_chunk_x = ground (arith, k.current_chunk_x p);
      current_chunk_z = ground (arith, k.current_chunk_z p);
      next_address = ground (arith, k.next_address, out.next_address);
      old = ground (arith, k.next_address, out.next_address, (i.settled id p at).old);
      others = λ q away. (
        ground (arith, k.local_player_id q, out.local_player_id q),
        ground (arith, k.current_chunk_x q, out.current_chunk_x q),
        ground (arith, k.current_chunk_z q, out.current_chunk_z q),
        ground (arith, k.wallet_pubkey q, out.wallet_pubkey q),
      );
    }

-- The next address is free.
pub next_address-free :
    (s : Guardian) → IsState s → (s.heap s.next_address).current_chunk_room ≡ none
next_address-free s i = elim (Option-cases (s.heap s.next_address).current_chunk_room) [
  | inl out ↦ out
  | inr (k, e) ↦ absurd (
      omega (
        arith,
        (i.settled (s.heap s.next_address).local_player_id s.next_address
            (i.housed s.next_address k e)).old,
      ))
]

-- The state of `create_player` before the player is in a room.
abbrev added : Hello → ℕ → ℕ → Guardian → Guardian
added hello id t_ms s = record s {
  heap = λ q. if q == s.next_address then player_of hello id t_ms s else s.heap q;
  next_address = s.next_address + 1;
  players = insert id s.next_address s.players;
}

added-HasEntered :
    (hello : Hello) (id t_ms : ℕ) (s : Guardian)
    → IsState s
    → HasEntered s.next_address hello.start_chunk_x hello.start_chunk_z
        (added hello id t_ms s)
        (enter_room s.next_address hello.start_chunk_x hello.start_chunk_z (added hello id t_ms s))
unfolding player_of
added-HasEntered hello id t_ms s i =
    enter_room-HasEntered s.next_address hello.start_chunk_x hello.start_chunk_z
      (added hello id t_ms s)
      (Links-outside s.heap (added hello id t_ms s).heap s.rooms s.next_address
        (next_address-free s i) (ground arith) (λ q away. ground (arith, away)) i.links)
      (ground arith)

pub register-Settles :
    (hello : Hello) (id t_ms : ℕ) (s : Guardian)
    → IsState s
    → lookup id s.players ≡ none
    → contains_chunk s.cfg hello.start_chunk_x hello.start_chunk_z ≡ true
    → Settles id s.next_address hello.start_chunk_x hello.start_chunk_z s (register hello id t_ms s)
unfolding register player_of
register-Settles hello id t_ms s i free inside =
    let p = s.next_address in
    let k = enter_room-Keeps p hello.start_chunk_x hello.start_chunk_z (added hello id t_ms s) in
    let (links, room) = added-HasEntered hello id t_ms s i in
    record {
      entered = (links, λ q. ground (arith, room q, next_address-free s i));
      inside = rw (← k.cfg) inside;
      cfg = k.cfg;
      players = λ j. ap (lookup j) (sym k.players) ∙ lookup-insert id j p s.players;
      distinct = subst Distinct k.players (insert-Distinct id p s.players i.distinct);
      retired_players = k.retired_players;
      local_player_id = ground (arith, k.local_player_id p);
      current_chunk_x = ground (arith, k.current_chunk_x p);
      current_chunk_z = ground (arith, k.current_chunk_z p);
      next_address = ground (arith, k.next_address);
      old = ground (arith, k.next_address);
      others = λ q away. (
        ground (arith, away, k.local_player_id q),
        ground (arith, away, k.current_chunk_x q),
        ground (arith, away, k.current_chunk_z q),
        ground (arith, away, k.wallet_pubkey q),
      );
    }

pub moves_wallet :
    (p : ℕ) (x z : ℤ) (s : Guardian)
    → ((enter_room p x z (placed p x z s)).heap p).wallet_pubkey ≡ (s.heap p).wallet_pubkey
moves_wallet p x z s = ground (
  arith,
  (enter_room-Keeps p x z (placed p x z s)).wallet_pubkey p,
  (remove_player_from_room-Keeps p s).wallet_pubkey p,
)

pub register_wallet :
    (hello : Hello) (id t_ms : ℕ) (s : Guardian)
    → ((register hello id t_ms s).heap s.next_address).wallet_pubkey ≡ hello.wallet_pubkey
unfolding register player_of
register_wallet hello id t_ms s =
    let p = s.next_address in
    ground (
      arith,
      (enter_room-Keeps p hello.start_chunk_x hello.start_chunk_z
            (added hello id t_ms s)).wallet_pubkey
          p,
    )
