-- ===== src/App/Fine/Close.antt =====
-- About `.close` of Guardian/src/app.cpp: which players it frees.
use nicechunk_guardian.Base.{
  ℕ, ◌≡◌, ◌≢◌, refl, sym, ap, ◌∙◌, ◌==◌, true, false, [], Option, none, some, arith, Bool-cases,
  inl, inr,
}
use nicechunk_guardian.Base.Table.{lookup}
use nicechunk_guardian.Protocol.Encode.{encode_player_leave}
use nicechunk_guardian.Guardian.{Guardian, modify}
use nicechunk_guardian.Guardian.Players.{release_retired_player, is_active_player, remove_player}
use nicechunk_guardian.Guardian.Events.{make_leave}
use nicechunk_guardian.Guardian.Publish.{publish_to_aoi}
use nicechunk_guardian.Guardian.State.{
  IsState, IsAlive, Same, Same-IsState, Keeps-IsAlive, metrics-Same,
}
use nicechunk_guardian.Guardian.Untouched.{Same-trans, heap-Same, publish_to_aoi-Same}
use nicechunk_guardian.Guardian.Drops.{
  remove_player-Drops, Drops-IsState, Drops-IsAlive, release_retired_player-IsState,
  release_retired_player-IsAlive,
}
use nicechunk_guardian.Guardian.Keeps.{Keeps-refl}
use nicechunk_guardian.Guardian.Presence.{presence, Run.stays}
use nicechunk_guardian.Guardian.Presence.Views.{
  Follows, Follows-trans, Keeps-Follows, Drops-Follows,
}
use nicechunk_guardian.Guardian.Reads.Held.{IsState-can_leave_room}
use nicechunk_guardian.App.{PerSocketData, Outcome}
use nicechunk_guardian.App.Routes.{close_player, on_close, count_close}
use nicechunk_guardian.App.Fine.{is_active_player-lookup}
use nicechunk_guardian.App.Fine.Message.{IsHeld, IsHeld-can_follow}

-- From `s` to `s'` at most the player of the socket is freed.
pub record Frees (user : PerSocketData) (s s' : Guardian) : Type 0 where
  pub state : IsState s'
  pub alive : (q : ℕ) → user.player ≢ some q → IsAlive q s → IsAlive q s'
  pub follows : Follows s s'

-- A socket that is closed, and what that keeps.
abbrev pub IsClosed : PerSocketData → Guardian → Option Outcome → Type 0
IsClosed user s none = ⊥
IsClosed user s (some r) = Frees user s r.0

count_close-Frees :
    (user : PerSocketData) (s s' : Guardian) → Frees user s s' → Frees user s (count_close s')
count_close-Frees user s s' f =
    let same = metrics-Same s' (count_close s').metrics in
    record {
      state = Same-IsState s' (count_close s') same f.state;
      alive = λ q ne a. Keeps-IsAlive q s' (count_close s') same.keeps (f.alive q ne a);
      follows =
          Follows-trans s s' (count_close s') f.follows
            (Keeps-Follows s' (count_close s') same.keeps);
    }

module _ (user : PerSocketData) (p : ℕ) (at : user.player ≡ some p) (s : Guardian)
    (i : IsState s) where
  other : (q : ℕ) → user.player ≢ some q → (q == p) ≡ false
  other q ne = ground (arith, ne, at)

  -- An active player leaves the table.
  removed-Frees :
      (gone : Guardian)
      → Same s gone
      → is_active_player p s ≡ true
      → Frees user s (remove_player p gone)
  removed-Frees gone same active =
      let k = same.keeps in
      let state = Same-IsState s gone same i in
      let there =
        ap (λ id. lookup id gone.players) (sym (k.local_player_id p))
        ∙ ap (lookup (s.heap p).local_player_id) (sym k.players)
        ∙ is_active_player-lookup p s active in
      let id = (gone.heap p).local_player_id in
      let d = remove_player-Drops p gone state.links in
      record {
        state = Drops-IsState id p gone (remove_player p gone) d state there;
        alive = λ q ne a.
            Drops-IsAlive id p gone (remove_player p gone) d state there q
              (Keeps-IsAlive q s gone k a) (other q ne);
        follows =
            Follows-trans s gone (remove_player p gone) (Keeps-Follows s gone k)
              (Drops-Follows id p gone (remove_player p gone) d);
      }

  released : Follows s (release_retired_player p s)
  unfolding release_retired_player presence
  released = record {
    cfg = refl;
    run = stays (presence s) _ (λ j. refl);
    continues = record { next_address = omega arith; kept = λ id q at. inl (at, refl) };
  }

  close_player-Frees : IsClosed user s (close_player p s)
  unfolding close_player
  close_player-Frees =
      let q = s.heap p in
      let payload = encode_player_leave (make_leave q 2) in
      let told = (publish_to_aoi q.current_chunk_x q.current_chunk_z payload s).0 in
      let gone = record told { heap = modify p (λ q. record q { connected = false }) told.heap } in
      let same =
        Same-trans s told gone (publish_to_aoi-Same q.current_chunk_x q.current_chunk_z payload s)
          (heap-Same told gone.heap (λ q. ground arith)) in
      elim (Bool-cases (is_active_player p s)) [
        | inl active ↦
            rw (active, IsState-can_leave_room p gone (Same-IsState s gone same i), close_player)
              (removed-Frees gone same active)
        | inr passive ↦
            rw (passive, close_player)
              (record {
                state = release_retired_player-IsState p s i;
                alive = λ q ne a. release_retired_player-IsAlive p q s (other q ne) a;
                follows = released;
              })
      ]

-- Within the invariant, and while the socket's player is alive, `.close` follows no pointer that dangles,
-- keeps the invariant, and frees no player but that of the socket.
pub on_close-IsClosed :
    (user : PerSocketData) (s : Guardian)
    → IsState s
    → IsHeld user s
    → IsClosed user s (on_close user s)
unfolding on_close
on_close-IsClosed user s i held =
    rw (IsHeld-can_follow user s held, on_close)
      (elim user.player
          as (λ o.
            user.player ≡ o
            → IsClosed user s (elim o [
              | none ↦ some (count_close s, [])
              | some p ↦ elim (close_player p s) [
                | none ↦ none
                | some r ↦ some (count_close r.0, r.1)
              ]
            ])) [
              | none ↦ λ out. count_close-Frees user s s (record {
                state = i;
                alive = λ q ne a. a;
                follows = Keeps-Follows s s (Keeps-refl s);
              })
              | some p ↦ λ e. counted (close_player p s) (close_player-Frees user p e s i)
            ]
        refl)
  where
    counted :
        (r : Option Outcome)
        → IsClosed user s r
        → IsClosed user s (elim r [ none ↦ none | some r ↦ some (count_close r.0, r.1) ])
    counted none h = h
    counted (some r) h = count_close-Frees user s r.0 h
