-- ===== src/App/Sound/Answers.antt =====
-- About the handlers of Guardian/src/app.cpp in the worlds that a run comes to: the pointers that they follow.
use nicechunk_guardian.Base.{
  ℕ, ◌≡◌, refl, ap, Bool, false, List, [], ◌∷◌, Option, none, some, arith, Bool-cases, Option-cases,
  inl, inr,
}
use nicechunk_guardian.Base.Table.{lookup, Distinct}
use nicechunk_guardian.Wire.{Bytes}
use nicechunk_guardian.Config.{Config}
use nicechunk_guardian.Guardian.{Guardian}
use nicechunk_guardian.Guardian.Flush.{is_none}
use nicechunk_guardian.App.{PerSocketData, Outcome}
use nicechunk_guardian.App.Routes.{Received, on_message, on_close, reap_stale_sockets, is_stale}
use nicechunk_guardian.App.World.{World, Reach}
use nicechunk_guardian.App.Fine.Hello.{IsHandled}
use nicechunk_guardian.App.Fine.Message.{IsHeld, IsHeld-can_follow, on_message-IsHandled}
use nicechunk_guardian.App.Fine.Close.{IsClosed, on_close-IsClosed}
use nicechunk_guardian.App.Sound.Steps.{Reach-IsSound}

handled_some :
    (user : PerSocketData) (s : Guardian) (r : Received) → IsHandled user s r → is_none r ≡ false
handled_some user s none h = absurd h
handled_some user s (some r) h = refl

closed_some :
    (user : PerSocketData) (s : Guardian) (r : Option Outcome)
    → IsClosed user s r
    → is_none r ≡ false
closed_some user s none h = absurd h
closed_some user s (some r) h = refl

-- In every world that a run comes to, whatever message a registered socket sends next, and whenever it
-- closes, the handler ends with a result. So each player that it reads through a pointer, the one of the
-- socket, those that a snapshot lists and the last one of a room that a player leaves, is owned by a table, and a
-- player that leaves a room finds that room.
pub Reach-answers :
    (sha256 : Bytes → Bytes) (cfg : Config) (w : World) (ws : ℕ) (user : PerSocketData)
    (written binary : Bool) (seen now : ℕ) (message : Bytes)
    → Reach sha256 cfg w
    → lookup ws w.sockets ≡ some user
    → (is_none (on_message sha256 written binary seen now message user w.guardian) ≡ false)
      × (is_none (on_close user w.guardian) ≡ false)
Reach-answers sha256 cfg w ws user written binary seen now message reach at =
    let i = Reach-IsSound sha256 cfg w reach in
    let held : IsHeld user w.guardian = λ p. i.owned ws user p at in
    (
      handled_some user w.guardian _ (
          on_message-IsHandled sha256 written binary seen now message user w.guardian i.state held),
      closed_some user w.guardian _ (on_close-IsClosed user w.guardian i.state held),
    )

lookup_rest :
    (ws : ℕ) (user : PerSocketData) (sockets : List (ℕ × PerSocketData)) (s : Guardian)
    → lookup ws sockets ≡ none
    → ((id : ℕ) (u : PerSocketData) → lookup id ((ws, user) ∷ sockets) ≡ some u → IsHeld u s)
    → (id : ℕ) (u : PerSocketData) → lookup id sockets ≡ some u
    → IsHeld u s
unfolding lookup
lookup_rest ws user sockets s absent held id u e =
    held id u (ground (arith, e, absent, ap (λ k. lookup k sockets)))

lookup_first :
    (ws : ℕ) (user : PerSocketData) (sockets : List (ℕ × PerSocketData))
    → lookup ws ((ws, user) ∷ sockets) ≡ some user
unfolding lookup
lookup_first ws user sockets = ground arith

reaps :
    (now : ℕ) (sockets : List (ℕ × PerSocketData)) (s : Guardian)
    → Distinct sockets
    → ((ws : ℕ) (user : PerSocketData) → lookup ws sockets ≡ some user → IsHeld user s)
    → is_none (reap_stale_sockets now sockets s) ≡ false
unfolding reap_stale_sockets
reaps now [] s d held = refl
reaps now ((ws, user) ∷ sockets) s d held =
    let rest = reaps now sockets s d.1 (lookup_rest ws user sockets s d.0 held) in
    let follow = IsHeld-can_follow user s (held ws user (lookup_first ws user sockets)) in
    elim (Option-cases (reap_stale_sockets now sockets s)) [
      | inl bad ↦ absurd (ground (arith, bad, rest))
      | inr (stale, e) ↦
          rw (e, follow, reap_stale_sockets)
            (elim (Bool-cases (is_stale now user s)) [
              | inl old ↦ rw old refl
              | inr fresh ↦ rw fresh refl
            ])
    ]

-- In every world that a run comes to, the sweep over the idle sockets ends without following a pointer that
-- dangles.
pub Reach-reap_stale_sockets :
    (sha256 : Bytes → Bytes) (cfg : Config) (w : World) (now : ℕ)
    → Reach sha256 cfg w
    → is_none (reap_stale_sockets now w.sockets w.guardian) ≡ false
Reach-reap_stale_sockets sha256 cfg w now reach =
    let i = Reach-IsSound sha256 cfg w reach in
    reaps now w.sockets w.guardian i.distinct (λ ws user at p. i.owned ws user p at)
