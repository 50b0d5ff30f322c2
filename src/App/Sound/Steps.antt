-- ===== src/App/Sound/Steps.antt =====
-- The steps of a run of Guardian/src/app.cpp and the invariant.
use nicechunk_guardian.Base.{
  ℕ, ◌≡◌, sym, ◌∙◌, subst, Bool, List, Option, some, arith, inl, inr, if_both,
}
use nicechunk_guardian.Base.Table.{lookup, insert, erase}
use nicechunk_guardian.Wire.{Bytes}
use nicechunk_guardian.Config.{Config}
use nicechunk_guardian.Guardian.{Guardian}
use nicechunk_guardian.Guardian.Publish.{has_retired}
use nicechunk_guardian.Guardian.State.{IsAlive, Same, Same-IsState, Keeps-IsAlive, metrics-Same}
use nicechunk_guardian.Guardian.Untouched.{Same-refl}
use nicechunk_guardian.App.{PerSocketData, Call}
use nicechunk_guardian.App.Routes.{on_open, on_drain}
use nicechunk_guardian.App.Fine.Hello.{IsHandled}
use nicechunk_guardian.App.Fine.Message.{on_message-IsHandled}
use nicechunk_guardian.App.Fine.Close.{IsClosed, on_close-IsClosed}
use nicechunk_guardian.App.World.{
  World, start_guardian, start, Step, Step.opens, Step.receives, Step.closes, Step.drains,
  Step.ticks, Reach, Reach.starts, Reach.then_step,
}
use nicechunk_guardian.App.Sound.{IsSound, IsAlive-lt, writes-IsSound, erases-IsSound}
use nicechunk_guardian.App.Sound.Ticks.{IsSame, flush_pending_moves-IsSame}

start-IsSound :
    (sha256 : Bytes → Bytes) (cfg : Config) (written : Bool) (file : Option Bytes)
    → IsSound (start sha256 cfg written file)
unfolding start_guardian lookup has_retired
start-IsSound sha256 cfg written file = record {
  state = record {
    links = record {
      forth = λ p k e. absurd (ground (arith, e));
      back = λ k i p r e. absurd (ground (arith, e));
      solid = λ k r e. absurd (ground (arith, e));
    };
    distinct = tt;
    settled = λ id p e. absurd (ground (arith, e));
    housed = λ p k e. absurd (ground (arith, e));
    retired = λ p e. absurd (ground (arith, e));
  };
  distinct = tt;
  owned = λ ws user p e. absurd (ground (arith, e));
  sole = λ a b u v p e. absurd (ground (arith, e));
}

-- A step that only changes what the invariant does not mention.
Same-IsSound :
    (w : World) (s' : Guardian)
    → Same w.guardian s'
    → IsSound w
    → IsSound (record w { guardian = s' })
Same-IsSound w s' same i = record {
  state = Same-IsState w.guardian s' same i.state;
  distinct = i.distinct;
  owned = λ ws user p e at. Keeps-IsAlive p w.guardian s' same.keeps (i.owned ws user p e at);
  sole = i.sole;
}

opens-IsSound :
    (w : World) (ws now : ℕ)
    → IsSound w
    → IsSound (record {
      guardian = (on_open now w.guardian).0;
      sockets = insert ws (on_open now w.guardian).1 w.sockets;
    })
unfolding on_open
opens-IsSound w ws now i =
    let s' = (on_open now w.guardian).0 in
    let same = metrics-Same w.guardian s'.metrics in
    writes-IsSound w i ws (on_open now w.guardian).1 s' (Same-IsState w.guardian s' same i.state)
      (λ q. Keeps-IsAlive q w.guardian s' same.keeps) (λ p e. absurd (ground (arith, e)))
      (λ ws' user' p other at own. ground arith)

pub on_drain-Same : (buffered : ℕ) (s : Guardian) → Same s (on_drain buffered s)
unfolding on_drain
on_drain-Same buffered s = if_both (Same s) _ _ _ (metrics-Same s _) (Same-refl s)

-- Another socket's player is older than one that is made for this socket.
receives-IsSound :
    (w : World) (ws : ℕ) (user : PerSocketData) (s' : Guardian) (user' : PerSocketData)
    (calls : List Call)
    → IsSound w
    → lookup ws w.sockets ≡ some user
    → IsHandled user w.guardian (some (s', user', calls))
    → IsSound (record { guardian = s'; sockets = insert ws user' w.sockets })
receives-IsSound w ws user s' user' calls i at (g, inl same) =
    writes-IsSound w i ws user' s' g.state g.alive
      (λ p e. g.alive p (i.owned ws user p at (sym same ∙ e)))
      (λ ws' other p ne e theirs ours.
        ground (arith, ne, i.sole ws ws' user other p at e (sym same ∙ ours) theirs))
receives-IsSound w ws user s' user' calls i at (g, inr (p, new, lo, hi, alive)) =
    writes-IsSound w i ws user' s' g.state g.alive
      (λ q e. subst (λ r. IsAlive r s') (ground (arith, new, e)) alive)
      (λ ws' other q ne e theirs ours.
        let old = IsAlive-lt q w.guardian i.state (i.owned ws' other q e theirs) in
        ground (arith, old, new, ours, lo))

closes-IsSound :
    (w : World) (ws : ℕ) (user : PerSocketData) (s' : Guardian) (calls : List Call)
    → IsSound w
    → lookup ws w.sockets ≡ some user
    → IsClosed user w.guardian (some (s', calls))
    → IsSound (record { guardian = s'; sockets = erase ws w.sockets })
closes-IsSound w ws user s' calls i at f = erases-IsSound w i ws user at s' f.state f.alive

-- Every step keeps the invariant.
pub Step-IsSound :
    (sha256 : Bytes → Bytes) (w w' : World) → Step sha256 w w' → IsSound w → IsSound w'
Step-IsSound sha256 _ _ (opens w ws now free) i = opens-IsSound w ws now i
Step-IsSound sha256 _ _ (receives w ws user written binary seen now message s' user' calls at done)
      i =
    receives-IsSound w ws user s' user' calls i at (
      subst (IsHandled user w.guardian) done (
        on_message-IsHandled sha256 written binary seen now message user w.guardian i.state
          (λ p. i.owned ws user p at)))
Step-IsSound sha256 _ _ (closes w ws user s' calls at done) i =
    closes-IsSound w ws user s' calls i at (
      subst (IsClosed user w.guardian) done
        (on_close-IsClosed user w.guardian i.state (λ p. i.owned ws user p at)))
Step-IsSound sha256 _ _ (drains w buffered) i =
    Same-IsSound w (on_drain buffered w.guardian) (on_drain-Same buffered w.guardian) i
Step-IsSound sha256 _ _ (ticks w s' sent done) i =
    Same-IsSound w s' (subst (IsSame w.guardian) done (flush_pending_moves-IsSame w.guardian)) i

-- In every world that a run comes to, whatever the configuration, the clients, the clock and the file do:
-- players and rooms point at one another, each player of the table stands under its id in the room of its
-- chunk, the chunk is in the service area, and only players of the table are in rooms; the player of each
-- registered socket is in the table or retired, and no two sockets have the same player.
pub Reach-IsSound :
    (sha256 : Bytes → Bytes) (cfg : Config) (w : World) → Reach sha256 cfg w → IsSound w
Reach-IsSound sha256 cfg _ (starts written file) = start-IsSound sha256 cfg written file
Reach-IsSound sha256 cfg _ (then_step {w} {w'} reach step) =
    Step-IsSound sha256 w w' step (Reach-IsSound sha256 cfg w reach)
