-- ===== src/App/Sound/Refines.antt =====
-- A run of Guardian/src/app.cpp, seen as who is present in the service area.
use nicechunk_guardian.Base.{
  arith, inl, refl, ℕ, ◌≡◌, sym, ◌∙◌, subst, Bool, Option, none, some, List,
}
use nicechunk_guardian.Base.Table.{lookup}
use nicechunk_guardian.Wire.{Bytes}
use nicechunk_guardian.Config.{Config}
use nicechunk_guardian.Chunk.{contains_chunk}
use nicechunk_guardian.Guardian.{Guardian}
use nicechunk_guardian.Guardian.State.{Same, metrics-Same}
use nicechunk_guardian.Guardian.Presence.{Run, Run.stays, Run.then_run, nobody, presence}
use nicechunk_guardian.Guardian.Presence.Views.{Continues, Continues-trans, Follows, Keeps-Follows}
use nicechunk_guardian.Guardian.Presence.Wallets.{IsOrderly, nobody-Run-IsOrderly}
use nicechunk_guardian.App.{PerSocketData, Call}
use nicechunk_guardian.App.Routes.{on_open, on_drain}
use nicechunk_guardian.App.World.{
  World, start, start_guardian, Step, Step.opens, Step.receives, Step.closes, Step.drains,
  Step.ticks, Reach, Reach.starts, Reach.then_step,
}
use nicechunk_guardian.App.Fine.Hello.{IsHandled}
use nicechunk_guardian.App.Fine.Message.{on_message-IsHandled}
use nicechunk_guardian.App.Fine.Close.{IsClosed, on_close-IsClosed}
use nicechunk_guardian.App.Sound.{IsSound}
use nicechunk_guardian.App.Sound.Ticks.{IsSame, flush_pending_moves-IsSame}
use nicechunk_guardian.App.Sound.Steps.{on_drain-Same, Reach-IsSound}

Same-Follows : (s s' : Guardian) → Same s s' → Follows s s'
Same-Follows s s' same = Keeps-Follows s s' same.keeps

on_open-Same : (now : ℕ) (s : Guardian) → Same s (on_open now s).0
unfolding on_open
on_open-Same now s = metrics-Same s (on_open now s).0.metrics

IsHandled-Follows :
    (user user' : PerSocketData) (s s' : Guardian) (calls : List Call)
    → IsHandled user s (some (s', user', calls))
    → Follows s s'
IsHandled-Follows user user' s s' calls h = h.0.follows

IsClosed-Follows :
    (user : PerSocketData) (s s' : Guardian) (calls : List Call)
    → IsClosed user s (some (s', calls))
    → Follows s s'
IsClosed-Follows user s s' calls h = h.follows

pub Step-Follows :
    (sha256 : Bytes → Bytes) (w w' : World)
    → Step sha256 w w'
    → IsSound w
    → Follows w.guardian w'.guardian
Step-Follows sha256 _ _ (opens w ws now free) i =
    Same-Follows w.guardian (on_open now w.guardian).0 (on_open-Same now w.guardian)
Step-Follows sha256 _ _ (receives w ws user written binary seen now message s' user' calls at done)
      i =
    IsHandled-Follows user user' w.guardian s' calls (
      subst (IsHandled user w.guardian) done (
        on_message-IsHandled sha256 written binary seen now message user w.guardian i.state
          (λ p. i.owned ws user p at)))
Step-Follows sha256 _ _ (closes w ws user s' calls at done) i =
    IsClosed-Follows user w.guardian s' calls (
      subst (IsClosed user w.guardian) done
        (on_close-IsClosed user w.guardian i.state (λ p. i.owned ws user p at)))
Step-Follows sha256 _ _ (drains w buffered) i =
    Same-Follows w.guardian (on_drain buffered w.guardian) (on_drain-Same buffered w.guardian)
Step-Follows sha256 _ _ (ticks w s' sent done) i =
    Same-Follows w.guardian s'
      (subst (IsSame w.guardian) done (flush_pending_moves-IsSame w.guardian))

start-presence :
    (sha256 : Bytes → Bytes) (cfg : Config) (written : Bool) (file : Option Bytes) (id : ℕ)
    → presence (start sha256 cfg written file).guardian id ≡ none
unfolding presence start_guardian lookup
start-presence sha256 cfg written file id = refl

start-cfg :
    (sha256 : Bytes → Bytes) (cfg : Config) (written : Bool) (file : Option Bytes)
    → cfg ≡ (start sha256 cfg written file).guardian.cfg
unfolding start_guardian
start-cfg sha256 cfg written file = refl

reached :
    (sha256 : Bytes → Bytes) (cfg : Config) (w : World)
    → Reach sha256 cfg w
    → (cfg ≡ w.guardian.cfg) × Run (contains_chunk cfg) nobody (presence w.guardian)
reached sha256 cfg _ (starts written file) = (
  start-cfg sha256 cfg written file,
  stays nobody (presence (start sha256 cfg written file).guardian)
      (start-presence sha256 cfg written file),
)
reached sha256 cfg _ (then_step {w} {w'} reach step) =
    let (same, run) = reached sha256 cfg w reach in
    let next = Step-Follows sha256 w w' step (Reach-IsSound sha256 cfg w reach) in
    (
      same ∙ next.cfg,
      then_run run (
          subst (λ c. Run (contains_chunk c) (presence w.guardian) (presence w'.guardian))
            (sym same) next.run),
    )

pub Reach-Run :
    (sha256 : Bytes → Bytes) (cfg : Config) (w : World)
    → Reach sha256 cfg w
    → Run (contains_chunk cfg) nobody (presence w.guardian)
Reach-Run sha256 cfg w reach = (reached sha256 cfg w reach).1

-- The worlds that a run comes to from a world.
pub data Later (sha256 : Bytes → Bytes) (w : World) : World → Type 0 where
  at_once : Later sha256 w w
  then_later : {w' w'' : World} → Later sha256 w w' → Step sha256 w' w'' → Later sha256 w w''

continues :
    (sha256 : Bytes → Bytes) (cfg : Config) (w w' : World)
    → Reach sha256 cfg w
    → Later sha256 w w'
    → Reach sha256 cfg w' × Continues w.guardian w'.guardian
continues sha256 cfg w _ reach at_once =
    (reach, record { next_address = omega arith; kept = λ id q at. inl (at, refl) })
continues sha256 cfg w _ reach (then_later {w'} {w''} later step) =
    let (there, so_far) = continues sha256 cfg w w' reach later in
    let next = (Step-Follows sha256 w' w'' step (Reach-IsSound sha256 cfg w' there)).continues in
    (then_step there step, Continues-trans w.guardian w'.guardian w''.guardian so_far next)

-- From a world that a run comes to, however the run goes on, a player that is in the table then and was made
-- before is in the table now, under the same id and with the same wallet: nobody changes an id or a wallet, and who
-- has left does not come back.
pub Reach-Continues :
    (sha256 : Bytes → Bytes) (cfg : Config) (w w' : World)
    → Reach sha256 cfg w
    → Later sha256 w w'
    → Continues w.guardian w'.guardian
Reach-Continues sha256 cfg w w' reach later = (continues sha256 cfg w w' reach later).1

-- In every world that a run comes to, no two players of the table have equal wallets, and the chunk of each
-- player is in the service area.
pub Reach-IsOrderly :
    (sha256 : Bytes → Bytes) (cfg : Config) (w : World)
    → Reach sha256 cfg w
    → IsOrderly (contains_chunk cfg) (presence w.guardian)
Reach-IsOrderly sha256 cfg w reach =
    nobody-Run-IsOrderly (contains_chunk cfg) (presence w.guardian) (Reach-Run sha256 cfg w reach)
