-- ===== src/App/World.antt =====
-- A run of Guardian/src/app.cpp: the state, the registered sockets, and what happens to them one after the
-- other. The library calls a handler with the data of the socket at hand; `close_with_error` is followed
-- by the library's call of `.close`.
use nicechunk_guardian.Base.{ℕ, ◌≡◌, Bool, Option, none, some, List, []}
use nicechunk_guardian.Base.Table.{lookup, insert, erase}
use nicechunk_guardian.Wire.{Bytes}
use nicechunk_guardian.Config.{Config}
use nicechunk_guardian.Building.Manifest.{start_registry}
use nicechunk_guardian.Guardian.{Guardian, Metrics, Topic, new_player}
use nicechunk_guardian.Guardian.Publish.{flush_pending_moves}
use nicechunk_guardian.App.{PerSocketData, Call}
use nicechunk_guardian.App.Routes.{on_open, on_message, on_drain, on_close}

pub record World : Type 0 where
  pub guardian : Guardian
  -- SocketRegistry::sockets, with the data of each socket.
  pub sockets : List (ℕ × PerSocketData)

abbrev pub no_metrics : Metrics
no_metrics = record {
  connections = 0;
  players = 0;
  active_chunks = 0;
  move_in = 0;
  dig_in = 0;
  messages_out = 0;
  bytes_in = 0;
  bytes_out = 0;
  move_batches = 0;
  move_items = 0;
  dropped_move_packets = 0;
  backpressure_connections = 0;
}

-- The constructor of GuardianState; nothing is allocated yet.
unfoldable pub start_guardian : (Bytes → Bytes) → Config → Bool → Option Bytes → Guardian
start_guardian sha256 cfg written file = record {
  cfg = cfg;
  metrics = no_metrics;
  next_local_player_id = 1;
  server_tick = 0;
  heap = λ q. new_player;
  next_address = 0;
  players = [];
  retired_players = [];
  rooms = [];
  pending_move_players = [];
  buildings = start_registry sha256 cfg written file;
}

-- The tasks of the ticker that change no state, the heartbeat and the sweep over idle sockets, are left
-- out: the sockets that the sweep ends close in a step of their own.
pub data Step (sha256 : Bytes → Bytes) : World → World → Type 0 where
  opens :
      (w : World) (ws now : ℕ)
      → lookup ws w.sockets ≡ none
      → Step sha256 w (record {
        guardian = (on_open now w.guardian).0;
        sockets = insert ws (on_open now w.guardian).1 w.sockets;
      })
  receives :
      (w : World) (ws : ℕ) (user : PerSocketData) (written binary : Bool) (seen now : ℕ)
      (message : Bytes) (s' : Guardian) (user' : PerSocketData) (calls : List Call)
      → lookup ws w.sockets ≡ some user
      → on_message sha256 written binary seen now message user w.guardian ≡ some (s', user', calls)
      → Step sha256 w (record { guardian = s'; sockets = insert ws user' w.sockets })
  closes :
      (w : World) (ws : ℕ) (user : PerSocketData) (s' : Guardian) (calls : List Call)
      → lookup ws w.sockets ≡ some user
      → on_close user w.guardian ≡ some (s', calls)
      → Step sha256 w (record { guardian = s'; sockets = erase ws w.sockets })
  drains :
      (w : World) (buffered : ℕ)
      → Step sha256 w (record w { guardian = on_drain buffered w.guardian })
  ticks :
      (w : World) (s' : Guardian) (sent : List (Topic × Bytes))
      → flush_pending_moves w.guardian ≡ some (s', sent)
      → Step sha256 w (record w { guardian = s' })

abbrev pub start : (Bytes → Bytes) → Config → Bool → Option Bytes → World
start sha256 cfg written file = record {
  guardian = start_guardian sha256 cfg written file;
  sockets = [];
}

-- The worlds that a run from a start with a configuration can come to.
pub data Reach (sha256 : Bytes → Bytes) (cfg : Config) : World → Type 0 where
  starts : (written : Bool) (file : Option Bytes) → Reach sha256 cfg (start sha256 cfg written file)
  then_step : {w w' : World} → Reach sha256 cfg w → Step sha256 w w' → Reach sha256 cfg w'
