-- ===== src/Lib.antt =====
-- A verification library for the Guardian server of Guardian/src: a WebSocket server that keeps the
-- players of a square service area of chunks, tells each of them what happens near it, and keeps a
-- registry of buildings in a file.
--
-- The parts and their files:
-- * Base holds tests, lists, int32_t and its kin as integers, bits and association lists.
-- * Wire and Protocol are Guardian/src/protocol.cpp: the words `rd_u16` ... `wr_i32`, the structs
--   (Protocol.Messages, Protocol.Events), the codes and sizes (Protocol, Protocol.Sizes),
--   `decode_*` and `encode_*` (Protocol.Decode, Protocol.Encode, Protocol.Batches,
--   Protocol.Buildings). A string is a list of bytes; a decoder gives an Option in place of a bool
--   and an out parameter.
-- * Config is the record of Guardian/src/config.h and `validate_config` of Guardian/src/config.cpp;
--   Config.Text, Config.Read and Config.Args are how a file and the command line fill it (`trim`
--   ... `apply_cli_args`), Config.Read.Settings lists the settings, Config.Prompt the questions on the terminal.
-- * Chunk is Guardian/src/chunk.cpp, Aoi is Guardian/src/aoi.cpp, RateLimit is `rate_limit_allow`
--   of Guardian/src/player.cpp.
-- * Building is the registry of buildings in Guardian/src/guardian.cpp: its tests (Building), its
--   state and `upsert_building` (Building.Registry), `load_building_manifest` (Building.Manifest).
--   Building.Invariant, Building.Upsert and Building.Verdict are about announcements,
--   Building.Reload about a restart.
-- * Guardian is the rest of GuardianState in Guardian/src/guardian.h: its state (Guardian), the
--   rooms (Guardian.Rooms), the tables of players (Guardian.Players, Guardian.Wallet), what a
--   message of a player writes (Guardian.Events), what is sent (Guardian.Publish) and what a player
--   that enters is told (Guardian.Snapshots). Guardian.Links says how players and rooms point at
--   one another, and Unlink, Leaving, Link, Entering and Moves beside it are about its upkeep.
--   Guardian.Delivery is about who receives a message, Guardian.Flush, Due, Gather and Sendoff about
--   the moves of a tick, Guardian.Dangling about the pointers in their queue, and Guardian.Reads about
--   those that leaving a room follows. Guardian.Ids and Guardian.Retire hold further proofs.
-- * App is Guardian/src/app.cpp: the data of a socket and the calls of the WebSocket library (App),
--   the handlers `handle_hello` ... `handle_building_announce` (App.Hello, App.Move, App.Dig,
--   App.Talk), `.open`, `.message`, `.drain`, `.close` and `reap_stale_sockets` (App.Routes), the
--   routes for `/buildings` (App.Buildings), and the run of a server as a relation of steps between
--   worlds, a state with its sockets (App.World). Guardian.State is the invariant of the state;
--   Keeps, Untouched, Drops, Settles, Arrivals, Grows and Creates beside it are about the
--   operations, App.Fine about the handlers and App.Sound about runs. Guardian.Presence is an
--   abstract service that knows only who is present in which chunk, without rooms, pointers and
--   retired players, with its runs and with what a run may do to one id (Presence.Views).
-- * Tests holds runs on concrete inputs.
--
-- The parts meet in the state: a member function is a function from the state to the new state and
-- its result, a `Player *` is an address in `heap`, a `ChunkRoom *` the key of the room, and the
-- publish callback is the list of what it is given. A handler gives the new state and the list of
-- the calls that it makes on the socket and the app. `flush_pending_moves`, the handlers and the
-- sweep answer none where the code would read a player that nothing owns any more, through the
-- pointer of a socket, of the queue of moves, or of a room whose players a snapshot lists, and where
-- a player that leaves a room would follow a pointer to no room or to no last player
-- (Guardian.Reads). A run goes on only from a result. Where a room is walked only to move or to
-- count its pointers, nothing is read through them. `is_active_player` reads the player before it
-- looks it up, so `.message`, `.close` and the sweep are modelled with that read.
--
-- Bounds and fuel: unsigned fields wrap where the code lets them (`% 2 ^ w`); the counters of
-- Metrics and the addresses do not wrap. `allocate_player_id` has the 65535 rounds of the code.
-- `send_batch` takes one round for each message, and the number of items is enough, since each
-- message takes one or more. Sums of a chunk and an offset are exact, as they are where C++ defines
-- them.
--
-- Parameters: SHA-256 comes from a library and is any function on bytes; whether the manifest can
-- be written is a Boolean. The order in which an unordered_map is walked is that of an association
-- list.
--
-- Not modelled: of Guardian/src/app.cpp the thread that times the tasks, the keys of the dashboard
-- and the start of the app; a socket that the library closes in the middle of a handler, as
-- `close_on_backpressure_limit` lets it; `prompt_i32` and the wizard in Guardian/src/config.cpp; the terminal
-- dashboard, the log and the clock, whose readings are arguments.
pub mod Base
pub mod Wire
pub mod Protocol
pub mod Config
pub mod Chunk
pub mod RateLimit
pub mod Aoi
pub mod Building
pub mod Guardian
pub mod App
pub mod Tests
