-- ===== src/App.antt =====
-- The connections of Guardian/src/app.cpp. What a handler asks of the WebSocket library is a list of
-- calls, in order; the log is left out. A handler answers none where the
-- code would read a player that nothing owns, or a room or a last player that is not there. A time is
-- what `now_ms` gives.
pub mod Hello
pub mod Move
pub mod Dig
pub mod Talk
pub mod Routes
pub mod Buildings
pub mod Fine
pub mod World
pub mod Sound
use nicechunk_guardian.Base.{
  ℕ, ◌==◌, Bool, true, false, not, ◌&&◌, if◌then◌else◌, Option, none, some, List, [], ◌∷◌, ◌++◌,
  map, length, ◌+◌,
}
use nicechunk_guardian.Base.Table.{lookup}
use nicechunk_guardian.Wire.{Bytes}
use nicechunk_guardian.Protocol.{error_not_hello}
use nicechunk_guardian.Protocol.Encode.{encode_error}
use nicechunk_guardian.RateLimit.{RateWindow}
use nicechunk_guardian.Guardian.{Player, Guardian, Topic, ChunkRoom, modify}
use nicechunk_guardian.Guardian.Players.{is_active_player}

pub record PerSocketData : Type 0 where
  pub player : Option ℕ
  pub opened_ms : ℕ

-- A call on the socket: `ws->send`, `ws->end`, `ws->subscribe`, `ws->unsubscribe` and `ws->publish`; the
-- last one is `app.publish`.
pub data Call : Type 0 where
  send : Bytes → Call
  end_with : ℕ → Call
  subscribe unsubscribe : Topic → Call
  publish publish_all : Topic → Bytes → Call

-- The state after a handler, and its calls.
abbrev pub Outcome : Type 0
Outcome = Guardian × List Call

abbrev pub send_error : ℕ → List Call
send_error code = send (encode_error code) ∷ []

abbrev pub close_with_error : ℕ → List Call
close_with_error code = send (encode_error code) ∷ end_with 1008 ∷ []

-- What `publish` is given, sent through the socket or through the app.
abbrev pub published : List (Topic × Bytes) → List Call
published = map (λ m. publish m.0 m.1)

abbrev pub published_all : List (Topic × Bytes) → List Call
published_all = map (λ m. publish_all m.0 m.1)

-- The first test of each handler but that of HELLO.
unfoldable pub is_in_session : ℕ → Guardian → Bool
is_in_session p s = (s.heap p).connected && is_active_player p s

unfoldable pub with_player : PerSocketData → Guardian → (ℕ → Option Outcome) → Option Outcome
unfolding is_in_session
with_player user s body = elim user.player [
  | none ↦ some (s, close_with_error error_not_hello)
  | some p ↦ if is_in_session p s then body p else some (s, close_with_error error_not_hello)
]

-- `state.metrics().bytes_in += message.size()`.
abbrev pub count_bytes_in : Bytes → Guardian → Guardian
count_bytes_in message s = record s {
  metrics = record (s.metrics) { bytes_in = s.metrics.bytes_in + length message };
}

-- `player->current_chunk_room->topic`, or none if the pointer is null or dangles.
unfoldable pub topic_of_room : ℕ → Guardian → Option Topic
topic_of_room p s = elim ((s.heap p).current_chunk_room) [
  | none ↦ none
  | some key ↦ elim (lookup key s.rooms) [ none ↦ none | some room ↦ some room.topic ]
]
