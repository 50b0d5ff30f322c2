-- ===== src/Tests/Sessions.antt =====
-- A run of Guardian/src/app.cpp: a client connects, enters with a HELLO and sends a MOVE.
use nicechunk_guardian.Base.{ℕ, ◌≡◌, refl, true, false, [], some, none}
use nicechunk_guardian.Base.Table.{lookup, insert, lookup-insert}
use nicechunk_guardian.Wire.{Bytes}
use nicechunk_guardian.Config.{default_config}
use nicechunk_guardian.Protocol.Encode.{encode_hello, encode_move}
use nicechunk_guardian.Guardian.Flush.{is_none}
use nicechunk_guardian.App.{PerSocketData}
use nicechunk_guardian.App.Routes.{Received, on_open, on_message, on_close, reap_stale_sockets}
use nicechunk_guardian.App.World.{
  World, start, Step.opens, Step.receives, Reach, Reach.starts, Reach.then_step,
}
use nicechunk_guardian.App.Sound.{IsSound}
use nicechunk_guardian.App.Sound.Steps.{Reach-IsSound}
use nicechunk_guardian.App.Sound.Answers.{Reach-answers, Reach-reap_stale_sockets}
use nicechunk_guardian.App.Sound.Refines.{
  Later, Later.at_once, Later.then_later, Reach-Continues, Reach-IsOrderly,
}
use nicechunk_guardian.Guardian.Presence.Views.{Continues}
use nicechunk_guardian.Chunk.{contains_chunk}
use nicechunk_guardian.Guardian.Presence.{presence}
use nicechunk_guardian.Guardian.Presence.Wallets.{IsOrderly}
use nicechunk_guardian.Tests.Wire.{some_hello, some_move}

abbrev same_bytes : Bytes → Bytes
same_bytes bytes = bytes

-- The world after a message of the client at socket 3.
abbrev put : World → Received → World
put w none = w
put w (some (s', user', calls)) = record { guardian = s'; sockets = insert 3 user' w.sockets }

abbrev user_of : PerSocketData → Received → PerSocketData
user_of user none = user
user_of user (some (s', user', calls)) = user'

abbrev reply : ℕ → Bytes → PerSocketData → World → Received
reply now message user w = on_message same_bytes true true now now message user w.guardian

abbrev opened : World
opened = record {
  guardian = (on_open 5 (start same_bytes default_config true none).guardian).0;
  sockets = insert 3 (on_open 5 (start same_bytes default_config true none).guardian).1 [];
}

abbrev IsThere : PerSocketData → World → Type 0
IsThere user w =
    Reach same_bytes default_config w × (lookup 3 w.sockets ≡ some user) × Later same_bytes opened w

received :
    (now : ℕ) (message : Bytes) (user : PerSocketData) (w : World) (r : Received)
    → reply now message user w ≡ r
    → IsThere user w
    → IsThere (user_of user r) (put w r)
unfolding lookup
received now message user w none e there = there
received now message user w (some (s', user', calls)) e (reach, at, later) = (
  then_step reach (receives w 3 user true true now now message s' user' calls at e),
  lookup-insert 3 3 user' w.sockets,
  then_later later (receives w 3 user true true now now message s' user' calls at e),
)

abbrev newcomer : PerSocketData
newcomer = record { player = none; opened_ms = 5 }

opened-IsThere : IsThere newcomer opened
unfolding lookup on_open insert
opened-IsThere = (
  then_step (starts true none) (opens (start same_bytes default_config true none) 3 5 refl),
  refl,
  at_once,
)

abbrev greeting : Received
greeting = reply 9 (encode_hello some_hello) newcomer opened

abbrev greeted : World
greeted = put opened greeting

abbrev guest : PerSocketData
guest = user_of newcomer greeting

greeted-IsThere : IsThere guest greeted
greeted-IsThere = received 9 (encode_hello some_hello) newcomer opened greeting refl opened-IsThere

abbrev moved : World
moved = put greeted (reply 20 (encode_move some_move) guest greeted)

abbrev mover : PerSocketData
mover = user_of guest (reply 20 (encode_move some_move) guest greeted)

moved-IsThere : IsThere mover moved
moved-IsThere = received 20 (encode_move some_move) guest greeted _ refl greeted-IsThere

Reach-IsSound_example : IsSound moved
Reach-IsSound_example = Reach-IsSound same_bytes default_config moved moved-IsThere.0

Reach-answers_example :
    (is_none (on_message same_bytes true true 30 31 (encode_move some_move) mover moved.guardian)
      ≡ false)
    × (is_none (on_close mover moved.guardian) ≡ false)
Reach-answers_example =
    Reach-answers same_bytes default_config moved 3 mover true true 30 31 (encode_move some_move)
      moved-IsThere.0 moved-IsThere.1

Reach-reap_stale_sockets_example :
    is_none (reap_stale_sockets 99999 moved.sockets moved.guardian) ≡ false
Reach-reap_stale_sockets_example =
    Reach-reap_stale_sockets same_bytes default_config moved 99999 moved-IsThere.0

Reach-Continues_example : Continues opened.guardian moved.guardian
Reach-Continues_example =
    Reach-Continues same_bytes default_config opened moved opened-IsThere.0 moved-IsThere.2

Reach-IsOrderly_example : IsOrderly (contains_chunk default_config) (presence moved.guardian)
Reach-IsOrderly_example = Reach-IsOrderly same_bytes default_config moved moved-IsThere.0
