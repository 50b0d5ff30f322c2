-- ===== src/App/Fine/Hello.antt =====
-- About `handle_hello` of Guardian/src/app.cpp: the player that the socket gets.
use nicechunk_guardian.Base.{
  ℕ, suc, ◌≤◌, ◌≡◌, ◌≢◌, refl, List, [], ◌∷◌, Option, none, some, arith, Bool-cases, Option-cases,
  inl, inr, ◌⊎◌,
}
use nicechunk_guardian.Wire.{Bytes}
use nicechunk_guardian.Building.{all_zero}
use nicechunk_guardian.Protocol.{error_bad_protocol}
use nicechunk_guardian.Protocol.Messages.{Hello}
use nicechunk_guardian.Protocol.Decode.{decode_hello}
use nicechunk_guardian.Protocol.Encode.{encode_player_leave}
use nicechunk_guardian.Guardian.{Guardian, Topic}
use nicechunk_guardian.Guardian.Players.{
  RetiredPlayerNotice, retire_players_with_wallet, can_accept_player, create_player,
}
use nicechunk_guardian.Guardian.Publish.{publish_to_aoi}
use nicechunk_guardian.Guardian.State.{IsState, IsAlive, Same}
use nicechunk_guardian.Guardian.Untouched.{Same-refl, Same-trans, publish_to_aoi-Same}
use nicechunk_guardian.Guardian.Grows.{
  Grows, Grows-refl, Grows-trans, Same-Grows, retire_players_with_wallet-Grows,
}
use nicechunk_guardian.Guardian.Creates.{Creates, create_player-Grows}
use nicechunk_guardian.Guardian.Presence.Views.{Keeps-IsNew}
use nicechunk_guardian.Guardian.Presence.Wallets.{retire_players_with_wallet-IsNew}
use nicechunk_guardian.Guardian.Reads.Held.{IsState-can_retire}
use nicechunk_guardian.Guardian.Snapshots.Contents.{snapshots_some}
use nicechunk_guardian.App.{PerSocketData, Call, topic_of_room, close_with_error}
use nicechunk_guardian.App.Fine.Move.{topic_of_room-some}
use nicechunk_guardian.App.Hello.{greet, publish_notices, seat_player, welcome, handle_hello}

-- The socket's player is what it was, or the socket had none and has a new one.
abbrev pub Seats : PerSocketData → PerSocketData → Guardian → Guardian → Type 0
Seats user user' s s' =
    (user'.player ≡ user.player)
    ⊎ ((p : ℕ) × (user'.player ≡ some p)
        × (s.next_address ≤ p)
        × (suc p ≤ s'.next_address)
        × IsAlive p s')

-- A message that is handled, and what its result keeps.
abbrev pub IsHandled :
    PerSocketData → Guardian → Option (Guardian × PerSocketData × List Call) → Type 0
IsHandled user s none = ⊥
IsHandled user s (some (s', user', calls)) = Grows s s' × Seats user user' s s'

publish_notices-Same :
    (notices : List RetiredPlayerNotice) (s : Guardian) → Same s (publish_notices notices s).0
unfolding publish_notices
publish_notices-Same [] s = Same-refl s
publish_notices-Same (notice ∷ notices) s =
    let payload = encode_player_leave notice.leave in
    let told = (publish_to_aoi notice.chunk_x notice.chunk_z payload s).0 in
    Same-trans s told _ (publish_to_aoi-Same notice.chunk_x notice.chunk_z payload s)
      (publish_notices-Same notices told)

-- A player with a room, in a state within the invariant.
topic_of_room-ne :
    (p : ℕ) (s : Guardian)
    → IsState s
    → (s.heap p).current_chunk_room ≢ none
    → (topic : Topic) × (topic_of_room p s ≡ some topic)
topic_of_room-ne p s i ne = elim (Option-cases (s.heap p).current_chunk_room) [
  | inl out ↦ absurd (ne out)
  | inr (k, e) ↦ topic_of_room-some (s.heap p).local_player_id p s i (i.housed p k e)
]

-- Within the invariant a player is told everything.
greet-some : (p : ℕ) (s : Guardian) → IsState s → greet p s ≢ none
unfolding greet
greet-some p s i =
    let ((joins, e), (equipments, e'), (identities, e'')) = snapshots_some p s i in
    rw (e, e', e'', greet) (λ h. absurd (ground (arith, h)))

seat_player-IsHandled :
    (user : PerSocketData) (calls : List Call) (s : Guardian) (r : Guardian × Option ℕ)
    → Grows s r.0
    → Creates s r
    → IsHandled user s (seat_player user calls r)
unfolding seat_player
seat_player-IsHandled user calls s (s', none) g c = (g, inl refl)
seat_player-IsHandled user calls s (s', some p) g (new, alive, old, room) =
    let (topic, e) = topic_of_room-ne p s' g.state room in
    elim (Option-cases (greet p s')) [
      | inl untold ↦ absurd (greet-some p s' g.state untold)
      | inr (sent, told) ↦
          rw (e, told, seat_player) (g, inr (p, refl, omega (arith, new), old, alive))
    ]

pub IsHandled-trans :
    (user : PerSocketData) (a b : Guardian) (r : Option (Guardian × PerSocketData × List Call))
    → Grows a b
    → IsHandled user b r
    → IsHandled user a r
IsHandled-trans user a b none g h = h
IsHandled-trans user a b (some (s', user', calls)) g (h, inl same) =
    (Grows-trans a b s' g h, inl same)
IsHandled-trans user a b (some (s', user', calls)) g (h, inr (p, e, lo, hi, alive)) =
    (Grows-trans a b s' g h, inr (p, e, omega (arith, lo, g.next_address), hi, alive))

welcome-IsHandled :
    (now : ℕ) (hello : Hello) (user : PerSocketData) (s : Guardian)
    → IsState s
    → IsHandled user s (welcome now hello user s)
unfolding welcome
welcome-IsHandled now hello user s i =
    let without = (retire_players_with_wallet hello.wallet_pubkey s).0 in
    let notices = (retire_players_with_wallet hello.wallet_pubkey s).1 in
    let told = (publish_notices notices without).0 in
    let calls = (publish_notices notices without).1 in
    let g = retire_players_with_wallet-Grows hello.wallet_pubkey s i in
    let same = publish_notices-Same notices without in
    let h = Grows-trans s without told g (Same-Grows without told same g.state) in
    elim (Bool-cases (all_zero hello.wallet_pubkey)) [
      | inl empty ↦ rw (empty, welcome) (Grows-refl s i, inl refl)
      | inr real ↦
          rw (real, IsState-can_retire hello.wallet_pubkey s i, welcome)
            (elim (Bool-cases (can_accept_player told)) [
              | inr full ↦ rw full (h, inl refl)
              | inl room ↦ rw room (
                  let new =
                    Keeps-IsNew hello.wallet_pubkey without told same.keeps
                      (retire_players_with_wallet-IsNew hello.wallet_pubkey s real) in
                  let (k, created) = create_player-Grows hello now told h.state new in
                  IsHandled-trans user s told
                    (seat_player user calls (create_player hello now told)) h
                    (seat_player-IsHandled user calls told (create_player hello now told) k
                      created))
            ])
    ]

pub handle_hello-IsHandled :
    (now : ℕ) (message : Bytes) (user : PerSocketData) (s : Guardian)
    → IsState s
    → IsHandled user s (handle_hello now message user s)
unfolding handle_hello
handle_hello-IsHandled now message user s i = elim (Option-cases (decode_hello message)) [
  | inl bad ↦ rw (bad, handle_hello) (Grows-refl s i, inl refl)
  | inr (hello, e) ↦
      rw (e, handle_hello)
        (elim user.player
          as (λ o. IsHandled user s (elim o [
            | some p ↦ some (s, user, close_with_error error_bad_protocol)
            | none ↦ welcome now hello user s
          ])) [ some p ↦ (Grows-refl s i, inl refl) | none ↦ welcome-IsHandled now hello user s i ])
]
