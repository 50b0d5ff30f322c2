-- ===== src/App/Sound/Ticks.antt =====
-- About `flush_pending_moves` of Guardian/src/guardian.cpp and the invariant.
use nicechunk_guardian.Base.{
  ℕ, suc, zero, ◌+◌, ◌%◌, ◌^◌, false, ◌&&◌, List, [], ◌∷◌, Option, none, some, length, arith,
  Bool-cases, inl, inr, min, drop,
}
use nicechunk_guardian.Protocol.Events.{MoveItem}
use nicechunk_guardian.Protocol.Batches.{encode_move_batch}
use nicechunk_guardian.Guardian.{Guardian, modify}
use nicechunk_guardian.Guardian.Publish.{
  collect_moves, send_batch, send_batches, flush_pending_moves, is_alive, spread, aoi_offsets,
  count_message,
}
use nicechunk_guardian.Guardian.State.{Same, Same-others, metrics-Same}
use nicechunk_guardian.Guardian.Untouched.{Same-refl, Same-trans, heap-Same}

-- What a result keeps, if there is one.
abbrev pub IsSame {ℓ} : {A : Type ℓ} → Guardian → Option (Guardian × A) → Type 0
IsSame s none = Unit {0}
IsSame s (some r) = Same s r.0

IsSame-trans {ℓ} :
    {A : Type ℓ} (a b : Guardian) (r : Option (Guardian × A)) → Same a b → IsSame b r → IsSame a r
IsSame-trans a b none f g = tt
IsSame-trans a b (some r) f g = Same-trans a b r.0 f g

collect_moves-IsSame :
    (ps : List ℕ) (batches : List (ℕ × List MoveItem)) (s : Guardian)
    → IsSame s (collect_moves ps batches s)
unfolding collect_moves
collect_moves-IsSame [] batches s = Same-refl s
collect_moves-IsSame (p ∷ ps) batches s =
    let q = s.heap p in
    let sent = record s {
      heap =
          modify p (λ q. record q { has_pending_move = false; queued_pending_move = false }) s.heap;
    } in
    elim (Bool-cases (is_alive p s)) [
      | inr dead ↦ rw (dead, collect_moves) tt
      | inl live ↦ elim (Bool-cases (q.connected && q.has_pending_move)) [
        | inr idle ↦ rw (live, idle, collect_moves) (collect_moves-IsSame ps batches s)
        | inl sends ↦
            rw (live, sends, collect_moves)
              (let next = spread s q (aoi_offsets s) batches in
                IsSame-trans s sent (collect_moves ps next sent) (heap-Same s _ (λ q. ground arith))
                  (collect_moves-IsSame ps next sent))
      ]
    ]

send_batch-Same :
    (fuel index : ℕ) (items : List MoveItem) (s : Guardian)
    → Same s (send_batch fuel index items s).0
unfolding send_batch
send_batch-Same zero index items s = Same-refl s
send_batch-Same (suc fuel) index [] s = Same-refl s
send_batch-Same (suc fuel) index (item ∷ items) s =
    let count = min 255 (length (item ∷ items)) in
    let counted = count_message (encode_move_batch s.server_tick (item ∷ items) count) s in
    let sent = record counted {
      metrics = record (counted.metrics) {
        move_batches = counted.metrics.move_batches + 1;
        move_items = counted.metrics.move_items + count;
      };
    } in
    Same-trans s sent _ (metrics-Same s sent.metrics)
      (send_batch-Same fuel index (drop count (item ∷ items)) sent)

send_batches-Same :
    (batches : List (ℕ × List MoveItem)) (s : Guardian) → Same s (send_batches batches s).0
unfolding send_batches
send_batches-Same [] s = Same-refl s
send_batches-Same ((index, items) ∷ batches) s =
    let s' = (send_batch (length items) index items s).0 in
    Same-trans s s' _ (send_batch-Same (length items) index items s) (send_batches-Same batches s')

pub flush_pending_moves-IsSame : (s : Guardian) → IsSame s (flush_pending_moves s)
unfolding flush_pending_moves
flush_pending_moves-IsSame s =
    let ticked = record s { server_tick = (s.server_tick + 1) % 2 ^ 16 } in
    let start : Same s ticked =
      Same-others s s.metrics s.next_local_player_id ticked.server_tick s.pending_move_players
        s.buildings in
    (elim (collect_moves s.pending_move_players [] ticked)
        as (λ o.
          IsSame ticked o
          → IsSame s (elim o [
            | none ↦ none
            | some (s', batches) ↦
                some (send_batches batches (record s' { pending_move_players = [] }))
          ])) [
            | none ↦ λ same. tt
            | some (s', batches) ↦ λ same.
                let flushed = record s' { pending_move_players = [] } in
                Same-trans s ticked _ start (
                  Same-trans ticked s' _ same (
                    Same-trans s' flushed _
                      (Same-others s' s'.metrics s'.next_local_player_id s'.server_tick []
                        s'.buildings)
                      (send_batches-Same batches flushed)))
          ])
      (collect_moves-IsSame s.pending_move_players [] ticked)
