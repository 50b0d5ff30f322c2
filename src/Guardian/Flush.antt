-- ===== src/Guardian/Flush.antt =====
-- `flush_pending_moves` of Guardian/src/guardian.cpp: the batches it cuts, and the players it follows.
use nicechunk_guardian.Base.{
  ℕ, ◌%◌, ◌^◌, zero, suc, ◌+◌, ◌/◌, ◌≤◌, ◌≡◌, refl, ap, Bool, true, false, not, ◌&&◌, List, [], ◌∷◌,
  Option, none, some, length, arith, Bool-cases, Option-cases, inl, inr, min, drop, length-drop,
  ◌++◌, ◌∙◌, take, length-take, length-append, take-append-drop,
}
use nicechunk_guardian.Wire.{Bytes}
use nicechunk_guardian.Protocol.Events.{MoveItem}
use nicechunk_guardian.Protocol.Batches.{encode_move_batch, clamp_count}
use nicechunk_guardian.Guardian.{Guardian, Topic, modify, chunk_topic}
use nicechunk_guardian.Guardian.Publish.{
  send_batch, collect_moves, flush_pending_moves, is_alive, count_message, has_player, has_retired,
  spread, aoi_offsets,
}

-- The messages for a batch that is cut into chunks.
abbrev pub messages : ℕ → ℕ → List (List MoveItem) → List (Topic × Bytes)
messages tick index [] = []
messages tick index (chunk ∷ chunks) =
    (chunk_topic index, encode_move_batch tick chunk (length chunk)) ∷ messages tick index chunks

abbrev pub all_of : List (List MoveItem) → List MoveItem
all_of [] = []
all_of (chunk ∷ chunks) = chunk ++ all_of chunks

-- 255 items in each chunk but the last, and 1 to 255 in the last.
abbrev pub IsCut : List (List MoveItem) → Type 0
IsCut [] = Unit {0}
IsCut (chunk ∷ []) = (1 ≤ length chunk) × (length chunk ≤ 255)
IsCut (chunk ∷ next ∷ chunks) = (length chunk ≡ 255) × IsCut (next ∷ chunks)

-- The items, cut into chunks, are what is sent, in order.
pub record Sends (tick index : ℕ) (items : List MoveItem) (sent : List (Topic × Bytes))
    : Type 0 where
  pub chunks : List (List MoveItem)
  pub whole : all_of chunks ≡ items
  pub cut : IsCut chunks
  pub messages_of : sent ≡ messages tick index chunks

-- What one batch adds to the counters.
module _ (s s' : Guardian) (items : List MoveItem) (sent : List (Topic × Bytes)) where
  pub record Counted : Type 0 where
    pub move_items : s'.metrics.move_items ≡ s.metrics.move_items + length items
    pub move_batches : s'.metrics.move_batches ≡ s.metrics.move_batches + length sent
    pub messages_out : s'.metrics.messages_out ≡ s.metrics.messages_out + length sent
    pub batches : length sent ≡ (length items + 254) / 255

-- The state once one batch is sent.
abbrev pub sent_batch : Guardian → List MoveItem → ℕ → Guardian
sent_batch s items count =
    let counted = count_message (encode_move_batch s.server_tick items count) s in
    record counted {
      metrics = record (counted.metrics) {
        move_batches = counted.metrics.move_batches + 1;
        move_items = counted.metrics.move_items + count;
      };
    }

send_batch-Counted :
    (fuel index : ℕ) (items : List MoveItem) (s : Guardian)
    → length items ≤ fuel
    → Counted s (send_batch fuel index items s).0 items (send_batch fuel index items s).1
unfolding send_batch
send_batch-Counted zero index items s h = record {
  move_items = omega arith;
  move_batches = omega arith;
  messages_out = omega arith;
  batches = omega arith;
}
send_batch-Counted (suc fuel) index [] s h = record {
  move_items = omega arith;
  move_batches = omega arith;
  messages_out = omega arith;
  batches = omega arith;
}
send_batch-Counted (suc fuel) index (item ∷ items) s h =
    let count = min 255 (length (item ∷ items)) in
    let left = length-drop count (item ∷ items) in
    let rest =
      send_batch-Counted fuel index (drop count (item ∷ items)) (sent_batch s (item ∷ items) count)
        (omega (arith, left)) in
    record {
      move_items = omega (arith, rest.move_items, left);
      move_batches = omega (arith, rest.move_batches);
      messages_out = omega (arith, rest.messages_out);
      batches = omega (arith, rest.batches, left);
    }

-- A message holds what it takes from the items.
encode_move_batch-take :
    (tick : ℕ) (items : List MoveItem) (count : ℕ)
    → count ≤ length items
    → count ≤ 255
    → encode_move_batch tick items count
      ≡ encode_move_batch tick (take count items) (length (take count items))
unfolding encode_move_batch clamp_count
encode_move_batch-take tick items count h small =
    let len : length (take count items) ≡ count = omega (arith, length-take count items) in
    rw (len, clamp_count_small count small, take_take items count) refl
  where
    clamp_count_small : (n : ℕ) → n ≤ 255 → clamp_count n ≡ n
    clamp_count_small n h = ground (arith, h)

    take_take : (xs : List MoveItem) (n : ℕ) → take n (take n xs) ≡ take n xs
    take_take xs zero = refl
    take_take [] (suc n) = refl
    take_take (x ∷ xs) (suc n) = ap (◌∷◌ x) (take_take xs n)

IsCut-nonempty :
    (chunk : List MoveItem) (chunks : List (List MoveItem))
    → IsCut (chunk ∷ chunks)
    → 1 ≤ length chunk
IsCut-nonempty chunk [] h = h.0
IsCut-nonempty chunk (next ∷ chunks) h = omega (arith, h.0)

-- One more chunk in front, full unless it is the last.
put_chunk :
    (chunk : List MoveItem) (chunks : List (List MoveItem))
    → 1 ≤ length chunk
    → length chunk ≤ 255
    → (1 ≤ length (all_of chunks) → length chunk ≡ 255)
    → IsCut chunks
    → IsCut (chunk ∷ chunks)
put_chunk chunk [] lo hi full cut = (lo, hi)
put_chunk chunk (next ∷ chunks) lo hi full cut =
    (full (omega (arith, length-append next (all_of chunks), IsCut-nonempty next chunks cut)), cut)

pub send_batch-Sends :
    (fuel index : ℕ) (items : List MoveItem) (s : Guardian)
    → length items ≤ fuel
    → Sends s.server_tick index items (send_batch fuel index items s).1
unfolding send_batch
send_batch-Sends zero index [] s h = record {
  chunks = [];
  whole = refl;
  cut = tt;
  messages_of = refl;
}
send_batch-Sends zero index (item ∷ items) s h = absurd (omega (arith, h))
send_batch-Sends (suc fuel) index [] s h = record {
  chunks = [];
  whole = refl;
  cut = tt;
  messages_of = refl;
}
send_batch-Sends (suc fuel) index (item ∷ items) s h =
    let all = item ∷ items in
    let count = min 255 (length all) in
    let left = length-drop count all in
    let rest =
      send_batch-Sends fuel index (drop count all) (sent_batch s all count) (omega (arith, left)) in
    let len : length (take count all) ≡ count = omega (arith, length-take count all) in
    record {
      chunks = take count all ∷ rest.chunks;
      whole = ap (λ xs. take count all ++ xs) rest.whole ∙ take-append-drop count all;
      cut =
          put_chunk (take count all) rest.chunks (omega (arith, len)) (omega (arith, len))
            (λ more.
              omega (arith, len, left, more, ap (λ (xs : List MoveItem). length xs) rest.whole))
            rest.cut;
      messages_of = cc (
        encode_move_batch-take s.server_tick all count (omega arith) (omega arith),
        rest.messages_of,
      );
    }

-- With as many rounds as there are items, or more, the `while` of `flush_pending_moves` sends all
-- items of a batch in order to the topic of its chunk, in messages of 255 items each but the last, which has 1 to 255;
-- move_items grows by the number of items, move_batches and messages_out by the number of messages, and
-- that is the number of items divided by 255, rounded up.
pub send_batch_all :
    (fuel index : ℕ) (items : List MoveItem) (s : Guardian)
    → length items ≤ fuel
    → Sends s.server_tick index items (send_batch fuel index items s).1
      × Counted s (send_batch fuel index items s).0 items (send_batch fuel index items s).1
send_batch_all fuel index items s h =
    (send_batch-Sends fuel index items s h, send_batch-Counted fuel index items s h)

abbrev pub is_none {ℓ} : {A : Type ℓ} → Option A → Bool
is_none none = true
is_none (some a) = false

-- Every pointer leads to a player that is alive.
unfoldable pub all_alive : List ℕ → Guardian → Bool
unfolding is_alive
all_alive [] s = true
all_alive (p ∷ ps) s = is_alive p s && all_alive ps s

pub all_alive-same :
    (ps : List ℕ) (s s' : Guardian)
    → s.players ≡ s'.players
    → s.retired_players ≡ s'.retired_players
    → all_alive ps s ≡ all_alive ps s'
unfolding all_alive is_alive
all_alive-same [] s s' e e' = refl
all_alive-same (p ∷ ps) s s' e e' =
    ground (arith, ap (has_player p) e, ap (has_retired p) e', all_alive-same ps s s' e e')

collect_moves_alive :
    (ps : List ℕ) (batches : List (ℕ × List MoveItem)) (s : Guardian)
    → is_none (collect_moves ps batches s) ≡ not (all_alive ps s)
unfolding collect_moves all_alive is_alive
collect_moves_alive [] batches s = refl
collect_moves_alive (p ∷ ps) batches s =
    let q = s.heap p in
    let sends = q.connected && q.has_pending_move in
    let sent = record s {
      heap =
          modify p (λ q. record q { has_pending_move = false; queued_pending_move = false }) s.heap;
    } in
    elim (Bool-cases (is_alive p s)) [
      | inr dead ↦ ground (arith, dead)
      | inl live ↦ elim (Bool-cases sends) [
        | inl sending ↦ ground (
          arith,
          live,
          sending,
          collect_moves_alive ps (spread s q (aoi_offsets s) batches) sent,
          all_alive-same ps s sent refl refl,
        )
        | inr idle ↦ ground (arith, live, idle, collect_moves_alive ps batches s)
      ]
    ]

pub flush_pending_moves-all_alive :
    (s : Guardian) → is_none (flush_pending_moves s) ≡ not (all_alive s.pending_move_players s)
unfolding flush_pending_moves
flush_pending_moves-all_alive s =
    let ticked = record s { server_tick = (s.server_tick + 1) % 2 ^ 16 } in
    elim (Option-cases (collect_moves s.pending_move_players [] ticked)) [
      | inl fault ↦ ground (
        arith,
        fault,
        collect_moves_alive s.pending_move_players [] ticked,
        all_alive-same s.pending_move_players s ticked refl refl,
      )
      | inr (r, done) ↦ ground (
        arith,
        done,
        collect_moves_alive s.pending_move_players [] ticked,
        all_alive-same s.pending_move_players s ticked refl refl,
      )
    ]
