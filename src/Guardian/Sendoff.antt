-- ===== src/Guardian/Sendoff.antt =====
-- `flush_pending_moves` of Guardian/src/guardian.cpp as a whole: which moves a chunk is sent in a tick.
use nicechunk_guardian.Base.{
  ℕ, zero, suc, ◌+◌, ◌%◌, ◌^◌, ◌≤◌, ◌≡◌, refl, sym, ap, ◌∙◌, subst, ◌==◌, true, false,
  if◌then◌else◌, List, [], ◌∷◌, ◌++◌, none, some, length, drop, min, arith, Bool-cases, inl, inr,
  append-nil,
}
use nicechunk_guardian.Base.Int.{ℤ}
use nicechunk_guardian.Base.Table.{lookup, Distinct}
use nicechunk_guardian.Wire.{Bytes}
use nicechunk_guardian.Chunk.{contains_chunk, local_chunk_index}
use nicechunk_guardian.Protocol.Events.{MoveItem}
use nicechunk_guardian.Guardian.{
  Guardian, Topic, chunk_topic, heartbeat_topic, building_manifest_topic,
}
use nicechunk_guardian.Guardian.Publish.{send_batch, send_batches, flush_pending_moves}
use nicechunk_guardian.Guardian.Flush.{
  messages, Sends, sent_batch, send_batch-Sends, all_alive, all_alive-same,
}
use nicechunk_guardian.Guardian.Due.{batch_at, moves_due}
use nicechunk_guardian.Guardian.Gather.{IsBehind, gathers}

-- What is sent to the chunk with an index.
abbrev pub to_chunk : ℕ → List (Topic × Bytes) → List (Topic × Bytes)
to_chunk i [] = []
to_chunk i ((chunk_topic j, b) ∷ sent) =
    let rest = to_chunk i sent in if j == i then (chunk_topic j, b) ∷ rest else rest
to_chunk i ((heartbeat_topic, b) ∷ sent) = to_chunk i sent
to_chunk i ((building_manifest_topic, b) ∷ sent) = to_chunk i sent

to_chunk-append :
    (i : ℕ) (xs ys : List (Topic × Bytes)) → to_chunk i (xs ++ ys) ≡ to_chunk i xs ++ to_chunk i ys
to_chunk-append i [] ys = refl
to_chunk-append i ((chunk_topic j, b) ∷ xs) ys = ground (arith, to_chunk-append i xs ys)
to_chunk-append i ((heartbeat_topic, b) ∷ xs) ys = to_chunk-append i xs ys
to_chunk-append i ((building_manifest_topic, b) ∷ xs) ys = to_chunk-append i xs ys

to_chunk-messages :
    (i tick j : ℕ) (chunks : List (List MoveItem))
    → to_chunk i (messages tick j chunks) ≡ (if j == i then messages tick j chunks else [])
to_chunk-messages i tick j [] = ground arith
to_chunk-messages i tick j (chunk ∷ chunks) = ground (arith, to_chunk-messages i tick j chunks)

send_batch-server_tick :
    (fuel index : ℕ) (items : List MoveItem) (s : Guardian)
    → (send_batch fuel index items s).0.server_tick ≡ s.server_tick
unfolding send_batch
send_batch-server_tick zero index items s = refl
send_batch-server_tick (suc fuel) index [] s = refl
send_batch-server_tick (suc fuel) index (item ∷ items) s =
    let count = min 255 (length (item ∷ items)) in
    send_batch-server_tick fuel index (drop count (item ∷ items))
      (sent_batch s (item ∷ items) count)

-- What one batch sends to a chunk.
send_batch-to_chunk :
    (i j : ℕ) (items : List MoveItem) (s : Guardian)
    → to_chunk i (send_batch (length items) j items s).1
      ≡ (if j == i then (send_batch (length items) j items s).1 else [])
send_batch-to_chunk i j items s =
    let r = send_batch-Sends (length items) j items s (omega arith) in
    subst (λ sent. to_chunk i sent ≡ (if j == i then sent else [])) (sym r.messages_of)
      (to_chunk-messages i s.server_tick j r.chunks)

-- The batches behind one for another chunk are all that matters to a chunk.
passed_over :
    (i j : ℕ) (items : List MoveItem) (s : Guardian) (more : List (Topic × Bytes))
    → (j == i) ≡ false
    → to_chunk i ((send_batch (length items) j items s).1 ++ more) ≡ to_chunk i more
passed_over i j items s more away =
    let sent = (send_batch (length items) j items s).1 in
    to_chunk-append i sent more
    ∙ ap (λ xs. xs ++ to_chunk i more)
        (send_batch-to_chunk i j items s ∙ ap (λ b. if b then sent else []) away)

send_batches-none :
    (i : ℕ) (batches : List (ℕ × List MoveItem)) (s : Guardian)
    → lookup i batches ≡ none
    → to_chunk i (send_batches batches s).1 ≡ []
unfolding send_batches lookup
send_batches-none i [] s h = refl
send_batches-none i ((j, items) ∷ batches) s h =
    let s' = (send_batch (length items) j items s).0 in
    elim (Bool-cases (j == i)) [
      | inl same ↦ ground (arith, same, h)
      | inr away ↦
          passed_over i j items s (send_batches batches s').1 away
          ∙ send_batches-none i batches s' (ground (arith, h, away))
    ]

send_batches-Sends :
    (i : ℕ) (batches : List (ℕ × List MoveItem)) (s : Guardian)
    → Distinct batches
    → Sends s.server_tick i (batch_at i batches) (to_chunk i (send_batches batches s).1)
unfolding send_batches lookup
send_batches-Sends i [] s d = record { chunks = []; whole = refl; cut = tt; messages_of = refl }
send_batches-Sends i ((j, items) ∷ batches) s d =
    let (s', sent) = send_batch (length items) j items s in
    let more = (send_batches batches s').1 in
    elim (Bool-cases (j == i)) [
      | inl same ↦
          let here : j ≡ i = ground (arith, same) in
          let alone =
            to_chunk-append i sent more
            ∙ ap (λ xs. xs ++ to_chunk i more)
                (send_batch-to_chunk i j items s ∙ ap (λ b. if b then sent else []) same)
            ∙ ap (λ xs. sent ++ xs)
                (send_batches-none i batches s' (subst (λ k. lookup k batches ≡ none) here d.0))
            ∙ append-nil sent in
          rw same (
            subst (Sends s.server_tick i items) (sym alone) (
              subst (λ k. Sends s.server_tick k items sent) here
                (send_batch-Sends (length items) j items s (omega arith))))
      | inr away ↦ rw away (
          subst (Sends s.server_tick i (batch_at i batches))
            (sym (passed_over i j items s more away))
            (subst (λ t. Sends t i (batch_at i batches) (to_chunk i more))
              (send_batch-server_tick (length items) j items s)
              (send_batches-Sends i batches s' d.1)))
    ]

-- With a service radius and an interest radius of at most 127, and where every pointer in the queue leads to a
-- player that is alive, a flush ends, and to a chunk of the service area it sends, in the order of the queue
-- and in messages of 255 each but the last, one move of each player of the queue that is connected, has a pending
-- move and is within the interest radius of the chunk, and nothing else.
pub flush_pending_moves-Sends :
    (s : Guardian) (x z : ℤ)
    → s.cfg.service_radius_chunks ≤ 127
    → s.cfg.player_aoi_radius_chunks ≤ 127
    → contains_chunk s.cfg x z ≡ true
    → all_alive s.pending_move_players s ≡ true
    → let i = local_chunk_index s.cfg x z in
      (s' : Guardian) × (sent : List (Topic × Bytes)) × (flush_pending_moves s ≡ some (s', sent))
      × Sends
          ((s.server_tick + 1) % 2 ^ 16)
          i
          (moves_due s.cfg s.heap x z [] s.pending_move_players)
          (to_chunk i sent)
unfolding flush_pending_moves lookup
flush_pending_moves-Sends s x z hr ha inside alive =
    let ticked = record s { server_tick = (s.server_tick + 1) % 2 ^ 16 } in
    let ps = s.pending_move_players in
    let i = local_chunk_index s.cfg x z in
    let start : IsBehind ticked [] s.heap = record {
      same = λ q h. refl;
      idle = λ q h. ground (arith, h);
    } in
    let r =
      gathers ticked x z hr ha inside ps [] s.heap []
        (sym (all_alive-same ps s ticked refl refl) ∙ alive) start tt in
    let last = record (r.ended) { pending_move_players = [] } in
    let (s', sent) = send_batches r.out last in
    (
      s',
      sent,
      rw (r.done, flush_pending_moves) refl,
      subst (λ items. Sends ((s.server_tick + 1) % 2 ^ 16) i items (to_chunk i sent)) (r.gathered)
          (subst (λ t. Sends t i (batch_at i r.out) (to_chunk i sent)) r.tick
            (send_batches-Sends i r.out last r.apart)),
    )
