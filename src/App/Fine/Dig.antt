-- ===== src/App/Fine/Dig.antt =====
-- About `handle_dig` and `handle_dig_batch` of Guardian/src/app.cpp: tables, rooms and chunks.
use nicechunk_guardian.Base.{
  ℕ, zero, suc, not, List, [], ◌∷◌, some, length, arith, Option-cases, inl, inr, min, drop, if_both,
}
use nicechunk_guardian.Wire.{Bytes}
use nicechunk_guardian.Chunk.{local_to_global}
use nicechunk_guardian.Protocol.Messages.{Dig}
use nicechunk_guardian.Protocol.Events.{DigEvent}
use nicechunk_guardian.Protocol.Decode.{decode_dig}
use nicechunk_guardian.Protocol.Encode.{encode_dig_event}
use nicechunk_guardian.Protocol.Batches.{decode_dig_batch, encode_dig_event_batch}
use nicechunk_guardian.Guardian.{Guardian}
use nicechunk_guardian.Guardian.Events.{accept_dig_seq, make_dig_event}
use nicechunk_guardian.Guardian.Publish.{publish_to_aoi, count_message}
use nicechunk_guardian.Guardian.State.{Same, metrics-Same}
use nicechunk_guardian.Guardian.Untouched.{
  Same-refl, Same-trans, heap-Same, publish_to_aoi-Same, accept_dig_seq-Same,
}
use nicechunk_guardian.App.{PerSocketData}
use nicechunk_guardian.App.Dig.{
  limit_dig, is_too_far, count_dig_in, handle_dig, accept_digs, Reading, refused, accepted,
  send_dig_batch, send_dig_batches, spread_events, handle_dig_batch,
}
use nicechunk_guardian.App.Fine.{IsQuiet, with_player_cases}

limit_dig-Same : (now p : ℕ) (s : Guardian) → Same s (limit_dig now p s).0
unfolding limit_dig
limit_dig-Same now p s = heap-Same s _ (λ q. ground arith)

pub handle_dig-IsQuiet :
    (now : ℕ) (message : Bytes) (user : PerSocketData) (s : Guardian)
    → IsQuiet s (handle_dig now message user s)
unfolding handle_dig
handle_dig-IsQuiet now message user s =
    with_player_cases (IsQuiet s) user s _ (Same-refl s) (λ p at.
      elim (Option-cases (decode_dig message)) [
        | inl bad ↦ rw bad (Same-refl s)
        | inr (dig, e) ↦
            let limited = (limit_dig now p s).0 in
            let seen = (accept_dig_seq p dig.seq limited).0 in
            let limit = limit_dig-Same now p s in
            let accept = Same-trans s limited seen limit (accept_dig_seq-Same p dig.seq limited) in
            let (inside, x, z) = local_to_global s.cfg dig.local_chunk_x dig.local_chunk_z in
            let payload = encode_dig_event (make_dig_event (seen.heap p) dig seen) in
            let told = (publish_to_aoi x z payload seen).0 in
            let publish = Same-trans s seen told accept (publish_to_aoi-Same x z payload seen) in
            rw e (
              if_both (IsQuiet s) (not (limit_dig now p s).1) _ _ limit (
                if_both (IsQuiet s) (not (accept_dig_seq p dig.seq limited).1) _ _ accept (
                  if_both (IsQuiet s) (not inside) _ _ accept (
                    if_both (IsQuiet s) (is_too_far p x z seen) _ _ accept (
                      Same-trans s told (count_dig_in 1 message told) publish
                        (metrics-Same told (count_dig_in 1 message told).metrics))))))
      ])

accept_digs-Same : (p : ℕ) (digs : List Dig) (s : Guardian) → Same s (accept_digs p digs s).0
unfolding accept_digs
accept_digs-Same p [] s = Same-refl s
accept_digs-Same p (dig ∷ digs) s =
    let seen = (accept_dig_seq p dig.seq s).0 in
    let accept = accept_dig_seq-Same p dig.seq s in
    let (inside, x, z) = local_to_global s.cfg dig.local_chunk_x dig.local_chunk_z in
    if_both (λ (r : Guardian × Reading). Same s r.0) (not (accept_dig_seq p dig.seq s).1) _ _ accept
      (if_both (λ (r : Guardian × Reading). Same s r.0) (not inside) _ _ accept
        (if_both (λ (r : Guardian × Reading). Same s r.0) (is_too_far p x z seen) _ _ accept
          (Same-trans s seen (accept_digs p digs seen).0 accept (accept_digs-Same p digs seen))))

send_dig_batch-Same :
    (fuel id index : ℕ) (items : List DigEvent) (s : Guardian)
    → Same s (send_dig_batch fuel id index items s).0
unfolding send_dig_batch
send_dig_batch-Same zero id index items s = Same-refl s
send_dig_batch-Same (suc fuel) id index [] s = Same-refl s
send_dig_batch-Same (suc fuel) id index (item ∷ items) s =
    let count = min 255 (length (item ∷ items)) in
    let counted = count_message (encode_dig_event_batch id s.server_tick (item ∷ items) count) s in
    Same-trans s counted _ (metrics-Same s counted.metrics)
      (send_dig_batch-Same fuel id index (drop count (item ∷ items)) counted)

send_dig_batches-Same :
    (id : ℕ) (batches : List (ℕ × List DigEvent)) (s : Guardian)
    → Same s (send_dig_batches id batches s).0
unfolding send_dig_batches
send_dig_batches-Same id [] s = Same-refl s
send_dig_batches-Same id ((index, items) ∷ batches) s =
    let s' = (send_dig_batch (length items) id index items s).0 in
    Same-trans s s' _ (send_dig_batch-Same (length items) id index items s)
      (send_dig_batches-Same id batches s')

pub handle_dig_batch-IsQuiet :
    (now : ℕ) (message : Bytes) (user : PerSocketData) (s : Guardian)
    → IsQuiet s (handle_dig_batch now message user s)
unfolding handle_dig_batch
handle_dig_batch-IsQuiet now message user s =
    with_player_cases (IsQuiet s) user s _ (Same-refl s) (λ p at.
      elim (Option-cases (decode_dig_batch message)) [
        | inl bad ↦ rw bad (Same-refl s)
        | inr (digs, e) ↦
            let limited = (limit_dig now p s).0 in
            let limit = limit_dig-Same now p s in
            let read = (accept_digs p digs limited).0 in
            let reads = Same-trans s limited read limit (accept_digs-Same p digs limited) in
            rw e (
              if_both (IsQuiet s) (not (limit_dig now p s).1) _ _ limit
                (reading (length digs) message p s read reads (accept_digs p digs limited).1))
      ])
  where
    reading :
        (n : ℕ) (message : Bytes) (p : ℕ) (s read : Guardian)
        → Same s read
        → (r : Reading)
        → IsQuiet s (elim r [
          | refused calls ↦ some (read, calls)
          | accepted events ↦
              let (told, calls) =
                send_dig_batches
                  (read.heap p).local_player_id
                  (spread_events read events [])
                  read in
              some (count_dig_in n message told, calls)
        ])
    reading n message p s read reads (refused calls) = reads
    reading n message p s read reads (accepted events) =
        let id = (read.heap p).local_player_id in
        let batches = spread_events read events [] in
        let told = (send_dig_batches id batches read).0 in
        Same-trans s told (count_dig_in n message told)
          (Same-trans s read told reads (send_dig_batches-Same id batches read))
          (metrics-Same told (count_dig_in n message told).metrics)
