-- ===== src/App/Dig.antt =====
-- `handle_dig` and `handle_dig_batch` of Guardian/src/app.cpp. A difference of two int32_t is exact, as in C++
-- where it does not overflow.
use nicechunk_guardian.Base.{
  ℕ, zero, suc, ◌+◌, ◌*◌, Bool, not, ◌||◌, if◌then◌else◌, Option, none, some, List, [], ◌∷◌, ◌++◌,
  length, min, drop,
}
use nicechunk_guardian.Base.Int.{ℤ, pos, ◌+ℤ◌, ◌-ℤ◌, leb_ℤ}
use nicechunk_guardian.Wire.{Bytes}
use nicechunk_guardian.Chunk.{contains_chunk, local_chunk_index, local_to_global}
use nicechunk_guardian.RateLimit.{rate_limit_allow}
use nicechunk_guardian.Protocol.{
  error_bad_payload_length, error_rate_limit, error_out_of_range, error_bad_dig_seq,
}
use nicechunk_guardian.Protocol.Messages.{Dig}
use nicechunk_guardian.Protocol.Events.{DigEvent}
use nicechunk_guardian.Protocol.Decode.{decode_dig}
use nicechunk_guardian.Protocol.Encode.{encode_dig_event}
use nicechunk_guardian.Protocol.Batches.{decode_dig_batch, encode_dig_event_batch}
use nicechunk_guardian.Guardian.{Guardian, chunk_topic, modify}
use nicechunk_guardian.Guardian.Events.{accept_dig_seq, make_dig_event}
use nicechunk_guardian.Guardian.Publish.{publish_to_aoi, push_batch, count_message}
use nicechunk_guardian.App.{
  PerSocketData, Call, publish, Outcome, send_error, close_with_error, published, with_player,
  count_bytes_in,
}

-- `d < -2 || d > 2`.
abbrev pub is_far : ℤ → Bool
is_far d = not (leb_ℤ (pos 0 -ℤ pos 2) d) || not (leb_ℤ d (pos 2))

unfoldable pub is_too_far : ℕ → ℤ → ℤ → Guardian → Bool
is_too_far p x z s =
    is_far (x -ℤ (s.heap p).current_chunk_x) || is_far (z -ℤ (s.heap p).current_chunk_z)

-- `rate_limit_allow` on the player's dig window.
unfoldable pub limit_dig : ℕ → ℕ → Guardian → Guardian × Bool
limit_dig now p s =
    let (window, allowed) =
      rate_limit_allow now (s.heap p).dig_window s.cfg.client_dig_rate_limit_per_sec in
    (record s { heap = modify p (λ q. record q { dig_window = window }) s.heap }, allowed)

-- `metrics().dig_in += n` and the bytes.
abbrev pub count_dig_in : ℕ → Bytes → Guardian → Guardian
count_dig_in n message s =
    count_bytes_in message
      (record s { metrics = record (s.metrics) { dig_in = s.metrics.dig_in + n } })

unfoldable pub handle_dig : ℕ → Bytes → PerSocketData → Guardian → Option Outcome
unfolding limit_dig is_too_far
handle_dig now message user s = with_player user s (λ p. elim (decode_dig message) [
  | none ↦ some (s, close_with_error error_bad_payload_length)
  | some dig ↦
      let (limited, allowed) = limit_dig now p s in
      let (accepted, fresh) = accept_dig_seq p dig.seq limited in
      let (inside, x, z) = local_to_global s.cfg dig.local_chunk_x dig.local_chunk_z in
      let (told, sent) =
        publish_to_aoi x z (encode_dig_event (make_dig_event (accepted.heap p) dig accepted))
          accepted in
      if not allowed
      then some (limited, send_error error_rate_limit)
      else if not fresh
      then some (accepted, send_error error_bad_dig_seq)
      else if not inside
      then some (accepted, close_with_error error_out_of_range)
      else if is_too_far p x z accepted
      then some (accepted, send_error error_out_of_range)
      else some (count_dig_in 1 message told, published sent)
])

pub record PendingDigEvent : Type 0 where
  pub chunk_x : ℤ
  pub chunk_z : ℤ
  pub event : DigEvent

-- How the loop over the digs ends: with an early return, or with the events.
pub data Reading : Type 0 where
  refused : List Call → Reading
  accepted : List PendingDigEvent → Reading

abbrev pub add_event : PendingDigEvent → Reading → Reading
add_event e (refused calls) = refused calls
add_event e (accepted events) = accepted (e ∷ events)

unfoldable pub accept_digs : ℕ → List Dig → Guardian → Guardian × Reading
unfolding is_too_far
accept_digs p [] s = (s, accepted [])
accept_digs p (dig ∷ digs) s =
    let (s', fresh) = accept_dig_seq p dig.seq s in
    let (inside, x, z) = local_to_global s.cfg dig.local_chunk_x dig.local_chunk_z in
    let (s'', rest) = accept_digs p digs s' in
    if not fresh
    then (s', refused (send_error error_bad_dig_seq))
    else if not inside
    then (s', refused (close_with_error error_out_of_range))
    else if is_too_far p x z s'
    then (s', refused (send_error error_out_of_range))
    else (
      s'',
      add_event (record { chunk_x = x; chunk_z = z; event = make_dig_event (s'.heap p) dig s' })
          rest,
    )

-- `n` rounds of the loop over `dx`, from the chunk at `x` on.
unfoldable pub spread_row :
    Guardian → ℕ → ℤ → ℤ → DigEvent → List (ℕ × List DigEvent) → List (ℕ × List DigEvent)
spread_row s zero x z event batches = batches
spread_row s (suc n) x z event batches = spread_row s n (x +ℤ pos 1) z event (
    if contains_chunk s.cfg x z
    then push_batch (local_chunk_index s.cfg x z) event batches
    else batches)

-- `n` rounds of the loop over `dz`, each with `width` rounds from `west` on.
unfoldable pub spread_rows :
    Guardian → ℕ → ℕ → ℤ → ℤ → DigEvent → List (ℕ × List DigEvent) → List (ℕ × List DigEvent)
unfolding spread_row
spread_rows s zero width west z event batches = batches
spread_rows s (suc n) width west z event batches =
    spread_rows s n width west (z +ℤ pos 1) event (spread_row s width west z event batches)

-- From -radius to radius there are 2 * radius + 1 rounds.
unfoldable pub spread_events :
    Guardian → List PendingDigEvent → List (ℕ × List DigEvent) → List (ℕ × List DigEvent)
unfolding spread_rows
spread_events s [] batches = batches
spread_events s (e ∷ events) batches =
    let r = s.cfg.player_aoi_radius_chunks in
    spread_events s events (
      spread_rows s (r * 2 + 1) (r * 2 + 1) (e.chunk_x -ℤ pos r) (e.chunk_z -ℤ pos r) e.event
        batches)

-- The `while` over one batch. Every round takes an item, so as many rounds as items are enough.
unfoldable pub send_dig_batch : ℕ → ℕ → ℕ → List DigEvent → Guardian → Outcome
send_dig_batch zero id index items s = (s, [])
send_dig_batch (suc fuel) id index [] s = (s, [])
send_dig_batch (suc fuel) id index (item ∷ items) s =
    let count = min 255 (length (item ∷ items)) in
    let payload = encode_dig_event_batch id s.server_tick (item ∷ items) count in
    let (s', calls) =
      send_dig_batch fuel id index (drop count (item ∷ items)) (count_message payload s) in
    (s', publish (chunk_topic index) payload ∷ calls)

unfoldable pub send_dig_batches : ℕ → List (ℕ × List DigEvent) → Guardian → Outcome
unfolding send_dig_batch
send_dig_batches id [] s = (s, [])
send_dig_batches id ((index, items) ∷ batches) s =
    let (s', calls) = send_dig_batch (length items) id index items s in
    let (s'', more) = send_dig_batches id batches s' in (s'', calls ++ more)

unfoldable pub handle_dig_batch : ℕ → Bytes → PerSocketData → Guardian → Option Outcome
unfolding limit_dig accept_digs spread_events send_dig_batches
handle_dig_batch now message user s = with_player user s (λ p. elim (decode_dig_batch message) [
  | none ↦ some (s, close_with_error error_bad_payload_length)
  | some digs ↦
      let (limited, allowed) = limit_dig now p s in
      let (read, reading) = accept_digs p digs limited in
      if not allowed then some (limited, send_error error_rate_limit) else elim reading [
        | refused calls ↦ some (read, calls)
        | accepted events ↦
            let (told, calls) =
              send_dig_batches (read.heap p).local_player_id (spread_events read events []) read in
            some (count_dig_in (length digs) message told, calls)
      ]
])
