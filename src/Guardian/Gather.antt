-- ===== src/Guardian/Gather.antt =====
-- The first loop of `flush_pending_moves` of Guardian/src/guardian.cpp: what has gathered in the batch of a chunk.
use nicechunk_guardian.Base.{
  ℕ, ◌≤◌, ◌≡◌, refl, sym, ap, ◌∙◌, ◌==◌, true, false, if◌then◌else◌, List, [], ◌∷◌, ◌++◌, some,
  arith, &&-true, Bool-cases, inl, inr, append-nil, subst,
}
use nicechunk_guardian.Base.Int.{ℤ}
use nicechunk_guardian.Base.Table.{Distinct}
use nicechunk_guardian.Chunk.{contains_chunk, local_chunk_index}
use nicechunk_guardian.Protocol.Events.{MoveItem}
use nicechunk_guardian.Guardian.{Guardian, Player, modify}
use nicechunk_guardian.Guardian.Publish.{spread, collect_moves, is_alive, aoi_offsets}
use nicechunk_guardian.Guardian.Flush.{all_alive}
use nicechunk_guardian.Guardian.Due.{
  batch_at, is_sending, is_among, is_seen, moves_due, spread_due, spread-Distinct,
}

-- The heap as the loop has left it behind the players `before`.
pub record IsBehind (s : Guardian) (before : List ℕ) (heap : ℕ → Player) : Type 0 where
  pub same : (q : ℕ) → is_among q before ≡ false → heap q ≡ s.heap q
  pub idle : (q : ℕ) → is_among q before ≡ true → is_sending (heap q) ≡ false

idle-IsBehind :
    (s : Guardian) (p : ℕ) (before : List ℕ) (heap : ℕ → Player)
    → is_sending (heap p) ≡ false
    → IsBehind s before heap
    → IsBehind s (p ∷ before) heap
idle-IsBehind s p before heap off b = record {
  same = λ q h. b.same q (ground (arith, h));
  idle = λ q h. elim (Bool-cases (q == p)) [
    | inl here ↦ subst (λ k. is_sending (heap k) ≡ false) (ground (arith, here)) off
    | inr away ↦ b.idle q (ground (arith, h, away))
  ];
}

sent-IsBehind :
    (s : Guardian) (p : ℕ) (before : List ℕ) (heap : ℕ → Player)
    → IsBehind s before heap
    → IsBehind s
        (p ∷ before)
        (modify p (λ q. record q { has_pending_move = false; queued_pending_move = false }) heap)
sent-IsBehind s p before heap b = record {
  same = λ q h. elim (Bool-cases (q == p)) [
    | inl here ↦ ground (arith, here, h)
    | inr away ↦ rw away (b.same q (ground (arith, h, away)))
  ];
  idle = λ q h. elim (Bool-cases (q == p)) [
    | inl here ↦ rw here (ground arith)
    | inr away ↦ rw away (b.idle q (ground (arith, h, away)))
  ];
}

module _ (s : Guardian) (x z : ℤ) (hr : s.cfg.service_radius_chunks ≤ 127)
    (ha : s.cfg.player_aoi_radius_chunks ≤ 127) (h : contains_chunk s.cfg x z ≡ true) where
  -- What the loop comes to from some batches, for the players that are left.
  pub record Gathers (before ps : List ℕ) (heap : ℕ → Player) (batches : List (ℕ × List MoveItem))
      : Type 0 where
    pub ended : Guardian
    pub out : List (ℕ × List MoveItem)
    pub done : collect_moves ps batches (record s { heap = heap }) ≡ some (ended, out)
    pub gathered :
        batch_at (local_chunk_index s.cfg x z) out
        ≡ batch_at (local_chunk_index s.cfg x z) batches ++ moves_due s.cfg s.heap x z before ps
    pub apart : Distinct out
    pub tick : ended.server_tick ≡ s.server_tick

  pub gathers :
      (ps before : List ℕ) (heap : ℕ → Player) (batches : List (ℕ × List MoveItem))
      → all_alive ps s ≡ true
      → IsBehind s before heap
      → Distinct batches
      → Gathers before ps heap batches
  unfolding collect_moves all_alive is_alive
  gathers [] before heap batches alive b d = record {
    ended = record s { heap = heap };
    out = batches;
    done = refl;
    gathered = sym (append-nil _);
    apart = d;
    tick = refl;
  }
  gathers (p ∷ ps) before heap batches alive b d =
      let (live, others) = &&-true (is_alive p s) (all_alive ps s) alive in
      elim (Bool-cases (is_among p before)) [
        | inl again ↦
            let off = b.idle p again in
            let r =
              gathers ps (p ∷ before) heap batches others (idle-IsBehind s p before heap off b) d in
            record {
              ended = r.ended;
              out = r.out;
              apart = r.apart;
              tick = r.tick;
              done = rw (live, off) r.done;
              gathered = rw again r.gathered;
            }
        | inr first ↦ elim (Bool-cases (is_sending (heap p))) [
          | inr off ↦
              let r =
                gathers ps (p ∷ before) heap batches others (idle-IsBehind s p before heap off b)
                  d in
              record {
                ended = r.ended;
                out = r.out;
                apart = r.apart;
                tick = r.tick;
                done = rw (live, off) r.done;
                gathered = rw (first, sym (ap is_sending (b.same p first)), off) r.gathered;
              }
          | inl on ↦
              let rest = moves_due s.cfg s.heap x z (p ∷ before) ps in
              let r =
                gathers ps (p ∷ before) _
                  (spread (record s { heap = heap }) (heap p) (aoi_offsets s) batches) others
                  (sent-IsBehind s p before heap b)
                  (spread-Distinct (record s { heap = heap }) (heap p) (aoi_offsets s) batches d) in
              record {
                ended = r.ended;
                out = r.out;
                apart = r.apart;
                tick = r.tick;
                done = rw (live, on) r.done;
                gathered =
                    rw (first, sym (ap is_sending (b.same p first)), on)
                      (r.gathered
                        ∙ spread_due (record s { heap = heap }) (heap p) x z batches rest hr ha h
                        ∙ ap
                            (λ q.
                              batch_at (local_chunk_index s.cfg x z) batches
                              ++ (if is_seen s.cfg x z q then q.pending_move ∷ rest else rest))
                            (b.same p first));
              }
        ]
      ]
