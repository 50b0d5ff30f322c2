-- ===== src/Guardian/Links.antt =====
-- How players and rooms of Guardian/src/guardian.cpp point at one another.
use nicechunk_guardian.Base.{
  ℕ, ap, subst, sym, ◌∙◌, ◌-◌, ◌<◌, ◌≡◌, refl, false, ◌==◌, ltb, if◌then◌else◌, none, some, List,
  [], ◌∷◌, length, get_elem?, set, arith,
}
use nicechunk_guardian.Base.Table.{lookup}
use nicechunk_guardian.Base.Slots.{get_elem?-take, get_elem?-set, get_elem?-get_or}
use nicechunk_guardian.Chunk.{chunk_key}
use nicechunk_guardian.Guardian.{Player, ChunkRoom}
use nicechunk_guardian.Guardian.Rooms.{swap_remove, back_of, is_empty_room}

-- Slot `i` of the room under `k` holds `p`.
abbrev pub Seat : List (ℕ × ChunkRoom) → ℕ → ℕ → ℕ → Type 0
Seat rooms k i p = (r : ChunkRoom) × (lookup k rooms ≡ some r) × (get_elem? r.players i ≡ some p)

-- A player that points to a room sits there, in the slot that it remembers; every player in a slot
-- points back to it; a room has a player and stands under its key.
pub record Links (heap : ℕ → Player) (rooms : List (ℕ × ChunkRoom)) : Type 0 where
  pub forth :
      (p k : ℕ)
      → (heap p).current_chunk_room ≡ some k
      → Seat rooms k (heap p).index_in_chunk_vector p
  pub back :
      (k i p : ℕ) (r : ChunkRoom)
      → lookup k rooms ≡ some r
      → get_elem? r.players i ≡ some p
      → ((heap p).current_chunk_room ≡ some k) × ((heap p).index_in_chunk_vector ≡ i)
  pub solid :
      (k : ℕ) (r : ChunkRoom)
      → lookup k rooms ≡ some r
      → (is_empty_room r.players ≡ false) × (chunk_key r.chunk_x r.chunk_z ≡ k)

-- The slots that `swap_remove` leaves: the last player moves into the free slot.
pub swap_remove_slot :
    (idx i : ℕ) (ps : List ℕ)
    → idx < length ps
    → get_elem? (swap_remove idx ps) i ≡ (
        if ltb i (length ps - 1)
        then (if idx == i then some (back_of ps) else get_elem? ps i)
        else none)
unfolding swap_remove
swap_remove_slot idx i ps h = ground (
  arith,
  get_elem?-take (length ps - 1) i (set ps idx (back_of ps)),
  get_elem?-set ps idx i (back_of ps),
)

pub back_of_slot : (ps : List ℕ) → 0 < length ps → get_elem? ps (length ps - 1) ≡ some (back_of ps)
back_of_slot ps h = get_elem?-get_or ps (length ps - 1) 0 (omega arith)

pub is_empty_room_slot :
    (ps : List ℕ) (i p : ℕ) → get_elem? ps i ≡ some p → is_empty_room ps ≡ false
is_empty_room_slot [] i p e = cc
is_empty_room_slot (q ∷ ps) i p e = refl

pub same_slot :
    (ps : List ℕ) (i j p q : ℕ) → get_elem? ps i ≡ some p → get_elem? ps j ≡ some q → i ≡ j → p ≡ q
same_slot ps i j p q a b e = cc

-- Writes to the other fields of a player.
pub Links-same :
    (heap heap' : ℕ → Player) (rooms : List (ℕ × ChunkRoom))
    → ((q : ℕ) → (heap' q).current_chunk_room ≡ (heap q).current_chunk_room)
    → ((q : ℕ) → (heap' q).index_in_chunk_vector ≡ (heap q).index_in_chunk_vector)
    → Links heap rooms
    → Links heap' rooms
Links-same heap heap' rooms room index l = record {
  forth = λ p k e. subst (λ i. Seat rooms k i p) (sym (index p)) (l.forth p k (sym (room p) ∙ e));
  back = λ k i p r at e. (room p ∙ (l.back k i p r at e).0, index p ∙ (l.back k i p r at e).1);
  solid = l.solid;
}

-- Writes to a player that is in no room, before and after.
pub Links-outside :
    (heap heap' : ℕ → Player) (rooms : List (ℕ × ChunkRoom)) (p : ℕ)
    → (heap p).current_chunk_room ≡ none
    → (heap' p).current_chunk_room ≡ none
    → ((q : ℕ) → (q == p) ≡ false → heap' q ≡ heap q)
    → Links heap rooms
    → Links heap' rooms
Links-outside heap heap' rooms p out out' others l = record {
  forth = λ q k e.
      let away : (q == p) ≡ false =
        ground (arith, e, out', ap (λ r. (heap' r).current_chunk_room)) in
      subst (λ h. Seat rooms k h.index_in_chunk_vector q) (sym (others q away))
        (l.forth q k (ap (λ h. h.current_chunk_room) (sym (others q away)) ∙ e));
  back = λ k i q r at e.
      let (room, index) = l.back k i q r at e in
      let away : (q == p) ≡ false =
        ground (arith, room, out, ap (λ r. (heap r).current_chunk_room)) in
      (
        ap (λ h. h.current_chunk_room) (others q away) ∙ room,
        ap (λ h. h.index_in_chunk_vector) (others q away) ∙ index,
      );
  solid = l.solid;
}
