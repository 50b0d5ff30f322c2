-- ===== src/Guardian/Snapshots/Loops.antt =====
-- About the loops of the snapshots of Guardian/src/guardian.cpp.
use nicechunk_guardian.Base.{
  ℕ, zero, suc, ◌<◌, ◌≡◌, refl, sym, ap, subst, Bool, true, false, ◌&&◌, if◌then◌else◌, List, [],
  ◌∷◌, ◌++◌, some, get_elem?, arith, All, All-append, Bool-cases, Option-cases, inl, inr, ◌⊎◌,
}
use mathlib.Core.List.{Memᴰ}
use mathlib.Core.List.Memᴰ
use nicechunk_guardian.Base.Int.{ℤ, ◌+ℤ◌, eqb_ℤ, eqb_ℤ_iff}
use nicechunk_guardian.Base.Table.{lookup}
use nicechunk_guardian.Aoi.{AoiOffset}
use nicechunk_guardian.Aoi.Offsets.{occurrences}
use nicechunk_guardian.Chunk.{chunk_key, contains_chunk}
use nicechunk_guardian.Guardian.{Player, Guardian, ChunkRoom}
use nicechunk_guardian.Guardian.Publish.{is_alive}
use nicechunk_guardian.Guardian.State.{IsState}
use nicechunk_guardian.Guardian.Reads.Held.{member_alive}
use nicechunk_guardian.Guardian.Snapshots.{is_shown, collect_room, collect_around}

module _ {A : Type 0} (keeps : Player → Bool) (make : Player → A) (viewer : ℕ) (s : Guardian)
    (state : IsState s) where
  -- What the inner loop gives, for any property of what it lists.
  record Lists (P : A → Type 0) (players : List ℕ) (out : List A) : Type 0 where
    pub each :
        ((i q : ℕ)
          → get_elem? players i ≡ some q
          → is_shown keeps make viewer s q ≡ true
          → P (make (s.heap q)))
        → All P out
    pub has :
        (i q : ℕ)
        → get_elem? players i ≡ some q
        → is_shown keeps make viewer s q ≡ true
        → Memᴰ (make (s.heap q)) out

  Lists-one :
      (P : A → Type 0) (b : Bool) (other : ℕ) (players : List ℕ) (out : List A)
      → is_shown keeps make viewer s other ≡ b
      → Lists P players out
      → Lists P (other ∷ players) (if b then make (s.heap other) ∷ out else out)
  Lists-one P true other players out e l = record {
    each = λ all. (all 0 other refl e, l.each (λ i. all (suc i)));
    has = λ i q. go i q;
  }
    where
      go :
          (i q : ℕ)
          → get_elem? (other ∷ players) i ≡ some q
          → is_shown keeps make viewer s q ≡ true
          → Memᴰ (make (s.heap q)) (make (s.heap other) ∷ out)
      go zero q at shown = Memᴰ.head (ap (λ x. make (s.heap x)) (ground (arith, at)))
      go (suc i) q at shown = Memᴰ.tail (l.has i q at shown)
  Lists-one P false other players out e l = record {
    each = λ all. l.each (λ i. all (suc i));
    has = λ i q. go i q;
  }
    where
      go :
          (i q : ℕ)
          → get_elem? (other ∷ players) i ≡ some q
          → is_shown keeps make viewer s q ≡ true
          → Memᴰ (make (s.heap q)) out
      go zero q at shown =
          absurd (ground (arith, e, shown, ap (is_shown keeps make viewer s) (the_same q at)))
        where
          the_same : (q : ℕ) → some other ≡ some q → other ≡ q
          the_same q at = ground (arith, at)
      go (suc i) q at shown = l.has i q at shown

  collect_room-Lists :
      (P : A → Type 0) (players : List ℕ)
      → ((i q : ℕ) → get_elem? players i ≡ some q → is_alive q s ≡ true)
      → (out : List A) × (collect_room keeps make viewer players s ≡ some out) × Lists P players out
  unfolding collect_room
  collect_room-Lists P [] alive =
      ([], refl, record { each = λ all. tt; has = λ i q at. absurd (ground (arith, at)) })
  collect_room-Lists P (other ∷ players) alive =
      let (more, e, l) = collect_room-Lists P players (λ i. alive (suc i)) in
      (
        (if is_shown keeps make viewer s other then make (s.heap other) ∷ more else more),
        rw (e, alive 0 other refl, collect_room) refl,
        Lists-one P (is_shown keeps make viewer s other) other players more refl l,
      )

  -- A player in a slot of the room of the chunk at an offset.
  pub record At (dx dz : ℤ) (q : ℕ) : Type 0 where
    pub room : ChunkRoom
    pub slot : ℕ
    pub inside :
        contains_chunk s.cfg
          ((s.heap viewer).current_chunk_x +ℤ dx)
          ((s.heap viewer).current_chunk_z +ℤ dz)
        ≡ true
    pub there :
        lookup
          (chunk_key
            ((s.heap viewer).current_chunk_x +ℤ dx)
            ((s.heap viewer).current_chunk_z +ℤ dz))
          s.rooms
        ≡ some room
    pub seat : get_elem? room.players slot ≡ some q
    pub shown : is_shown keeps make viewer s q ≡ true

  -- What the outer loop gives.
  pub record Around (P : A → Type 0) (offsets : List AoiOffset) (out : List A) : Type 0 where
    pub each :
        ((dx dz : ℤ) (q : ℕ) → 0 < occurrences dx dz offsets → At dx dz q → P (make (s.heap q)))
        → All P out
    pub has :
        (dx dz : ℤ) (q : ℕ)
        → 0 < occurrences dx dz offsets
        → At dx dz q
        → Memᴰ (make (s.heap q)) out

  occurs_tail :
      (o : AoiOffset) (offsets : List AoiOffset) (dx dz : ℤ)
      → 0 < occurrences dx dz offsets
      → 0 < occurrences dx dz (o ∷ offsets)
  unfolding occurrences
  occurs_tail o offsets dx dz h = ground (arith, h)

  occurs_head : (o : AoiOffset) (offsets : List AoiOffset) → 0 < occurrences o.dx o.dz (o ∷ offsets)
  unfolding occurrences
  occurs_head o offsets = ground (arith, (eqb_ℤ_iff o.dx o.dx).1 refl, (eqb_ℤ_iff o.dz o.dz).1 refl)

  -- An offset that occurs is the first one or occurs behind it.
  occurs_cases :
      (o : AoiOffset) (offsets : List AoiOffset) (dx dz : ℤ)
      → 0 < occurrences dx dz (o ∷ offsets)
      → ((o.dx ≡ dx) × (o.dz ≡ dz)) ⊎ (0 < occurrences dx dz offsets)
  unfolding occurrences
  occurs_cases o offsets dx dz h = elim (Bool-cases (eqb_ℤ o.dx dx && eqb_ℤ o.dz dz)) [
    | inl same ↦
        inl (
          (eqb_ℤ_iff o.dx dx).0 (ground (arith, same)),
          (eqb_ℤ_iff o.dz dz).0 (ground (arith, same)),
        )
    | inr other ↦ inr (ground (arith, h, other))
  ]

  -- An offset without a room adds nothing.
  Around-skip :
      (P : A → Type 0) (o : AoiOffset) (offsets : List AoiOffset) (out : List A)
      → ((q : ℕ) → At o.dx o.dz q → ⊥)
      → Around P offsets out
      → Around P (o ∷ offsets) out
  Around-skip P o offsets out nobody l = record {
    each = λ all. l.each (λ dx dz q h. all dx dz q (occurs_tail o offsets dx dz h));
    has = λ dx dz q h at. elim (occurs_cases o offsets dx dz h) [
      | inl (ex, ez) ↦
          absurd (nobody q (subst (λ x. At x o.dz q) (sym ex) (subst (λ z. At dx z q) (sym ez) at)))
      | inr later ↦ l.has dx dz q later at
    ];
  }

  Around-room :
      (P : A → Type 0) (o : AoiOffset) (offsets : List AoiOffset) (room : ChunkRoom)
      (here more : List A)
      → contains_chunk s.cfg
          ((s.heap viewer).current_chunk_x +ℤ o.dx)
          ((s.heap viewer).current_chunk_z +ℤ o.dz)
        ≡ true
      → lookup
          (chunk_key
            ((s.heap viewer).current_chunk_x +ℤ o.dx)
            ((s.heap viewer).current_chunk_z +ℤ o.dz))
          s.rooms
        ≡ some room
      → Lists P room.players here
      → Around P offsets more
      → Around P (o ∷ offsets) (here ++ more)
  Around-room P o offsets room here more inside there h l = record {
    each = λ all.
        All-append P here more
          (h.each (λ i q seat shown. all o.dx o.dz q (occurs_head o offsets) (record {
            room = room;
            slot = i;
            inside = inside;
            there = there;
            seat = seat;
            shown = shown;
          })))
          (l.each (λ dx dz q occurs. all dx dz q (occurs_tail o offsets dx dz occurs)));
    has = λ dx dz q occurs at. elim (occurs_cases o offsets dx dz occurs) [
      | inl (ex, ez) ↦
          let at' : At o.dx o.dz q =
            subst (λ x. At x o.dz q) (sym ex) (subst (λ z. At dx z q) (sym ez) at) in
          let same : at'.room ≡ room = ground (arith, at'.there, there) in
          Memᴰ.append_left more (
            h.has at'.slot q
              (subst (λ (r : ChunkRoom). get_elem? r.players at'.slot ≡ some q) same at'.seat)
              at'.shown)
      | inr later ↦ Memᴰ.append_right here (l.has dx dz q later at)
    ];
  }

  pub collect_around-Around :
      (P : A → Type 0) (offsets : List AoiOffset)
      → (out : List A) × (collect_around keeps make viewer offsets s ≡ some out)
        × Around P offsets out
  unfolding collect_around
  collect_around-Around P [] = (
    [],
    refl,
    record { each = λ all. tt; has = λ dx dz q h. absurd (unfold occurrences in omega (arith, h)) },
  )
  collect_around-Around P (o ∷ offsets) =
      let (more, e, l) = collect_around-Around P offsets in
      let x = (s.heap viewer).current_chunk_x +ℤ o.dx in
      let z = (s.heap viewer).current_chunk_z +ℤ o.dz in
      elim (Bool-cases (contains_chunk s.cfg x z)) [
        | inr outside ↦ (
          more,
          rw (outside, e, collect_around) refl,
          Around-skip P o offsets more (λ q at. ground (arith, outside, at.inside)) l,
        )
        | inl inside ↦ elim (Option-cases (lookup (chunk_key x z) s.rooms)) [
          | inl empty ↦ (
            more,
            rw (inside, empty, e, collect_around) refl,
            Around-skip P o offsets more (λ q at. ground (arith, empty, at.there)) l,
          )
          | inr (room, there) ↦
              let (here, e', h) =
                collect_room-Lists P room.players
                  (λ i q. member_alive (chunk_key x z) i q room s state there) in
              (
                here ++ more,
                rw (inside, there, e', e, collect_around) refl,
                Around-room P o offsets room here more inside there h l,
              )
        ]
      ]
