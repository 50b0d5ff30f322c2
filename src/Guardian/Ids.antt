-- ===== src/Guardian/Ids.antt =====
-- `allocate_player_id` of Guardian/src/guardian.cpp finds an id.
use nicechunk_guardian.Base.{
  ℕ, zero, suc, ◌+◌, ◌≤◌, ◌≡◌, ◌≢◌, refl, if◌then◌else◌, List, none, arith, Option-cases, inl, inr,
  ltb,
}
use nicechunk_guardian.Base.Table.{lookup}
use nicechunk_guardian.Guardian.{Guardian}
use nicechunk_guardian.Guardian.Players.{next_id, allocate_loop}

-- The ids on the way from `next` on, in `n` rounds.
abbrev InReach : ℕ → ℕ → ℕ → Type 0
InReach n next k = if ltb k next then suc (k + 65535) ≤ next + n else suc k ≤ next + n

-- A result is an id that was free.
pub found_free :
    (n next : ℕ) (players : List (ℕ × ℕ))
    → (allocate_loop n next players).0 ≢ 0
    → lookup (allocate_loop n next players).0 players ≡ none
unfolding allocate_loop
found_free zero next players ne = absurd (ne refl)
found_free (suc n) next players ne = elim (Option-cases (lookup next players)) [
  | inl absent ↦ rw (absent, allocate_loop) absent
  | inr (v, found) ↦ ground (arith, found, found_free n (next_id next) players)
]
