-- ===== src/Base/Table.antt =====
-- A map as an association list: what `find`, `emplace`, assignment, `erase` and `size` do.
use nicechunk_guardian.Base.Tests.{◌==◌, ltb, if◌then◌else◌}
use nicechunk_guardian.Base.Lists.{length}
use Prim.Native.Nat.{ℕ, suc, ◌≤◌, ◌<◌}
use mathlib.Core.Path.{◌≡◌, refl, ap}
use mathlib.Core.List.{List, [], ◌∷◌}
use mathlib.Core.Option.{Option, none, some}
use native.Mathlib.Omega.{arith}

module _ {ℓ} {V : Type ℓ} where
  unfoldable pub lookup : ℕ → List (ℕ × V) → Option V
  lookup wanted [] = none
  lookup wanted (entry ∷ rest) = if entry.0 == wanted then some entry.1 else lookup wanted rest

  -- Assignment `m[k] = v`; on an absent key it is also `emplace`.
  unfoldable pub insert : ℕ → V → List (ℕ × V) → List (ℕ × V)
  insert key value [] = (key, value) ∷ []
  insert key value (entry ∷ rest) =
      if entry.0 == key then (key, value) ∷ rest else entry ∷ insert key value rest

  -- `erase(k)`: every entry under the key goes.
  unfoldable pub erase : ℕ → List (ℕ × V) → List (ℕ × V)
  erase k [] = []
  erase k ((j, v) ∷ m) = let rest = erase k m in if j == k then rest else (j, v) ∷ rest

  pub lookup-insert :
      (key wanted : ℕ) (value : V) (entries : List (ℕ × V))
      → lookup wanted (insert key value entries)
        ≡ (if key == wanted then some value else lookup wanted entries)
  unfolding lookup insert
  lookup-insert key wanted value [] = refl
  lookup-insert key wanted value (entry ∷ rest) =
      ground (arith, lookup-insert key wanted value rest)

  pub lookup-erase :
      (k j : ℕ) (m : List (ℕ × V)) → lookup j (erase k m) ≡ (if k == j then none else lookup j m)
  unfolding lookup erase
  lookup-erase k j [] = ground arith
  lookup-erase k j ((i, w) ∷ m) = ground (arith, lookup-erase k j m)

  pub length-insert_new :
      (k : ℕ) (v : V) (m : List (ℕ × V))
      → lookup k m ≡ none
      → length (insert k v m) ≡ suc (length m)
  unfolding lookup insert
  length-insert_new k v [] h = refl
  length-insert_new k v ((j, w) ∷ m) h = ground (arith, length-insert_new k v m)

  pub length-insert_old :
      (k : ℕ) (v w : V) (m : List (ℕ × V)) → lookup k m ≡ some w → length (insert k v m) ≡ length m
  unfolding lookup insert
  length-insert_old k v w [] h = cc
  length-insert_old k v w ((j, u) ∷ m) h = ground (arith, length-insert_old k v w m)

  pub length-erase-le : (k : ℕ) (m : List (ℕ × V)) → length (erase k m) ≤ length m
  unfolding erase
  length-erase-le k [] = omega arith
  length-erase-le k ((j, v) ∷ m) = ground (arith, length-erase-le k m)

-- A std::map keeps its entries in the order of the keys.
module _ {ℓ} {V : Type ℓ} where
  unfoldable pub insert_sorted : ℕ → V → List (ℕ × V) → List (ℕ × V)
  insert_sorted k v [] = (k, v) ∷ []
  insert_sorted k v ((j, w) ∷ m) =
      if j == k
      then (k, v) ∷ m
      else if ltb k j
      then (k, v) ∷ (j, w) ∷ m
      else (j, w) ∷ insert_sorted k v m

  -- The keys rise, and the first is at least `lo`.
  abbrev pub Ascending : ℕ → List (ℕ × V) → Type 0
  Ascending lo [] = Unit {0}
  Ascending lo ((k, v) ∷ m) = (lo ≤ k) × Ascending (suc k) m

  pub lookup-insert_sorted :
      (k j : ℕ) (v : V) (m : List (ℕ × V)) (lo : ℕ)
      → Ascending lo m
      → lookup j (insert_sorted k v m) ≡ (if k == j then some v else lookup j m)
  unfolding lookup insert_sorted
  lookup-insert_sorted k j v [] lo h = refl
  lookup-insert_sorted k j v ((i, w) ∷ m) lo h =
      ground (arith, lookup-insert_sorted k j v m (suc i) h.1)

  pub insert_sorted-Ascending :
      (k : ℕ) (v : V) (m : List (ℕ × V)) (lo : ℕ)
      → lo ≤ k
      → Ascending lo m
      → Ascending lo (insert_sorted k v m)
  unfolding insert_sorted
  insert_sorted-Ascending k v [] lo hk h = (hk, tt)
  insert_sorted-Ascending k v ((i, w) ∷ m) lo hk h =
      ground (arith, insert_sorted-Ascending k v m (suc i))

  pub Ascending-mono : (lo hi : ℕ) (m : List (ℕ × V)) → lo ≤ hi → Ascending hi m → Ascending lo m
  Ascending-mono lo hi [] le h = tt
  Ascending-mono lo hi ((i, w) ∷ m) le h = (omega arith, h.1)

  pub erase-Ascending :
      (k : ℕ) (m : List (ℕ × V)) (lo : ℕ) → Ascending lo m → Ascending lo (erase k m)
  unfolding erase
  erase-Ascending k [] lo h = tt
  erase-Ascending k ((i, w) ∷ m) lo h =
      ground (arith, erase-Ascending k m (suc i) h.1, Ascending-mono lo (suc i) (erase k m))

  -- A key below all of the keys is absent.
  pub lookup_below :
      (k : ℕ) (m : List (ℕ × V)) (lo : ℕ) → Ascending lo m → k < lo → lookup k m ≡ none
  unfolding lookup
  lookup_below k [] lo h lt = refl
  lookup_below k ((i, w) ∷ m) lo h lt = ground (arith, lookup_below k m (suc i) h.1)

  pub length-insert_sorted_new :
      (k : ℕ) (v : V) (m : List (ℕ × V))
      → lookup k m ≡ none
      → length (insert_sorted k v m) ≡ suc (length m)
  unfolding lookup insert_sorted
  length-insert_sorted_new k v [] h = refl
  length-insert_sorted_new k v ((j, w) ∷ m) h = ground (arith, length-insert_sorted_new k v m)

  pub length-insert_sorted_old :
      (k : ℕ) (v w : V) (m : List (ℕ × V)) (lo : ℕ)
      → Ascending lo m
      → lookup k m ≡ some w
      → length (insert_sorted k v m) ≡ length m
  unfolding lookup insert_sorted
  length-insert_sorted_old k v w [] lo h e = cc
  length-insert_sorted_old k v w ((j, u) ∷ m) lo h e =
      ground (arith, length-insert_sorted_old k v w m (suc j) h.1, lookup_below k m (suc j) h.1)

-- No key stands twice.
module _ {ℓ} {V : Type ℓ} where
  abbrev pub Distinct : List (ℕ × V) → Type ℓ
  Distinct [] = Unit
  Distinct (entry ∷ rest) = (lookup entry.0 rest ≡ none) × Distinct rest

  pub insert-Distinct :
      (key : ℕ) (value : V) (entries : List (ℕ × V))
      → Distinct entries
      → Distinct (insert key value entries)
  unfolding insert
  insert-Distinct key value [] d = (unfold lookup in refl, tt)
  insert-Distinct key value (entry ∷ rest) d = ground (
    arith,
    insert-Distinct key value rest d.1,
    lookup-insert key entry.0 value rest,
    d.0,
    ap (λ k. lookup k rest),
  )

  pub erase-Distinct :
      (key : ℕ) (entries : List (ℕ × V)) → Distinct entries → Distinct (erase key entries)
  unfolding erase
  erase-Distinct key [] d = tt
  erase-Distinct key (entry ∷ rest) d =
      ground (arith, erase-Distinct key rest d.1, lookup-erase key entry.0 rest, d.0)
