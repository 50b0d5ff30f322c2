-- ===== src/Guardian/Presence/Wallets.antt =====
-- About the wallets of the players of Guardian/src/guardian.cpp.
use nicechunk_guardian.Base.{
  ℕ, ◌≡◌, refl, sym, ap, ◌∙◌, subst, ◌==◌, Bool, true, false, if◌then◌else◌, [], ◌∷◌, some, arith,
  Bool-cases, Option-cases, inl, inr,
}
use nicechunk_guardian.Base.Int.{ℤ}
use nicechunk_guardian.Base.Table.{lookup}
use nicechunk_guardian.Wire.{Bytes}
use nicechunk_guardian.Building.{all_zero}
use nicechunk_guardian.Guardian.{Guardian}
use nicechunk_guardian.Guardian.Wallet.{wallet_equal}
use nicechunk_guardian.Guardian.Players.{retire_players_with_wallet}
use nicechunk_guardian.Guardian.Retire.{retire_players_with_wallet-gone}
use nicechunk_guardian.Guardian.Presence.{
  Place, View, nobody, IsNew, Run, Run.stays, Run.enters, Run.moves, Run.leaves, Run.then_run,
  place_of, presence,
}
use nicechunk_guardian.Guardian.Presence.Views.{presence-some, presence-none}

-- The entry behind somebody who is present.
pub presence_entry :
    (id : ℕ) (place : Place) (s : Guardian)
    → presence s id ≡ some place
    → (p : ℕ) × (lookup id s.players ≡ some p) × (place_of (s.heap p) ≡ place)
presence_entry id place s e = elim (Option-cases (lookup id s.players)) [
  | inl out ↦ absurd (ground (arith, e, presence-none id s out))
  | inr (p, at) ↦ (p, at, ground (arith, e, presence-some id p s at))
]

pub retire_players_with_wallet-IsNew :
    (wallet : Bytes) (s : Guardian)
    → all_zero wallet ≡ false
    → IsNew wallet (presence (retire_players_with_wallet wallet s).0)
retire_players_with_wallet-IsNew wallet s real id place e =
    let (p, at, same) = presence_entry id place (retire_players_with_wallet wallet s).0 e in
    ap (λ (x : Place). wallet_equal x.wallet wallet) (sym same)
    ∙ (retire_players_with_wallet-gone wallet s id p real at).1

wallet_equal_sym : (a b : Bytes) → wallet_equal a b ≡ wallet_equal b a
unfolding wallet_equal
wallet_equal_sym [] [] = refl
wallet_equal_sym [] (y ∷ ys) = refl
wallet_equal_sym (x ∷ xs) [] = refl
wallet_equal_sym (x ∷ xs) (y ∷ ys) = ground (arith, wallet_equal_sym xs ys)

-- No two are present with one wallet, and all are in the area.
pub record IsOrderly (area : ℤ → ℤ → Bool) (v : View) : Type 0 where
  pub sole :
      (i j : ℕ) (a b : Place)
      → v i ≡ some a
      → v j ≡ some b
      → wallet_equal a.wallet b.wallet ≡ true
      → i ≡ j
  pub inside : (i : ℕ) (a : Place) → v i ≡ some a → area a.chunk_x a.chunk_z ≡ true

nobody-IsOrderly : (area : ℤ → ℤ → Bool) → IsOrderly area nobody
nobody-IsOrderly area = record {
  sole = λ i j a b e. absurd (ground (arith, e));
  inside = λ i a e. absurd (ground (arith, e));
}

-- Somebody is put under `id`, whose wallet nobody else has.
put-IsOrderly :
    (area : ℤ → ℤ → Bool) (v v' : View) (id : ℕ) (place : Place)
    → ((j : ℕ) (b : Place)
        → (id == j) ≡ false
        → v j ≡ some b
        → wallet_equal b.wallet place.wallet ≡ false)
    → area place.chunk_x place.chunk_z ≡ true
    → ((j : ℕ) → v' j ≡ (if id == j then some place else v j))
    → IsOrderly area v
    → IsOrderly area v'
put-IsOrderly area v v' id place new inside is o =
    let here : (j : ℕ) (b : Place) → (id == j) ≡ true → v' j ≡ some b → place ≡ b =
      λ j b same e. ground (arith, is j, same, e) in
    let there : (j : ℕ) (b : Place) → (id == j) ≡ false → v' j ≡ some b → v j ≡ some b =
      λ j b other e. ground (arith, is j, other, e) in
    record {
      sole = λ i j a b at_i at_j equal. elim (Bool-cases (id == i)) [
        | inl same_i ↦ elim (Bool-cases (id == j)) [
          | inl same_j ↦ ground (arith, same_i, same_j)
          | inr other_j ↦ absurd (
              ground (
                arith,
                equal,
                new j b other_j (there j b other_j at_j),
                wallet_equal_sym a.wallet b.wallet,
                ap (λ (x : Place). wallet_equal b.wallet x.wallet) (here i a same_i at_i),
              ))
        ]
        | inr other_i ↦ elim (Bool-cases (id == j)) [
          | inl same_j ↦ absurd (
              ground (
                arith,
                equal,
                new i a other_i (there i a other_i at_i),
                ap (λ (x : Place). wallet_equal a.wallet x.wallet) (here j b same_j at_j),
              ))
          | inr other_j ↦ o.sole i j a b (there i a other_i at_i) (there j b other_j at_j) equal
        ]
      ];
      inside = λ i a at. elim (Bool-cases (id == i)) [
        | inl same ↦
            subst (λ (x : Place). area x.chunk_x x.chunk_z ≡ true) (here i a same at) inside
        | inr other ↦ o.inside i a (there i a other at)
      ];
    }

-- Whatever happens keeps the order.
pub Run-IsOrderly :
    (area : ℤ → ℤ → Bool) (v v' : View) → Run area v v' → IsOrderly area v → IsOrderly area v'
Run-IsOrderly area _ _ (stays v v' is) o = record {
  sole = λ i j a b at_i at_j. o.sole i j a b (sym (is i) ∙ at_i) (sym (is j) ∙ at_j);
  inside = λ i a at. o.inside i a (sym (is i) ∙ at);
}
Run-IsOrderly area _ _ (enters v v' id place free new inside is) o =
    put-IsOrderly area v v' id place (λ j b other. new j b) inside is o
Run-IsOrderly area _ _ (moves v v' id old place at same inside is) o =
    put-IsOrderly area v v' id place
      (λ j b other e. elim (Bool-cases (wallet_equal b.wallet place.wallet)) [
        | inr differs ↦ differs
        | inl equal ↦ absurd (
            ground (
              arith,
              other,
              o.sole j id b old e at (ap (wallet_equal b.wallet) (sym same) ∙ equal),
            ))
      ])
      inside is o
Run-IsOrderly area _ _ (leaves v v' id is) o =
    let there : (j : ℕ) (b : Place) → v' j ≡ some b → v j ≡ some b =
      λ j b e. ground (arith, is j, e) in
    record {
      sole = λ i j a b at_i at_j. o.sole i j a b (there i a at_i) (there j b at_j);
      inside = λ i a at. o.inside i a (there i a at);
    }
Run-IsOrderly area _ _ (then_run {a} {b} {c} first next) o =
    Run-IsOrderly area b c next (Run-IsOrderly area a b first o)

pub nobody-Run-IsOrderly : (area : ℤ → ℤ → Bool) (v : View) → Run area nobody v → IsOrderly area v
nobody-Run-IsOrderly area v run = Run-IsOrderly area nobody v run (nobody-IsOrderly area)
