-- ===== src/Guardian/Retire.antt =====
-- `retire_players_with_wallet` of Guardian/src/guardian.cpp leaves no player with the wallet.
use nicechunk_guardian.Base.{
  ℕ, ◌≡◌, refl, sym, ap, ◌∙◌, ◌==◌, Bool, true, false, ◌&&◌, ◌||◌, List, [], ◌∷◌, some, arith,
  Bool-cases, inl, inr,
}
use nicechunk_guardian.Base.Table.{lookup, erase, lookup-erase}
use nicechunk_guardian.Wire.{Bytes}
use nicechunk_guardian.Building.{all_zero}
use nicechunk_guardian.Guardian.{Guardian}
use nicechunk_guardian.Guardian.Wallet.{wallet_equal}
use nicechunk_guardian.Guardian.Players.{retire, retire_loop, retire_players_with_wallet}
use nicechunk_guardian.Guardian.Keeps.{remove_player_from_room-Keeps}

-- The entry is left to walk.
abbrev is_entry : ℕ → ℕ → List (ℕ × ℕ) → Bool
is_entry id p [] = false
is_entry id p ((j, q) ∷ entries) = (j == id && q == p) || is_entry id p entries

lookup-is_entry : (id p : ℕ) (m : List (ℕ × ℕ)) → lookup id m ≡ some p → is_entry id p m ≡ true
unfolding lookup
lookup-is_entry id p [] e = cc
lookup-is_entry id p ((j, q) ∷ m) e = ground (arith, lookup-is_entry id p m)

retire_wallet :
    (id p q : ℕ) (s : Guardian) → ((retire id p s).heap q).wallet_pubkey ≡ (s.heap q).wallet_pubkey
unfolding retire
retire_wallet id p q s = ground (arith, (remove_player_from_room-Keeps p s).wallet_pubkey q)

retire_players : (id p : ℕ) (s : Guardian) → (retire id p s).players ≡ erase id s.players
unfolding retire
retire_players id p s = ap (erase id) (sym (remove_player_from_room-Keeps p s).players)

-- What the loop leaves: no wallet changes, and who stays was there and, if it was walked, has another
-- wallet.
record Left (wallet : Bytes) (entries : List (ℕ × ℕ)) (s s' : Guardian) : Type 0 where
  wallets : (q : ℕ) → (s'.heap q).wallet_pubkey ≡ (s.heap q).wallet_pubkey
  stays :
      (id p : ℕ)
      → lookup id s'.players ≡ some p
      → (lookup id s.players ≡ some p)
        × (is_entry id p entries ≡ true → wallet_equal (s.heap p).wallet_pubkey wallet ≡ false)

walked_head :
    (wallet : Bytes) (id p i q : ℕ) (entries : List (ℕ × ℕ)) (s : Guardian)
    → (lookup i (retire id p s).players ≡ some q)
      × (is_entry i q entries ≡ true
          → wallet_equal ((retire id p s).heap q).wallet_pubkey wallet ≡ false)
    → (lookup i s.players ≡ some q)
      × (is_entry i q ((id, p) ∷ entries) ≡ true
          → wallet_equal (s.heap q).wallet_pubkey wallet ≡ false)
walked_head wallet id p i q entries s (at, walked) =
    let at' =
      sym (lookup-erase id i s.players) ∙ sym (ap (lookup i) (retire_players id p s)) ∙ at in
    (
      ground (arith, at'),
      λ h. ground (arith, at', walked, ap (λ w. wallet_equal w wallet) (retire_wallet id p q s)),
    )

kept_head :
    (wallet : Bytes) (id p i q : ℕ) (entries : List (ℕ × ℕ)) (s : Guardian)
    → wallet_equal (s.heap p).wallet_pubkey wallet ≡ false
    → (is_entry i q entries ≡ true → wallet_equal (s.heap q).wallet_pubkey wallet ≡ false)
    → is_entry i q ((id, p) ∷ entries) ≡ true
    → wallet_equal (s.heap q).wallet_pubkey wallet ≡ false
kept_head wallet id p i q entries s other walked h = elim (Bool-cases (p == q)) [
  | inl same ↦
      let e : p ≡ q = ground (arith, same) in
      ap (λ x. wallet_equal (s.heap x).wallet_pubkey wallet) (sym e) ∙ other
  | inr differs ↦ ground (arith, walked)
]

retire_loop-Left :
    (wallet : Bytes) (entries : List (ℕ × ℕ)) (s : Guardian)
    → Left wallet entries s (retire_loop wallet entries s).0
unfolding retire_loop
retire_loop-Left wallet [] s = record {
  wallets = λ q. refl;
  stays = λ id p e. (e, λ h. ground (arith, h));
}
retire_loop-Left wallet ((id, p) ∷ entries) s =
    elim (Bool-cases (wallet_equal (s.heap p).wallet_pubkey wallet)) [
      | inl match ↦
          let rest = retire_loop-Left wallet entries (retire id p s) in
          rw (match, retire_loop)
            (record {
              wallets = λ q. rest.wallets q ∙ retire_wallet id p q s;
              stays = λ i q e. walked_head wallet id p i q entries s (rest.stays i q e);
            })
      | inr other ↦
          let rest = retire_loop-Left wallet entries s in
          rw (other, retire_loop)
            (record {
              wallets = rest.wallets;
              stays = λ i q e. (
                (rest.stays i q e).0,
                λ h. kept_head wallet id p i q entries s other (rest.stays i q e).1 h,
              );
            })
    ]

-- After `retire_players_with_wallet` of a wallet that is not all zero, a player that is left in the
-- table was there under the same id, and its wallet is not that wallet.
pub retire_players_with_wallet-gone :
    (wallet : Bytes) (s : Guardian) (id p : ℕ)
    → all_zero wallet ≡ false
    → let s' = (retire_players_with_wallet wallet s).0 in
      lookup id s'.players ≡ some p
      → (lookup id s.players ≡ some p) × (wallet_equal (s'.heap p).wallet_pubkey wallet ≡ false)
unfolding retire_players_with_wallet
retire_players_with_wallet-gone wallet s id p real =
    rw (real, retire_players_with_wallet)
      (λ e.
        let left = retire_loop-Left wallet s.players s in
        let (there, walked) = left.stays id p e in
        (
          there,
          ap (λ w. wallet_equal w wallet) (left.wallets p)
              ∙ walked (lookup-is_entry id p s.players there),
        ))
