-- ===== src/Guardian/Presence.antt =====
-- What Guardian/src/guardian.h promises of its players, without rooms, pointers and retired players: under
-- which id somebody is present, with which wallet and in which chunk.
pub mod Views
pub mod Wallets
use nicechunk_guardian.Base.{ℕ, ◌≡◌, ◌==◌, Bool, true, false, if◌then◌else◌, Option, none, some}
use nicechunk_guardian.Base.Int.{ℤ}
use nicechunk_guardian.Base.Table.{lookup}
use nicechunk_guardian.Wire.{Bytes}
use nicechunk_guardian.Guardian.{Player, Guardian}
use nicechunk_guardian.Guardian.Wallet.{wallet_equal}

pub record Place : Type 0 where
  pub wallet : Bytes
  pub chunk_x : ℤ
  pub chunk_z : ℤ

-- Who is present, by id.
abbrev pub View : Type 0
View = ℕ → Option Place

abbrev pub nobody : View
nobody id = none

-- Nobody is present with the wallet.
abbrev pub IsNew : Bytes → View → Type 0
IsNew wallet v =
    (id : ℕ) (place : Place) → v id ≡ some place → wallet_equal place.wallet wallet ≡ false

-- What may happen: with a new wallet and under a free id somebody enters in the area, somebody moves to a chunk
-- of the area, or an id is given up.
pub data Run (area : ℤ → ℤ → Bool) : View → View → Type 0 where
  stays : (v v' : View) → ((j : ℕ) → v' j ≡ v j) → Run area v v'
  enters :
      (v v' : View) (id : ℕ) (place : Place)
      → v id ≡ none
      → IsNew place.wallet v
      → area place.chunk_x place.chunk_z ≡ true
      → ((j : ℕ) → v' j ≡ (if id == j then some place else v j))
      → Run area v v'
  moves :
      (v v' : View) (id : ℕ) (old place : Place)
      → v id ≡ some old
      → place.wallet ≡ old.wallet
      → area place.chunk_x place.chunk_z ≡ true
      → ((j : ℕ) → v' j ≡ (if id == j then some place else v j))
      → Run area v v'
  leaves :
      (v v' : View) (id : ℕ) → ((j : ℕ) → v' j ≡ (if id == j then none else v j)) → Run area v v'
  then_run : {a b c : View} → Run area a b → Run area b c → Run area a c

abbrev pub place_of : Player → Place
place_of q = record {
  wallet = q.wallet_pubkey;
  chunk_x = q.current_chunk_x;
  chunk_z = q.current_chunk_z;
}

-- The view of a state: the players of the table.
unfoldable pub presence : Guardian → View
presence s id = elim (lookup id s.players) [ none ↦ none | some p ↦ some (place_of (s.heap p)) ]
