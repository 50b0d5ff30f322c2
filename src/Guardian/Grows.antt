-- ===== src/Guardian/Grows.antt =====
-- Steps of Guardian/src/guardian.cpp after which every player that was alive is alive.
use nicechunk_guardian.Base.{
  ℕ, ◌≤◌, ◌≡◌, sym, ap, ◌∙◌, subst, ◌==◌, List, length, [], ◌∷◌, none, some, arith, Bool-cases, inl,
  inr,
}
use nicechunk_guardian.Base.Int.{ℤ}
use nicechunk_guardian.Base.Table.{lookup, Distinct, lookup-erase}
use nicechunk_guardian.Wire.{Bytes}
use nicechunk_guardian.Building.{all_zero}
use nicechunk_guardian.Guardian.{Guardian}
use nicechunk_guardian.Guardian.Wallet.{wallet_equal}
use nicechunk_guardian.Guardian.Players.{retire, retire_loop, retire_players_with_wallet}
use nicechunk_guardian.Guardian.State.{
  IsState, IsAlive, Same, Same-IsState, Keeps-IsAlive, metrics-Same,
}
use nicechunk_guardian.Guardian.Drops.{retire-Drops, Drops-IsState, Drops-IsAlive, retire-IsAlive}
use nicechunk_guardian.Guardian.Untouched.{Same-refl}
use nicechunk_guardian.Guardian.Presence.Views.{
  Follows, Follows-trans, Keeps-Follows, Drops-Follows,
}
use nicechunk_guardian.Guardian.Settles.{Settles, Settles-IsState, Settles-IsAlive}

pub record Grows (s s' : Guardian) : Type 0 where
  pub state : IsState s'
  pub alive : (q : ℕ) → IsAlive q s → IsAlive q s'
  pub next_address : s.next_address ≤ s'.next_address
  pub follows : Follows s s'

pub Same-Grows : (s s' : Guardian) → Same s s' → IsState s → Grows s s'
Same-Grows s s' f i = record {
  state = Same-IsState s s' f i;
  alive = λ q. Keeps-IsAlive q s s' f.keeps;
  next_address = ground (arith, f.keeps.next_address);
  follows = Keeps-Follows s s' f.keeps;
}

pub Grows-refl : (s : Guardian) → IsState s → Grows s s
Grows-refl s i = Same-Grows s s (Same-refl s) i

pub Grows-trans : (a b c : Guardian) → Grows a b → Grows b c → Grows a c
Grows-trans a b c g h = record {
  state = h.state;
  alive = λ q x. h.alive q (g.alive q x);
  next_address = omega (arith, g.next_address, h.next_address);
  follows = Follows-trans a b c g.follows h.follows;
}

pub Settles-Grows :
    (id p : ℕ) (x z : ℤ) (s s' : Guardian)
    → Settles id p x z s s'
    → IsState s
    → ((q : ℕ) → lookup id s.players ≡ some q → q ≡ p)
    → ((j : ℕ) → lookup j s.players ≡ some p → j ≡ id)
    → Follows s s'
    → Grows s s'
Settles-Grows id p x z s s' e i own sole follows = record {
  state = Settles-IsState id p x z s s' e i own sole;
  alive = Settles-IsAlive id p x z s s' e i own sole;
  next_address = e.next_address;
  follows = follows;
}

pub retire-Grows :
    (id p : ℕ) (s : Guardian) → IsState s → lookup id s.players ≡ some p → Grows s (retire id p s)
retire-Grows id p s i at =
    let d = retire-Drops id p s i.links in
    record {
      state = Drops-IsState id p s (retire id p s) d i at;
      alive = λ q a. elim (Bool-cases (q == p)) [
        | inl same ↦
            subst (λ r. IsAlive r (retire id p s)) (ground (arith, same)) (retire-IsAlive id p s)
        | inr other ↦ Drops-IsAlive id p s (retire id p s) d i at q a other
      ];
      next_address = ground (arith, d.next_address);
      follows = Drops-Follows id p s (retire id p s) d;
    }

pub lookup_head : (id p : ℕ) (m : List (ℕ × ℕ)) → lookup id ((id, p) ∷ m) ≡ some p
unfolding lookup
lookup_head id p m = ground arith

pub lookup_tail :
    (id p j q : ℕ) (m : List (ℕ × ℕ))
    → lookup id m ≡ none
    → lookup j m ≡ some q
    → lookup j ((id, p) ∷ m) ≡ some q
unfolding lookup
lookup_tail id p j q m absent e = ground (arith, absent, e, ap (λ k. lookup k m))

-- The entries that are left to walk stay in the table.
pub retired_entries :
    (id p : ℕ) (entries : List (ℕ × ℕ)) (s : Guardian)
    → IsState s
    → lookup id entries ≡ none
    → ((j q : ℕ) → lookup j ((id, p) ∷ entries) ≡ some q → lookup j s.players ≡ some q)
    → (j q : ℕ) → lookup j entries ≡ some q
    → lookup j (retire id p s).players ≡ some q
retired_entries id p entries s i absent sub j q e =
    ap (lookup j) (sym (retire-Drops id p s i.links).players)
    ∙ lookup-erase id j s.players
    ∙ ground (
      arith,
      lookup_tail id p j q entries absent e,
      absent,
      e,
      ap (λ k. lookup k entries),
      sub j q,
    )

retire_loop-Grows :
    (wallet : Bytes) (entries : List (ℕ × ℕ)) (s : Guardian)
    → IsState s
    → Distinct entries
    → ((j q : ℕ) → lookup j entries ≡ some q → lookup j s.players ≡ some q)
    → Grows s (retire_loop wallet entries s).0
unfolding retire_loop
retire_loop-Grows wallet [] s i d sub = Grows-refl s i
retire_loop-Grows wallet ((id, p) ∷ entries) s i d sub =
    elim (Bool-cases (wallet_equal (s.heap p).wallet_pubkey wallet)) [
      | inl match ↦
          rw (match, retire_loop)
            (let at = sub id p (lookup_head id p entries) in
              let g = retire-Grows id p s i at in
              Grows-trans s (retire id p s) (retire_loop wallet entries (retire id p s)).0 g (
                retire_loop-Grows wallet entries (retire id p s) g.state d.1
                  (retired_entries id p entries s i d.0 sub)))
      | inr other ↦
          rw (other, retire_loop)
            (retire_loop-Grows wallet entries s i d.1
              (λ j q e. sub j q (lookup_tail id p j q entries d.0 e)))
    ]

pub retire_players_with_wallet-Grows :
    (wallet : Bytes) (s : Guardian) → IsState s → Grows s (retire_players_with_wallet wallet s).0
unfolding retire_players_with_wallet
retire_players_with_wallet-Grows wallet s i = elim (Bool-cases (all_zero wallet)) [
  | inl empty ↦ rw (empty, retire_players_with_wallet) (Grows-refl s i)
  | inr real ↦
      rw (real, retire_players_with_wallet)
        (let g = retire_loop-Grows wallet s.players s i i.distinct (λ j q e. e) in
          let left = (retire_loop wallet s.players s).0 in
          let counted = record (left.metrics) { players = length left.players } in
          Grows-trans s left (record left { metrics = counted }) g
            (Same-Grows left (record left { metrics = counted }) (metrics-Same left counted)
              g.state))
]
