-- ===== src/App/Sound.antt =====
-- The invariant of the worlds of Guardian/src/app.cpp: who owns the player that a socket points to.
pub mod Ticks
pub mod Steps
pub mod Answers
pub mod Refines
use nicechunk_guardian.Base.{
  ℕ, ◌≡◌, ◌≢◌, ◌<◌, refl, sym, ap, ◌∙◌, subst, ◌==◌, Bool, true, false, if◌then◌else◌, List, Option,
  none, some, arith, Bool-cases, inl, inr, ◌⊎◌,
}
use nicechunk_guardian.Base.Table.{
  lookup, insert, erase, Distinct, lookup-insert, lookup-erase, insert-Distinct, erase-Distinct,
}
use nicechunk_guardian.Guardian.{Guardian}
use nicechunk_guardian.Guardian.State.{IsState, IsAlive}
use nicechunk_guardian.App.{PerSocketData}
use nicechunk_guardian.App.World.{World}

pub record IsSound (w : World) : Type 0 where
  pub state : IsState w.guardian
  pub distinct : Distinct w.sockets
  pub owned :
      (ws : ℕ) (user : PerSocketData) (p : ℕ)
      → lookup ws w.sockets ≡ some user
      → user.player ≡ some p
      → IsAlive p w.guardian
  pub sole :
      (ws ws' : ℕ) (user user' : PerSocketData) (p : ℕ)
      → lookup ws w.sockets ≡ some user
      → lookup ws' w.sockets ≡ some user'
      → user.player ≡ some p
      → user'.player ≡ some p
      → ws ≡ ws'

-- Addresses are given out in order.
pub IsAlive-lt : (p : ℕ) (s : Guardian) → IsState s → IsAlive p s → p < s.next_address
IsAlive-lt p s i (inl (id, e)) = (i.settled id p e).old
IsAlive-lt p s i (inr e) = i.retired p e

-- The state changes and one socket is written, which shares its player with no other.
module _ (w : World) (i : IsSound w) (ws : ℕ) (user : PerSocketData) (s' : Guardian)
    (state : IsState s') (alive : (q : ℕ) → IsAlive q w.guardian → IsAlive q s')
    (held : (p : ℕ) → user.player ≡ some p → IsAlive p s')
    (alone : (ws' : ℕ) (user' : PerSocketData) (p : ℕ)
      → (ws == ws') ≡ false
      → lookup ws' w.sockets ≡ some user'
      → user'.player ≡ some p
      → user.player ≢ some p) where
  written :
      (ws' : ℕ) (user' : PerSocketData)
      → lookup ws' (insert ws user w.sockets) ≡ some user'
      → ((ws ≡ ws') × (user ≡ user'))
        ⊎ (((ws == ws') ≡ false) × (lookup ws' w.sockets ≡ some user'))
  written ws' user' e = elim (Bool-cases (ws == ws')) [
    | inl same ↦
        inl (ground (arith, same), ground (arith, same, e, lookup-insert ws ws' user w.sockets))
    | inr other ↦ inr (other, ground (arith, other, e, lookup-insert ws ws' user w.sockets))
  ]

  writes_owned :
      (ws' : ℕ) (user' : PerSocketData) (p : ℕ)
      → lookup ws' (insert ws user w.sockets) ≡ some user'
      → user'.player ≡ some p
      → IsAlive p s'
  writes_owned ws' user' p e at = elim (written ws' user' e) [
    | inl (same, this) ↦ held p (ap (λ (u : PerSocketData). u.player) this ∙ at)
    | inr (other, before) ↦ alive p (i.owned ws' user' p before at)
  ]

  writes_sole :
      (a b : ℕ) (user_a user_b : PerSocketData) (p : ℕ)
      → lookup a (insert ws user w.sockets) ≡ some user_a
      → lookup b (insert ws user w.sockets) ≡ some user_b
      → user_a.player ≡ some p
      → user_b.player ≡ some p
      → a ≡ b
  writes_sole a b user_a user_b p ea eb at_a at_b = elim (written a user_a ea) [
    | inl (same_a, this_a) ↦ elim (written b user_b eb) [
      | inl (same_b, this_b) ↦ sym same_a ∙ same_b
      | inr (other_b, before_b) ↦ absurd (
          alone b user_b p other_b before_b at_b
            (ap (λ (u : PerSocketData). u.player) this_a ∙ at_a))
    ]
    | inr (other_a, before_a) ↦ elim (written b user_b eb) [
      | inl (same_b, this_b) ↦ absurd (
          alone a user_a p other_a before_a at_a
            (ap (λ (u : PerSocketData). u.player) this_b ∙ at_b))
      | inr (other_b, before_b) ↦ i.sole a b user_a user_b p before_a before_b at_a at_b
    ]
  ]

  pub writes-IsSound : IsSound (record { guardian = s'; sockets = insert ws user w.sockets })
  writes-IsSound = record {
    state = state;
    distinct = insert-Distinct ws user w.sockets i.distinct;
    owned = writes_owned;
    sole = writes_sole;
  }

-- The state changes and one socket goes, with at most its player.
module _ (w : World) (i : IsSound w) (ws : ℕ) (user : PerSocketData)
    (at : lookup ws w.sockets ≡ some user) (s' : Guardian) (state : IsState s')
    (alive : (q : ℕ) → user.player ≢ some q → IsAlive q w.guardian → IsAlive q s') where
  kept :
      (ws' : ℕ) (user' : PerSocketData)
      → lookup ws' (erase ws w.sockets) ≡ some user'
      → ((ws == ws') ≡ false) × (lookup ws' w.sockets ≡ some user')
  kept ws' user' e = elim (Bool-cases (ws == ws')) [
    | inl same ↦ absurd (ground (arith, same, e, lookup-erase ws ws' w.sockets))
    | inr other ↦ (other, ground (arith, other, e, lookup-erase ws ws' w.sockets))
  ]

  pub erases-IsSound : IsSound (record { guardian = s'; sockets = erase ws w.sockets })
  erases-IsSound = record {
    state = state;
    distinct = erase-Distinct ws w.sockets i.distinct;
    owned = λ ws' user' p e at'.
        let (other, before) = kept ws' user' e in
        alive p
          (λ own. absurd (ground (arith, other, i.sole ws ws' user user' p at before own at')))
          (i.owned ws' user' p before at');
    sole = λ a b user_a user_b p ea eb.
        i.sole a b user_a user_b p (kept a user_a ea).1 (kept b user_b eb).1;
  }
