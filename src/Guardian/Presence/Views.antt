-- ===== src/Guardian/Presence/Views.antt =====
-- What the steps of Guardian/src/guardian.cpp do to who is present.
use nicechunk_guardian.Base.{
  ℕ, ◌≡◌, refl, sym, ap, ◌∙◌, subst, ◌==◌, true, false, if◌then◌else◌, none, some, arith, ◌≤◌, ◌⊎◌,
  Bool-cases, Option-cases, inl, inr,
}
use nicechunk_guardian.Base.Int.{ℤ}
use nicechunk_guardian.Base.Table.{lookup, lookup-erase}
use nicechunk_guardian.Wire.{Bytes}
use nicechunk_guardian.Chunk.{contains_chunk}
use nicechunk_guardian.Guardian.{Guardian, Player}
use nicechunk_guardian.Guardian.Keeps.{Keeps}
use nicechunk_guardian.Guardian.Drops.{Drops}
use nicechunk_guardian.Guardian.Settles.{Settles}
use nicechunk_guardian.Guardian.Presence.{
  IsNew, Run, Run.stays, Run.enters, Run.moves, Run.leaves, Run.then_run, place_of, presence,
}

same_place :
    (a b : Player)
    → a.wallet_pubkey ≡ b.wallet_pubkey
    → a.current_chunk_x ≡ b.current_chunk_x
    → a.current_chunk_z ≡ b.current_chunk_z
    → place_of a ≡ place_of b
same_place a b w x z = cc

-- The view of an entry.
pub presence-some :
    (id p : ℕ) (s : Guardian)
    → lookup id s.players ≡ some p
    → presence s id ≡ some (place_of (s.heap p))
unfolding presence
presence-some id p s e = rw (e, presence) refl

pub presence-none : (id : ℕ) (s : Guardian) → lookup id s.players ≡ none → presence s id ≡ none
unfolding presence
presence-none id s e = rw (e, presence) refl

-- Under an id where the entries agree, and the places of the player.
presence_same :
    (id : ℕ) (s s' : Guardian)
    → lookup id s'.players ≡ lookup id s.players
    → ((p : ℕ) → lookup id s.players ≡ some p → place_of (s'.heap p) ≡ place_of (s.heap p))
    → presence s' id ≡ presence s id
presence_same id s s' e same = elim (Option-cases (lookup id s.players)) [
  | inl out ↦ presence-none id s' (e ∙ out) ∙ sym (presence-none id s out)
  | inr (p, at) ↦
      presence-some id p s' (e ∙ at) ∙ ap some (same p at) ∙ sym (presence-some id p s at)
]

pub Keeps-presence : (s s' : Guardian) → Keeps s s' → (j : ℕ) → presence s' j ≡ presence s j
Keeps-presence s s' k j = presence_same j s s' (ap (lookup j) (sym k.players)) (λ p at. sym (
    same_place (s.heap p) (s'.heap p) (k.wallet_pubkey p) (k.current_chunk_x p)
      (k.current_chunk_z p)))

-- Who is present in `s'` was present in `s` under the same id and with the same wallet, or came since.
pub record Continues (s s' : Guardian) : Type 0 where
  pub next_address : s.next_address ≤ s'.next_address
  pub kept :
      (id q : ℕ)
      → lookup id s'.players ≡ some q
      → ((lookup id s.players ≡ some q) × ((s'.heap q).wallet_pubkey ≡ (s.heap q).wallet_pubkey))
        ⊎ (s.next_address ≤ q)

pub Continues-trans : (a b c : Guardian) → Continues a b → Continues b c → Continues a c
Continues-trans a b c f g = record {
  next_address = omega (arith, f.next_address, g.next_address);
  kept = λ id q at. elim (g.kept id q at) [
    | inr new ↦ inr (omega (arith, new, f.next_address))
    | inl (there, same) ↦ elim (f.kept id q there) [
      | inr new ↦ inr new
      | inl (before, as_before) ↦ inl (before, same ∙ as_before)
    ]
  ];
}

-- What happens from `s` to `s'` is one of the things that may happen.
pub record Follows (s s' : Guardian) : Type 0 where
  pub cfg : s.cfg ≡ s'.cfg
  pub run : Run (contains_chunk s.cfg) (presence s) (presence s')
  pub continues : Continues s s'

pub Follows-trans : (a b c : Guardian) → Follows a b → Follows b c → Follows a c
Follows-trans a b c f g = record {
  cfg = f.cfg ∙ g.cfg;
  run =
      then_run f.run
        (subst (λ area. Run area (presence b) (presence c)) (ap contains_chunk (sym f.cfg)) g.run);
  continues = Continues-trans a b c f.continues g.continues;
}

pub Keeps-Follows : (s s' : Guardian) → Keeps s s' → Follows s s'
Keeps-Follows s s' k = record {
  cfg = k.cfg;
  run = stays (presence s) (presence s') (Keeps-presence s s' k);
  continues = record {
    next_address = ground (arith, k.next_address);
    kept = λ id q at. inl (ap (lookup id) k.players ∙ at, sym (k.wallet_pubkey q));
  };
}

pub Keeps-IsNew :
    (wallet : Bytes) (s s' : Guardian)
    → Keeps s s'
    → IsNew wallet (presence s)
    → IsNew wallet (presence s')
Keeps-IsNew wallet s s' k new id place e = new id place (sym (Keeps-presence s s' k id) ∙ e)

pub Drops-Follows : (id p : ℕ) (s s' : Guardian) → Drops id p s s' → Follows s s'
Drops-Follows id p s s' d =
    let entries : (j : ℕ) → lookup j s'.players ≡ (if id == j then none else lookup j s.players) =
      λ j. ap (lookup j) (sym d.players) ∙ lookup-erase id j s.players in
    record {
      cfg = d.cfg;
      run = leaves (presence s) (presence s') id (λ j. elim (Bool-cases (id == j)) [
        | inl same ↦ rw same (presence-none j s' (entries j ∙ rw same refl))
        | inr other ↦ rw other (
            presence_same j s s' (entries j ∙ rw other refl) (λ q at. sym (
              same_place (s.heap q) (s'.heap q) (d.wallet_pubkey q) (d.current_chunk_x q)
                (d.current_chunk_z q))))
      ]);
      continues = record {
        next_address = ground (arith, d.next_address);
        kept = λ j q at.
            inl (
              ground (arith, at, entries j, ap (λ k. lookup k s.players)),
              sym (d.wallet_pubkey q),
            );
      };
    }

-- The player enters a chunk, and the other players stay.
module _ (id p : ℕ) (x z : ℤ) (s s' : Guardian) (e : Settles id p x z s s') (wallet : Bytes)
    (is : (s'.heap p).wallet_pubkey ≡ wallet)
    (sole : (j : ℕ) → lookup j s.players ≡ some p → j ≡ id) where
  settled_place :
      (j : ℕ)
      → presence s' j ≡ (
          if id == j
          then some (record { wallet = wallet; chunk_x = x; chunk_z = z })
          else presence s j)
  settled_place j = elim (Bool-cases (id == j)) [
    | inl same ↦ rw same (
        presence-some j p s' (e.players j ∙ rw same refl)
        ∙ ap some (cc (is, e.current_chunk_x, e.current_chunk_z)))
    | inr other ↦ rw other (
        presence_same j s s' (e.players j ∙ rw other refl) (λ q at.
          let away : (q == p) ≡ false = ground (arith, other, at, sole j) in
          let kept = e.others q away in same_place (s'.heap q) (s.heap q) kept.3 kept.1 kept.2))
  ]

  settled_others :
      (j q : ℕ)
      → (id == j) ≡ false
      → lookup j s'.players ≡ some q
      → (lookup j s.players ≡ some q) × ((s'.heap q).wallet_pubkey ≡ (s.heap q).wallet_pubkey)
  settled_others j q other at =
      let before : lookup j s.players ≡ some q = ground (arith, at, other, e.players j) in
      let away : (q == p) ≡ false = ground (arith, other, before, sole j) in
      (before, (e.others q away).3)

  pub Settles-enters :
      contains_chunk s.cfg x z ≡ true
      → lookup id s.players ≡ none
      → IsNew wallet (presence s)
      → s.next_address ≤ p
      → Follows s s'
  Settles-enters inside free new fresh = record {
    cfg = e.cfg;
    run =
        enters (presence s) (presence s') id (record { wallet = wallet; chunk_x = x; chunk_z = z })
          (presence-none id s free) new inside settled_place;
    continues = record {
      next_address = e.next_address;
      kept = λ j q at. elim (Bool-cases (id == j)) [
        | inl same ↦ inr (ground (arith, fresh, same, at, e.players j))
        | inr other ↦ inl (settled_others j q other at)
      ];
    };
  }

  pub Settles-moves :
      contains_chunk s.cfg x z ≡ true
      → lookup id s.players ≡ some p
      → (s.heap p).wallet_pubkey ≡ wallet
      → Follows s s'
  Settles-moves inside at was = record {
    cfg = e.cfg;
    run =
        moves (presence s) (presence s') id (place_of (s.heap p))
          (record { wallet = wallet; chunk_x = x; chunk_z = z }) (presence-some id p s at) (sym was)
          inside settled_place;
    continues = record {
      next_address = e.next_address;
      kept = λ j q at'. elim (Bool-cases (id == j)) [
        | inl same ↦
            let here : p ≡ q = ground (arith, same, at', e.players j) in
            let key : id ≡ j = ground (arith, same) in
            inl (
              subst (λ k. lookup k s.players ≡ some q) key (at ∙ ap some here),
              subst (λ r. (s'.heap r).wallet_pubkey ≡ (s.heap r).wallet_pubkey) here (is ∙ sym was),
            )
        | inr other ↦ inl (settled_others j q other at')
      ];
    };
  }
