-- ===== src/Guardian/Snapshots/Contents.antt =====
-- About the snapshots of Guardian/src/guardian.cpp: which players they list.
use nicechunk_guardian.Base.{ℕ, ◌≡◌, Bool, true, ◌&&◌, List, Option, none, some, All}
use mathlib.Core.List.{Memᴰ}
use nicechunk_guardian.Base.Int.{ℤ, ◌+ℤ◌, ◌-ℤ◌}
use nicechunk_guardian.Base.Table.{lookup}
use nicechunk_guardian.Aoi.Offsets.{is_near}
use nicechunk_guardian.Chunk.{chunk_key, contains_chunk}
use nicechunk_guardian.Protocol.Messages.{PlayerIdentity}
use nicechunk_guardian.Protocol.Events.{PlayerJoin, EquipmentEvent}
use nicechunk_guardian.Guardian.{Player, Guardian}
use nicechunk_guardian.Guardian.Events.{make_join, make_equipment_event, make_identity}
use nicechunk_guardian.Guardian.Publish.{aoi_offsets}
use nicechunk_guardian.Guardian.State.{IsState}
use nicechunk_guardian.Guardian.Snapshots.{
  is_shown, collect_around, collect_snapshot, collect_equipment_snapshot, collect_identity_snapshot,
}
use nicechunk_guardian.Guardian.Snapshots.Loops.{collect_around-Around}

module _ {A : Type 0} (keeps : Player → Bool) (make : Player → A) (viewer : ℕ) (s : Guardian)
    (state : IsState s) where
  -- `a` is made of a player of the table that is kept and, unless players see themselves, is not the viewer. It
  -- stands in the room of a chunk of the area, within the interest radius of the viewer's chunk.
  pub record Source (a : A) : Type 0 where
    pub id : ℕ
    pub q : ℕ
    pub dx : ℤ
    pub dz : ℤ
    pub present : lookup id s.players ≡ some q
    pub made : a ≡ make (s.heap q)
    pub shown : is_shown keeps make viewer s q ≡ true
    pub near :
        (is_near s.cfg.player_aoi_radius_chunks dx && is_near s.cfg.player_aoi_radius_chunks dz)
        ≡ true
    pub inside :
        contains_chunk s.cfg
          ((s.heap viewer).current_chunk_x +ℤ dx)
          ((s.heap viewer).current_chunk_z +ℤ dz)
        ≡ true
    pub room :
        (s.heap q).current_chunk_room
        ≡ some (
            chunk_key
              ((s.heap viewer).current_chunk_x +ℤ dx)
              ((s.heap viewer).current_chunk_z +ℤ dz))

  -- All entries have such a source, and every such player of the table is listed.
  pub record IsSnapshot (out : List A) : Type 0 where
    pub sound : All Source out
    pub complete :
        (id q : ℕ)
        → lookup id s.players ≡ some q
        → is_shown keeps make viewer s q ≡ true
        → is_near s.cfg.player_aoi_radius_chunks
            ((s.heap q).current_chunk_x -ℤ (s.heap viewer).current_chunk_x)
          ≡ true
        → is_near s.cfg.player_aoi_radius_chunks
            ((s.heap q).current_chunk_z -ℤ (s.heap viewer).current_chunk_z)
          ≡ true
        → Memᴰ (make (s.heap q)) out

  abbrev pub Snapshot : Option (List A) → Type 0
  Snapshot none = ⊥
  Snapshot (some out) = IsSnapshot out

-- Without a bound on the radius they follow no pointer that dangles, either.
pub snapshots_some :
    (viewer : ℕ) (s : Guardian)
    → IsState s
    → ((joins : List PlayerJoin) × (collect_snapshot viewer s ≡ some joins))
      × ((equipments : List EquipmentEvent) × (collect_equipment_snapshot viewer s
            ≡ some equipments))
      × ((identities : List PlayerIdentity) × (collect_identity_snapshot viewer s
            ≡ some identities))
unfolding collect_snapshot collect_equipment_snapshot collect_identity_snapshot
snapshots_some viewer s state = (
  found (λ q. q.has_pose) make_join,
  found (λ q. q.has_pose && q.has_equipment) make_equipment_event,
  found (λ q. q.has_pose && q.has_identity) make_identity,
)
  where
    found :
        {A : Type 0} (keeps : Player → Bool) (make : Player → A)
        → (out : List A) × (collect_around keeps make viewer (aoi_offsets s) s ≡ some out)
    found keeps make =
        let (out, e, l) =
          collect_around-Around keeps make viewer s state (λ a. Unit {0}) (aoi_offsets s) in
        (out, e)
