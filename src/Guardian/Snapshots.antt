-- ===== src/Guardian/Snapshots.antt =====
-- What Guardian/src/guardian.cpp tells a player that enters: `collect_snapshot`,
-- `collect_equipment_snapshot` and `collect_identity_snapshot`; none is the read of a player that is not alive.
pub mod Loops
pub mod Contents
use nicechunk_guardian.Base.{
  ℕ, ◌==◌, Bool, not, ◌&&◌, ◌||◌, if◌then◌else◌, Option, none, some, List, [], ◌∷◌, ◌++◌,
}
use nicechunk_guardian.Base.Int.{◌+ℤ◌}
use nicechunk_guardian.Base.Table.{lookup}
use nicechunk_guardian.Aoi.{AoiOffset}
use nicechunk_guardian.Chunk.{chunk_key, contains_chunk}
use nicechunk_guardian.Protocol.Messages.{PlayerIdentity}
use nicechunk_guardian.Protocol.Events.{PlayerJoin, EquipmentEvent}
use nicechunk_guardian.Guardian.{Player, Guardian}
use nicechunk_guardian.Guardian.Events.{make_join, make_equipment_event, make_identity}
use nicechunk_guardian.Guardian.Publish.{aoi_offsets, is_alive}

-- The three functions differ in the players that they keep and in what they make of one.
module _ {A : Type 0} (keeps : Player → Bool) (make : Player → A) where
  -- The tests of the inner loop.
  abbrev pub is_shown : ℕ → Guardian → ℕ → Bool
  is_shown viewer s other = keeps (s.heap other) && (s.cfg.echo_self || not (other == viewer))

  -- The inner loop, over the players of a room.
  unfoldable pub collect_room : ℕ → List ℕ → Guardian → Option (List A)
  unfolding is_alive
  collect_room viewer [] s = some []
  collect_room viewer (other ∷ players) s =
      let rest = collect_room viewer players s in
      if not (is_alive other s) then none else elim rest [
        | none ↦ none
        | some more ↦ some (if is_shown viewer s other then make (s.heap other) ∷ more else more)
      ]

  -- The outer loop, over the offsets.
  unfoldable pub collect_around : ℕ → List AoiOffset → Guardian → Option (List A)
  unfolding collect_room
  collect_around viewer [] s = some []
  collect_around viewer (offset ∷ offsets) s =
      let rest = collect_around viewer offsets s in
      let x = (s.heap viewer).current_chunk_x +ℤ offset.dx in
      let z = (s.heap viewer).current_chunk_z +ℤ offset.dz in
      if contains_chunk s.cfg x z
      then elim (lookup (chunk_key x z) s.rooms) [
        | none ↦ rest
        | some room ↦ elim (collect_room viewer room.players s) [
          | none ↦ none
          | some here ↦ elim rest [ none ↦ none | some more ↦ some (here ++ more) ]
        ]
      ]
      else rest

unfoldable pub collect_snapshot : ℕ → Guardian → Option (List PlayerJoin)
unfolding collect_around
collect_snapshot viewer s = collect_around (λ q. q.has_pose) make_join viewer (aoi_offsets s) s

unfoldable pub collect_equipment_snapshot : ℕ → Guardian → Option (List EquipmentEvent)
unfolding collect_around
collect_equipment_snapshot viewer s =
    collect_around (λ q. q.has_pose && q.has_equipment) make_equipment_event viewer (aoi_offsets s)
      s

unfoldable pub collect_identity_snapshot : ℕ → Guardian → Option (List PlayerIdentity)
unfolding collect_around
collect_identity_snapshot viewer s =
    collect_around (λ q. q.has_pose && q.has_identity) make_identity viewer (aoi_offsets s) s
