-- ===== src/Room/State/Snapshot.antt =====
-- The snapshot of a room depends on who is where, and on nothing else.
use modern_cpp_room_server.Prelude.{
  ℕ, ◌≡◌, refl, sym, ◌∙◌, List, [], ◌∷◌, map, length, length-map, arith,
}
use modern_cpp_room_server.Prelude.Map
use modern_cpp_room_server.Prelude.Sort
use modern_cpp_room_server.Room.Commands.{SessionId, GridPosition}
use modern_cpp_room_server.Room.State.{
  PlayerSnapshot, Room, player_count, snapshot_of, find, snapshot,
}
use modern_cpp_room_server.Room.State.Lookup.{IsValid}

abbrev pub id_of : PlayerSnapshot → ℕ
id_of p = p.session_id

-- Room's own lookup, on the list of all its players.
find_by-map :
    (id : SessionId) (m : List (SessionId × GridPosition))
    → Sort.find_by id_of id (map snapshot_of m) ≡ find (record { players = m }) id
unfolding find Sort.find_by Map.find
find_by-map id [] = refl
find_by-map id ((j, p) ∷ m) = ground (arith, find_by-map id m)

map-DistinctKeys :
    (m : List (SessionId × GridPosition))
    → Map.Distinct m
    → Sort.DistinctKeys id_of (map snapshot_of m)
map-DistinctKeys [] d = tt
map-DistinctKeys ((j, p) ∷ m) d = (
  unfold snapshot_of in (find_by-map j m ∙ (unfold find in rw (d.0, find) refl)),
  map-DistinctKeys m (d.1),
)

-- The snapshot of a room with one position for each session stands in strictly rising order of the
-- session ids, has player_count entries, and has for each session the entry that find gives.
pub snapshot_lem :
    (r : Room) (id : SessionId)
    → IsValid r
    → Sort.Ascending id_of 0 (snapshot r)
      × (length (snapshot r) ≡ player_count r)
      × (Sort.find_by id_of id (snapshot r) ≡ find r id)
unfolding snapshot player_count
snapshot_lem r id v = (
  Sort.sort_by-Ascending id_of (map snapshot_of r.players) (map-DistinctKeys r.players v),
  Sort.length-sort_by id_of (map snapshot_of r.players) ∙ length-map r.players snapshot_of,
  Sort.find_by-sort_by id_of id (map snapshot_of r.players) ∙ find_by-map id r.players,
)

-- Two rooms with one position for each session that agree on find for every session have the same
-- snapshot, whatever the order of their tables.
pub snapshot_determined :
    (r s : Room)
    → IsValid r
    → IsValid s
    → ((id : SessionId) → find r id ≡ find s id)
    → snapshot r ≡ snapshot s
snapshot_determined r s v w h =
    Sort.Ascending-unique id_of 0 (snapshot r) (snapshot s) (snapshot_lem r 0 v).0
      (snapshot_lem s 0 w).0 (λ k. (snapshot_lem r k v).2 ∙ h k ∙ sym (snapshot_lem s k w).2)
