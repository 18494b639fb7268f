-- ===== src/System/Tests.antt =====
-- The worker and the registry at a concrete run: a session registers, joins and is removed.
use modern_cpp_room_server.Prelude.{◌≡◌, refl, Bool, true, none, List, [], ◌∷◌, arith}
use modern_cpp_room_server.Prelude.Map
use modern_cpp_room_server.Protocol.Bytes.{little}
use modern_cpp_room_server.Room.Commands.{join_command, leave_command, client_closed}
use modern_cpp_room_server.Concurrency
use modern_cpp_room_server.Room.State.{apply}
use modern_cpp_room_server.Room.Worker
use modern_cpp_room_server.Room.Worker.{submit, run_round}
use modern_cpp_room_server.Network.Registry.{Endpoint}
use modern_cpp_room_server.System.{new_system, Step, works, registers, submits, unregisters, steps}
use modern_cpp_room_server.System.Steps.{steps-members}

abbrev alive_all : Endpoint → Bool
alive_all endpoint = true

abbrev six_steps : List Step
six_steps =
    registers 7 70
    ∷ submits (join_command 7)
    ∷ works alive_all
    ∷ submits (leave_command 7 client_closed)
    ∷ works alive_all
    ∷ unregisters 7
    ∷ []

nobody : Map.find 9 (steps little six_steps new_system).worker.room.players ≡ none
unfolding steps run_round submit Concurrency.push Concurrency.wait_pop apply Map.find Map.erase
    Worker.new
nobody = refl

steps-members_example : Map.find 9 (steps little six_steps new_system).registry.room_members ≡ none
steps-members_example =
    steps-members little six_steps 9 (omega arith)
      (tt, (omega arith, (tt, (omega arith, (tt, (tt, tt)))))) nobody
