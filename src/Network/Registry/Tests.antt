-- ===== src/Network/Registry/Tests.antt =====
-- A member hears of another that leaves; and three calls.
use modern_cpp_room_server.Prelude.{◌+◌, refl, List, length, Bool, true, none, [], ◌∷◌, arith}
use modern_cpp_room_server.Prelude.Map
use modern_cpp_room_server.Protocol.Bytes.{little}
use modern_cpp_room_server.Room.Commands.{RoomEvent, player_left_event, left_room}
use modern_cpp_room_server.Network.Registry.{Endpoint, SessionRegistry, publish}
use modern_cpp_room_server.Network.Registry.Tables.{IsWithin}
use modern_cpp_room_server.Network.Registry.Calls.{
  Call, registers, unregisters, publishes, call_all, call_all-IsWithin,
}
use modern_cpp_room_server.Network.Registry.Publish.{IsPublished, publish-live_members}

abbrev two_members : SessionRegistry
two_members = record {
  metrics = none;
  sessions = (7, 70) ∷ (2, 20) ∷ [];
  room_members = (2, tt) ∷ (7, tt) ∷ [];
}

abbrev all_alive : Endpoint → Bool
all_alive endpoint = true

abbrev departure : RoomEvent
departure = player_left_event 7 left_room

publish-live_members_example :
    IsPublished all_alive departure two_members (publish little all_alive departure two_members).0
unfolding Map.find
publish-live_members_example =
    publish-live_members little all_alive departure two_members (omega arith) (refl, (refl, tt))
      (refl, (refl, tt))

abbrev three_calls : List Call
three_calls = registers 9 90 ∷ publishes departure all_alive ∷ unregisters 2 ∷ []

two_members-IsWithin : IsWithin 2 two_members
unfolding Map.find
two_members-IsWithin = record {
  proper = record {
    one_endpoint = (refl, (refl, tt));
    one_membership = (refl, (refl, tt));
    gauge = tt;
  };
  few = omega arith;
}

call_all-IsWithin_example :
    IsWithin (2 + length three_calls) (call_all little three_calls two_members)
call_all-IsWithin_example =
    call_all-IsWithin little 2 three_calls two_members (omega arith) two_members-IsWithin
