-- ===== src/Network/Server/Tests.antt =====
-- The server at a concrete run: two connections, of which the first ends.
use modern_cpp_room_server.Prelude.{false, List, [], ◌∷◌, arith}
use modern_cpp_room_server.Protocol.Bytes.{little}
use modern_cpp_room_server.Network.Server.{new_server, make_metrics, socket, on_accept}
use modern_cpp_room_server.Network.Server.Serve.{
  Event, accepts, ends, serve, IsServed, serve-IsServed,
}

abbrev three_events : List Event
three_events = accepts (socket 10) ∷ accepts (socket 20) ∷ ends 1 false ∷ []

serve-IsServed_example :
    let s = serve little three_events (new_server (make_metrics 500)) in
    IsServed 30 s (on_accept (socket 30) s)
serve-IsServed_example = serve-IsServed little 500 three_events 30 (omega arith)
