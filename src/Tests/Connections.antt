-- ===== src/Tests/Connections.antt =====
-- The relay and the proxy.
use wc3ts.Prelude.{
  ◌≡◌, refl, true, List, [], ◌∷◌, ◌++◌, ◌<◌, ◌≤◌, ◌⊎◌, none, some, codes, arith, length,
  length-append, length-take, ltb, if◌then◌else◌,
}
use wc3ts.Prelude.Walk.{straight}
use wc3ts.Text.{decimal}
use wc3ts.Net.{addr_text, join_host_port}
use wc3ts.W3gs.{Join, join, Decoder}
use wc3ts.Relay.{
  Chunk, arrived, eof, broken, Turn, remote_turn, client_turn, Relay, relay, relay_done,
}
use wc3ts.Relay.Returns.{relay_returns}
use wc3ts.Relay.Delivery.{
  Prefixes, Ends, remote_turns, client_turns, stream, relay-Prefixes, relay_delivers,
}
use wc3ts.Proxy.{
  Connection, failed, deserialize_error, read_join_packet, dial, write_remote, relayed,
  close_remote, close_client, handle_connection, remote_addr,
}
use wc3ts.Proxy.Handler.{
  served, client_open, all_closed, effects, handle_connection-closes, Handles,
  handle_connection_lem,
}
use wc3ts.Proxy.Arrival.{join_arrives}
use wc3ts.Proxy.Segments.{Framed, first_read_decides}
use wc3ts.Tests.Data.{registry, registry-IsValid, remote_game}
use wc3ts.Tests.Games.{bound_remote, Answers-remote, only_remote}

abbrev client : List Chunk
client = arrived (codes "join") ∷ arrived (codes "hello") ∷ eof ∷ []

abbrev host : List Chunk
host = arrived (codes "welcome") ∷ broken ∷ []

abbrev turns : List Turn
turns =
    remote_turn none
    ∷ client_turn none
    ∷ remote_turn none
    ∷ client_turn none
    ∷ remote_turn none
    ∷ []

-- The write to the client fails after three bytes.
relay-Prefixes_example :
    Prefixes (relay (client_turn (some 3) ∷ turns) client host).to_remote (stream client)
    × Prefixes (relay (client_turn (some 3) ∷ turns) client host).to_client (stream host)
relay-Prefixes_example = relay-Prefixes (client_turn (some 3) ∷ turns) client host

relay_runs : (relay (client_turn (some 3) ∷ turns) client host).to_client.output ≡ codes "wel"
unfolding relay
relay_runs = refl

relay_delivers_example :
    (relay_done (relay turns client host) ≡ true)
    × ((relay turns client host).to_remote.output ≡ stream client)
    × ((relay turns client host).to_client.output ≡ stream host)
unfolding stream Ends remote_turns client_turns
relay_delivers_example =
    relay_delivers turns client host tt tt (refl, (refl, (refl, tt))) (refl, (refl, tt))
      (omega arith) (omega arith)

relay_returns_example : relay_done (relay turns client host) ≡ true
unfolding Ends remote_turns client_turns
relay_returns_example = relay_returns turns client host tt tt (omega arith) (omega arith)

abbrev pub connection : Connection
connection = record {
  set_deadline = true;
  in_time = true;
  clear_deadline = true;
  client = client;
  remote = host;
  dials = true;
  writes = true;
  turns = turns;
}

abbrev first_packet : Join
first_packet = record { host_counter = 3; player_name = codes "bob" }

-- A decoder that knows one packet.
abbrev decoder : Decoder
decoder s = some (join first_packet)

handle_connection-closes_example :
    effects (handle_connection decoder straight registry connection) (some client_open)
    ≡ some all_closed
handle_connection-closes_example = handle_connection-closes decoder straight registry connection

handle_connection_lem_example :
    Handles decoder straight registry connection
      (handle_connection decoder straight registry connection)
handle_connection_lem_example =
    handle_connection_lem decoder straight registry connection registry-IsValid

join_arrives_example :
    (end : Relay) × (handle_connection decoder straight registry connection
      ≡ dial (remote_addr remote_game) true
        ∷ write_remote (codes "join")
        ∷ relayed end
        ∷ close_remote
        ∷ close_client
        ∷ [])
    × (codes "join" ++ end.to_remote.output ≡ stream client)
    × (end.to_client.output ≡ stream host)
    × (relay_done end ≡ true)
unfolding stream Ends remote_turns client_turns
join_arrives_example =
    join_arrives decoder straight registry connection (codes "join")
      (arrived (codes "hello") ∷ eof ∷ []) first_packet
      (record {
        deadline_set = refl;
        timely = refl;
        deadline_cleared = refl;
        sends = refl;
        decodes = refl;
      })
      (codes "100.64.0.7:lobby") remote_game registry-IsValid bound_remote Answers-remote
      only_remote
      (record {
        dialled = refl;
        forwarded = refl;
        client_ends = tt;
        remote_ends = tt;
        remote_writes = (refl, (refl, (refl, tt)));
        client_writes = (refl, (refl, tt));
        remote_enough = omega arith;
        client_enough = omega arith;
      })

remote_addr_runs : remote_addr remote_game ≡ codes "100.64.0.7:6112"
unfolding remote_addr addr_text decimal join_host_port
remote_addr_runs = refl

-- A decoder that wants four bytes, and a player whose packet arrives in two segments.
abbrev four_bytes : Decoder
four_bytes s = if ltb (length s) 4 then none else some (join first_packet)

abbrev in_two : Connection
in_two = record connection { client = arrived (codes "jo") ∷ arrived (codes "in") ∷ eof ∷ [] }

four_bytes-Framed : Framed four_bytes (codes "join") first_packet
four_bytes-Framed = record {
  whole = λ t. ground (arith, length-append (codes "join") t);
  partial = λ n h. ground (arith, h, length-take n (codes "join"));
}

first_read_decides_example :
    ((4 ≤ 2)
      × (handle_connection four_bytes straight registry in_two
          ≡ served in_two (codes "jo") remote_game))
    ⊎ ((2 < 4)
        × (read_join_packet four_bytes in_two ≡ failed deserialize_error)
        × (handle_connection four_bytes straight registry in_two ≡ close_client ∷ []))
unfolding stream
first_read_decides_example =
    first_read_decides four_bytes straight registry in_two (codes "jo")
      (arrived (codes "in") ∷ eof ∷ []) (codes "join") [] first_packet
      (record { deadline_set = refl; timely = refl; deadline_cleared = refl; sends = refl })
      four_bytes-Framed refl (codes "100.64.0.7:lobby") remote_game registry-IsValid bound_remote
      Answers-remote only_remote
