-- ===== src/Examples/Served.antt =====
-- Whole flows, from the connection to the file.
use mini_proxad.Prelude.{
  ℕ, ◌+◌, ◌<◌, ◌≡◌, ◌≢◌, refl, Option, none, some, true, false, List, [], ◌∷◌, ◌++◌, map, Bytes,
  codes, length, flatten, Result, ok, err, panicked, ControlFlow, go_on, break, arith, All,
}
use mini_proxad.Net.{port_of, ip_of}
use mini_proxad.Http.{
  Request, Response, http_11, request_to_bytes, response_to_bytes, version_to_bytes, header_lines,
}
use mini_proxad.Stream
use mini_proxad.Stream.{Poll, filled, pending, poll_chunk, wrote_all}
use mini_proxad.Flow.{http, HttpFlow, new_raw_flow}
use mini_proxad.Flow.Iter.{Item}
use mini_proxad.Filter.{Filter, FilterModule}
use mini_proxad.Proxy.Raw.{
  Ready, Turn, from_client, from_server, Closing, handle_flow, finished, Progress, Session, running,
}
use mini_proxad.Proxy.Raw.Ending.{handle_flow-ends}
use mini_proxad.Proxy.Recorded.{Dumped, handle_flow-Dumped}
use mini_proxad.Proxy.Dumper.Conversation.{make_ends, write_tcp_flow, ipv4_of}
use mini_proxad.Proxy.Dumper.Transcript.{seal}
use mini_proxad.Proxy.Dumper.Pieces.{spoken, all_pieces}
use mini_proxad.Proxy.Dumper.Course.{stamp_of, transcript}
use mini_proxad.Proxy.Dumper.Messages.{write_tcp_flow_texts}
use mini_proxad.Examples.World.{
  plain, client, server, client-ne-server, script, clock, clock-IsTimely, image, writer,
  writer-IsReliable,
}

abbrev toy : FilterModule ℕ ℕ ℕ ℕ
toy = script

abbrev quiet : Closing
quiet = record {
  client_flush = none;
  server_flush = none;
  client_shutdown = none;
  server_shutdown = none;
}

-- The client sends three bytes, with no filter.
abbrev open_turn : Turn ℕ ℕ ℕ ℕ
open_turn = record {
  wakes = (filled (1 ∷ 2 ∷ []) ∷ filled (3 ∷ []) ∷ []) ∷ [];
  read_at = 2;
  called_at = 3;
  replaced_at = 4;
  filter = none;
  writing = wrote_all;
}

-- The client sends again, behind a filter that replaces the bytes; then it closes the stream.
abbrev filtered_turn : Turn ℕ ℕ ℕ ℕ
filtered_turn = record open_turn { filter = some (record { script_path = []; inner = toy }) }

abbrev last_turn : Turn ℕ ℕ ℕ ℕ
last_turn = record open_turn { wakes = (filled [] ∷ []) ∷ [] }

handle_flow-ends_example :
    let r =
      handle_flow none
        (from_client open_turn ∷ from_client open_turn ∷ from_server open_turn ∷ [])
        quiet
        (new_raw_flow 0 1 client 1 server 1) in
    (result : Result (Unit {0})) × (r.1 ≡ finished result) × (result ≢ panicked)
handle_flow-ends_example =
    handle_flow-ends none
      (from_client open_turn ∷ from_client open_turn ∷ from_server open_turn ∷ []) quiet 0 1 client
      server 1 1 (λ flow. (go_on, refl), (λ flow. (go_on, refl), (λ flow. (go_on, refl), tt)))
      (omega arith)

abbrev turns : List (Ready ℕ ℕ ℕ ℕ)
turns = from_client open_turn ∷ from_client filtered_turn ∷ from_client last_turn ∷ []

abbrev served : Session ℕ ℕ × Progress
served = handle_flow none turns quiet (new_raw_flow 0 1 client 100 server 100)

handle_flow-Dumped_example :
    Dumped plain writer image writer-IsReliable clock clock-IsTimely 1 2 [] served
unfolding ipv4_of ip_of
handle_flow-Dumped_example =
    handle_flow-Dumped plain writer image writer-IsReliable clock clock-IsTimely none turns quiet 0
      1 client server 100 100 1 2 [] client-ne-server refl refl

-- The second chunk was replaced, and the server has got all.
served_result :
    (served.1 ≡ finished (ok tt))
    × (served.0.flow.client_history.bytes ≡ 1 ∷ 2 ∷ 3 ∷ 6 ∷ [])
    × (served.0.to_server ≡ 1 ∷ 2 ∷ 3 ∷ 6 ∷ [])
unfolding handle_flow mini_proxad.Proxy.Raw.after_loop mini_proxad.Proxy.Raw.run_turns
    mini_proxad.Proxy.Raw.turn mini_proxad.Proxy.Raw.client_turn mini_proxad.Proxy.Raw.read_chunk
    Stream.read_chunk poll_chunk mini_proxad.Proxy.Raw.record_chunk new_raw_flow
    mini_proxad.History.Raw.new_raw_history mini_proxad.Proxy.Raw.forward_client
    mini_proxad.Filter.Raw.on_raw_client mini_proxad.History.Raw.last_chunk
    mini_proxad.Filter.Raw.apply_raw_chunk mini_proxad.Filter.Raw.raw_result
    mini_proxad.Filter.extract_bytes mini_proxad.Proxy.Raw.write_last_chunk Stream.write_chunk
    mini_proxad.History.Raw.set_last_chunk mini_proxad.History.Raw.last_range
    mini_proxad.Proxy.Raw.close_streams
served_result = (refl, refl, refl)

abbrev get : Request plain
get = record { method = codes "GET"; uri = codes "/"; version = http_11; headers = []; body = [] }

abbrev found : Response plain
found = record { version = http_11; status = 200; headers = []; body = 1 ∷ 2 ∷ [] }

-- Two requests and one response.
abbrev half_answered : HttpFlow ℕ ℕ (Request plain) (Response plain)
half_answered = record {
  id = 0;
  start = 1;
  client_addr = client;
  server_addr = server;
  history = record {
    requests = (get, 2) ∷ (get, 4) ∷ (get, 5) ∷ [];
    responses = (found, 3) ∷ [];
    client_size = 0;
    server_size = 2;
    client_max = 100;
    server_max = 100;
  };
}

abbrev get_text : Bytes
get_text = codes "GET / HTTP/1.1" ++ (13 ∷ 10 ∷ 13 ∷ 10 ∷ [])

abbrev found_text : Bytes
found_text = codes "HTTP/1.1 200 " ++ (13 ∷ 10 ∷ 13 ∷ 10 ∷ 1 ∷ 2 ∷ [])

write_tcp_flow_texts_example :
    (items : List (Item ℕ)) × (let segments =
        transcript (stamp_of clock) client (make_ends 1 2 1_000 80) 1 items in
      write_tcp_flow plain writer clock (http half_answered) []
      ≡ (map (seal image) segments, ok (length segments)))
    × (spoken true (all_pieces (stamp_of clock) client items) ≡ flatten (get_text ∷ get_text ∷ []))
    × (spoken false (all_pieces (stamp_of clock) client items) ≡ flatten (found_text ∷ []))
unfolding ipv4_of ip_of port_of request_to_bytes response_to_bytes version_to_bytes header_lines
    mini_proxad.Prelude.decimal mini_proxad.Prelude.decimal_from
write_tcp_flow_texts_example =
    write_tcp_flow_texts plain writer image writer-IsReliable clock clock-IsTimely half_answered 1 2
      [] (get_text ∷ get_text ∷ []) (found_text ∷ []) client-ne-server refl refl refl refl
