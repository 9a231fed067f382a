-- ===== src/Examples/Day.antt =====
-- Connections of one proxy, from the accept loop to the dumper.
use mini_proxad.Prelude.{
  ℕ, ◌≤◌, ◌≡◌, refl, none, some, true, false, List, [], ◌∷◌, Bytes, length, map, ◌++◌, ok,
}
use mini_proxad.Http.Extract.{PyHttpReq, PyHttpResp}
use mini_proxad.Proxy.Accept.{
  WebService, Event, visits, raw_ends, receives, Visit, AnyFlow, Running, run, started,
}
use mathlib.Core.List.{Perm}
use mini_proxad.Flow.{raw, http}
use mini_proxad.Proxy.Accept.{calls, http_ends}
use mini_proxad.Proxy.Accept.Handover.{queue_of}
use mini_proxad.Proxy.Accept.Outcomes.{left, shares, connections}
use mini_proxad.Proxy.Accept.Offers.{offered, Full}
use mini_proxad.Proxy.Accept.Isolation.{run-Isolated}
use mini_proxad.Proxy.Dumper.Start.{dump_channel_limit}
use mini_proxad.Examples.Web.{upstream, arriving}
use mini_proxad.Stream.{filled, wrote_all}
use mini_proxad.Proxy.Raw.{Ready, from_client, Closing}
use mini_proxad.Examples.World.{plain, client}
use mini_proxad.Proxy.Dumper.Rotation.{
  Recv, delivered, timed_out, Tick, Limits, Finish, moved, copied_all, dumper,
}
use mini_proxad.Examples.Setup.{toy_tls, web_service}

abbrev quiet : Closing
quiet = record {
  client_flush = none;
  server_flush = none;
  client_shutdown = none;
  server_shutdown = none;
}

abbrev visit : Visit plain ℕ ℕ
visit = record {
  accepted = some client;
  connected = true;
  handshake = true;
  id = 0;
  now = 1;
  script = none;
}

-- Two clients of a raw service; the first is served to its end, and the dumper takes its flow.
abbrev raw_service : WebService plain ℕ ℕ toy_tls
raw_service = record (web_service none) { http_config = none }

-- The first client sends two bytes and closes its stream.
abbrev says : Bytes → Ready ℕ ℕ (PyHttpReq plain) (PyHttpResp plain)
says bytes = from_client (record {
  wakes = (filled bytes ∷ []) ∷ [];
  read_at = 2;
  called_at = 3;
  replaced_at = 4;
  filter = none;
  writing = wrote_all;
})

abbrev day : List (Event plain ℕ ℕ)
day =
    visits visit
    ∷ visits visit
    ∷ raw_ends 0 none (says (1 ∷ 2 ∷ []) ∷ says [] ∷ []) quiet
    ∷ receives
    ∷ []

-- Two clients of an HTTP service, the second in between the calls of the first; the first connection
-- ends, and the dumper takes its flow.
abbrev ask : ℕ → Event plain ℕ ℕ
ask i = calls i none none upstream 7 8 arriving

abbrev web_day : List (Event plain ℕ ℕ)
web_day = visits visit ∷ ask 0 ∷ visits visit ∷ ask 1 ∷ ask 0 ∷ http_ends 0 true ∷ receives ∷ []

run-Isolated_example :
    let s = run plain (web_service none) web_day (started plain true) in
    let alone = connections plain (web_service none) 0 web_day in
    (s.tasks ≡ left plain alone)
    × Perm (offered plain s) (shares plain alone)
    × (length (queue_of s.dumper) ≤ dump_channel_limit)
    × Full plain s
run-Isolated_example =
    run-Isolated plain (web_service none) web_day
      (refl, (refl, (refl, (refl, (refl, (refl, (refl, tt)))))))

-- What the dumper has got: one flow, with two requests and two responses; the other task goes on.
abbrev recorded : AnyFlow plain ℕ ℕ → ℕ × ℕ
recorded (raw f) = (0, 0)
recorded (http f) = (length f.history.requests, length f.history.responses)

web_day_result :
    map recorded (run plain (web_service none) web_day (started plain true)).received ≡ (2, 2) ∷ []
unfolding run started mini_proxad.Proxy.Accept.step mini_proxad.Proxy.Accept.accept_one
    mini_proxad.Proxy.Accept.add_task mini_proxad.Proxy.Accept.on_task
    mini_proxad.Proxy.Accept.on_dumper mini_proxad.Proxy.Accept.end_http
    mini_proxad.Proxy.Accept.into_flow mini_proxad.Proxy.Accept.open_http
    mini_proxad.Proxy.Accept.hand_over mini_proxad.Proxy.Accept.try_send
    mini_proxad.Proxy.Accept.take_one mini_proxad.Proxy.Hyper.new_proxy_hyper
    mini_proxad.Proxy.Hyper.call_service mini_proxad.Proxy.Hyper.limited
    mini_proxad.Proxy.Hyper.limited_answer mini_proxad.Proxy.Hyper.call
    mini_proxad.Proxy.Hyper.serve mini_proxad.Proxy.Hyper.push_request
    mini_proxad.Proxy.Hyper.push_response mini_proxad.History.Http.push_request
    mini_proxad.History.Http.push_response mini_proxad.Proxy.Hyper.forward
    mini_proxad.Proxy.Hyper.finish mini_proxad.Proxy.Hyper.return_response
    mini_proxad.Filter.Http.on_http_open mini_proxad.Filter.Http.on_http_request
    mini_proxad.Filter.Http.on_http_response mini_proxad.Flow.new_http_flow
    mini_proxad.History.Http.new_http_history
web_day_result = refl

-- The dumper has got one flow, with the two bytes, and the other task goes on.
abbrev evening : Running plain ℕ ℕ
evening = run plain raw_service day (started plain true)

day_result :
    (length evening.received ≡ 1) × (length evening.tasks ≡ 2) × (length evening.refused ≡ 0)
unfolding run started mini_proxad.Proxy.Accept.step mini_proxad.Proxy.Accept.accept_one
    mini_proxad.Proxy.Accept.add_task mini_proxad.Proxy.Accept.on_task
    mini_proxad.Proxy.Accept.on_dumper mini_proxad.Proxy.Accept.end_raw
    mini_proxad.Proxy.Accept.hand_over mini_proxad.Proxy.Accept.try_send
    mini_proxad.Proxy.Accept.take_one mini_proxad.Proxy.Raw.handle_flow
    mini_proxad.Proxy.Raw.after_loop mini_proxad.Proxy.Raw.run_turns mini_proxad.Proxy.Raw.turn
    mini_proxad.Proxy.Raw.client_turn mini_proxad.Proxy.Raw.read_chunk mini_proxad.Stream.read_chunk
    mini_proxad.Stream.poll_chunk mini_proxad.Proxy.Raw.record_chunk mini_proxad.Flow.new_raw_flow
    mini_proxad.History.Raw.new_raw_history mini_proxad.Proxy.Raw.forward_client
    mini_proxad.History.Raw.last_chunk mini_proxad.Proxy.Raw.write_last_chunk
    mini_proxad.Stream.write_chunk mini_proxad.History.Raw.last_range
    mini_proxad.Proxy.Raw.close_streams
day_result = (refl, refl, refl)

-- The dumper writes the flow into a file and saves it when the time is over.
abbrev limits : Limits
limits = record { interval = 60; max_packets = 10 }

abbrev arrival : Recv (AnyFlow plain ℕ ℕ) → Tick (AnyFlow plain ℕ ℕ)
arrival c = record { elapsed = 0; channel = c }

abbrev file : List (AnyFlow plain ℕ ℕ) → List (Tick (AnyFlow plain ℕ ℕ)) × Finish
file flows = (
  map (λ f. arrival (delivered f)) flows ++ arrival timed_out ∷ [],
  record {
    begun = none;
    name = ok (100 ∷ 97 ∷ 121 ∷ []);
    persisted = moved;
    copied = copied_all;
    removed = false;
  },
)
