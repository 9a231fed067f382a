-- ===== src/Examples/Raw.antt =====
-- A raw flow and its pcap file.
use mini_proxad.Prelude.{
  ℕ, ◌+◌, ◌≡◌, ◌≢◌, ◌⊎◌, refl, none, some, List, [], ◌∷◌, ◌++◌, ltb, All, not_found, ok, panicked,
  arith,
}
use mini_proxad.Stream
use mini_proxad.Stream.{Poll, filled, failed, pending, poll_chunk, wrote_all, stalled_after}
use mini_proxad.Stream.Laws.{poll_chunk-pending, read_chunk_lossless, arrived_all}
use mini_proxad.History.Raw.{RawChunk, RawHistory, last_chunk, set_last_chunk}
use mini_proxad.History.Raw.Tiling.{
  IsTiled, set_last_chunk-IsTiled, parts-set_last_chunk, last_chunk-set_last_chunk,
}
use mini_proxad.History.Raw.Tiles.{parts}
use mini_proxad.History.Http.{HttpHistory}
use mini_proxad.History.Http.Bounds.{IsBounded, RequestExact, ResponseExact, push_exact}
use mini_proxad.Flow.{raw, new_raw_flow}
use mini_proxad.Flow.Iter.{Item, flow_items, collect, calls, into_iter, chunk_bytes}
use mini_proxad.Flow.Iter.Merge.{merge, traverse, flow_items-merge}
use mini_proxad.Flow.Iter.Contents.{flow_items_bytes}
use mini_proxad.Flow.Iter.Sides.{bytes_from}
use mini_proxad.Flow.Iter.Order.{IsChronological}
use mini_proxad.Flow.Iter.Clock.{item_times, flow_items-IsChronological}
use mini_proxad.Filter.{Filter, FilterModule}
use mini_proxad.Filter.Raw.{on_raw_client, on_raw_server}
use mini_proxad.Filter.{returned, py_ellipsis}
use mini_proxad.Filter.Raw.Verdicts.{Judged, seen_by, on_raw-Judged}
use mini_proxad.Proxy
use mini_proxad.Proxy.Raw.{
  Ready, Turn, from_client, from_server, Closing, handle_flow, finished, running,
}
use mini_proxad.Proxy.Raw.Reads.{Reads, read_chunk-Reads}
use mini_proxad.Proxy.Raw.Forwarding.{handle_flow-IsBehind, handle_flow-IsSynced}
use mini_proxad.Proxy.Raw.Sync.{IsBehind, IsSynced}
use mini_proxad.Examples.World.{
  plain, client, server, sent, received, two_way, client-ne-server, script, before_asym,
}

abbrev wakes : List (List Poll)
wakes = [] ∷ (filled (1 ∷ 2 ∷ []) ∷ filled (3 ∷ []) ∷ []) ∷ (failed not_found ∷ []) ∷ []

poll_chunk-pending_example :
    ((poll_chunk [] (1 ∷ []) 0).buffer ≡ 1 ∷ []) × ◌≡◌ {A = List Poll} [] [] × ◌≡◌ {A = ℕ} 0 0
unfolding poll_chunk
poll_chunk-pending_example = poll_chunk-pending [] (1 ∷ []) 0 refl

read_chunk_lossless_example :
    (Stream.read_chunk wakes (9 ∷ [])).buffer
      ++ arrived_all (Stream.read_chunk wakes (9 ∷ [])).wakes
    ≡ 9 ∷ 1 ∷ 2 ∷ 3 ∷ []
read_chunk_lossless_example = read_chunk_lossless wakes (9 ∷ [])

read_chunk-Reads_example :
    Reads sent 40 (Proxy.Raw.read_chunk wakes sent 40).0 (Proxy.Raw.read_chunk wakes sent 40).1
read_chunk-Reads_example = read_chunk-Reads wakes sent 40

pub sent-IsTiled : IsTiled sent
sent-IsTiled = (refl, omega arith, (refl, omega arith, refl))

pub received-IsTiled : IsTiled received
received-IsTiled = (refl, omega arith, refl)

set_last_chunk-IsTiled_example : IsTiled (set_last_chunk sent (1 ∷ 2 ∷ []) 50)
set_last_chunk-IsTiled_example = set_last_chunk-IsTiled sent (1 ∷ 2 ∷ []) 50 sent-IsTiled

abbrev first_chunk : RawChunk ℕ
first_chunk = record { range = record { start = 0; end = 2 }; timestamp = 10 }

abbrev last_of_sent : RawChunk ℕ
last_of_sent = record { range = record { start = 2; end = 3 }; timestamp = 30 }

parts-set_last_chunk_example :
    parts (set_last_chunk sent (1 ∷ 2 ∷ []) 50).bytes (set_last_chunk sent (1 ∷ 2 ∷ []) 50).chunks
    ≡ (7 ∷ 8 ∷ []) ∷ (1 ∷ 2 ∷ []) ∷ []
parts-set_last_chunk_example =
    parts-set_last_chunk sent (1 ∷ 2 ∷ []) 50 (first_chunk ∷ []) last_of_sent sent-IsTiled refl

last_chunk-set_last_chunk_example :
    last_chunk (set_last_chunk sent (1 ∷ 2 ∷ []) 50) ≡ some (1 ∷ 2 ∷ [])
last_chunk-set_last_chunk_example = last_chunk-set_last_chunk sent (1 ∷ 2 ∷ []) 50 sent-IsTiled

abbrev half_full : HttpHistory ℕ ℕ ℕ
half_full = record {
  requests = (1, 1) ∷ [];
  responses = [];
  client_size = 6;
  server_size = 6;
  client_max = 10;
  server_max = 10;
}

half_full-IsBounded : IsBounded half_full
half_full-IsBounded = record { client = omega arith; server = omega arith }

push_exact_example : RequestExact half_full 2 4 7 × ResponseExact half_full 2 5 7
push_exact_example =
    push_exact half_full 2 2 4 5 7 half_full-IsBounded (omega arith) (omega arith) (omega arith)
      (omega arith)

abbrev toy : FilterModule ℕ ℕ ℕ ℕ
toy = script

-- The script replaces what the client sends, and kills the flow when the server speaks.
abbrev judging : FilterModule ℕ ℕ ℕ ℕ
judging = record toy { raw_server = some (λ flow bytes. returned py_ellipsis) }

on_raw-Judged_example :
    Judged judging.raw_client
      (seen_by two_way sent 40)
      sent
      41
      (λ h. record two_way { client_history = h })
      (on_raw_client judging two_way 40 41)
    × Judged judging.raw_server
        (seen_by two_way received 40)
        received
        41
        (λ h. record two_way { server_history = h })
        (on_raw_server judging two_way 40 41)
on_raw-Judged_example = on_raw-Judged judging two_way 40 41 sent-IsTiled received-IsTiled

-- The client speaks, the write to the server stalls.
abbrev one_turn : Turn ℕ ℕ ℕ ℕ
one_turn = record {
  wakes = wakes;
  read_at = 2;
  called_at = 3;
  replaced_at = 4;
  filter = some (record { script_path = []; inner = toy });
  writing = stalled_after 1;
}

abbrev quiet : Closing
quiet = record {
  client_flush = none;
  server_flush = none;
  client_shutdown = none;
  server_shutdown = none;
}

handle_flow-IsBehind_example :
    let r =
      handle_flow none (from_client one_turn ∷ []) quiet (new_raw_flow 0 1 client 100 server 100) in
    (r.1 ≢ finished panicked) × IsBehind r.0
handle_flow-IsBehind_example =
    handle_flow-IsBehind none (from_client one_turn ∷ []) quiet 0 1 client 100 server 100

-- The same, but the write succeeds.
abbrev good_turn : Turn ℕ ℕ ℕ ℕ
good_turn = record one_turn { writing = wrote_all }

handle_flow-IsSynced_example :
    IsSynced
      (handle_flow none
        (from_client good_turn ∷ [])
        quiet
        (new_raw_flow 0 1 client 100 server 100)).0
unfolding handle_flow mini_proxad.Proxy.Raw.after_loop mini_proxad.Proxy.Raw.run_turns
    mini_proxad.Proxy.Raw.turn mini_proxad.Proxy.Raw.client_turn mini_proxad.Proxy.Raw.read_chunk
    Stream.read_chunk poll_chunk mini_proxad.Proxy.Raw.record_chunk new_raw_flow
    mini_proxad.History.Raw.new_raw_history mini_proxad.Proxy.Raw.forward_client on_raw_client
    last_chunk mini_proxad.Filter.Raw.apply_raw_chunk mini_proxad.Filter.Raw.raw_result
    mini_proxad.Filter.extract_bytes mini_proxad.Proxy.Raw.write_last_chunk Stream.write_chunk
    set_last_chunk mini_proxad.History.Raw.last_range
handle_flow-IsSynced_example =
    handle_flow-IsSynced none (from_client good_turn ∷ []) quiet 0 1 client 100 server 100 refl

flow_items-merge_example :
    collect plain (calls plain (raw two_way) + 2) ltb (into_iter plain (raw two_way))
    ≡ traverse (chunk_bytes two_way) (merge ltb client server sent.chunks received.chunks)
flow_items-merge_example = flow_items-merge plain ltb two_way 2

flow_items-IsChronological_example :
    (items : List (Item ℕ)) × (flow_items plain ltb (raw two_way) ≡ ok items)
    × IsChronological ltb (item_times items)
flow_items-IsChronological_example =
    flow_items-IsChronological plain ltb before_asym two_way sent-IsTiled received-IsTiled
      client-ne-server (refl, tt) tt

flow_items_bytes_example :
    (items : List (Item ℕ)) × (flow_items plain ltb (raw two_way) ≡ ok items)
    × (bytes_from client items ≡ 7 ∷ 8 ∷ 9 ∷ [])
    × (bytes_from server items ≡ 5 ∷ [])
    × All (λ item. (item.0 ≡ client) ⊎ (item.0 ≡ server)) items
flow_items_bytes_example =
    flow_items_bytes plain ltb two_way sent-IsTiled received-IsTiled client-ne-server
