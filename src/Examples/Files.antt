-- ===== src/Examples/Files.antt =====
-- The pcap files of some flows.
use mini_proxad.Prelude.{
  ℕ, none, ◌≡◌, refl, true, false, List, [], ◌∷◌, map, length, All, message, ok, err,
}
use mini_proxad.Net.{addr_v6, port_of, ip_of}
use mini_proxad.Flow.{raw, RawFlow, get_client_addr, get_server_addr, get_start}
use mini_proxad.Flow.Iter.{
  Item, flow_items, collect, calls, into_iter, chunk_bytes, next, raw_next, choose, into_raw_iter,
  take_client, take_server,
}
use mini_proxad.Proxy.Dumper.Packet.{PcapPacket}
use mini_proxad.Proxy.Dumper.Conversation.{make_ends, write_tcp_flow, ipv4_of}
use mini_proxad.Proxy.Dumper.Transcript.{seal}
use mini_proxad.Proxy.Dumper.Pieces.{spoken, all_pieces, FitsAll}
use mini_proxad.Proxy.Dumper.Course.{stamp_of, transcript}
use mini_proxad.Proxy.Dumper.Files.{write_tcp_flow_ok}
use mini_proxad.Proxy.Dumper.Payloads.{write_tcp_flow_bytes}
use mini_proxad.Filter.Objects.{eq_bytes}
use mini_proxad.Http.{Request, Response}
use mini_proxad.Flow.{Flow}
use mini_proxad.Proxy.Dumper.Rotation.{Tick, delivered, timed_out, Limits, fill}
use mini_proxad.Proxy.Dumper.Rotation.Count.{Iterable, Counted, fill-Counted}
use mini_proxad.Proxy.Dumper.Rotation.{
  Finish, moved, copied_all, whole, save, save_pcap, write_file, without_name,
}
use mini_proxad.Examples.World.{
  plain, client, server, two_way, client-ne-server, clock, clock-IsTimely, image, writer,
  writer-IsReliable,
}
use mini_proxad.Examples.Raw.{sent-IsTiled, received-IsTiled}

abbrev some_items : List (Item ℕ)
some_items = (client, 10, 7 ∷ 8 ∷ []) ∷ (server, 20, 5 ∷ []) ∷ (client, 30, 9 ∷ []) ∷ []

write_tcp_flow_ok_example :
    let segments = transcript (stamp_of clock) client (make_ends 1 2 1_000 80) 1 some_items in
    write_tcp_flow plain writer clock (raw two_way) []
    ≡ (map (seal image) segments, ok (length segments))
unfolding ipv4_of ip_of get_client_addr get_server_addr get_start port_of flow_items collect calls
    next into_iter raw_next choose into_raw_iter take_client take_server chunk_bytes
write_tcp_flow_ok_example =
    write_tcp_flow_ok plain writer image writer-IsReliable clock clock-IsTimely (raw two_way) 1 2
      some_items [] refl refl refl

write_tcp_flow_bytes_example :
    (items : List (Item ℕ)) × (let segments =
        transcript (stamp_of clock) client (make_ends 1 2 1_000 80) 1 items in
      write_tcp_flow plain writer clock (raw two_way) []
      ≡ (map (seal image) segments, ok (length segments)))
    × (spoken true (all_pieces (stamp_of clock) client items) ≡ 7 ∷ 8 ∷ 9 ∷ [])
    × (spoken false (all_pieces (stamp_of clock) client items) ≡ 5 ∷ [])
    × FitsAll (all_pieces (stamp_of clock) client items)
unfolding ipv4_of ip_of port_of
write_tcp_flow_bytes_example =
    write_tcp_flow_bytes plain writer image writer-IsReliable clock clock-IsTimely two_way 1 2 []
      sent-IsTiled received-IsTiled client-ne-server refl refl

abbrev over_v6 : RawFlow ℕ ℕ
over_v6 = record two_way { client_addr = addr_v6 1 1_000 0 0 }

-- It is not written, while the other is.
over_v6_result :
    write_tcp_flow plain writer clock (raw over_v6) [] ≡ ([], err (message "Only IPv4 supported"))
unfolding write_tcp_flow ipv4_of ip_of get_client_addr
over_v6_result = refl

abbrev arrivals : List (Tick (Flow ℕ ℕ (Request plain) (Response plain)))
arrivals =
    record { elapsed = 1; channel = delivered (raw two_way) }
    ∷ record { elapsed = 2; channel = timed_out }
    ∷ []

abbrev limits : Limits
limits = record { interval = 60; max_packets = 1_000 }

two_way-Iterable : All (λ t. Iterable plain {U = ℕ} clock t.channel) arrivals
unfolding flow_items collect calls next into_iter raw_next choose into_raw_iter take_client
    take_server chunk_bytes
two_way-Iterable = ((some_items, refl), (tt, tt))

fill-Counted_example : Counted (fill plain writer clock limits arrivals 0 [])
fill-Counted_example =
    fill-Counted plain writer image writer-IsReliable clock clock-IsTimely limits arrivals 0 []
      two_way-Iterable refl

-- The same name twice: one file is left, the one that was written last.
abbrev fine : Finish
fine = record {
  begun = none;
  name = ok (100 ∷ []);
  persisted = moved;
  copied = copied_all;
  removed = true;
}

fine_twice :
    (packets packets' : List PcapPacket)
    → (save fine 5 packets' (save fine 4 packets []).0).0 ≡ (100 ∷ [], whole packets') ∷ []
unfolding save save_pcap write_file without_name eq_bytes
fine_twice packets packets' = refl
