-- ===== src/Proxy/Dumper/Files.antt =====
-- The packets that `write_tcp_flow` of src/proxy/dumper.rs writes for a flow.
use native.Mathlib.Nat.{add-zero, add_assoc}
use mathlib.Core.List.{map-append}
use mini_proxad.Prelude.{
  Error, ℕ, zero, suc, ◌+◌, ◌≤◌, ◌≡◌, ◌⊎◌, inl, inr, refl, sym, ap, ◌∙◌, Bool, true, false, List,
  [], ◌∷◌, ◌++◌, map, Bytes, length, length-append, arith, append_assoc, append-nil, Result, ok,
  err,
}
use mini_proxad.Net.{SocketAddr, addr_eq, port_of}
use mini_proxad.Http.{HttpCrate, Request, Response}
use mini_proxad.Flow.{Flow, get_client_addr, get_server_addr, get_start}
use mini_proxad.Flow.Iter.{Item, FlowIterator, next, collect, calls, into_iter, flow_items}
use mini_proxad.Proxy.Dumper.Packet.{Duration, Header, PcapPacket, Wire, write_tcp_handshake}
use mini_proxad.Proxy.Dumper.Conversation.{
  Chrono, Ends, Conversation, max_payload, make_ends, write_item, write_rest, ipv4_of,
  write_tcp_flow,
}
use mini_proxad.Proxy.Dumper.Transcript.{
  Segment, IsReliable, seal, Piece, split, segment, data_segments, at_state,
}
use mini_proxad.Proxy.Dumper.Segments.{write_segments_ok}
use mini_proxad.Proxy.Dumper.Slices.{send_ok, write_tcp_packet_ok}
use mini_proxad.Proxy.Dumper.Pieces.{
  client_sent, server_sent, client_sent-pieces, server_sent-pieces, flatten-split,
  data_segments-append, client_sent-append, server_sent-append, length-data_segments, item_pieces,
  all_pieces,
}
use mini_proxad.Proxy.Dumper.Course.{
  IsTimely, stamp_of, make_timestamp_ok, handshake_segments, append_three, after_ok, last_turn,
  transcript,
}

module _ (wire : Wire) (image : Header → Bytes → Bytes) (reliable : IsReliable wire image)
    (ends : Ends) {T : Type 0} (chrono : Chrono T) (timely : IsTimely chrono)
    (client_addr : SocketAddr) where
  abbrev wrote_pieces :
      List PcapPacket
      → (cb sb n : ℕ) → List Piece
      → Duration
      → Bool
      → List PcapPacket × Result Conversation
  wrote_pieces packets cb sb n ps at who = (
    packets ++ map (seal image) (data_segments ends cb sb ps),
    ok (at_state ends (client_sent cb ps) (server_sent sb ps) (n + length ps) at who),
  )

  wrote_none :
      (packets : List PcapPacket) (cb sb n : ℕ) (at : Duration) (who : Bool)
      → wrote_pieces packets cb sb n [] at who ≡ (packets, ok (at_state ends cb sb n at who))
  unfolding data_segments client_sent server_sent
  wrote_none packets cb sb n at who = cc (append-nil packets, add-zero n)

  wrote_both :
      (packets : List PcapPacket) (cb sb n : ℕ) (ps qs : List Piece) (at : Duration) (who : Bool)
      → wrote_pieces
          (packets ++ map (seal image) (data_segments ends cb sb ps))
          (client_sent cb ps)
          (server_sent sb ps)
          (n + length ps)
          qs
          at
          who
        ≡ wrote_pieces packets cb sb n (ps ++ qs) at who
  wrote_both packets cb sb n ps qs at who =
      let before = data_segments ends cb sb ps in
      let later = data_segments ends (client_sent cb ps) (server_sent sb ps) qs in
      cc (
        append_assoc packets (map (seal image) before) (map (seal image) later),
        map-append (seal image) before later,
        data_segments-append ends cb sb ps qs,
        client_sent-append ps qs cb,
        server_sent-append ps qs sb,
        length-append ps qs,
        add_assoc n (length ps) (length qs),
      )

  write_item_ok :
      (addr : SocketAddr) (ts : T) (bytes : Bytes) (cb sb n : ℕ) (at : Duration) (last : Bool)
      (packets : List PcapPacket)
      → write_item wire ends chrono client_addr
          (addr, ts, bytes)
          (at_state ends cb sb n at last)
          packets
        ≡ wrote_pieces packets cb sb n
            (item_pieces (stamp_of chrono) client_addr (addr, ts, bytes))
            (stamp_of chrono ts)
            (addr_eq addr client_addr)
  unfolding write_item item_pieces
  write_item_ok addr ts bytes cb sb n at last packets =
      let who = addr_eq addr client_addr in
      let bs = split (length bytes) bytes in
      rw (make_timestamp_ok chrono timely ts) (
        write_segments_ok wire image reliable ends (length bytes) bytes 0 who cb sb n
          (stamp_of chrono ts) packets (omega arith)
        ∙ rw
            (
              client_sent-pieces (stamp_of chrono ts) who true cb bs,
              server_sent-pieces (stamp_of chrono ts) who true sb bs,
              flatten-split (length bytes) bytes (omega arith),
            )
            refl)

  write_rest_ok :
      {U : Type 0} (w : HttpCrate) (fuel : ℕ) (it : FlowIterator w U T) (items : List (Item T))
      → collect w fuel chrono.before it ≡ ok items
      → (cb sb n : ℕ) (at : Duration) (who : Bool) (packets : List PcapPacket)
      → let last = last_turn (stamp_of chrono) client_addr who at items in
        write_rest wire ends chrono client_addr w fuel it (at_state ends cb sb n at who) packets
        ≡ wrote_pieces packets cb sb n
            (all_pieces (stamp_of chrono) client_addr items)
            last.1
            last.0
  unfolding write_rest collect last_turn all_pieces
  write_rest_ok w zero it items h cb sb n at who packets =
      let e : items ≡ [] = cc in rw e (sym (wrote_none packets cb sb n at who))
  write_rest_ok w (suc fuel) it items h cb sb n at who packets =
      let (result, it') = next w chrono.before it in
      elim (after_ok result (collect w fuel chrono.before it') items h) [
        | inl (done, e) ↦ rw (done, e) (sym (wrote_none packets cb sb n at who))
        | inr ((addr, ts, bytes), later, one, more, e) ↦
            let ps = item_pieces (stamp_of chrono) client_addr (addr, ts, bytes) in
            let who' = addr_eq addr client_addr in
            let at' = stamp_of chrono ts in
            let last = last_turn (stamp_of chrono) client_addr who' at' later in
            rw (one, e)
              (rw (write_item_ok addr ts bytes cb sb n at who packets) (
                write_rest_ok w fuel it' later more (client_sent cb ps) (server_sent sb ps)
                  (n + length ps) at' who'
                  (packets ++ map (seal image) (data_segments ends cb sb ps))
                ∙ wrote_both packets cb sb n ps (all_pieces (stamp_of chrono) client_addr later)
                    last.1 last.0))
      ]

  handshake_ok :
      (start : Duration) (packets : List PcapPacket)
      → write_tcp_handshake wire start ends.src_ip ends.dst_ip ends.src_port ends.dst_port 1_000
          1_000_001 1_000_000 packets
        ≡ (
          packets ++ map (seal image) (handshake_segments ends start),
          ok (1_001, 1_000_001, 1_000_001),
        )
  unfolding write_tcp_handshake
  handshake_ok start packets =
      let short : 0 ≤ max_payload = omega arith in
      rw
        (write_tcp_packet_ok wire image reliable start ends.src_ip ends.dst_ip ends.src_port
          ends.dst_port 1_000 1_000_001 0x02 [] packets short)
        (rw
          (write_tcp_packet_ok wire image reliable start ends.dst_ip ends.src_ip ends.dst_port
            ends.src_port 1_000_000 1_001 0x12 [] _ short)
          (rw
            (write_tcp_packet_ok wire image reliable start ends.src_ip ends.dst_ip ends.src_port
              ends.dst_port 1_001 1_000_001 0x10 [] _ short)
            (ap (λ ps. (ps, ok (1_001, 1_000_001, 1_000_001))) (append_three packets _ _ _))))

whole :
    (image : Header → Bytes → Bytes) (packets : List PcapPacket) (ends : Ends) (at : Duration)
    (body : List Segment) (fin : Segment)
    → ((packets ++ map (seal image) (handshake_segments ends at)) ++ map (seal image) body)
        ++ seal image fin ∷ []
      ≡ packets ++ map (seal image) (handshake_segments ends at ++ (body ++ fin ∷ []))
whole image packets ends at body fin =
    let first = handshake_segments ends at in
    cc (
      append_assoc packets (map (seal image) first) (map (seal image) body),
      append_assoc packets (map (seal image) first ++ map (seal image) body) (seal image fin ∷ []),
      append_assoc (map (seal image) first) (map (seal image) body) (seal image fin ∷ []),
      map-append (seal image) first (body ++ fin ∷ []),
      map-append (seal image) body (fin ∷ []),
    )

both :
    {m n : ℕ} {ps qs : List PcapPacket}
    → ps ≡ qs
    → m ≡ n
    → ◌≡◌ {A = List PcapPacket × Result ℕ} (ps, ok m) (qs, ok n)
both h k = cc

module _ (w : HttpCrate) {U T : Type 0} (wire : Wire) (image : Header → Bytes → Bytes)
    (reliable : IsReliable wire image) (chrono : Chrono T) (timely : IsTimely chrono) where
  -- A flow between two IPv4 addresses whose items are known, written by a reliable writer at times that
  -- fit a `u64`: behind what the file holds it gets the transcript of the items (the handshake, the
  -- segments with their sequence numbers, PSH on the first segment of each chunk, and the FIN of the
  -- last speaker), and the count returned is that of these packets.
  pub write_tcp_flow_ok :
      (flow : Flow U T (Request w) (Response w)) (c s : ℕ) (items : List (Item T))
      (packets : List PcapPacket)
      → ipv4_of (get_client_addr flow) ≡ ok c
      → ipv4_of (get_server_addr flow) ≡ ok s
      → flow_items w chrono.before flow ≡ ok items
      → let ends =
          make_ends c s (port_of (get_client_addr flow)) (port_of (get_server_addr flow)) in
        let segments =
          transcript (stamp_of chrono) (get_client_addr flow) ends (get_start flow) items in
        write_tcp_flow w wire chrono flow packets
        ≡ (packets ++ map (seal image) segments, ok (length segments))
  unfolding write_tcp_flow flow_items transcript
  write_tcp_flow_ok flow c s items packets hc hs h =
      let client_addr = get_client_addr flow in
      let ends = make_ends c s (port_of client_addr) (port_of (get_server_addr flow)) in
      let start = stamp_of chrono (get_start flow) in
      let ps = all_pieces (stamp_of chrono) client_addr items in
      let last = last_turn (stamp_of chrono) client_addr false start items in
      let body = data_segments ends 0 0 ps in
      let fin = segment ends last.0 last.1 (client_sent 0 ps) (server_sent 0 ps) 0x11 [] in
      rw (hc, hs, make_timestamp_ok chrono timely (get_start flow))
        (rw (handshake_ok wire image reliable ends chrono timely client_addr start packets) (
          rw
            (write_rest_ok wire image reliable ends chrono timely client_addr w (calls w flow)
              (into_iter w flow) items h 0 0 3 start false
              (packets ++ map (seal image) (handshake_segments ends start)))
            (rw
              (send_ok wire image reliable ends last.0 (client_sent 0 ps) (server_sent 0 ps)
                (3 + length ps) last.1 0x11 [] last.0 _ (omega arith))
              (both (whole image packets ends start body fin)
                (omega (arith, length-append body (fin ∷ []), length-data_segments ends 0 0 ps))))))

  -- A flow whose client or else whose server address is an error for the dumper, as an IPv6 address is,
  -- gives that error, and nothing is written.
  pub write_tcp_flow_v6 :
      (flow : Flow U T (Request w) (Response w)) (e : Error) (packets : List PcapPacket)
      → ((ipv4_of (get_client_addr flow) ≡ err e)
          ⊎ ((c : ℕ) × (ipv4_of (get_client_addr flow) ≡ ok c)
              × (ipv4_of (get_server_addr flow) ≡ err e)))
      → write_tcp_flow w wire chrono flow packets ≡ (packets, err e)
  unfolding write_tcp_flow
  write_tcp_flow_v6 flow e packets (inl h) = rw h refl
  write_tcp_flow_v6 flow e packets (inr (c, h, k)) = rw (h, k) refl
