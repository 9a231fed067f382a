-- ===== src/Proxy/Dumper/Rotation/Count.antt =====
-- The number of packets that the dumper counts (src/proxy/dumper.rs, `dumper`).
use mini_proxad.Prelude.{
  ℕ, ◌+◌, ◌<◌, ◌++◌, arith, ◌≡◌, refl, sym, ap, ◌∙◌, ◌⊎◌, inl, inr, List, [], ◌∷◌, map, length,
  length-append, length-map, ltb, leb, ◌||◌, Error, ok, err, Bool-cases, All,
}
use mini_proxad.Net.{SocketAddr, ip_of, port_of, addr_v4, addr_v6}
use mini_proxad.Flow.{Flow, get_client_addr, get_server_addr, get_start}
use mini_proxad.Flow.Iter.{Item, flow_items}
use mini_proxad.Http.{HttpCrate, Request, Response}
use mini_proxad.Proxy.Dumper.Packet.{Header, PcapPacket, Wire}
use mini_proxad.Prelude.{Bytes}
use mini_proxad.Proxy.Dumper.Conversation.{Chrono, write_tcp_flow, ipv4_of, make_ends}
use mini_proxad.Proxy.Dumper.Transcript.{IsReliable, seal}
use mini_proxad.Proxy.Dumper.Course.{IsTimely, stamp_of, transcript, transcript_min}
use mini_proxad.Proxy.Dumper.Files.{write_tcp_flow_ok, write_tcp_flow_v6}
use mini_proxad.Proxy.Dumper.Rotation.{
  Recv, delivered, timed_out, disconnected, Tick, Filling, filling, full, crashed, Limits, fill,
  receive, go_round,
}

pub ipv4_of-cases :
    (addr : SocketAddr)
    → ((ip : ℕ) × (ipv4_of addr ≡ ok ip)) ⊎ ((e : Error) × (ipv4_of addr ≡ err e))
unfolding ipv4_of ip_of
ipv4_of-cases (addr_v4 ip port) = inl (ip, refl)
ipv4_of-cases (addr_v6 ip port f s) = inr (_, refl)

-- The count is the number of packets in the file, which is what a count of 0 is taken for.
abbrev pub Counted : List PcapPacket × Filling → Type 0
Counted (packets, filling n) = length packets ≡ n
Counted (packets, full n) = length packets ≡ n
Counted (packets, crashed r) = Unit

go_round-Counted :
    (r : List PcapPacket × Filling) (next : ℕ → List PcapPacket → List PcapPacket × Filling)
    → Counted r
    → ((n : ℕ) (packets : List PcapPacket) → length packets ≡ n → Counted (next n packets))
    → Counted (go_round r next)
go_round-Counted (packets, filling n) next h k = k n packets h
go_round-Counted (packets, full n) next h k = h
go_round-Counted (packets, crashed r) next h k = tt

module _ (w : HttpCrate) {U T : Type 0} (chrono : Chrono T) where
  -- The flows that a channel gives can be iterated over without a panic.
  abbrev pub Iterable : Recv (Flow U T (Request w) (Response w)) → Type 0
  Iterable (delivered flow) = (items : List (Item T)) × (flow_items w chrono.before flow ≡ ok items)
  Iterable timed_out = Unit
  Iterable disconnected = Unit

module _ (w : HttpCrate) {U T : Type 0} (wire : Wire) (image : Header → Bytes → Bytes)
    (reliable : IsReliable wire image) (chrono : Chrono T) (timely : IsTimely chrono) where
  -- A flow that can be iterated over, written by a reliable writer at times that fit a `u64`, is written
  -- whole or not at all, and never panics: either the file has got new packets behind the others and
  -- their number is returned, or there is an error and the file is as before.
  pub write_tcp_flow_or_nothing :
      (flow : Flow U T (Request w) (Response w)) (items : List (Item T)) (packets : List PcapPacket)
      → flow_items w chrono.before flow ≡ ok items
      → let r = write_tcp_flow w wire chrono flow packets in
        ((new : List PcapPacket) × (r ≡ (packets ++ new, ok (length new))) × (3 < length new))
        ⊎ ((e : Error) × (r ≡ (packets, err e)))
  write_tcp_flow_or_nothing flow items packets h = elim (ipv4_of-cases (get_client_addr flow)) [
    | inr (e, k) ↦
        inr (e, write_tcp_flow_v6 w wire image reliable chrono timely flow e packets (inl k))
    | inl (c, k) ↦ elim (ipv4_of-cases (get_server_addr flow)) [
      | inr (e, l) ↦
          inr (
            e,
            write_tcp_flow_v6 w wire image reliable chrono timely flow e packets (inr (c, k, l)),
          )
      | inl (s, l) ↦
          let segments =
            transcript (stamp_of chrono) (get_client_addr flow)
              (make_ends c s (port_of (get_client_addr flow)) (port_of (get_server_addr flow)))
              (get_start flow) items in
          inl (
            map (seal image) segments,
            write_tcp_flow_ok w wire image reliable chrono timely flow c s items packets k l h
                ∙ ap (λ n. (packets ++ map (seal image) segments, ok n))
                    (sym (length-map segments (seal image))),
            omega (
              arith,
              length-map segments (seal image),
              transcript_min (stamp_of chrono) (get_client_addr flow)
                  (make_ends c s (port_of (get_client_addr flow)) (port_of (get_server_addr flow)))
                  (get_start flow) items,
            ),
          )
    ]
  ]

  receive-Counted :
      (limits : Limits) (c : Recv (Flow U T (Request w) (Response w))) (n : ℕ)
      (packets : List PcapPacket)
      → Iterable w chrono c
      → length packets ≡ n
      → Counted (receive w wire chrono limits c n packets)
  unfolding receive
  receive-Counted limits timed_out n packets hs h = h
  receive-Counted limits disconnected n packets hs h = tt
  receive-Counted limits (delivered flow) n packets (items, i) h =
      elim (write_tcp_flow_or_nothing flow items packets i) [
        | inl (new, e, some_new) ↦ rw e (length-append packets new ∙ ap (λ m. m + length new) h)
        | inr (x, e) ↦ rw e h
      ]

  -- Over any rounds of the inner loop, with a reliable writer, times that fit a `u64` and flows that
  -- can be iterated over: the dumper's count of packets is the number of packets in the file, also
  -- after flows that are errors; so a file that it skips as empty has no packet.
  pub fill-Counted :
      (limits : Limits) (ticks : List (Tick (Flow U T (Request w) (Response w)))) (n : ℕ)
      (packets : List PcapPacket)
      → All (λ t. Iterable w chrono t.channel) ticks
      → length packets ≡ n
      → Counted (fill w wire chrono limits ticks n packets)
  unfolding fill
  fill-Counted limits [] n packets hs h = h
  fill-Counted limits (tick ∷ ticks) n packets hs h =
      elim (Bool-cases (leb limits.interval tick.elapsed || ltb limits.max_packets n)) [
        | inl e ↦ rw e h
        | inr e ↦ rw e (
            go_round-Counted (receive w wire chrono limits tick.channel n packets)
              (fill w wire chrono limits ticks)
              (receive-Counted limits tick.channel n packets hs.0 h)
              (λ m ps k. fill-Counted limits ticks m ps hs.1 k))
      ]
