-- ===== src/Proxy/Dumper/Payloads.antt =====
-- What the packets of src/proxy/dumper.rs carry: the bytes that a raw flow has recorded.
use mini_proxad.Prelude.{
  ℕ, ◌≡◌, ◌≢◌, refl, sym, ◌∙◌, Bool, true, false, List, [], ◌∷◌, ◌++◌, map, Bytes, length, take,
  take_all, if◌then◌else◌, ok, arith, All, Bool-cases, ◌⊎◌, inl, inr,
}
use mini_proxad.Net.{SocketAddr, addr_eq, addr_eq_iff, port_of}
use mini_proxad.Http.{HttpCrate}
use mini_proxad.History.Raw.Tiling.{IsTiled, IsReadable}
use mini_proxad.Flow.{raw, RawFlow, get_client_addr, get_server_addr, get_start}
use mini_proxad.Flow.Iter.{Item}
use mini_proxad.Flow.Iter.Contents.{flow_items_taken}
use mini_proxad.Flow.Iter.Sides.{bytes_from, addr_eq_ne}
use mini_proxad.Proxy.Dumper.Packet.{Duration, Header, PcapPacket, Wire}
use mini_proxad.Proxy.Dumper.Conversation.{Chrono, make_ends, ipv4_of, write_tcp_flow}
use mini_proxad.Proxy.Dumper.Transcript.{IsReliable, seal, split}
use mini_proxad.Proxy.Dumper.Pieces.{
  spoken, spoken-own, spoken-other, spoken-append, flatten-split, item_pieces, all_pieces, FitsAll,
  all_pieces-FitsAll,
}
use mini_proxad.Proxy.Dumper.Course.{IsTimely, stamp_of, transcript}
use mini_proxad.Proxy.Dumper.Files.{write_tcp_flow_ok}

addr_eq_sym : (a b : SocketAddr) → addr_eq a b ≡ addr_eq b a
addr_eq_sym a b = elim (Bool-cases (addr_eq b a)) [
  | inl e ↦ (addr_eq_iff a b).1 (sym ((addr_eq_iff b a).0 e)) ∙ sym e
  | inr e ↦ addr_eq_ne a b (λ k. let t = (addr_eq_iff b a).1 (sym k) in cc) ∙ sym e
]

module _ {T : Type 0} (stamp : T → Duration) (client_addr : SocketAddr) where
  spoken-item :
      (addr : SocketAddr) (ts : T) (bytes : Bytes) (who : Bool)
      → addr_eq addr client_addr ≡ who
      → (spoken true (item_pieces stamp client_addr (addr, ts, bytes))
          ≡ (if who then bytes else []))
        × (spoken false (item_pieces stamp client_addr (addr, ts, bytes))
            ≡ (if who then [] else bytes))
  unfolding item_pieces
  spoken-item addr ts bytes true h = rw h (
    spoken-own (stamp ts) true true (split (length bytes) bytes)
        ∙ flatten-split (length bytes) bytes (omega arith),
    (spoken-other (stamp ts) true (split (length bytes) bytes)).1,
  )
  spoken-item addr ts bytes false h = rw h (
    (spoken-other (stamp ts) true (split (length bytes) bytes)).0,
    spoken-own (stamp ts) false true (split (length bytes) bytes)
        ∙ flatten-split (length bytes) bytes (omega arith),
  )

  pub spoken-client :
      (items : List (Item T))
      → spoken true (all_pieces stamp client_addr items) ≡ bytes_from client_addr items
  unfolding all_pieces spoken
  spoken-client [] = refl
  spoken-client ((addr, ts, bytes) ∷ items) =
      spoken-append true (item_pieces stamp client_addr (addr, ts, bytes))
        (all_pieces stamp client_addr items)
      ∙ rw
          (
            (spoken-item addr ts bytes (addr_eq addr client_addr) refl).0,
            addr_eq_sym addr client_addr,
            spoken-client items,
          )
          refl

  pub spoken-server :
      (server_addr : SocketAddr)
      → client_addr ≢ server_addr
      → (items : List (Item T))
      → All (λ item. (item.0 ≡ client_addr) ⊎ (item.0 ≡ server_addr)) items
      → spoken false (all_pieces stamp client_addr items) ≡ bytes_from server_addr items
  unfolding all_pieces spoken
  spoken-server server_addr n [] h = refl
  spoken-server server_addr n ((addr, ts, bytes) ∷ items) (inl e, h) =
      spoken-append false (item_pieces stamp client_addr (addr, ts, bytes))
        (all_pieces stamp client_addr items)
      ∙ rw
          (
            (spoken-item addr ts bytes true ((addr_eq_iff addr client_addr).1 e)).1,
            addr_eq_ne server_addr addr (λ k. n (sym (k ∙ e))),
            spoken-server server_addr n items h,
          )
          refl
  spoken-server server_addr n ((addr, ts, bytes) ∷ items) (inr e, h) =
      spoken-append false (item_pieces stamp client_addr (addr, ts, bytes))
        (all_pieces stamp client_addr items)
      ∙ rw
          (
            (spoken-item addr ts bytes false (addr_eq_ne addr client_addr (λ k. n (sym k ∙ e)))).1,
            (addr_eq_iff server_addr addr).1 (sym e),
            spoken-server server_addr n items h,
          )
          refl

module _ (w : HttpCrate) {U T : Type 0} (wire : Wire) (image : Header → Bytes → Bytes)
    (reliable : IsReliable wire image) (chrono : Chrono T) (timely : IsTimely chrono) where
  -- The file gets, behind what it holds, the transcript of items that carry these bytes.
  abbrev pub Carried : RawFlow U T → ℕ → ℕ → List PcapPacket → Bytes → Bytes → Type 0
  Carried flow c s packets from_client from_server =
      (items : List (Item T)) × (let ends =
          make_ends c s (port_of flow.client_addr) (port_of flow.server_addr) in
        let segments = transcript (stamp_of chrono) flow.client_addr ends flow.start items in
        write_tcp_flow w wire chrono (raw flow) packets
        ≡ (packets ++ map (seal image) segments, ok (length segments)))
      × (spoken true (all_pieces (stamp_of chrono) flow.client_addr items) ≡ from_client)
      × (spoken false (all_pieces (stamp_of chrono) flow.client_addr items) ≡ from_server)
      × FitsAll (all_pieces (stamp_of chrono) flow.client_addr items)

  -- A flow whose chunks can be read is written with the bytes of each side that are in chunks.
  pub write_tcp_flow_taken :
      (flow : RawFlow U T) (c s : ℕ) (packets : List PcapPacket)
      (client : IsReadable flow.client_history) (server : IsReadable flow.server_history)
      → flow.client_addr ≢ flow.server_addr
      → ipv4_of flow.client_addr ≡ ok c
      → ipv4_of flow.server_addr ≡ ok s
      → Carried flow c s packets
          (take client.0 flow.client_history.bytes)
          (take server.0 flow.server_history.bytes)
  unfolding get_client_addr get_server_addr get_start
  write_tcp_flow_taken flow c s packets rc rs n hc hs =
      let (items, read, client, server, sides) = flow_items_taken w chrono.before flow rc rs n in
      (
        items,
        write_tcp_flow_ok w wire image reliable chrono timely (raw flow) c s items packets hc hs
            read,
        spoken-client (stamp_of chrono) flow.client_addr items ∙ client,
        spoken-server (stamp_of chrono) flow.client_addr flow.server_addr n items sides ∙ server,
        all_pieces-FitsAll (stamp_of chrono) flow.client_addr items,
      )

  -- A raw flow with tiled histories between two IPv4 addresses that differ, written by a reliable
  -- writer at times that fit a `u64`: the file gets, behind what it holds, the transcript of the
  -- flow's items, and the count is that of its packets; the payloads of each side, joined, are exactly
  -- the recorded bytes, and every data segment has a byte and fits into a packet.
  pub write_tcp_flow_bytes :
      (flow : RawFlow U T) (c s : ℕ) (packets : List PcapPacket)
      → IsTiled flow.client_history
      → IsTiled flow.server_history
      → flow.client_addr ≢ flow.server_addr
      → ipv4_of flow.client_addr ≡ ok c
      → ipv4_of flow.server_addr ≡ ok s
      → Carried flow c s packets flow.client_history.bytes flow.server_history.bytes
  write_tcp_flow_bytes flow c s packets tc ts n hc hs =
      let (items, file, client, server, fits) =
        write_tcp_flow_taken flow c s packets (length flow.client_history.bytes, tc, omega arith)
          (length flow.server_history.bytes, ts, omega arith) n hc hs in
      (
        items,
        file,
        client
            ∙ take_all (length flow.client_history.bytes) flow.client_history.bytes (omega arith),
        server
            ∙ take_all (length flow.server_history.bytes) flow.server_history.bytes (omega arith),
        fits,
      )
