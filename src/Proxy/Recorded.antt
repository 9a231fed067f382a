-- ===== src/Proxy/Recorded.antt =====
-- From the connection to the file: a raw flow that `handle_flow` (src/proxy/mod.rs) has served, and
-- the packets that `write_tcp_flow` (src/proxy/dumper.rs) writes for it.
use mini_proxad.Prelude.{
  ℕ, ◌≡◌, ◌≢◌, refl, sym, ◌∙◌, ◌⊎◌, inl, inr, Option, List, [], ◌++◌, Bytes, ok, err, panicked,
  Error, take, drop, drop_all, take-append-drop, length, arith,
}
use mini_proxad.Net.{SocketAddr}
use mini_proxad.Http.{HttpCrate}
use mini_proxad.History.Raw.{RawHistory}
use mini_proxad.History.Raw.Tiling.{IsTiled, IsReadable}
use mini_proxad.History.Raw.Tiles.{Tiles-same}
use mini_proxad.Flow.{new_raw_flow}
use mini_proxad.Filter.{Filter}
use mini_proxad.Proxy.Raw.{Ready, Closing, Session, Progress, running, finished, handle_flow}
use mini_proxad.Proxy.Raw.Sync.{IsPrefix, BothTiled}
use mini_proxad.Proxy.Raw.Forwarding.{Forwards, handle_flow-Forwards}
use mini_proxad.Proxy.Raw.Identity.{handle_flow-IsSame}
use mini_proxad.Proxy.Dumper.Packet.{Header, PcapPacket, Wire}
use mini_proxad.Proxy.Dumper.Conversation.{Chrono, ipv4_of}
use mini_proxad.Proxy.Dumper.Transcript.{IsReliable}
use mini_proxad.Proxy.Dumper.Course.{IsTimely}
use mini_proxad.Proxy.Dumper.Payloads.{Carried, write_tcp_flow_taken}

rest_nil : {T : Type 0} (h : RawHistory T) (k : IsReadable h) → IsTiled h → drop k.0 h.bytes ≡ []
rest_nil h k t =
    drop_all k.0 h.bytes (omega (arith, Tiles-same 0 k.0 (length h.bytes) h.chunks k.1 t))

-- Only a flow that ends with an error may leave bytes in no chunk.
tiled_or_failed :
    {U T : Type 0} (s : Session U T) (p : Progress)
    → Forwards s p
    → BothTiled s.flow ⊎ ((e : Error) × (p ≡ finished (err e)))
tiled_or_failed s running f = let v = f.synced refl in inl (v.client, v.server)
tiled_or_failed s (finished (ok u)) f = inl (f.tiled refl)
tiled_or_failed s (finished (err e)) f = inr (e, refl)
tiled_or_failed s (finished panicked) f = absurd (f.sound refl)

module _ (w : HttpCrate) {U T : Type 0} (wire : Wire) (image : Header → Bytes → Bytes)
    (reliable : IsReliable wire image) (chrono : Chrono T) (timely : IsTimely chrono) where
  -- What is recorded of each side is what the file carries of it and a rest, which is empty unless
  -- the flow has ended with an error; each peer has got a prefix of what is recorded of the other.
  abbrev pub Dumped : ℕ → ℕ → List PcapPacket → Session U T × Progress → Type 0
  Dumped c s packets (session, progress) =
      let client = session.flow.client_history.bytes in
      let server = session.flow.server_history.bytes in
      (from_client from_server client_rest server_rest : Bytes) × Carried w wire image reliable
        chrono timely session.flow c s packets from_client from_server
      × (from_client ++ client_rest ≡ client)
      × (from_server ++ server_rest ≡ server)
      × (((client_rest ≡ []) × (server_rest ≡ [])) ⊎ ((e : Error) × (progress ≡ finished (err e))))
      × IsPrefix session.to_server client
      × IsPrefix session.to_client server

  forwarded-Dumped :
      (r : Session U T × Progress) (c s : ℕ) (packets : List PcapPacket)
      → Forwards r.0 r.1
      → r.0.flow.client_addr ≢ r.0.flow.server_addr
      → ipv4_of r.0.flow.client_addr ≡ ok c
      → ipv4_of r.0.flow.server_addr ≡ ok s
      → Dumped c s packets r
  forwarded-Dumped (session, progress) c s packets f n hc hs =
      let client = session.flow.client_history in
      let server = session.flow.server_history in
      let (rc, rs) = f.readable in
      (
        take rc.0 client.bytes,
        take rs.0 server.bytes,
        drop rc.0 client.bytes,
        drop rs.0 server.bytes,
        write_tcp_flow_taken w wire image reliable chrono timely session.flow c s packets rc rs n hc
            hs,
        take-append-drop rc.0 client.bytes,
        take-append-drop rs.0 server.bytes,
        elim (tiled_or_failed session progress f) [
          | inl (tc, ts) ↦ inl (rest_nil client rc tc, rest_nil server rs ts)
          | inr failed ↦ inr failed
        ],
        f.behind.to_server,
        f.behind.to_client,
      )

  module _ {Q R : Type 0} (filter : Option (Filter U T Q R)) (turns : List (Ready U T Q R))
      (closing : Closing) (id : U) (now : T) (client_addr server_addr : SocketAddr)
      (client_max server_max : ℕ) where
    -- A new raw flow between two IPv4 addresses that differ, from its opening on, with any script and
    -- any rounds, and then dumped by a reliable writer at times that fit a `u64`: the file gets a
    -- transcript whose payloads of each side, joined, are a prefix of what is recorded of that side,
    -- and all of it unless the flow has ended with an error; and what each peer has got is a prefix
    -- of what is recorded of the other.
    pub handle_flow-Dumped :
        (c s : ℕ) (packets : List PcapPacket)
        → client_addr ≢ server_addr
        → ipv4_of client_addr ≡ ok c
        → ipv4_of server_addr ≡ ok s
        → Dumped c s packets (
            handle_flow filter turns closing
              (new_raw_flow id now client_addr client_max server_addr server_max))
    unfolding new_raw_flow
    handle_flow-Dumped c s packets n hc hs =
        let flow = new_raw_flow id now client_addr client_max server_addr server_max in
        let r = handle_flow filter turns closing flow in
        let f =
          handle_flow-Forwards filter turns closing id now client_addr client_max server_addr
            server_max in
        let same = handle_flow-IsSame filter turns closing flow in
        forwarded-Dumped r c s packets f (λ e. n (sym same.client_addr ∙ e ∙ same.server_addr))
          (rw same.client_addr hc) (rw same.server_addr hs)
