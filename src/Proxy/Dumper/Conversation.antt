-- ===== src/Proxy/Dumper/Conversation.antt =====
-- src/proxy/dumper.rs, `write_tcp_flow`: the handshake, the segments of each chunk, and a FIN.
use Prim.Native.Nat.{bit_or}
use mini_proxad.Prelude.{
  ℕ, zero, suc, ◌+◌, ◌-◌, ◌%◌, ◌/◌, ◌^◌, min, Option, none, some, Bool, true, false, [], Bytes,
  length, ltb, ◌==◌, if◌then◌else◌, take, drop, message, Result, ok, err, panicked, ◌≡◌, refl,
}
use mini_proxad.Net.{SocketAddr, v4, v6, ip_of, port_of, addr_eq}
use mini_proxad.Flow.{Flow, get_start, get_client_addr, get_server_addr}
use mini_proxad.Http.{HttpCrate, Request, Response}
use mini_proxad.Flow.Iter.{Item, FlowIterator, next, calls, into_iter}
use mini_proxad.Proxy.Dumper.Packet.{
  Duration, Wire, Writer, pure, fail, ◌>>=◌, ◌>>◌, mtu_len, wrapping_add, write_tcp_packet,
  write_tcp_handshake,
}

-- What the program uses of chrono's `DateTime<Utc>`: its order, `timestamp() as u64` and
-- `timestamp_subsec_nanos()`.
pub record Chrono (T : Type 0) : Type 0 where
  pub before : T → T → Bool
  pub unix_secs : T → ℕ
  pub subsec_nanos : T → ℕ

-- `Duration::new` carries whole seconds over and panics if they overflow a `u64`.
unfoldable pub new_duration : ℕ → ℕ → Result Duration
new_duration secs nanos =
    if ltb (secs + nanos / 1_000_000_000) (2 ^ 64)
    then ok (record { secs = secs + nanos / 1_000_000_000; nanos = nanos % 1_000_000_000 })
    else panicked

unfoldable pub make_timestamp : {T : Type 0} → Chrono T → T → Result Duration
make_timestamp chrono ts = new_duration (chrono.unix_secs ts) (chrono.subsec_nanos ts)

-- `ETHERNET_HEADER_LEN + IPV4_HEADER_LEN + TCP_HEADER_LEN`.
abbrev pub header_size : ℕ
header_size = 14 + 20 + 20

-- Shut, since `take` would count it down.
unfoldable pub max_payload : ℕ
max_payload = mtu_len - header_size

pub max_payload_lem : max_payload ≡ 65_481
unfolding max_payload
max_payload_lem = refl

-- The addresses of the two ends.
pub record Ends : Type 0 where
  pub src_ip : ℕ
  pub dst_ip : ℕ
  pub src_port : ℕ
  pub dst_port : ℕ

pub record Conversation : Type 0 where
  pub seq_client : ℕ
  pub seq_server : ℕ
  pub ack_client : ℕ
  pub ack_server : ℕ
  pub n_packets : ℕ
  pub timestamp : Duration
  pub last_was_client : Bool

-- The numbers after a packet with `len` bytes of the client, or of the server.
unfoldable pub advance : Bool → ℕ → Conversation → Conversation
advance true len c =
    let seq = wrapping_add c.seq_client (len % 2 ^ 32) in
    record c { n_packets = c.n_packets + 1; seq_client = seq; ack_server = seq }
advance false len c =
    let seq = wrapping_add c.seq_server (len % 2 ^ 32) in
    record c { n_packets = c.n_packets + 1; seq_server = seq; ack_client = seq }

module _ (wire : Wire) (ends : Ends) where
  -- A packet of the client, or of the server.
  unfoldable pub send : Bool → Conversation → ℕ → Bytes → Writer (Unit {0})
  send true c flags bytes =
      write_tcp_packet wire c.timestamp ends.src_ip ends.dst_ip ends.src_port ends.dst_port
        c.seq_client c.ack_client flags bytes
  send false c flags bytes =
      write_tcp_packet wire c.timestamp ends.dst_ip ends.src_ip ends.dst_port ends.src_port
        c.seq_server c.ack_server flags bytes

  -- The body of the `while` loop. The slice hides the chunk under its name, `bytes`, so PSH is set
  -- if `end` is the length of the slice.
  unfoldable pub write_segment : Bytes → ℕ → Conversation → Writer (ℕ × Conversation)
  write_segment chunk offset c =
      let end = min (offset + max_payload) (length chunk) in
      let bytes = take (end - offset) (drop offset chunk) in
      let flags = if end == length bytes then bit_or 0x10 0x08 else 0x10 in
      do
        send c.last_was_client c flags bytes
        pure (end, advance c.last_was_client (length bytes) c)

  -- The `while` loop; each round takes at least one byte, so as many rounds as bytes are enough.
  unfoldable pub write_segments : ℕ → Bytes → ℕ → Conversation → Writer Conversation
  write_segments zero chunk offset c = pure c
  write_segments (suc fuel) chunk offset c =
      let round = write_segment chunk offset c >>= λ r. write_segments fuel chunk r.0 r.1 in
      if ltb offset (length chunk) then round else pure c

  module _ {T : Type 0} (chrono : Chrono T) (client_addr : SocketAddr) where
    unfoldable pub write_item : Item T → Conversation → Writer Conversation
    write_item (addr, ts, bytes) c = do
      timestamp ← fail (make_timestamp chrono ts)
      let c' = record c { timestamp = timestamp; last_was_client = addr_eq addr client_addr }
      write_segments (length bytes) bytes 0 c'

    abbrev pub write_next :
        (Conversation → Writer Conversation) → Conversation → Option (Item T) → Writer Conversation
    write_next rest c none = pure c
    write_next rest c (some item) = write_item item c >>= rest

    -- The `for` loop over the flow, with fuel for the calls of `next`.
    unfoldable pub write_rest :
        {U : Type 0} (w : HttpCrate) → ℕ → FlowIterator w U T → Conversation → Writer Conversation
    write_rest w zero it c = pure c
    write_rest w (suc n) it c =
        let (result, it') = next w chrono.before it in
        fail result >>= write_next (λ c'. write_rest w n it' c') c

abbrev pub make_ends : ℕ → ℕ → ℕ → ℕ → Ends
make_ends src_ip dst_ip src_port dst_port = record {
  src_ip = src_ip;
  dst_ip = dst_ip;
  src_port = src_port;
  dst_port = dst_port;
}

-- The state after the handshake; `ack_server` is still the first `seq_client` plus 1.
abbrev pub shaken_hands : Duration → ℕ → ℕ → ℕ → Conversation
shaken_hands start seq_client ack_client seq_server = record {
  seq_client = seq_client;
  seq_server = seq_server;
  ack_client = ack_client;
  ack_server = 1_001;
  n_packets = 3;
  timestamp = start;
  last_was_client = false;
}

-- `IpAddr::V4` or the error.
unfoldable pub ipv4_of : SocketAddr → Result ℕ
ipv4_of addr = elim (ip_of addr) [ v4 ip ↦ ok ip | v6 ip ↦ err (message "Only IPv4 supported") ]

module _ (w : HttpCrate) {U T : Type 0} (wire : Wire) (chrono : Chrono T) where
  -- The number of packets.
  unfoldable pub write_tcp_flow : Flow U T (Request w) (Response w) → Writer ℕ
  write_tcp_flow flow =
      let client_addr = get_client_addr flow in
      let server_addr = get_server_addr flow in
      do
        src_ip ← fail (ipv4_of client_addr)
        dst_ip ← fail (ipv4_of server_addr)
        let ends = make_ends src_ip dst_ip (port_of client_addr) (port_of server_addr)
        start ← fail (make_timestamp chrono (get_start flow))
        (seq_client, ack_client, seq_server) ←
            write_tcp_handshake wire start ends.src_ip ends.dst_ip ends.src_port ends.dst_port 1_000
              1_000_001 1_000_000
        let c = shaken_hands start seq_client ack_client seq_server
        c' ← write_rest wire ends chrono client_addr w (calls w flow) (into_iter w flow) c
        send wire ends c'.last_was_client c' 0x11 []
        pure (c'.n_packets + 1)
