-- ===== src/Proxy/Dumper/Packet.antt =====
-- src/proxy/dumper.rs, `write_tcp_packet` and `write_tcp_handshake`: one packet, and the three of
-- the handshake. The crates `etherparse` and `pcap-file` are parameters, collected in `Wire`.
use Prim.Native.Nat.{bit_and}
use mini_proxad.Prelude.{
  ℕ, ◌+◌, ◌%◌, ◌^◌, Option, none, some, Bool, List, [], ◌∷◌, ◌++◌, Bytes, length, leb, not, ◌==◌,
  if◌then◌else◌, replicate, foreign, context, Result, ok, err, panicked,
}

pub record Duration : Type 0 where
  pub secs : ℕ
  pub nanos : ℕ

-- What `PacketBuilder` has been told: the Ethernet, IPv4 and TCP headers.
pub record Header : Type 0 where
  pub src_mac : Bytes
  pub dst_mac : Bytes
  pub src_ip : ℕ
  pub dst_ip : ℕ
  pub ttl : ℕ
  pub src_port : ℕ
  pub dst_port : ℕ
  pub seq : ℕ
  pub window : ℕ
  pub ack : Option ℕ
  pub fin : Bool
  pub syn : Bool
  pub psh : Bool

pub record PcapPacket : Type 0 where
  pub timestamp : Duration
  pub orig_len : ℕ
  pub bytes : Bytes

pub record Wire : Type 0 where
  -- What `PacketBuilder::write` makes of headers and payload; `none` is its error.
  pub encode : Header → Bytes → Option Bytes
  -- Whether the file takes a packet after those that it holds.
  pub accepts : List PcapPacket → PcapPacket → Bool

-- The file so far, passed through code that may fail: what was written before an error stays.
abbrev pub Writer : Type 0 → Type 0
Writer A = List PcapPacket → List PcapPacket × Result A

abbrev pub pure : {A : Type 0} → A → Writer A
pure a packets = (packets, ok a)

abbrev pub fail : {A : Type 0} → Result A → Writer A
fail r packets = (packets, r)

abbrev pub resume :
    {A B : Type 0} → List PcapPacket → Result A → (A → Writer B) → List PcapPacket × Result B
resume packets (ok a) f = f a packets
resume packets (err e) f = (packets, err e)
resume packets panicked f = (packets, panicked)

infixl 5 ◌>>=◌ ◌>>◌
abbrev pub ◌>>=◌ : {A B : Type 0} → Writer A → (A → Writer B) → Writer B
◌>>=◌ m f packets = resume (m packets).0 (m packets).1 f

abbrev pub ◌>>◌ : {B : Type 0} → Writer (Unit {0}) → Writer B → Writer B
m >> k = m >>= λ _. k

-- `MTU_LEN`.
abbrev pub mtu_len : ℕ
mtu_len = 65535

abbrev pub wrapping_add : ℕ → ℕ → ℕ
wrapping_add a b = (a + b) % 2 ^ 32

-- Whether a flag is set: `flags & mask != 0`.
abbrev pub has_flag : ℕ → ℕ → Bool
has_flag flags mask = not (bit_and flags mask == 0)

unfoldable pub make_header : (src_ip dst_ip src_port dst_port seq ack flags : ℕ) → Header
make_header src_ip dst_ip src_port dst_port seq ack flags = record {
  src_mac = replicate 6 0x11;
  dst_mac = replicate 6 0x22;
  src_ip = src_ip;
  dst_ip = dst_ip;
  ttl = 64;
  src_port = src_port;
  dst_port = dst_port;
  seq = seq;
  window = 65535;
  ack = if has_flag flags 0x10 then some ack else none;
  fin = has_flag flags 0x01;
  syn = has_flag flags 0x02;
  psh = has_flag flags 0x08;
}

module _ (wire : Wire) where
  unfoldable pub write_packet : PcapPacket → Writer (Unit {0})
  write_packet packet packets =
      if wire.accepts packets packet
      then (packets ++ packet ∷ [], ok tt)
      else (packets, err (context "Failed to write packet to pcap" foreign))

  -- The packet is put together in a buffer of `mtu_len` bytes.
  unfoldable pub write_tcp_packet :
      Duration → (src_ip dst_ip src_port dst_port seq ack flags : ℕ) → Bytes → Writer (Unit {0})
  write_tcp_packet timestamp src_ip dst_ip src_port dst_port seq ack flags payload =
      elim (wire.encode (make_header src_ip dst_ip src_port dst_port seq ack flags) payload) [
        | none ↦ fail (err foreign)
        | some bytes ↦
            if leb (length bytes) mtu_len
            then write_packet
                (record { timestamp = timestamp; orig_len = length bytes % 2 ^ 32; bytes = bytes })
            else fail (err foreign)
      ]

  -- The new `seq_client`, `ack_client` and `seq_server`.
  unfoldable pub write_tcp_handshake :
      Duration
      → (src_ip dst_ip src_port dst_port seq_client ack_client seq_server : ℕ) → Writer (ℕ × ℕ × ℕ)
  write_tcp_handshake timestamp src_ip dst_ip src_port dst_port seq_client ack_client seq_server =
      do
        write_tcp_packet timestamp src_ip dst_ip src_port dst_port seq_client ack_client 0x02 []
        let seq_client' = wrapping_add seq_client 1
        write_tcp_packet timestamp dst_ip src_ip dst_port src_port seq_server seq_client' 0x12 []
        let seq_server' = wrapping_add seq_server 1
        let ack_client' = seq_server'
        write_tcp_packet timestamp src_ip dst_ip src_port dst_port seq_client' ack_client' 0x10 []
        pure (seq_client', ack_client', seq_server')
