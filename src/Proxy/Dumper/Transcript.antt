-- ===== src/Proxy/Dumper/Transcript.antt =====
-- What a pcap file written by src/proxy/dumper.rs should hold: the segments of a TCP conversation,
-- with sequence numbers counted from the bytes that each side has sent so far.
use mini_proxad.Prelude.{
  ℕ, zero, suc, ◌+◌, ◌%◌, ◌^◌, ◌≤◌, ◌≡◌, some, Bool, true, false, List, [], ◌∷◌, Bytes, length, ltb,
  if◌then◌else◌, take, drop,
}
use mini_proxad.Proxy.Dumper.Packet.{Duration, Header, PcapPacket, Wire, make_header}
use mini_proxad.Proxy.Dumper.Conversation.{Ends, Conversation, max_payload, header_size}

pub record Segment : Type 0 where
  pub at : Duration
  pub header : Header
  pub payload : Bytes

-- What the writer relies on: the packet of a payload that is not too long is its headers with the
-- payload behind them, and the file takes every packet.
pub record IsReliable (wire : Wire) (image : Header → Bytes → Bytes) : Type 0 where
  pub encodes :
      (h : Header) (payload : Bytes)
      → length payload ≤ max_payload
      → wire.encode h payload ≡ some (image h payload)
  pub length-image :
      (h : Header) (payload : Bytes) → length (image h payload) ≡ header_size + length payload
  pub accepts : (packets : List PcapPacket) (p : PcapPacket) → wire.accepts packets p ≡ true

abbrev pub seal : (Header → Bytes → Bytes) → Segment → PcapPacket
seal image s = record {
  timestamp = s.at;
  orig_len = length (image s.header s.payload) % 2 ^ 32;
  bytes = image s.header s.payload;
}

-- A part of a chunk that fits into a packet; `first` tells the first part of a chunk.
pub record Piece : Type 0 where
  pub from_client : Bool
  pub at : Duration
  pub first : Bool
  pub payload : Bytes

-- The parts of a chunk, with fuel for their number.
unfoldable pub split : ℕ → Bytes → List Bytes
split zero bytes = []
split (suc fuel) bytes =
    let rest = split fuel (drop max_payload bytes) in
    if ltb 0 (length bytes) then take max_payload bytes ∷ rest else []

unfoldable pub pieces : Bool → Duration → Bool → List Bytes → List Piece
pieces from_client at first [] = []
pieces from_client at first (bytes ∷ rest) =
    record { from_client = from_client; at = at; first = first; payload = bytes }
    ∷ pieces from_client at false rest

-- The flags of a data segment: ACK, and PSH on the first part of a chunk.
abbrev pub data_flags : Bool → ℕ
data_flags first = if first then 0x18 else 0x10

-- The sequence number of a side that has sent so many bytes after its SYN.
abbrev pub client_seq : ℕ → ℕ
client_seq sent = (1_001 + sent) % 2 ^ 32

abbrev pub server_seq : ℕ → ℕ
server_seq sent = (1_000_001 + sent) % 2 ^ 32

module _ (ends : Ends) where
  -- A segment of a side, where the client has sent `cb` bytes and the server `sb`.
  unfoldable pub segment : Bool → Duration → (cb sb flags : ℕ) → Bytes → Segment
  segment true at cb sb flags payload = record {
    at = at;
    header =
        make_header ends.src_ip ends.dst_ip ends.src_port ends.dst_port (client_seq cb)
          (server_seq sb) flags;
    payload = payload;
  }
  segment false at cb sb flags payload = record {
    at = at;
    header =
        make_header ends.dst_ip ends.src_ip ends.dst_port ends.src_port (server_seq sb)
          (client_seq cb) flags;
    payload = payload;
  }

  unfoldable pub data_segments : (cb sb : ℕ) → List Piece → List Segment
  data_segments cb sb [] = []
  data_segments cb sb (p ∷ ps) =
      segment p.from_client p.at cb sb (data_flags p.first) p.payload
      ∷ data_segments (if p.from_client then cb + length p.payload else cb)
          (if p.from_client then sb else sb + length p.payload) ps

  -- The state of the writer after `cb` bytes of the client and `sb` of the server.
  abbrev pub at_state : (cb sb n : ℕ) → Duration → Bool → Conversation
  at_state cb sb n at last = record {
    seq_client = client_seq cb;
    seq_server = server_seq sb;
    ack_client = server_seq sb;
    ack_server = client_seq cb;
    n_packets = n;
    timestamp = at;
    last_was_client = last;
  }
