-- ===== src/Proxy/Dumper/Course.antt =====
-- The course of a whole TCP conversation in a pcap file (src/proxy/dumper.rs).
use mini_proxad.Prelude.{
  ◌+◌, ◌%◌, ◌/◌, ◌^◌, ◌<◌, ◌≡◌, ◌⊎◌, panicked, refl, ◌∙◌, Option, none, some, Bool, false, List, [],
  ◌∷◌, ◌++◌, lt→ltb, length, length-append, arith, append_assoc, Result, ok, err, ◌>>=◌,
}
use mini_proxad.Net.{SocketAddr, addr_eq}
use mini_proxad.Flow.Iter.{after, Item}
use mini_proxad.Proxy.Dumper.Packet.{Duration, make_header}
use mini_proxad.Proxy.Dumper.Conversation.{Chrono, Ends, make_timestamp, new_duration}
use mini_proxad.Proxy.Dumper.Transcript.{Segment, segment, data_segments}
use mini_proxad.Proxy.Dumper.Pieces.{client_sent, server_sent, all_pieces}

-- The whole seconds of every time fit into a `u64` once those of the nanoseconds are added.
abbrev pub IsTimely : {T : Type 0} → Chrono T → Type 0
IsTimely {T} chrono = (t : T) → chrono.unix_secs t + chrono.subsec_nanos t / 1_000_000_000 < 2 ^ 64

-- The time of a packet.
abbrev pub stamp_of : {T : Type 0} → Chrono T → T → Duration
stamp_of chrono t = record {
  secs = chrono.unix_secs t + chrono.subsec_nanos t / 1_000_000_000;
  nanos = chrono.subsec_nanos t % 1_000_000_000;
}

pub make_timestamp_ok :
    {T : Type 0} (chrono : Chrono T)
    → IsTimely chrono
    → (t : T) → make_timestamp chrono t ≡ ok (stamp_of chrono t)
unfolding make_timestamp new_duration
make_timestamp_ok chrono h t = rw (lt→ltb _ _ (h t)) refl

-- SYN, SYN-ACK and ACK.
abbrev pub handshake_segments : Ends → Duration → List Segment
handshake_segments ends start =
    record {
      at = start;
      header = make_header ends.src_ip ends.dst_ip ends.src_port ends.dst_port 1_000 1_000_001 0x02;
      payload = [];
    }
    ∷ record {
      at = start;
      header = make_header ends.dst_ip ends.src_ip ends.dst_port ends.src_port 1_000_000 1_001 0x12;
      payload = [];
    }
    ∷ record {
      at = start;
      header = make_header ends.src_ip ends.dst_ip ends.src_port ends.dst_port 1_001 1_000_001 0x10;
      payload = [];
    }
    ∷ []

pub append_three :
    {A : Type 0} (xs : List A) (a b c : A)
    → ((xs ++ a ∷ []) ++ b ∷ []) ++ c ∷ [] ≡ xs ++ a ∷ b ∷ c ∷ []
append_three xs a b c =
    append_assoc (xs ++ a ∷ []) (b ∷ []) (c ∷ []) ∙ append_assoc xs (a ∷ []) (b ∷ c ∷ [])

-- What a `for` loop over an iterator has met, if it got a list of items.
pub after_ok :
    {A : Type 0} (r : Result (Option A)) (rest : Result (List A)) (items : List A)
    → (r >>= after rest) ≡ ok items
    → ((r ≡ ok none) × (items ≡ []))
      ⊎ ((a : A) × (later : List A) × (r ≡ ok (some a)) × (rest ≡ ok later) × (items ≡ a ∷ later))
after_ok (ok none) rest items h = ground arith
after_ok (ok (some a)) (ok later) items h = ground arith
after_ok (ok (some a)) (err e) items h = ground arith
after_ok (ok (some a)) panicked items h = ground arith
after_ok (err e) rest items h = ground arith
after_ok panicked rest items h = ground arith

-- Who sent the last item, and when; FIN is sent in its name.
unfoldable pub last_turn :
    {T : Type 0} → (T → Duration) → SocketAddr → Bool → Duration → List (Item T) → Bool × Duration
last_turn stamp client_addr who at [] = (who, at)
last_turn stamp client_addr who at ((addr, ts, bytes) ∷ items) =
    last_turn stamp client_addr (addr_eq addr client_addr) (stamp ts) items

-- The segments of a whole conversation.
unfoldable pub transcript :
    {T : Type 0} → (T → Duration) → SocketAddr → Ends → T → List (Item T) → List Segment
transcript stamp client_addr ends start items =
    let ps = all_pieces stamp client_addr items in
    let last = last_turn stamp client_addr false (stamp start) items in
    handshake_segments ends (stamp start)
    ++ (data_segments ends 0 0 ps
        ++ segment ends last.0 last.1 (client_sent 0 ps) (server_sent 0 ps) 0x11 [] ∷ [])

-- At least the handshake and the FIN.
pub transcript_min :
    {T : Type 0} (stamp : T → Duration) (client_addr : SocketAddr) (ends : Ends) (start : T)
    (items : List (Item T))
    → 3 < length (transcript stamp client_addr ends start items)
unfolding transcript
transcript_min stamp client_addr ends start items =
    let ps = all_pieces stamp client_addr items in
    let last = last_turn stamp client_addr false (stamp start) items in
    omega (
      arith,
      length-append (data_segments ends 0 0 ps)
          (segment ends last.0 last.1 (client_sent 0 ps) (server_sent 0 ps) 0x11 [] ∷ []),
    )
