-- ===== src/Proxy/Dumper/Slices.antt =====
-- The packets of single slices of a chunk (src/proxy/dumper.rs).
use Prim.Native.Nat.{bit_or}
use mini_proxad.Prelude.{
  ℕ, zero, suc, ◌+◌, ◌-◌, ◌%◌, ◌^◌, ◌≤◌, ◌<◌, ◌≡◌, refl, sym, ap, ◌∙◌, min, Bool, true, false, List,
  [], ◌∷◌, ◌++◌, Bytes, length, ◌==◌, leb, if◌then◌else◌, take, drop, ok, arith, length-take,
  length-drop, take_all, drop_all, drop-drop, le→leb, lt→ltb, Bool-cases, inl, inr, leb→le,
  leb-false, ==_iff, ==_false,
}
use mini_proxad.Proxy.Dumper.Packet.{
  Duration, Header, PcapPacket, Wire, make_header, mtu_len, write_tcp_packet, write_packet,
  wrapping_add,
}
use mini_proxad.Proxy.Dumper.Conversation.{Ends, max_payload, max_payload_lem, send, advance}
use mini_proxad.Proxy.Dumper.Transcript.{
  IsReliable, seal, split, pieces, data_flags, client_seq, server_seq, segment, at_state,
}

module _ (wire : Wire) (image : Header → Bytes → Bytes) (reliable : IsReliable wire image) where
  pub write_tcp_packet_ok :
      (at : Duration) (src dst sport dport seq ack flags : ℕ) (payload : Bytes)
      (packets : List PcapPacket)
      → length payload ≤ max_payload
      → write_tcp_packet wire at src dst sport dport seq ack flags payload packets ≡ (
        packets
            ++ seal image (record {
              at = at;
              header = make_header src dst sport dport seq ack flags;
              payload = payload;
            })
              ∷ [],
        ok tt,
      )
  unfolding write_tcp_packet write_packet
  write_tcp_packet_ok at src dst sport dport seq ack flags payload packets h =
      let header = make_header src dst sport dport seq ack flags in
      let fits : leb (length (image header payload)) mtu_len ≡ true =
        le→leb _ _ (omega (arith, reliable.length-image header payload, max_payload_lem)) in
      rw (reliable.encodes header payload h, write_tcp_packet, fits, reliable.accepts packets)

  module _ (ends : Ends) where
    pub send_ok :
        (who : Bool) (cb sb n : ℕ) (at : Duration) (flags : ℕ) (payload : Bytes) (last : Bool)
        (packets : List PcapPacket)
        → length payload ≤ max_payload
        → send wire ends who (at_state ends cb sb n at last) flags payload packets
          ≡ (packets ++ seal image (segment ends who at cb sb flags payload) ∷ [], ok tt)
    unfolding send segment
    send_ok true cb sb n at flags payload last packets h = write_tcp_packet_ok _ _ _ _ _ _ _ _ _ _ h
    send_ok false cb sb n at flags payload last packets h =
        write_tcp_packet_ok _ _ _ _ _ _ _ _ _ _ h

abbrev pub bump_client : Bool → ℕ → ℕ → ℕ
bump_client who cb len = if who then cb + len else cb

abbrev pub bump_server : Bool → ℕ → ℕ → ℕ
bump_server who sb len = if who then sb else sb + len

client_next : (cb len : ℕ) → wrapping_add (client_seq cb) (len % 2 ^ 32) ≡ client_seq (cb + len)
client_next cb len = omega arith

server_next : (sb len : ℕ) → wrapping_add (server_seq sb) (len % 2 ^ 32) ≡ server_seq (sb + len)
server_next sb len = omega arith

pub advance_ok :
    (ends : Ends) (who : Bool) (cb sb n : ℕ) (at : Duration) (last : Bool) (len : ℕ)
    → advance who len (at_state ends cb sb n at last)
      ≡ at_state ends (bump_client who cb len) (bump_server who sb len) (n + 1) at last
unfolding advance
advance_ok ends true cb sb n at last len = rw (client_next cb len)
advance_ok ends false cb sb n at last len = rw (server_next sb len)

-- The slice that a round of the loop takes, and where the next one starts.
abbrev pub end_of : Bytes → ℕ → ℕ
end_of chunk offset = min (offset + max_payload) (length chunk)

abbrev pub slice_of : Bytes → ℕ → Bytes
slice_of chunk offset = take (end_of chunk offset - offset) (drop offset chunk)

module _ (chunk : Bytes) (offset : ℕ) (below : offset < length chunk) where
  pub slice_of_lem : (slice_of chunk offset) ≡ take max_payload (drop offset chunk)
  slice_of_lem = elim (Bool-cases (leb (offset + max_payload) (length chunk))) [
    | inl h ↦
        let le = leb→le _ _ h in
        let e : (end_of chunk offset) - offset ≡ max_payload = omega arith in
        ap (λ n. take n (drop offset chunk)) e
    | inr h ↦
        let lt = leb-false _ _ h in
        take_all ((end_of chunk offset) - offset) (drop offset chunk)
          (omega (arith, length-drop offset chunk))
        ∙ sym (take_all max_payload (drop offset chunk) (omega (arith, length-drop offset chunk)))
  ]

  pub drop-end : drop (end_of chunk offset) chunk ≡ drop max_payload (drop offset chunk)
  drop-end = elim (Bool-cases (leb (offset + max_payload) (length chunk))) [
    | inl h ↦
        let le = leb→le _ _ h in
        let e : (end_of chunk offset) ≡ offset + max_payload = omega arith in
        ap (λ n. drop n chunk) e ∙ sym (drop-drop max_payload offset chunk)
    | inr h ↦
        let lt = leb-false _ _ h in
        drop_all (end_of chunk offset) chunk (omega arith)
        ∙ sym (drop_all max_payload (drop offset chunk) (omega (arith, length-drop offset chunk)))
  ]

  length-slice : length (slice_of chunk offset) ≡ (end_of chunk offset) - offset
  length-slice = omega (
    arith,
    length-take ((end_of chunk offset) - offset) (drop offset chunk),
    length-drop offset chunk,
  )

  -- The test for PSH is met by the first slice of a chunk and no other.
  pub flags_lem :
      (if (end_of chunk offset) == length (slice_of chunk offset) then bit_or 0x10 0x08 else 0x10)
      ≡ data_flags (offset == 0)
  flags_lem =
      let more : offset < (end_of chunk offset) = omega (arith, max_payload_lem) in
      rw length-slice (elim (Bool-cases (offset == 0)) [
        | inl e ↦
            let z = (==_iff offset 0).0 e in
            let same : ((end_of chunk offset) == (end_of chunk offset) - offset) ≡ true =
              (==_iff _ _).1 (omega arith) in
            rw (same, e) refl
        | inr e ↦
            let z = (==_false offset 0).0 e in
            let differ : ((end_of chunk offset) == (end_of chunk offset) - offset) ≡ false =
              (==_false _ _).1 (λ k. omega arith) in
            rw (differ, e) refl
      ])

pub split-nil : (fuel : ℕ) (bytes : Bytes) → length bytes ≡ 0 → split fuel bytes ≡ []
unfolding split
split-nil zero bytes h = refl
split-nil (suc fuel) bytes h = rw h refl

pub split-cons :
    (fuel : ℕ) (bytes : Bytes)
    → 0 < length bytes
    → split (suc fuel) bytes ≡ take max_payload bytes ∷ split fuel (drop max_payload bytes)
unfolding split
split-cons fuel bytes h = rw (lt→ltb 0 _ h)

pub pieces-nil : (who : Bool) (at : Duration) (first : Bool) → pieces who at first [] ≡ []
unfolding pieces
pieces-nil who at first = refl
