-- ===== src/Proxy/Dumper/Segments.antt =====
-- Every chunk is written as the segments of its parts (src/proxy/dumper.rs).
use native.Mathlib.Nat.{add-zero, add_assoc}
use mini_proxad.Prelude.{
  ℕ, zero, suc, ◌+◌, ◌≤◌, ◌<◌, ◌≡◌, refl, sym, ◌∙◌, Bool, true, false, List, [], ◌∷◌, ◌++◌, map,
  Bytes, length, ltb, ◌==◌, take, drop, Result, ok, arith, length-take, length-drop, append_assoc,
  append-nil, lt→ltb, le→ltb_false, Bool-cases, inl, inr, ltb→lt, ltb-false, ==_false,
}
use mini_proxad.Proxy.Dumper.Packet.{Duration, Header, PcapPacket, Wire, ◌>>=◌}
use mini_proxad.Proxy.Dumper.Conversation.{
  Ends, Conversation, max_payload, max_payload_lem, write_segment, write_segments,
}
use mini_proxad.Proxy.Dumper.Transcript.{
  IsReliable, seal, Piece, split, pieces, data_flags, segment, data_segments, at_state,
}
use mini_proxad.Proxy.Dumper.Slices.{
  send_ok, bump_client, bump_server, advance_ok, end_of, slice_of_lem, drop-end, flags_lem,
  split-nil, split-cons, pieces-nil,
}

module _ (wire : Wire) (image : Header → Bytes → Bytes) (reliable : IsReliable wire image)
    (ends : Ends) where
  -- One round of the loop.
  write_segment_ok :
      (chunk : Bytes) (offset : ℕ) (who : Bool) (cb sb n : ℕ) (at : Duration)
      (packets : List PcapPacket)
      → offset < length chunk
      → let payload = take max_payload (drop offset chunk) in
        write_segment wire ends chunk offset (at_state ends cb sb n at who) packets ≡ (
          packets ++ seal image (segment ends who at cb sb (data_flags (offset == 0)) payload) ∷ [],
          ok (
            end_of chunk offset,
            at_state ends
                (bump_client who cb (length payload))
                (bump_server who sb (length payload))
                (n + 1)
                at
                who,
          ),
        )
  unfolding write_segment
  write_segment_ok chunk offset who cb sb n at packets h =
      let payload = take max_payload (drop offset chunk) in
      let fits : length payload ≤ max_payload =
        omega (arith, length-take max_payload (drop offset chunk)) in
      rw (flags_lem chunk offset h, slice_of_lem chunk offset h)
        (rw
          (send_ok wire image reliable ends who cb sb n at (data_flags (offset == 0)) payload who
            packets fits)
          (rw (advance_ok ends who cb sb n at who (length payload)) refl))

  write_segments-go :
      (fuel : ℕ) (chunk : Bytes) (offset : ℕ) (c : Conversation) (packets : List PcapPacket)
      → offset < length chunk
      → write_segments wire ends (suc fuel) chunk offset c packets
        ≡ (write_segment wire ends chunk offset c >>= λ r.
              write_segments wire ends fuel chunk r.0 r.1)
            packets
  unfolding write_segments
  write_segments-go fuel chunk offset c packets h = rw (lt→ltb _ _ h)

  write_segments-stop :
      (fuel : ℕ) (chunk : Bytes) (offset : ℕ) (c : Conversation) (packets : List PcapPacket)
      → length chunk ≤ offset
      → write_segments wire ends fuel chunk offset c packets ≡ (packets, ok c)
  unfolding write_segments
  write_segments-stop zero chunk offset c packets h = refl
  write_segments-stop (suc fuel) chunk offset c packets h = rw (le→ltb_false _ _ h)

  -- What the loop should have done with the bytes that were left.
  abbrev pub wrote :
      List PcapPacket
      → (cb sb n : ℕ) → Duration
      → Bool
      → ℕ
      → List Piece
      → List PcapPacket × Result Conversation
  wrote packets cb sb n at who len ps = (
    packets ++ map (seal image) (data_segments ends cb sb ps),
    ok (at_state ends (bump_client who cb len) (bump_server who sb len) (n + length ps) at who),
  )

  wrote_nothing :
      (packets : List PcapPacket) (cb sb n : ℕ) (at : Duration) (who : Bool) (len : ℕ)
      → len ≡ 0
      → wrote packets cb sb n at who len [] ≡ (packets, ok (at_state ends cb sb n at who))
  unfolding data_segments
  wrote_nothing packets cb sb n at true len h = cc (append-nil packets, h, add-zero cb, add-zero n)
  wrote_nothing packets cb sb n at false len h = cc (append-nil packets, h, add-zero sb, add-zero n)

  wrote_more :
      (packets : List PcapPacket) (cb sb n : ℕ) (at : Duration) (who first : Bool) (payload : Bytes)
      (rest : List Bytes) (len : ℕ)
      → wrote
          (packets ++ seal image (segment ends who at cb sb (data_flags first) payload) ∷ [])
          (bump_client who cb (length payload))
          (bump_server who sb (length payload))
          (n + 1)
          at
          who
          len
          (pieces who at false rest)
        ≡ wrote packets cb sb n at who (length payload + len) (pieces who at first (payload ∷ rest))
  unfolding data_segments pieces
  wrote_more packets cb sb n at true first payload rest len =
      let count : n + 1 + length (pieces true at false rest)
          ≡ n + suc (length (pieces true at false rest)) =
        omega arith in
      cc (
        append_assoc packets
            (seal image (segment ends true at cb sb (data_flags first) payload) ∷ [])
            (map (seal image)
              (data_segments ends (cb + length payload) sb (pieces true at false rest))),
        add_assoc cb (length payload) len,
        count,
      )
  wrote_more packets cb sb n at false first payload rest len =
      let count : n + 1 + length (pieces false at false rest)
          ≡ n + suc (length (pieces false at false rest)) =
        omega arith in
      cc (
        append_assoc packets
            (seal image (segment ends false at cb sb (data_flags first) payload) ∷ [])
            (map (seal image)
              (data_segments ends cb (sb + length payload) (pieces false at false rest))),
        add_assoc sb (length payload) len,
        count,
      )

  write_segments_over :
      (fuel : ℕ) (chunk : Bytes) (offset : ℕ) (who : Bool) (cb sb n : ℕ) (at : Duration)
      (packets : List PcapPacket)
      → length chunk ≤ offset
      → write_segments wire ends fuel chunk offset (at_state ends cb sb n at who) packets
        ≡ wrote packets cb sb n at who
            (length (drop offset chunk))
            (pieces who at (offset == 0) (split fuel (drop offset chunk)))
  write_segments_over fuel chunk offset who cb sb n at packets over =
      let none_left : length (drop offset chunk) ≡ 0 = omega (arith, length-drop offset chunk) in
      write_segments-stop fuel chunk offset _ packets over
      ∙ rw (split-nil fuel (drop offset chunk) none_left, pieces-nil)
          (sym (wrote_nothing packets cb sb n at who _ none_left))

  -- The loop from an offset on: the segments of the parts of what is left.
  pub write_segments_ok :
      (fuel : ℕ) (chunk : Bytes) (offset : ℕ) (who : Bool) (cb sb n : ℕ) (at : Duration)
      (packets : List PcapPacket)
      → length chunk ≤ offset + fuel
      → write_segments wire ends fuel chunk offset (at_state ends cb sb n at who) packets
        ≡ wrote packets cb sb n at who
            (length (drop offset chunk))
            (pieces who at (offset == 0) (split fuel (drop offset chunk)))
  write_segments_ok zero chunk offset who cb sb n at packets h =
      write_segments_over zero chunk offset who cb sb n at packets (omega arith)
  write_segments_ok (suc fuel) chunk offset who cb sb n at packets h =
      elim (Bool-cases (ltb offset (length chunk))) [
        | inl e ↦
            let lt = ltb→lt _ _ e in
            let rest = drop offset chunk in
            let payload = take max_payload rest in
            let later : (end_of chunk offset == 0) ≡ false =
              (==_false _ _).1 (λ k. omega (arith, max_payload_lem)) in
            let both : length payload + length (drop max_payload rest) ≡ length rest =
              omega (arith, length-take max_payload rest, length-drop max_payload rest) in
            write_segments-go fuel chunk offset _ packets lt
            ∙ rw (write_segment_ok chunk offset who cb sb n at packets lt) (
                write_segments_ok fuel chunk (end_of chunk offset) who
                  (bump_client who cb (length payload)) (bump_server who sb (length payload))
                  (n + 1) at _ (omega (arith, max_payload_lem))
                ∙ rw
                    (
                      later,
                      drop-end chunk offset lt,
                      split-cons fuel rest (omega (arith, length-drop offset chunk)),
                    )
                    (wrote_more packets cb sb n at who (offset == 0) payload
                        (split fuel (drop max_payload rest)) (length (drop max_payload rest))
                      ∙ rw both refl))
        | inr e ↦
            write_segments_over (suc fuel) chunk offset who cb sb n at packets (ltb-false _ _ e)
      ]
