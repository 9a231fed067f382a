-- ===== src/Proxy/Raw/Reads.antt =====
-- What `read_chunk` of src/proxy/mod.rs records.
use mini_proxad.Prelude.{
  leb-false, leb→le, Bool-cases, ℕ, suc, zero, ◌+◌, ◌≤◌, ◌<◌, ◌≡◌, refl, sym, ap, ◌∙◌, inl, inr,
  some, List, [], ◌∷◌, ◌++◌, Bytes, arith, Result, ok, err, length, subst, leb, append-nil,
  length-append, io, ErrorKind, ControlFlow, take-append_le, take_all,
}
use mini_proxad.History.Raw.{RawHistory, last_chunk}
use mini_proxad.Filter.Raw.Laws.{Applied, kept, killed, replaced}
use mini_proxad.History.Raw.Tiling.{
  last_chunk-some, set_last_chunk_some, last_chunk-set_last_chunk, set_last_chunk-IsTiled,
  IsReadable, IsTiled,
}
use mini_proxad.History.Raw.Tiles.{part_end, Tiles, Tiles-push}
use mini_proxad.Stream
use mini_proxad.Stream.{Poll, PollRead, pending, ready, broken}
use mini_proxad.Stream.Laws.{read_chunk-Grows, read_chunk-pending_same}
use mini_proxad.Proxy.Raw.{
  FlowStatus, read, closed, timeout, history_too_big, record_chunk, read_chunk,
}

append-length_zero : (xs ys : Bytes) → length ys ≡ 0 → xs ++ ys ≡ xs
append-length_zero xs [] h = append-nil xs
append-length_zero xs (y ∷ ys) h = absurd (omega arith)

module _ {T : Type 0} where
  -- `h'` is `h` with a chunk of new bytes at the end, taken at the time `now`.
  abbrev pub extended : RawHistory T → Bytes → T → RawHistory T
  extended h new now = record h {
    bytes = h.bytes ++ new;
    chunks =
        h.chunks
        ++ record {
          range = record { start = length h.bytes; end = length h.bytes + length new };
          timestamp = now;
        }
          ∷ [];
  }

  -- The ways in which a read ends: with a chunk, which is too much if it reaches the limit; at the
  -- end of the stream or the deadline, with nothing new; or with an error, maybe after some bytes,
  -- which are then in no chunk.
  pub data Reads (h : RawHistory T) (now : T) : RawHistory T → Result FlowStatus → Type 0 where
    got :
        (new : Bytes)
        → 0 < length new
        → length h.bytes + length new < h.max_size
        → Reads h now (extended h new now) (ok read)
    too_big :
        (new : Bytes)
        → 0 < length new
        → h.max_size ≤ length h.bytes + length new
        → Reads h now (extended h new now) (ok history_too_big)
    at_end : Reads h now h (ok closed)
    late : Reads h now h (ok timeout)
    failing :
        (new : Bytes) (e : ErrorKind)
        → Reads h now (record h { bytes = h.bytes ++ new }) (err (io e))

  record_chunk-Reads :
      (h : RawHistory T) (now : T) (new : Bytes) (n : ℕ)
      → n ≡ length new
      → 0 < n
      → let r = record_chunk (record h { bytes = h.bytes ++ new }) (length h.bytes) n now in
        Reads h now r.0 r.1
  unfolding record_chunk
  record_chunk-Reads h now new n e p =
      rw e (elim (Bool-cases (leb h.max_size (length h.bytes + length new))) [
        | inl full ↦ rw full (too_big new (omega arith) (leb→le _ _ full))
        | inr free ↦ rw free (got new (omega arith) (leb-false _ _ free))
      ])

  -- A read of the proxy ends in one of the ways of `Reads`: a new chunk behind the others that stays
  -- below the limit, or one that reaches it; the end of the stream or the deadline with the history
  -- unchanged; or an error, where bytes may have been added without a chunk.
  pub read_chunk-Reads :
      (wakes : List (List Poll)) (h : RawHistory T) (now : T)
      → Reads h now (read_chunk wakes h now).0 (read_chunk wakes h now).1
  unfolding read_chunk
  read_chunk-Reads wakes h now = go (Stream.read_chunk wakes h.bytes).outcome refl
    where
      go :
          (o : PollRead)
          → (Stream.read_chunk wakes h.bytes).outcome ≡ o
          → Reads h now (read_chunk wakes h now).0 (read_chunk wakes h now).1
      go pending e = rw (e, read_chunk, read_chunk-pending_same wakes h.bytes e) late
      go (ready zero) e =
          let (new, b, k) = read_chunk-Grows wakes h.bytes in
          rw (e, read_chunk, b, append-length_zero h.bytes new (omega (arith, k 0 e))) at_end
      go (ready (suc n)) e =
          let (new, b, k) = read_chunk-Grows wakes h.bytes in
          rw (e, read_chunk, b)
            (record_chunk-Reads h now new (suc n) (omega (arith, k (suc n) e)) (omega arith))
      go (broken k) e =
          let (new, b, _) = read_chunk-Grows wakes h.bytes in rw (e, read_chunk, b) (failing new k)

  pub extended-IsTiled :
      (h : RawHistory T) (new : Bytes) (now : T) → IsTiled h → IsTiled (extended h new now)
  extended-IsTiled h new now t =
      subst (Tiles 0 (extended h new now).chunks) (sym (length-append h.bytes new))
        (Tiles-push 0 (length h.bytes) h.chunks _ t refl (omega arith))

  -- Bytes that a failing read leaves behind are in no chunk.
  pub failing-IsReadable :
      (h : RawHistory T) (new : Bytes)
      → IsTiled h
      → IsReadable (record h { bytes = h.bytes ++ new })
  failing-IsReadable h new t = (length h.bytes, t, omega (arith, length-append h.bytes new))

  -- A read that ends well keeps the history tiled.
  Reads-IsTiled :
      {h : RawHistory T} {now : T} {h' : RawHistory T} {s : FlowStatus}
      → Reads h now h' (ok s)
      → IsTiled h
      → IsTiled h'
  Reads-IsTiled {h} {now} (got new p q) t = extended-IsTiled h new now t
  Reads-IsTiled {h} {now} (too_big new p q) t = extended-IsTiled h new now t
  Reads-IsTiled at_end t = t
  Reads-IsTiled late t = t

  -- After a read and a hook the history is the old one with a chunk behind it, which can be read.
  abbrev pub HasNext : RawHistory T → RawHistory T → Type 0
  HasNext h h' =
      (chunk : Bytes) × (h'.bytes ≡ h.bytes ++ chunk) × (last_chunk h' ≡ some chunk) × IsTiled h'

  extended-HasNext :
      (h : RawHistory T) (new : Bytes) (now : T) → IsTiled h → HasNext h (extended h new now)
  extended-HasNext h new now t = (
    new,
    refl,
    last_chunk-some (extended h new now) h.chunks _ (extended-IsTiled h new now t) refl
        ∙ ap some (part_end h.bytes new (length h.bytes) (length h.bytes + length new) refl refl),
    extended-IsTiled h new now t,
  )

  pub Applied-HasNext :
      (h : RawHistory T) (new : Bytes) (now : T) {h' : RawHistory T} {c : ControlFlow}
      → IsTiled h
      → Applied (extended h new now) h' c
      → HasNext h h'
  Applied-HasNext h new now t kept = extended-HasNext h new now t
  Applied-HasNext h new now t killed = extended-HasNext h new now t
  Applied-HasNext h new now t (replaced bytes later) =
      let tiled = extended-IsTiled h new now t in
      (
        bytes,
        ap (λ (g : RawHistory T). g.bytes)
              (set_last_chunk_some (extended h new now) bytes later h.chunks _ refl)
            ∙ ap (λ bs. bs ++ bytes)
                (take-append_le (length h.bytes) h.bytes new (omega arith)
                  ∙ take_all (length h.bytes) h.bytes (omega arith)),
        last_chunk-set_last_chunk (extended h new now) bytes later tiled,
        set_last_chunk-IsTiled (extended h new now) bytes later tiled,
      )
