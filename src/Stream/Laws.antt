-- ===== src/Stream/Laws.antt =====
-- What a read of src/stream.rs does with the bytes that arrive.
use mini_proxad.Prelude.{
  subst, ◌⊎◌, ℕ, ◌+◌, ◌≡◌, refl, sym, ap, ◌∙◌, List, [], ◌∷◌, ◌++◌, append-nil, append_assoc, arith,
  Bytes, length, length-append, unexpected_eof, not_found, other, inl, inr,
}
use mini_proxad.Stream.{
  Poll, filled, failed, PollRead, pending, ready, broken, poll_chunk, read_chunk,
}

-- A poll that is pending has taken nothing from the stream and left the buffer alone, so that dropping
-- the future loses no byte.
pub poll_chunk-pending :
    (ps : List Poll) (buffer : Bytes) (total : ℕ)
    → (poll_chunk ps buffer total).outcome ≡ pending
    → ((poll_chunk ps buffer total).buffer ≡ buffer) × (ps ≡ []) × (total ≡ 0)
unfolding poll_chunk
poll_chunk-pending [] buffer total h = ground arith
poll_chunk-pending (filled [] ∷ ps) buffer total h = cc
poll_chunk-pending (filled (b ∷ bs) ∷ ps) buffer total h =
    let (x, y, z) = poll_chunk-pending ps (buffer ++ b ∷ bs) (total + length (b ∷ bs)) h in
    absurd (omega arith)
poll_chunk-pending (failed unexpected_eof ∷ ps) buffer total h = cc
poll_chunk-pending (failed not_found ∷ ps) buffer total h = cc
poll_chunk-pending (failed other ∷ ps) buffer total h = cc

-- The bytes of the answers, in order.
abbrev pub arrived : List Poll → Bytes
arrived [] = []
arrived (filled bs ∷ ps) = bs ++ arrived ps
arrived (failed e ∷ ps) = arrived ps

-- A poll moves the bytes of the answers it takes to the end of the buffer, in order.
poll_chunk_lossless :
    (ps : List Poll) (buffer : Bytes) (total : ℕ)
    → (poll_chunk ps buffer total).buffer ++ arrived (poll_chunk ps buffer total).rest
      ≡ buffer ++ arrived ps
unfolding poll_chunk
poll_chunk_lossless [] buffer total = refl
poll_chunk_lossless (filled [] ∷ ps) buffer total = refl
poll_chunk_lossless (filled (b ∷ bs) ∷ ps) buffer total =
    poll_chunk_lossless ps (buffer ++ b ∷ bs) (total + length (b ∷ bs))
    ∙ append_assoc buffer (b ∷ bs) (arrived ps)
poll_chunk_lossless (failed unexpected_eof ∷ ps) buffer total = refl
poll_chunk_lossless (failed not_found ∷ ps) buffer total = refl
poll_chunk_lossless (failed other ∷ ps) buffer total = refl

abbrev pub arrived_all : List (List Poll) → Bytes
arrived_all [] = []
arrived_all (ps ∷ wakes) = arrived ps ++ arrived_all wakes

-- `after` is `buffer` with new bytes behind it, of which there are `n - total` if the read gives `n`.
abbrev pub Grows : Bytes → ℕ → PollRead → Bytes → Type 0
Grows buffer total outcome after =
    (new : Bytes) × (after ≡ buffer ++ new) × ((n : ℕ) → outcome ≡ ready n → n ≡ total + length new)

poll_chunk-Grows :
    (ps : List Poll) (buffer : Bytes) (total : ℕ)
    → Grows buffer total (poll_chunk ps buffer total).outcome (poll_chunk ps buffer total).buffer
unfolding poll_chunk
poll_chunk-Grows [] buffer total = ([], sym (append-nil buffer), λ n e. ground arith)
poll_chunk-Grows (filled [] ∷ ps) buffer total = ([], sym (append-nil buffer), λ n e. ground arith)
poll_chunk-Grows (filled (b ∷ bs) ∷ ps) buffer total =
    let (new, e, k) = poll_chunk-Grows ps (buffer ++ b ∷ bs) (total + length (b ∷ bs)) in
    (
      (b ∷ bs) ++ new,
      e ∙ append_assoc buffer (b ∷ bs) new,
      λ n h. omega (arith, k n h, length-append (b ∷ bs) new),
    )
poll_chunk-Grows (failed unexpected_eof ∷ ps) buffer total =
    ([], sym (append-nil buffer), λ n e. ground arith)
poll_chunk-Grows (failed not_found ∷ ps) buffer total =
    ([], sym (append-nil buffer), λ n e. ground arith)
poll_chunk-Grows (failed other ∷ ps) buffer total =
    ([], sym (append-nil buffer), λ n e. ground arith)

-- A read that has ended, with a count or an error.
abbrev IsDone : PollRead → Type 0
IsDone pending = ⊥
IsDone (ready n) = Unit
IsDone (broken e) = Unit

PollRead-cases : (o : PollRead) → (o ≡ pending) ⊎ IsDone o
PollRead-cases pending = inl refl
PollRead-cases (ready n) = inr tt
PollRead-cases (broken e) = inr tt

module _ (ps : List Poll) (wakes : List (List Poll)) (buffer : Bytes) where
  read_chunk-pending :
      (poll_chunk ps buffer 0).outcome ≡ pending
      → (read_chunk (ps ∷ wakes) buffer ≡ read_chunk wakes buffer) × (ps ≡ [])
  unfolding read_chunk
  read_chunk-pending h =
      let (x, y, z) = poll_chunk-pending ps buffer 0 h in (rw (h, read_chunk, x), y)

  read_chunk-done :
      IsDone (poll_chunk ps buffer 0).outcome
      → read_chunk (ps ∷ wakes) buffer ≡ record {
        outcome = (poll_chunk ps buffer 0).outcome;
        buffer = (poll_chunk ps buffer 0).buffer;
        wakes = (poll_chunk ps buffer 0).rest ∷ wakes;
      }
  unfolding read_chunk
  read_chunk-done h = go (poll_chunk ps buffer 0).outcome refl h
    where
      go :
          (o : PollRead)
          → (poll_chunk ps buffer 0).outcome ≡ o
          → IsDone o
          → read_chunk (ps ∷ wakes) buffer ≡ record {
            outcome = (poll_chunk ps buffer 0).outcome;
            buffer = (poll_chunk ps buffer 0).buffer;
            wakes = (poll_chunk ps buffer 0).rest ∷ wakes;
          }
      go pending e d = absurd d
      go (ready n) e d = rw (e, read_chunk)
      go (broken k) e d = rw (e, read_chunk)

read_chunk-nil :
    (buffer : Bytes)
    → read_chunk [] buffer ≡ record { outcome = pending; buffer = buffer; wakes = [] }
unfolding read_chunk
read_chunk-nil buffer = refl

-- A read appends what arrived and reports how much that was.
pub read_chunk-Grows :
    (wakes : List (List Poll)) (buffer : Bytes)
    → Grows buffer 0 (read_chunk wakes buffer).outcome (read_chunk wakes buffer).buffer
read_chunk-Grows [] buffer =
    rw (read_chunk-nil buffer) ([], sym (append-nil buffer), λ n e. ground arith)
read_chunk-Grows (ps ∷ wakes) buffer = elim (PollRead-cases (poll_chunk ps buffer 0).outcome) [
  | inl h ↦ rw (read_chunk-pending ps wakes buffer h).0 (read_chunk-Grows wakes buffer)
  | inr h ↦ rw (read_chunk-done ps wakes buffer h) (poll_chunk-Grows ps buffer 0)
]

-- A read neither loses, repeats nor reorders bytes: buffer and stream together stay as they were.
pub read_chunk_lossless :
    (wakes : List (List Poll)) (buffer : Bytes)
    → (read_chunk wakes buffer).buffer ++ arrived_all (read_chunk wakes buffer).wakes
      ≡ buffer ++ arrived_all wakes
read_chunk_lossless [] buffer = rw (read_chunk-nil buffer)
read_chunk_lossless (ps ∷ wakes) buffer = elim (PollRead-cases (poll_chunk ps buffer 0).outcome) [
  | inl h ↦
      let (same, none_left) = read_chunk-pending ps wakes buffer h in
      rw (same, none_left) (read_chunk_lossless wakes buffer)
  | inr h ↦ rw (read_chunk-done ps wakes buffer h) (
      sym (
        append_assoc (poll_chunk ps buffer 0).buffer (arrived (poll_chunk ps buffer 0).rest)
          (arrived_all wakes))
      ∙ ap (λ bs. bs ++ arrived_all wakes) (poll_chunk_lossless ps buffer 0)
      ∙ append_assoc buffer (arrived ps) (arrived_all wakes))
]

-- A read that is still pending, as at a timeout, has left the buffer as it was.
pub read_chunk-pending_same :
    (wakes : List (List Poll)) (buffer : Bytes)
    → (read_chunk wakes buffer).outcome ≡ pending
    → (read_chunk wakes buffer).buffer ≡ buffer
read_chunk-pending_same [] buffer h = rw (read_chunk-nil buffer)
read_chunk-pending_same (ps ∷ wakes) buffer h =
    elim (PollRead-cases (poll_chunk ps buffer 0).outcome) [
      | inl e ↦
          let same = (read_chunk-pending ps wakes buffer e).0 in
          rw same (read_chunk-pending_same wakes buffer (rw same at h))
      | inr d ↦
          absurd
            (subst IsDone (ap (λ r. r.outcome) (sym (read_chunk-done ps wakes buffer d)) ∙ h) d)
    ]
