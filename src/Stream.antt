-- ===== src/Stream.antt =====
-- src/stream.rs: reading what a peer has sent so far as one chunk, and writing a chunk.
pub mod Laws
use mini_proxad.Prelude.{
  ℕ, zero, suc, ◌+◌, Bool, true, false, List, [], ◌∷◌, ◌++◌, Bytes, length, take, ltb,
  if◌then◌else◌, ErrorKind, unexpected_eof, Error, io, elapsed, Result, ok, err,
}

-- One answer of `poll_read`: the bytes put into the buffer (none at the end of the stream), or an
-- error. The answers of one wake-up are a list; where it ends, `poll_read` is `Pending`.
pub data Poll : Type 0 where
  filled : Bytes → Poll
  failed : ErrorKind → Poll

-- `Poll<tokio::io::Result<usize>>`.
pub data PollRead : Type 0 where
  pending : PollRead
  ready : ℕ → PollRead
  broken : ErrorKind → PollRead

pub record Polled : Type 0 where
  pub outcome : PollRead
  pub buffer : Bytes
  pub rest : List Poll

-- The closure that `read_chunk` gives to `poll_fn`; `total` starts at 0.
unfoldable pub poll_chunk : List Poll → Bytes → ℕ → Polled
poll_chunk [] buffer total = record {
  outcome = if ltb 0 total then ready total else pending;
  buffer = buffer;
  rest = [];
}
poll_chunk (filled [] ∷ ps) buffer total = record {
  outcome = ready total;
  buffer = buffer;
  rest = ps;
}
poll_chunk (filled (b ∷ bs) ∷ ps) buffer total =
    poll_chunk ps (buffer ++ b ∷ bs) (total + length (b ∷ bs))
poll_chunk (failed unexpected_eof ∷ ps) buffer total = record {
  outcome = ready total;
  buffer = buffer;
  rest = ps;
}
poll_chunk (failed e ∷ ps) buffer total = record { outcome = broken e; buffer = buffer; rest = ps }

pub record ChunkRead : Type 0 where
  pub outcome : PollRead
  pub buffer : Bytes
  pub wakes : List (List Poll)

-- Awaiting `read_chunk`: the closure is called at each wake-up, until it is ready. What is left of
-- that wake-up comes first in the next read.
unfoldable pub read_chunk : List (List Poll) → Bytes → ChunkRead
read_chunk [] buffer = record { outcome = pending; buffer = buffer; wakes = [] }
read_chunk (ps ∷ wakes) buffer =
    let polled = poll_chunk ps buffer 0 in
    let later = read_chunk wakes polled.buffer in
    elim polled.outcome [
      | pending ↦ later
      | ready n ↦ record { outcome = ready n; buffer = polled.buffer; wakes = polled.rest ∷ wakes }
      | broken e ↦ record {
        outcome = broken e;
        buffer = polled.buffer;
        wakes = polled.rest ∷ wakes;
      }
    ]

-- How `write_all` and `flush` of a stream come out: all written and flushed, or an error or no
-- progress until the deadline after `n` bytes.
pub data Writing : Type 0 where
  wrote_all : Writing
  failed_after : ℕ → ErrorKind → Writing
  stalled_after : ℕ → Writing

-- `write_chunk` and `flush` under a timeout: what the peer has got, and the result.
unfoldable pub write_chunk : Writing → Bytes → Bytes → Bytes × Result (Unit {0})
write_chunk wrote_all sent buffer = (sent ++ buffer, ok tt)
write_chunk (failed_after n e) sent buffer = (sent ++ take n buffer, err (io e))
write_chunk (stalled_after n) sent buffer = (sent ++ take n buffer, err elapsed)
