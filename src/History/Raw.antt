-- ===== src/History/Raw.antt =====
-- src/flow/history.rs, the raw half: the bytes of one direction of a TCP flow, and the chunks in
-- which they arrived. `T` stands for chrono's `DateTime<Utc>`; a reading of `Utc::now()` is an
-- argument. A `Vec` holds at most `isize::MAX` bytes, so sums of its offsets do not wrap.
pub mod Tiles
pub mod Tiling
use mini_proxad.Prelude.{
  ℕ, ◌+◌, Option, none, some, List, [], ◌∷◌, ◌++◌, Bytes, length, take, pop, last, slice,
}

-- `Range<usize>`.
pub record Range : Type 0 where
  pub start : ℕ
  pub end : ℕ

pub record RawChunk (T : Type 0) : Type 0 where
  pub range : Range
  pub timestamp : T

pub record RawHistory (T : Type 0) : Type 0 where
  pub bytes : Bytes
  pub chunks : List (RawChunk T)
  pub max_size : ℕ

module _ {T : Type 0} where
  unfoldable pub last_range : Option (RawChunk T) → Range
  last_range none = record { start = 0; end = 0 }
  last_range (some chunk) = chunk.range

  -- `none` is the panic of an index out of range.
  unfoldable pub last_chunk : RawHistory T → Option Bytes
  unfolding last_range
  last_chunk h = let range = last_range (last h.chunks) in slice h.bytes range.start range.end

  unfoldable pub last_timestamp : RawHistory T → T → T
  last_timestamp h now = elim (last h.chunks) [ none ↦ now | some chunk ↦ chunk.timestamp ]

  unfoldable pub set_last_chunk : RawHistory T → Bytes → T → RawHistory T
  set_last_chunk h bytes now = elim (pop h.chunks) [
    | some (rest, chunk) ↦
        let start = chunk.range.start in
        record h {
          bytes = take start h.bytes ++ bytes;
          chunks =
              rest
              ++ record {
                range = record { start = start; end = start + length bytes };
                timestamp = chunk.timestamp;
              }
                ∷ [];
        }
    | none ↦ record h {
      bytes = h.bytes ++ bytes;
      chunks =
          [] ++ record { range = record { start = 0; end = length bytes }; timestamp = now } ∷ [];
    }
  ]

unfoldable pub new_raw_history : (T : Type 0) → ℕ → RawHistory T
new_raw_history T max_size = record { bytes = []; chunks = []; max_size = max_size }
