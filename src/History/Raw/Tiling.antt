-- ===== src/History/Raw/Tiling.antt =====
-- The chunks of a history tile its bytes: they follow one another from offset 0 without gap or
-- overlap (src/flow/history.rs).
use mathlib.Core.List.{map-append}
use mini_proxad.Prelude.{
  ℕ, ◌+◌, ◌≤◌, ◌≡◌, refl, ap, ◌∙◌, inl, inr, some, List, [], ◌∷◌, ◌++◌, arith, Bytes, length, take,
  last, slice-some, length-append, subst, length-take, pop-push, pop-cases,
}
use mini_proxad.History.Raw.{RawChunk, RawHistory, last_chunk, set_last_chunk, new_raw_history}
use mini_proxad.History.Raw.Tiles.{part, part_end, Tiles, Tiles-push, Tiles-pop, parts, parts-take}

module _ {T : Type 0} where
  abbrev pub IsTiled : RawHistory T → Type 0
  IsTiled h = Tiles 0 h.chunks (length h.bytes)

  -- The chunks tile a first part of the bytes, so that each can be read.
  abbrev pub IsReadable : RawHistory T → Type 0
  IsReadable h = (n : ℕ) × Tiles 0 h.chunks n × (n ≤ length h.bytes)

  pub IsTiled-IsReadable : (h : RawHistory T) → IsTiled h → IsReadable h
  IsTiled-IsReadable h t = (length h.bytes, t, omega arith)

  last_Tiles :
      (h : RawHistory T) (cs : List (RawChunk T)) (c : RawChunk T)
      → IsTiled h
      → h.chunks ≡ cs ++ c ∷ []
      → Tiles 0 cs c.range.start × (c.range.start ≤ c.range.end) × (c.range.end ≡ length h.bytes)
  last_Tiles h cs c t e =
      Tiles-pop 0 (length h.bytes) cs c (subst (λ l. Tiles 0 l (length h.bytes)) e t)

  -- The last chunk of a tiled history can be read, and is the last of its parts.
  pub last_chunk-some :
      (h : RawHistory T) (cs : List (RawChunk T)) (c : RawChunk T)
      → IsTiled h
      → h.chunks ≡ cs ++ c ∷ []
      → last_chunk h ≡ some (part h.bytes c.range)
  unfolding last_chunk
  last_chunk-some h cs c t e =
      let (x, y, z) =
        Tiles-pop 0 (length h.bytes) cs c (subst (λ l. Tiles 0 l (length h.bytes)) e t) in
      let l : last h.chunks ≡ some c = ground (arith, pop-push cs c) in
      rw (l, last_chunk) (slice-some h.bytes c.range.start c.range.end y (omega arith))

  pub last_chunk_none : (h : RawHistory T) → h.chunks ≡ [] → last_chunk h ≡ some []
  unfolding last_chunk
  last_chunk_none h e = ground arith

  -- The chunk that replaces the last one.
  abbrev pub resized : RawChunk T → ℕ → RawChunk T
  resized c n = record c { range = record { start = c.range.start; end = c.range.start + n } }

  set_last_chunk_none :
      (h : RawHistory T) (bytes : Bytes) (now : T)
      → h.chunks ≡ []
      → set_last_chunk h bytes now ≡ record h {
        bytes = h.bytes ++ bytes;
        chunks = record { range = record { start = 0; end = length bytes }; timestamp = now } ∷ [];
      }
  unfolding set_last_chunk
  set_last_chunk_none h bytes now e = ground arith

  pub set_last_chunk_some :
      (h : RawHistory T) (bytes : Bytes) (now : T) (cs : List (RawChunk T)) (c : RawChunk T)
      → h.chunks ≡ cs ++ c ∷ []
      → set_last_chunk h bytes now ≡ record h {
        bytes = take c.range.start h.bytes ++ bytes;
        chunks = cs ++ resized c (length bytes) ∷ [];
      }
  unfolding set_last_chunk
  set_last_chunk_some h bytes now cs c e = ground (arith, pop-push cs c)

  length-nil : (h : RawHistory T) → IsTiled h → h.chunks ≡ [] → 0 ≡ length h.bytes
  length-nil h t e = subst (λ l. Tiles 0 l (length h.bytes)) e t

  -- Replacing the last chunk of a tiled history keeps it tiled.
  pub set_last_chunk-IsTiled :
      (h : RawHistory T) (bytes : Bytes) (now : T)
      → IsTiled h
      → IsTiled (set_last_chunk h bytes now)
  set_last_chunk-IsTiled h bytes now t = elim (pop-cases h.chunks) [
    | inl (e, p) ↦
        rw (set_last_chunk_none h bytes now e)
          (refl, omega arith, omega (arith, length-append h.bytes bytes, length-nil h t e))
    | inr (cs, c, e, p) ↦
        let (x, y, z) = last_Tiles h cs c t e in
        let s = c.range.start in
        let total : s + length bytes ≡ length (take s h.bytes ++ bytes) =
          omega (arith, length-append (take s h.bytes) bytes, length-take s h.bytes) in
        rw (set_last_chunk_some h bytes now cs c e) (
          subst (λ n. Tiles 0 (cs ++ resized c (length bytes) ∷ []) n) total
            (Tiles-push 0 s cs (resized c (length bytes)) x refl (omega arith)))
  ]

  -- Replacing the last chunk of a tiled history keeps the parts before it and puts the new bytes in its
  -- place.
  pub parts-set_last_chunk :
      (h : RawHistory T) (bytes : Bytes) (now : T) (cs : List (RawChunk T)) (c : RawChunk T)
      → IsTiled h
      → h.chunks ≡ cs ++ c ∷ []
      → parts (set_last_chunk h bytes now).bytes (set_last_chunk h bytes now).chunks
        ≡ parts h.bytes cs ++ bytes ∷ []
  parts-set_last_chunk h bytes now cs c t e =
      let (x, y, z) = last_Tiles h cs c t e in
      let s = c.range.start in
      let new = take s h.bytes ++ bytes in
      rw (set_last_chunk_some h bytes now cs c e) (
        map-append (λ (d : RawChunk T). part new d.range) cs _
        ∙ cc (
          parts-take h.bytes bytes 0 s cs x (omega arith),
          part_end (take s h.bytes) bytes s (s + length bytes)
              (omega (arith, length-take s h.bytes)) refl,
        ))

  -- Reading the last chunk of a tiled history after replacing it gives the new bytes.
  pub last_chunk-set_last_chunk :
      (h : RawHistory T) (bytes : Bytes) (now : T)
      → IsTiled h
      → last_chunk (set_last_chunk h bytes now) ≡ some bytes
  last_chunk-set_last_chunk h bytes now t = elim (pop-cases h.chunks) [
    | inl (e, p) ↦
        last_chunk-some (set_last_chunk h bytes now) []
          (record { range = record { start = 0; end = length bytes }; timestamp = now })
          (set_last_chunk-IsTiled h bytes now t) (rw (set_last_chunk_none h bytes now e))
        ∙ rw (set_last_chunk_none h bytes now e)
            (ap some (part_end h.bytes bytes 0 (length bytes) (length-nil h t e) (omega arith)))
    | inr (cs, c, e, p) ↦
        let (x, y, z) = last_Tiles h cs c t e in
        let s = c.range.start in
        last_chunk-some (set_last_chunk h bytes now) cs (resized c (length bytes))
          (set_last_chunk-IsTiled h bytes now t) (rw (set_last_chunk_some h bytes now cs c e))
        ∙ rw (set_last_chunk_some h bytes now cs c e) (
            ap some (
              part_end (take s h.bytes) bytes s (s + length bytes)
                (omega (arith, length-take s h.bytes)) refl))
  ]

IsTiled-new : (T : Type 0) (n : ℕ) → IsTiled (new_raw_history T n)
unfolding new_raw_history
IsTiled-new T n = refl
