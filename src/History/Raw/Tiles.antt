-- ===== src/History/Raw/Tiles.antt =====
-- Chunks that tile bytes (src/flow/history.rs): where the chunks of a raw history lie.
use mini_proxad.Prelude.{
  ℕ, ◌+◌, ◌-◌, ◌≤◌, ◌≡◌, refl, sym, ap, ◌∙◌, List, [], ◌∷◌, ◌++◌, map, flatten, arith, Bytes,
  length, take, drop, length-take, length-drop, take-append-drop, take_all, take-append_le,
  take-append-take, drop-drop, drop-append_le, drop_all,
}
use mini_proxad.History.Raw.{Range, RawChunk}

-- The bytes that a range stands for, where it is within bounds.
abbrev pub part : Bytes → Range → Bytes
part bytes r = take (r.end - r.start) (drop r.start bytes)

part-append :
    (xs ys : Bytes) (r : Range)
    → r.start ≤ r.end
    → r.end ≤ length xs
    → part (xs ++ ys) r ≡ part xs r
part-append xs ys r h k =
    ap (take (r.end - r.start)) (drop-append_le r.start xs ys (omega arith))
    ∙ take-append_le (r.end - r.start) (drop r.start xs) ys (omega (arith, length-drop r.start xs))

pub part_end :
    (xs ys : Bytes) (start end : ℕ)
    → start ≡ length xs
    → end ≡ start + length ys
    → part (xs ++ ys) (record { start = start; end = end }) ≡ ys
part_end xs ys start end h k =
    ap (take (end - start)) (drop-append_le start xs ys (omega arith))
    ∙ ap (λ zs. take (end - start) (zs ++ ys)) (drop_all start xs (omega arith))
    ∙ take_all (end - start) ys (omega arith)

module _ {T : Type 0} where
  abbrev pub Tiles : ℕ → List (RawChunk T) → ℕ → Type 0
  Tiles a [] b = a ≡ b
  Tiles a (c ∷ cs) b = (c.range.start ≡ a) × (a ≤ c.range.end) × Tiles c.range.end cs b

  pub Tiles-push :
      (a b : ℕ) (cs : List (RawChunk T)) (c : RawChunk T)
      → Tiles a cs b
      → c.range.start ≡ b
      → b ≤ c.range.end
      → Tiles a (cs ++ c ∷ []) c.range.end
  Tiles-push a b [] c t s e = (omega arith, omega arith, refl)
  Tiles-push a b (d ∷ cs) c (p, q, t) s e = (p, q, Tiles-push d.range.end b cs c t s e)

  pub Tiles-pop :
      (a b : ℕ) (cs : List (RawChunk T)) (c : RawChunk T)
      → Tiles a (cs ++ c ∷ []) b
      → Tiles a cs c.range.start × (c.range.start ≤ c.range.end) × (c.range.end ≡ b)
  Tiles-pop a b [] c (p, q, t) = (sym p, omega arith, t)
  Tiles-pop a b (d ∷ cs) c (p, q, t) =
      let (x, y, z) = Tiles-pop d.range.end b cs c t in ((p, q, x), y, z)

  pub Tiles-le : (a b : ℕ) (cs : List (RawChunk T)) → Tiles a cs b → a ≤ b
  Tiles-le a b [] t = omega arith
  Tiles-le a b (c ∷ cs) (p, q, t) = omega (arith, Tiles-le c.range.end b cs t)

  -- Chunks tile up to one position only.
  pub Tiles-same : (a b b' : ℕ) (cs : List (RawChunk T)) → Tiles a cs b → Tiles a cs b' → b ≡ b'
  Tiles-same a b b' [] t u = sym t ∙ u
  Tiles-same a b b' (c ∷ cs) (p, q, t) (p', q', u) = Tiles-same c.range.end b b' cs t u

  abbrev pub parts : Bytes → List (RawChunk T) → List Bytes
  parts bytes = map (λ c. part bytes c.range)

  -- Bytes behind the tiled ones leave the parts alone.
  parts-append :
      (xs ys : Bytes) (a b : ℕ) (cs : List (RawChunk T))
      → Tiles a cs b
      → b ≤ length xs
      → parts (xs ++ ys) cs ≡ parts xs cs
  parts-append xs ys a b [] t h = refl
  parts-append xs ys a b (c ∷ cs) (p, q, t) h =
      let le = Tiles-le c.range.end b cs t in
      cc (
        part-append xs ys c.range (omega arith) (omega arith),
        parts-append xs ys c.range.end b cs t h,
      )

  pub parts-take :
      (xs ys : Bytes) (a b : ℕ) (cs : List (RawChunk T))
      → Tiles a cs b
      → b ≤ length xs
      → parts (take b xs ++ ys) cs ≡ parts xs cs
  parts-take xs ys a b cs t h =
      let fits : b ≤ length (take b xs) = omega (arith, length-take b xs) in
      parts-append (take b xs) ys a b cs t fits
      ∙ sym (parts-append (take b xs) (drop b xs) a b cs t fits)
      ∙ ap (λ zs. parts zs cs) (take-append-drop b xs)

  flatten-parts_take :
      (bytes : Bytes) (a b : ℕ) (cs : List (RawChunk T))
      → Tiles a cs b
      → flatten (parts bytes cs) ≡ take (b - a) (drop a bytes)
  unfolding flatten
  flatten-parts_take bytes a b [] t =
      let e : b - a ≡ 0 = omega arith in sym (ap (λ n. take n (drop a bytes)) e)
  flatten-parts_take bytes a b (c ∷ cs) (p, q, t) =
      let le = Tiles-le c.range.end b cs t in
      let e : a + (c.range.end - a) ≡ c.range.end = omega arith in
      ap (◌++◌ (part bytes c.range)) (flatten-parts_take bytes c.range.end b cs t)
      ∙ ap (λ zs. part bytes c.range ++ take (b - c.range.end) zs)
          (sym (drop-drop (c.range.end - a) a bytes ∙ ap (λ k. drop k bytes) e))
      ∙ ap
          (λ k.
            take (c.range.end - k) (drop k bytes)
            ++ take (b - c.range.end) (drop (c.range.end - a) (drop a bytes)))
          p
      ∙ take-append-take (c.range.end - a) (b - c.range.end) (b - a) (drop a bytes) (omega arith)

  -- Joined in order, the parts of tiling chunks are the bytes that they tile.
  pub flatten-parts :
      (bytes : Bytes) (b : ℕ) (cs : List (RawChunk T))
      → Tiles 0 cs b
      → flatten (parts bytes cs) ≡ take b bytes
  flatten-parts bytes b cs t =
      let e : b - 0 ≡ b = omega arith in
      flatten-parts_take bytes 0 b cs t ∙ ap (λ k. take k bytes) e
