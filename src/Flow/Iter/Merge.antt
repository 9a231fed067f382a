-- ===== src/Flow/Iter/Merge.antt =====
-- The iterator over a raw flow (src/flow/iter.rs) against the merge of its chunks by time.
use mini_proxad.Prelude.{
  length-map, ℕ, zero, suc, ◌+◌, ◌<◌, ◌≡◌, refl, sym, ap, ◌∙◌, ◌⊎◌, inl, inr, none, some, Bool,
  true, false, List, [], ◌∷◌, get_elem?, length, Result, ok, ◌>>=◌, drop, drop-cases, arith, map,
  Bool-cases,
}
use mini_proxad.Prelude.{bind_assoc}
use mini_proxad.Net.{SocketAddr}
use mini_proxad.History.Raw.{RawChunk}
use mini_proxad.Flow.{RawFlow, raw}
use mini_proxad.Http.{HttpCrate}
use mini_proxad.Flow.Iter.{
  after, RawFlowIterator, into_raw_iter, take_client, take_server, choose, raw_next, raw_iter,
  chunk_bytes, next, collect, calls, into_iter,
}

module _ {T : Type 0} (before : T → T → Bool) (ca sa : SocketAddr) where
  -- Two lists of chunks merged by time, each chunk with the address of its sender; of two chunks
  -- neither of which is before the other the server's comes first.
  unfoldable pub merge : List (RawChunk T) → List (RawChunk T) → List (SocketAddr × RawChunk T)
  merge [] ss = map (λ s. (sa, s)) ss
  merge (c ∷ cs) [] = map (λ d. (ca, d)) (c ∷ cs)
  merge (c ∷ cs) (s ∷ ss) = elim (before c.timestamp s.timestamp) [
    | true ↦ (ca, c) ∷ merge cs (s ∷ ss)
    | false ↦ (sa, s) ∷ merge (c ∷ cs) ss
  ]

  merge-nil : (cs : List (RawChunk T)) → merge cs [] ≡ map (λ d. (ca, d)) cs
  unfolding merge
  merge-nil [] = refl
  merge-nil (c ∷ cs) = refl

  module _ (c s : RawChunk T) (cs ss : List (RawChunk T)) where
    merge_client :
        before c.timestamp s.timestamp ≡ true
        → merge (c ∷ cs) (s ∷ ss) ≡ (ca, c) ∷ merge cs (s ∷ ss)
    unfolding merge
    merge_client e = rw (e, merge)

    merge_server :
        before c.timestamp s.timestamp ≡ false
        → merge (c ∷ cs) (s ∷ ss) ≡ (sa, s) ∷ merge (c ∷ cs) ss
    unfolding merge
    merge_server e = rw (e, merge)

  length-merge : (cs ss : List (RawChunk T)) → length (merge cs ss) ≡ length cs + length ss
  unfolding merge
  length-merge [] ss = omega (arith, length-map {B = SocketAddr × RawChunk T} ss (λ s. (sa, s)))
  length-merge (c ∷ cs) [] =
      omega (arith, length-map {B = SocketAddr × RawChunk T} cs (λ d. (ca, d)))
  length-merge (c ∷ cs) (s ∷ ss) = elim (Bool-cases (before c.timestamp s.timestamp)) [
    | inl e ↦ rw (e, merge) (omega (arith, length-merge cs (s ∷ ss)))
    | inr e ↦ rw (e, merge) (omega (arith, length-merge (c ∷ cs) ss))
  ]

-- A function that may panic or fail, applied along a list.
abbrev pub traverse {ℓ κ} : {A : Type ℓ} {B : Type κ} → (A → Result B) → List A → Result (List B)
traverse f [] = ok []
traverse f (x ∷ xs) = f x >>= λ b. traverse f xs >>= λ bs. ok (b ∷ bs)

module _ (w : HttpCrate) {U T : Type 0} (before : T → T → Bool) where
  collect_stop :
      (n : ℕ) (it it' : RawFlowIterator U T)
      → raw_next before it ≡ (none, it')
      → collect w (suc n) before (raw_iter it) ≡ ok []
  unfolding collect next
  collect_stop n it it' e = rw (e, next)

  collect_step :
      (n : ℕ) (it it' : RawFlowIterator U T) (a : SocketAddr × RawChunk T)
      → raw_next before it ≡ (some a, it')
      → collect w (suc n) before (raw_iter it)
        ≡ (chunk_bytes it.flow a >>= λ b. collect w n before (raw_iter it') >>= λ bs. ok (b ∷ bs))
  unfolding collect next
  collect_step n it it' a e =
      rw (e, next)
        (bind_assoc (λ b. ok (some b)) (after (collect w n before (raw_iter it')))
          (chunk_bytes it.flow a))

  -- The chunks of a flow that the indices of an iterator leave to be given out.
  abbrev ahead : RawFlow U T → ℕ → ℕ → List (SocketAddr × RawChunk T)
  ahead flow i j =
      merge before flow.client_addr flow.server_addr (drop i flow.client_history.chunks)
        (drop j flow.server_history.chunks)

  abbrev at_index : RawFlow U T → ℕ → ℕ → RawFlowIterator U T
  at_index flow i j = record { flow = flow; client_index = i; server_index = j }

  -- One call of `next` against the merge.
  raw_next-cases :
      (flow : RawFlow U T) (i j : ℕ)
      → ((ahead flow i j ≡ []) × (raw_next before (at_index flow i j) ≡ (none, at_index flow i j)))
        ⊎ ((a : SocketAddr × RawChunk T) × (i' j' : ℕ) × (raw_next before (at_index flow i j)
              ≡ (some a, at_index flow i' j'))
            × (ahead flow i j ≡ a ∷ ahead flow i' j'))
  unfolding raw_next choose take_client take_server merge
  raw_next-cases flow i j =
      go (drop-cases flow.client_history.chunks i) (drop-cases flow.server_history.chunks j)
    where
      cs : List (RawChunk T)
      cs = flow.client_history.chunks

      ss : List (RawChunk T)
      ss = flow.server_history.chunks

      Goal : Type 0
      Goal =
          ((ahead flow i j ≡ [])
            × (raw_next before (at_index flow i j) ≡ (none, at_index flow i j)))
          ⊎ ((a : SocketAddr × RawChunk T) × (i' j' : ℕ) × (raw_next before (at_index flow i j)
                ≡ (some a, at_index flow i' j'))
              × (ahead flow i j ≡ a ∷ ahead flow i' j'))

      go :
          (((drop i cs ≡ []) × (get_elem? cs i ≡ none))
            ⊎ ((x : RawChunk T) × (drop i cs ≡ x ∷ drop (i + 1) cs) × (get_elem? cs i ≡ some x)))
          → (((drop j ss ≡ []) × (get_elem? ss j ≡ none))
              ⊎ ((x : RawChunk T) × (drop j ss ≡ x ∷ drop (j + 1) ss) × (get_elem? ss j ≡ some x)))
          → Goal
      go (inl (dc, ec)) (inl (ds, es)) = inl (rw (dc, ds), rw (ec, raw_next, es))
      go (inr (c, dc, ec)) (inl (ds, es)) = inr (
        (flow.client_addr, c),
        i + 1,
        j,
        rw (ec, raw_next, es),
        rw (dc, ds)
            (ap (◌∷◌ (flow.client_addr, c))
              (sym (merge-nil before flow.client_addr flow.server_addr (drop (i + 1) cs)))),
      )
      go (inl (dc, ec)) (inr (s, ds, es)) =
          inr ((flow.server_addr, s), i, j + 1, rw (ec, raw_next, es), rw (dc, ds))
      go (inr (c, dc, ec)) (inr (s, ds, es)) = elim (Bool-cases (before c.timestamp s.timestamp)) [
        | inl b ↦ inr (
          (flow.client_addr, c),
          i + 1,
          j,
          rw (ec, raw_next, es, b),
          rw (dc, ds)
              (merge_client before flow.client_addr flow.server_addr c s (drop (i + 1) cs)
                (drop (j + 1) ss) b),
        )
        | inr b ↦ inr (
          (flow.server_addr, s),
          i,
          j + 1,
          rw (ec, raw_next, es, b),
          rw (dc, ds)
              (merge_server before flow.client_addr flow.server_addr c s (drop (i + 1) cs)
                (drop (j + 1) ss) b),
        )
      ]

  -- With more fuel than there are chunks left the loop collects the merge.
  collect-merge :
      (n : ℕ) (flow : RawFlow U T) (i j : ℕ)
      → length (ahead flow i j) < n
      → collect w n before (raw_iter (at_index flow i j))
        ≡ traverse (chunk_bytes flow) (ahead flow i j)
  collect-merge zero flow i j h = absurd (omega arith)
  collect-merge (suc n) flow i j h = elim (raw_next-cases flow i j) [
    | inl (done, e) ↦ collect_stop n _ _ e ∙ rw done refl
    | inr (a, i', j', e, split) ↦
        let shorter : length (ahead flow i' j') < n = omega (arith, ap length split) in
        collect_step n _ _ a e ∙ rw (split, collect-merge n flow i' j' shorter) refl
  ]

  -- The loop over a raw flow, with any fuel from `calls` on, gets the bytes of the merge of its chunks
  -- by time, chunk by chunk.
  pub flow_items-merge :
      (flow : RawFlow U T) (k : ℕ)
      → collect w (calls w (raw flow) + k) before (into_iter w (raw flow))
        ≡ traverse (chunk_bytes flow) (
            merge before flow.client_addr flow.server_addr flow.client_history.chunks
              flow.server_history.chunks)
  unfolding calls into_iter into_raw_iter
  flow_items-merge flow k = collect-merge _ flow 0 0 (
      omega (
        arith,
        length-merge before flow.client_addr flow.server_addr flow.client_history.chunks
            flow.server_history.chunks,
      ))
