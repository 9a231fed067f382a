-- ===== src/Flow/Iter/Contents.antt =====
-- The items of a raw flow (src/flow/iter.rs): the bytes that each side sent, and their order.
use native.Mathlib.Nat.{add-zero}
use mathlib.Core.Path.{ap, fun_ext}
use mini_proxad.Prelude.{
  ℕ, ◌+◌, ◌≤◌, ◌≡◌, ◌≢◌, refl, sym, ◌∙◌, ◌⊎◌, inl, inr, Bool, List, [], ◌∷◌, Bytes, if◌then◌else◌,
  length, take, take_all, slice-some, ok, arith, map, flatten, All,
}
use mini_proxad.Net.{SocketAddr, addr_eq}
use mini_proxad.History.Raw.{RawChunk}
use mini_proxad.History.Raw.Tiling.{IsTiled, IsReadable}
use mini_proxad.History.Raw.Tiles.{Tiles, Tiles-le, part, flatten-parts}
use mini_proxad.Flow.{RawFlow, raw}
use mini_proxad.Http.{HttpCrate}
use mini_proxad.Flow.Iter.{collect, Item, chunk_bytes, flow_items, calls, into_iter}
use mini_proxad.Flow.Iter.Merge.{merge, flow_items-merge}
use mini_proxad.Flow.Iter.Sides.{
  bytes_from, traverse_ok, addr_eq_refl, addr_eq_ne, All-map, All-each, All-merge, stamped,
  bytes_from_client, bytes_from_server,
}

module _ {U T : Type 0} (flow : RawFlow U T) where
  -- The bytes of a chunk of the side with that address.
  abbrev pub part_of : SocketAddr → RawChunk T → Bytes
  part_of a c =
      if addr_eq a flow.client_addr
      then part flow.client_history.bytes c.range
      else part flow.server_history.bytes c.range

  client_readable :
      (a b : ℕ) (cs : List (RawChunk T))
      → Tiles a cs b
      → b ≤ length flow.client_history.bytes
      → All
          (λ c.
            chunk_bytes flow (flow.client_addr, c)
            ≡ ok (flow.client_addr, c.timestamp, part_of flow.client_addr c))
          cs
  unfolding chunk_bytes
  client_readable a b [] t h = tt
  client_readable a b (c ∷ cs) (p, q, t) h =
      let le = Tiles-le c.range.end b cs t in
      (
        rw (
          addr_eq_refl flow.client_addr,
          slice-some flow.client_history.bytes c.range.start c.range.end (omega arith)
              (omega arith),
        ),
        client_readable c.range.end b cs t h,
      )

  server_readable :
      (a b : ℕ) (cs : List (RawChunk T))
      → flow.client_addr ≢ flow.server_addr
      → Tiles a cs b
      → b ≤ length flow.server_history.bytes
      → All
          (λ c.
            chunk_bytes flow (flow.server_addr, c)
            ≡ ok (flow.server_addr, c.timestamp, part_of flow.server_addr c))
          cs
  unfolding chunk_bytes
  server_readable a b [] n t h = tt
  server_readable a b (c ∷ cs) n (p, q, t) h =
      let le = Tiles-le c.range.end b cs t in
      (
        rw (
          addr_eq_ne flow.server_addr flow.client_addr (λ e. n (sym e)),
          slice-some flow.server_history.bytes c.range.start c.range.end (omega arith)
              (omega arith),
        ),
        server_readable c.range.end b cs n t h,
      )

module _ (w : HttpCrate) {U T : Type 0} (before : T → T → Bool) (flow : RawFlow U T) where
  abbrev chunks_merged : List (SocketAddr × RawChunk T)
  chunks_merged =
      merge before flow.client_addr flow.server_addr flow.client_history.chunks
        flow.server_history.chunks

  -- The items of a flow whose chunks can be read, with two addresses: its chunks, each with its bytes.
  pub flow_items_read :
      IsReadable flow.client_history
      → IsReadable flow.server_history
      → flow.client_addr ≢ flow.server_addr
      → (k : ℕ)
      → collect w (calls w (raw flow) + k) before (into_iter w (raw flow))
        ≡ ok (map (stamped before flow.client_addr flow.server_addr (part_of flow)) chunks_merged)
  flow_items_read (client_end, tc, lc) (server_end, ts, ls) n k =
      flow_items-merge w before flow k
      ∙ traverse_ok (chunk_bytes flow)
          (stamped before flow.client_addr flow.server_addr (part_of flow)) chunks_merged
          (All-merge before flow.client_addr flow.server_addr
            (λ x.
              chunk_bytes flow x
              ≡ ok (stamped before flow.client_addr flow.server_addr (part_of flow) x))
            flow.client_history.chunks flow.server_history.chunks
            (client_readable flow 0 client_end flow.client_history.chunks tc lc)
            (server_readable flow 0 server_end flow.server_history.chunks n ts ls))

  -- The same where the chunks can be read: of each side it gets the bytes that are in chunks.
  pub flow_items_taken :
      (c : IsReadable flow.client_history) (s : IsReadable flow.server_history)
      → flow.client_addr ≢ flow.server_addr
      → (items : List (Item T)) × (flow_items w before (raw flow) ≡ ok items)
        × (bytes_from flow.client_addr items ≡ take c.0 flow.client_history.bytes)
        × (bytes_from flow.server_addr items ≡ take s.0 flow.server_history.bytes)
        × All (λ item. (item.0 ≡ flow.client_addr) ⊎ (item.0 ≡ flow.server_addr)) items
  unfolding flow_items
  flow_items_taken c s n = (
    map (stamped before flow.client_addr flow.server_addr (part_of flow)) chunks_merged,
    rw add-zero at (flow_items_read c s n 0),
    bytes_from_client before flow.client_addr flow.server_addr (part_of flow)
          flow.client_history.chunks flow.server_history.chunks n
        ∙ ap (λ f. flatten (map f flow.client_history.chunks)) (fun_ext own_client)
        ∙ flatten-parts flow.client_history.bytes c.0 flow.client_history.chunks c.1,
    bytes_from_server before flow.client_addr flow.server_addr (part_of flow)
          flow.client_history.chunks flow.server_history.chunks n
        ∙ ap (λ f. flatten (map f flow.server_history.chunks)) (fun_ext own_server)
        ∙ flatten-parts flow.server_history.bytes s.0 flow.server_history.chunks s.1,
    All-map (λ item. (item.0 ≡ flow.client_addr) ⊎ (item.0 ≡ flow.server_addr))
        (stamped before flow.client_addr flow.server_addr (part_of flow)) chunks_merged
        (All-merge before flow.client_addr flow.server_addr
          (λ x. (x.0 ≡ flow.client_addr) ⊎ (x.0 ≡ flow.server_addr)) flow.client_history.chunks
          flow.server_history.chunks (All-each (λ c. inl refl) flow.client_history.chunks)
          (All-each (λ c. inr refl) flow.server_history.chunks)),
  )
    where
      own_client :
          (c : RawChunk T)
          → part_of flow flow.client_addr c ≡ part flow.client_history.bytes c.range
      own_client c = rw (addr_eq_refl flow.client_addr)

      own_server :
          (c : RawChunk T)
          → part_of flow flow.server_addr c ≡ part flow.server_history.bytes c.range
      own_server c = rw (addr_eq_ne flow.server_addr flow.client_addr (λ e. n (sym e)))

  -- A loop over a raw flow whose histories are tiled and whose addresses differ ends without a
  -- panic; of each side it gets exactly the recorded bytes, in order, and nothing of anyone else.
  pub flow_items_bytes :
      IsTiled flow.client_history
      → IsTiled flow.server_history
      → flow.client_addr ≢ flow.server_addr
      → (items : List (Item T)) × (flow_items w before (raw flow) ≡ ok items)
        × (bytes_from flow.client_addr items ≡ flow.client_history.bytes)
        × (bytes_from flow.server_addr items ≡ flow.server_history.bytes)
        × All (λ item. (item.0 ≡ flow.client_addr) ⊎ (item.0 ≡ flow.server_addr)) items
  flow_items_bytes tc ts n =
      let (items, read, client, server, sides) =
        flow_items_taken (length flow.client_history.bytes, tc, omega arith)
          (length flow.server_history.bytes, ts, omega arith) n in
      (
        items,
        read,
        client
            ∙ take_all (length flow.client_history.bytes) flow.client_history.bytes (omega arith),
        server
            ∙ take_all (length flow.server_history.bytes) flow.server_history.bytes (omega arith),
        sides,
      )
