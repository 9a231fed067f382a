-- ===== src/Flow/Iter/Clock.antt =====
-- The times of the items of a raw flow (src/flow/iter.rs).
use native.Mathlib.Nat.{add-zero}
use mini_proxad.Prelude.{◌≡◌, ◌≢◌, refl, Bool, true, false, List, [], ◌∷◌, map, ok}
use mini_proxad.Prelude.{Bytes, ap}
use mini_proxad.Net.{SocketAddr}
use mini_proxad.History.Raw.{RawChunk}
use mini_proxad.History.Raw.Tiling.{IsTiled, IsTiled-IsReadable}
use mini_proxad.Flow.{RawFlow, raw}
use mini_proxad.Http.{HttpCrate}
use mini_proxad.Flow.Iter.{Item, flow_items}
use mini_proxad.Flow.Iter.Merge.{merge}
use mini_proxad.Flow.Iter.Contents.{part_of, flow_items_read}
use mini_proxad.Flow.Iter.Sides.{stamped}
use mini_proxad.Flow.Iter.Order.{IsChronological, times, times_of, merge-IsChronological}

abbrev pub item_times : {T : Type 0} → List (Item T) → List T
item_times = map λ item. item.1

item_times-stamped :
    {T : Type 0} (before : T → T → Bool) (ca sa : SocketAddr) (f : SocketAddr → RawChunk T → Bytes)
    (xs : List (SocketAddr × RawChunk T))
    → item_times (map (stamped before ca sa f) xs) ≡ times_of before xs
item_times-stamped before ca sa f [] = refl
item_times-stamped before ca sa f (x ∷ xs) =
    ap (◌∷◌ x.1.timestamp) (item_times-stamped before ca sa f xs)

module _ (w : HttpCrate) {U T : Type 0} (before : T → T → Bool)
    (asym : (a b : T) → before a b ≡ true → before b a ≡ false) where
  -- The loop over a raw flow with tiled histories and two addresses, whose chunks are in order of
  -- time on each side, gives its items in order of time.
  pub flow_items-IsChronological :
      (flow : RawFlow U T)
      → IsTiled flow.client_history
      → IsTiled flow.server_history
      → flow.client_addr ≢ flow.server_addr
      → IsChronological before (times before flow.client_history.chunks)
      → IsChronological before (times before flow.server_history.chunks)
      → (items : List (Item T)) × (flow_items w before (raw flow) ≡ ok items)
        × IsChronological before (item_times items)
  unfolding flow_items
  flow_items-IsChronological flow tc ts n hc hs =
      let ca = flow.client_addr in
      let sa = flow.server_addr in
      let f = stamped before ca sa (part_of flow) in
      let chunks = merge before ca sa flow.client_history.chunks flow.server_history.chunks in
      (
        map f chunks,
        rw add-zero at (
            flow_items_read w before flow (IsTiled-IsReadable flow.client_history tc)
              (IsTiled-IsReadable flow.server_history ts) n 0),
        rw (item_times-stamped before ca sa (part_of flow) chunks) (
            merge-IsChronological before asym ca sa flow.client_history.chunks
              flow.server_history.chunks hc hs),
      )
