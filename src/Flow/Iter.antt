-- ===== src/Flow/Iter.antt =====
-- src/flow/iter.rs: the iterators over the chunks of a raw flow, the messages of an HTTP flow, and
-- the timed bytes of either. `w` is the crate `http`, `before` the order of chrono's `DateTime<Utc>`.
pub mod Merge
pub mod Sides
pub mod Contents
pub mod Order
pub mod Clock
pub mod Dialogue
pub mod Texts
pub mod Versions
use mini_proxad.Prelude.{
  ℕ, zero, suc, ◌+◌, ◌≤◌, Option, none, some, Bool, true, false, List, [], ◌∷◌, Bytes, leb,
  if◌then◌else◌, get_elem?, length, slice, Result, ok, err, panicked, ◌>>=◌, or_panic,
}
use mini_proxad.Net.{SocketAddr, addr_eq}
use mini_proxad.History.Raw.{RawChunk, RawHistory}
use mini_proxad.Flow.{RawFlow, HttpFlow, Flow, raw, http}
use mini_proxad.Http.{HttpCrate, Request, Response, request_to_bytes, response_to_bytes}

pub record RawFlowIterator (U T : Type 0) : Type 0 where
  pub flow : RawFlow U T
  pub client_index : ℕ
  pub server_index : ℕ

pub record HttpFlowIterator (U T Req Resp : Type 0) : Type 0 where
  pub flow : HttpFlow U T Req Resp
  pub client_index : ℕ
  pub server_index : ℕ

-- `Either<&HttpRequest, &HttpResponse>`.
pub data EitherHttp (Req Resp : Type 0) : Type 0 where
  left : Req → EitherHttp Req Resp
  right : Resp → EitherHttp Req Resp

module _ {U T : Type 0} where
  unfoldable pub into_raw_iter : RawFlow U T → RawFlowIterator U T
  into_raw_iter flow = record { flow = flow; client_index = 0; server_index = 0 }

  unfoldable pub take_client :
      RawFlowIterator U T → RawChunk T → Option (SocketAddr × RawChunk T) × RawFlowIterator U T
  take_client it c =
      (some (it.flow.client_addr, c), record it { client_index = it.client_index + 1 })

  unfoldable pub take_server :
      RawFlowIterator U T → RawChunk T → Option (SocketAddr × RawChunk T) × RawFlowIterator U T
  take_server it c =
      (some (it.flow.server_addr, c), record it { server_index = it.server_index + 1 })

  -- The `match` of `next`: of two chunks the earlier one, the server's if neither is.
  unfoldable pub choose :
      (T → T → Bool)
      → RawFlowIterator U T
      → Option (RawChunk T)
      → Option (RawChunk T)
      → Option (SocketAddr × RawChunk T) × RawFlowIterator U T
  choose before it (some c) (some s) =
      if before c.timestamp s.timestamp then take_client it c else take_server it s
  choose before it (some c) none = take_client it c
  choose before it none (some s) = take_server it s
  choose before it none none = (none, it)

  unfoldable pub raw_next :
      (T → T → Bool) → RawFlowIterator U T → Option (SocketAddr × RawChunk T) × RawFlowIterator U T
  raw_next before it =
      choose before it (get_elem? it.flow.client_history.chunks it.client_index)
        (get_elem? it.flow.server_history.chunks it.server_index)

module _ {U T Req Resp : Type 0} where
  unfoldable pub into_http_iter : HttpFlow U T Req Resp → HttpFlowIterator U T Req Resp
  into_http_iter flow = record { flow = flow; client_index = 0; server_index = 0 }

  unfoldable pub http_next :
      HttpFlowIterator U T Req Resp
      → Option (SocketAddr × T × EitherHttp Req Resp) × HttpFlowIterator U T Req Resp
  http_next it =
      if leb it.client_index it.server_index
      then elim (get_elem? it.flow.history.requests it.client_index) [
        | none ↦ (none, it)
        | some (req, ts) ↦ (
          some (it.flow.client_addr, ts, left req),
          record it { client_index = it.client_index + 1 },
        )
      ]
      else elim (get_elem? it.flow.history.responses it.server_index) [
        | none ↦ (none, it)
        | some (resp, ts) ↦ (
          some (it.flow.server_addr, ts, right resp),
          record it { server_index = it.server_index + 1 },
        )
      ]

-- `.unwrap_or(&[])`: a message that cannot be written is empty; a panic is passed on.
abbrev pub bytes_or_empty : Result Bytes → Result Bytes
bytes_or_empty (ok bytes) = ok bytes
bytes_or_empty (err e) = ok []
bytes_or_empty panicked = panicked

pub data FlowIterator (w : HttpCrate) (U T : Type 0) : Type 0 where
  raw_iter : RawFlowIterator U T → FlowIterator w U T
  http_iter : HttpFlowIterator U T (Request w) (Response w) → FlowIterator w U T

-- An address, the time, and the bytes.
abbrev pub Item : Type 0 → Type 0
Item T = SocketAddr × T × Bytes

-- `Option::map` by a function that may panic.
abbrev pub map_next : {A T : Type 0} → (A → Result (Item T)) → Option A → Result (Option (Item T))
map_next f none = ok none
map_next f (some a) = f a >>= λ b. ok (some b)

-- The bytes of a chunk, from the history of the address that it comes with.
unfoldable pub chunk_bytes :
    {U T : Type 0} → RawFlow U T → SocketAddr × RawChunk T → Result (Item T)
chunk_bytes flow (addr, chunk) = do
  bytes ← or_panic (
      if addr_eq addr flow.client_addr
      then slice flow.client_history.bytes chunk.range.start chunk.range.end
      else slice flow.server_history.bytes chunk.range.start chunk.range.end)
  ok (addr, chunk.timestamp, bytes)

-- The body of a `for` loop that collects the items.
abbrev pub after : {A : Type 0} → Result (List A) → Option A → Result (List A)
after rest none = ok []
after rest (some item) = rest >>= λ items. ok (item ∷ items)

module _ (w : HttpCrate) {T : Type 0} where
  unfoldable pub message_bytes :
      SocketAddr × T × EitherHttp (Request w) (Response w) → Result (Item T)
  message_bytes (addr, ts, left req) = do
    bytes ← bytes_or_empty (request_to_bytes w req)
    ok (addr, ts, bytes)
  message_bytes (addr, ts, right resp) = do
    bytes ← bytes_or_empty (response_to_bytes w resp)
    ok (addr, ts, bytes)

module _ (w : HttpCrate) {U T : Type 0} where
  unfoldable pub into_iter : Flow U T (Request w) (Response w) → FlowIterator w U T
  into_iter (raw flow) = raw_iter (into_raw_iter flow)
  into_iter (http flow) = http_iter (into_http_iter flow)

  unfoldable pub next :
      (T → T → Bool) → FlowIterator w U T → Result (Option (Item T)) × FlowIterator w U T
  next before (raw_iter it) =
      let (o, it') = raw_next before it in (map_next (chunk_bytes it.flow) o, raw_iter it')
  next before (http_iter it) =
      let (o, it') = http_next it in (map_next (message_bytes w) o, http_iter it')

  -- The items that a `for` loop gets, with fuel for the calls of `next`.
  unfoldable pub collect : ℕ → (T → T → Bool) → FlowIterator w U T → Result (List (Item T))
  collect zero before it = ok []
  collect (suc n) before it =
      let (result, it') = next before it in let rest = collect n before it' in result >>= after rest

  -- One call more than there are chunks or messages.
  unfoldable pub calls : Flow U T (Request w) (Response w) → ℕ
  calls (raw flow) = suc (length flow.client_history.chunks + length flow.server_history.chunks)
  calls (http flow) = suc (length flow.history.requests + length flow.history.responses)

  unfoldable pub flow_items :
      (T → T → Bool) → Flow U T (Request w) (Response w) → Result (List (Item T))
  flow_items before flow = collect (calls flow) before (into_iter flow)
