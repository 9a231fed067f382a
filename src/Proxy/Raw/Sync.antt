-- ===== src/Proxy/Raw/Sync.antt =====
-- What a raw flow has recorded against what it has forwarded (src/proxy/mod.rs, `handle_flow`).
use mini_proxad.Prelude.{
  ◌≡◌, sym, ◌∙◌, ◌⊎◌, inl, inr, ◌≢◌, some, [], ◌++◌, Bytes, Result, ok, err, panicked, append-nil,
  take, drop, take-append-drop, ControlFlow, go_on, io, elapsed, Error,
}
use mini_proxad.History.Raw.{RawHistory, last_chunk}
use mini_proxad.History.Raw.Tiling.{IsTiled, IsReadable, IsTiled-IsReadable}
use mini_proxad.Flow.{RawFlow}
use mini_proxad.Stream.{Writing, wrote_all, failed_after, stalled_after, write_chunk}
use mini_proxad.Proxy.Raw.{write_last_chunk, Session}

abbrev pub IsPrefix : Bytes → Bytes → Type 0
IsPrefix xs ys = (rest : Bytes) × (ys ≡ xs ++ rest)

pub prefix_refl : (xs ys : Bytes) → ys ≡ xs → IsPrefix xs ys
prefix_refl xs ys e = ([], e ∙ sym (append-nil xs))

module _ {U T : Type 0} where
  -- Each peer has got exactly what the history of the other side records.
  pub record IsSynced (s : Session U T) : Type 0 where
    pub client : IsTiled s.flow.client_history
    pub server : IsTiled s.flow.server_history
    pub to_server : s.flow.client_history.bytes ≡ s.to_server
    pub to_client : s.flow.server_history.bytes ≡ s.to_client

  -- Each peer has got a prefix of what the history of the other side records.
  pub record IsBehind (s : Session U T) : Type 0 where
    pub to_server : IsPrefix s.to_server s.flow.client_history.bytes
    pub to_client : IsPrefix s.to_client s.flow.server_history.bytes

  -- The chunks of both sides tile the recorded bytes.
  abbrev pub BothTiled : RawFlow U T → Type 0
  BothTiled f = IsTiled f.client_history × IsTiled f.server_history

  -- Every chunk of both sides can be read, also after an error, which may leave bytes in no chunk.
  abbrev pub BothReadable : RawFlow U T → Type 0
  BothReadable f = IsReadable f.client_history × IsReadable f.server_history

  pub BothTiled-BothReadable : (f : RawFlow U T) → BothTiled f → BothReadable f
  BothTiled-BothReadable f t =
      (IsTiled-IsReadable f.client_history t.0, IsTiled-IsReadable f.server_history t.1)

  -- No panic; in sync if the flow goes on; tiled if it has not failed; behind and readable in any case.
  pub record Keeps (s : Session U T) (r : Result ControlFlow) : Type 0 where
    pub sound : r ≢ panicked
    pub tiled : (c : ControlFlow) → r ≡ ok c → BothTiled s.flow
    pub synced : r ≡ ok go_on → IsSynced s
    pub behind : IsBehind s
    pub readable : BothReadable s.flow

  pub IsSynced-IsBehind : (s : Session U T) → IsSynced s → IsBehind s
  IsSynced-IsBehind s v = record {
    to_server = prefix_refl s.to_server s.flow.client_history.bytes v.to_server;
    to_client = prefix_refl s.to_client s.flow.server_history.bytes v.to_client;
  }

-- A write of the last chunk hands over a prefix of it, all of it if it ends well, and never panics.
pub write_last_chunk_lem :
    {T : Type 0} (w : Writing) (sent chunk : Bytes) (h : RawHistory T)
    → last_chunk h ≡ some chunk
    → let r = write_last_chunk w sent h in
      ((r.0 ≡ sent ++ chunk) × (r.1 ≡ ok tt))
      ⊎ ((part rest : Bytes) × (chunk ≡ part ++ rest)
          × (r.0 ≡ sent ++ part)
          × (e : Error) × (r.1 ≡ err e))
unfolding write_last_chunk write_chunk
write_last_chunk_lem wrote_all sent chunk h e =
    inl (rw (e, write_last_chunk), rw (e, write_last_chunk))
write_last_chunk_lem (failed_after n k) sent chunk h e = inr (
  take n chunk,
  drop n chunk,
  sym (take-append-drop n chunk),
  rw (e, write_last_chunk),
  io k,
  rw (e, write_last_chunk),
)
write_last_chunk_lem (stalled_after n) sent chunk h e = inr (
  take n chunk,
  drop n chunk,
  sym (take-append-drop n chunk),
  rw (e, write_last_chunk),
  elapsed,
  rw (e, write_last_chunk),
)
