-- ===== src/Filter/Raw/Laws.antt =====
-- What the hooks of raw flows (src/filter/mod.rs) may do to a flow.
use mini_proxad.Prelude.{
  Option-cases, ◌≡◌, inl, inr, Option, none, some, [], Bytes, Result, ok, ControlFlow, go_on, break,
  pop-cases,
}
use mini_proxad.History.Raw.{RawHistory, last_chunk, last_timestamp, set_last_chunk}
use mini_proxad.History.Raw.Tiling.{IsTiled, last_chunk-some, last_chunk_none}
use mini_proxad.Flow.{RawFlow}
use mini_proxad.Filter.{Verdict, keep, replace, kill, FilterModule, new_py_raw_flow}
use mini_proxad.Filter.Raw.{apply_raw_chunk, raw_result, on_raw_client, on_raw_server}

module _ {T : Type 0} where
  -- A tiled history has a last chunk to read, or none at all.
  pub last_chunk-IsTiled :
      (h : RawHistory T) → IsTiled h → (bytes : Bytes) × (last_chunk h ≡ some bytes)
  last_chunk-IsTiled h t = elim (pop-cases h.chunks) [
    | inl (e, p) ↦ ([], last_chunk_none h e)
    | inr (cs, c, e, p) ↦ (_, last_chunk-some h cs c t e)
  ]

  -- The history stays and the flow goes on or ends, or the last chunk is replaced and the flow
  -- goes on.
  pub data Applied (h : RawHistory T) : RawHistory T → ControlFlow → Type 0 where
    kept : Applied h h go_on
    killed : Applied h h break
    replaced : (bytes : Bytes) (now : T) → Applied h (set_last_chunk h bytes now) go_on

  apply_raw_chunk-Applied :
      (r : Option (Verdict (Option Bytes))) (h : RawHistory T) (now : T)
      → Applied h (apply_raw_chunk r h now).0 (apply_raw_chunk r h now).1
  unfolding apply_raw_chunk
  apply_raw_chunk-Applied (some kill) h now = killed
  apply_raw_chunk-Applied (some (replace (some bytes))) h now = replaced bytes now
  apply_raw_chunk-Applied (some (replace none)) h now = kept
  apply_raw_chunk-Applied (some keep) h now = kept
  apply_raw_chunk-Applied none h now = kept

module _ {U T : Type 0} where
  -- What a hook on the client side gives.
  abbrev pub ClientHooked : RawFlow U T → Result (RawFlow U T × ControlFlow) → Type 0
  ClientHooked flow r =
      (h : RawHistory T) × (c : ControlFlow) × (r ≡ ok (record flow { client_history = h }, c))
      × Applied flow.client_history h c

  abbrev pub ServerHooked : RawFlow U T → Result (RawFlow U T × ControlFlow) → Type 0
  ServerHooked flow r =
      (h : RawHistory T) × (c : ControlFlow) × (r ≡ ok (record flow { server_history = h }, c))
      × Applied flow.server_history h c

module _ {U T Q R : Type 0} where
  -- On a tiled history the client hook does not panic; it keeps the flow and goes on or breaks, or it
  -- replaces the last chunk of the client and goes on, and nothing else of the flow changes.
  pub on_raw_client-Hooked :
      (script : FilterModule U T Q R) (flow : RawFlow U T) (now later : T)
      → IsTiled flow.client_history
      → ClientHooked flow (on_raw_client script flow now later)
  unfolding on_raw_client
  on_raw_client-Hooked script flow now later t = elim (Option-cases script.raw_client) [
    | inl e ↦ (flow.client_history, go_on, rw (e, on_raw_client), kept)
    | inr (func, e) ↦
        let (bytes, l) = last_chunk-IsTiled flow.client_history t in
        let args =
          new_py_raw_flow flow.id flow.client_history.bytes flow.server_history.bytes flow.start
            (last_timestamp flow.client_history now) in
        (
          _,
          _,
          rw (e, on_raw_client, l),
          apply_raw_chunk-Applied (raw_result (func args bytes)) flow.client_history later,
        )
  ]

  -- On a tiled history the server hook does not panic; it keeps the flow and goes on or breaks, or it
  -- replaces the last chunk of the server and goes on, and nothing else of the flow changes.
  pub on_raw_server-Hooked :
      (script : FilterModule U T Q R) (flow : RawFlow U T) (now later : T)
      → IsTiled flow.server_history
      → ServerHooked flow (on_raw_server script flow now later)
  unfolding on_raw_server
  on_raw_server-Hooked script flow now later t = elim (Option-cases script.raw_server) [
    | inl e ↦ (flow.server_history, go_on, rw (e, on_raw_server), kept)
    | inr (func, e) ↦
        let (bytes, l) = last_chunk-IsTiled flow.server_history t in
        let args =
          new_py_raw_flow flow.id flow.client_history.bytes flow.server_history.bytes flow.start
            (last_timestamp flow.server_history now) in
        (
          _,
          _,
          rw (e, on_raw_server, l),
          apply_raw_chunk-Applied (raw_result (func args bytes)) flow.server_history later,
        )
  ]
