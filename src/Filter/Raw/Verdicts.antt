-- ===== src/Filter/Raw/Verdicts.antt =====
-- How the hooks of raw flows (src/filter/mod.rs) carry out what the function of a script returns.
use mini_proxad.Prelude.{
  Option-cases, ◌≡◌, ◌⊎◌, refl, inl, inr, Option, none, some, Bytes, Result, ok, ControlFlow, go_on,
  break,
}
use mini_proxad.History.Raw.{RawHistory, last_chunk, last_timestamp, set_last_chunk}
use mini_proxad.History.Raw.Tiling.{IsTiled}
use mini_proxad.Flow.{RawFlow}
use mini_proxad.Filter.{
  py_none, py_ellipsis, py_other, py_bytes, py_resp, PyCall, raised, returned_input, returned,
  FilterModule, PyRawFlow, new_py_raw_flow, extract_bytes,
}
use mini_proxad.Filter.Raw.{apply_raw_chunk, raw_result, on_raw_client, on_raw_server}
use mini_proxad.Filter.Raw.Laws.{last_chunk-IsTiled}

-- What comes of a history and of the flow, by what the function does: bytes replace the last chunk;
-- `...` ends the flow; and with anything else, an exception included, the flow goes on as it is.
pub data RawVerdict {T R : Type 0} (h : RawHistory T) (now : T)
    : PyCall R → RawHistory T → ControlFlow → Type 0 where
  on_exception : RawVerdict h now raised h go_on
  on_input : RawVerdict h now returned_input h go_on
  on_none : RawVerdict h now (returned py_none) h go_on
  on_ellipsis : RawVerdict h now (returned py_ellipsis) h break
  on_bytes :
      (bytes : Bytes)
      → RawVerdict h now (returned (py_bytes (some bytes))) (set_last_chunk h bytes now) go_on
  on_unreadable : RawVerdict h now (returned (py_bytes none)) h go_on
  on_response : (r : R) → RawVerdict h now (returned (py_resp r)) h go_on
  on_other : RawVerdict h now (returned py_other) h go_on

apply_raw_chunk-RawVerdict :
    {T R : Type 0} (h : RawHistory T) (now : T) (call : PyCall R)
    → let r = apply_raw_chunk (raw_result call) h now in RawVerdict h now call r.0 r.1
unfolding apply_raw_chunk raw_result extract_bytes
apply_raw_chunk-RawVerdict h now raised = on_exception
apply_raw_chunk-RawVerdict h now returned_input = on_input
apply_raw_chunk-RawVerdict h now (returned py_none) = on_none
apply_raw_chunk-RawVerdict h now (returned py_ellipsis) = on_ellipsis
apply_raw_chunk-RawVerdict h now (returned py_other) = on_other
apply_raw_chunk-RawVerdict h now (returned (py_bytes (some b))) = on_bytes b
apply_raw_chunk-RawVerdict h now (returned (py_bytes none)) = on_unreadable
apply_raw_chunk-RawVerdict h now (returned (py_resp r)) = on_response r

module _ {U T R : Type 0} where
  -- A side of a flow whose script has a function gets the verdict on its last chunk; with no function
  -- the flow goes on as it is.
  abbrev pub Judged :
      Option (PyRawFlow U T → Bytes → PyCall R)
      → PyRawFlow U T
      → RawHistory T
      → T
      → (RawHistory T → RawFlow U T)
      → Result (RawFlow U T × ControlFlow)
      → Type 0
  Judged func args h later put r =
      ((func ≡ none) × (r ≡ ok (put h, go_on)))
      ⊎ ((f : PyRawFlow U T → Bytes → PyCall R) × (bytes : Bytes) × (h' : RawHistory T)
          × (c : ControlFlow) × (func ≡ some f)
          × (last_chunk h ≡ some bytes)
          × RawVerdict h later (f args bytes) h' c
          × (r ≡ ok (put h', c)))

module _ {U T : Type 0} where
  -- What a function of the script sees of the flow.
  abbrev pub seen_by : RawFlow U T → RawHistory T → T → PyRawFlow U T
  seen_by flow h now =
      new_py_raw_flow flow.id flow.client_history.bytes flow.server_history.bytes flow.start
        (last_timestamp h now)

module _ {U T Q R : Type 0} where
  on_raw_client-Judged :
      (script : FilterModule U T Q R) (flow : RawFlow U T) (now later : T)
      → IsTiled flow.client_history
      → Judged script.raw_client
          (seen_by flow flow.client_history now)
          flow.client_history
          later
          (λ h. record flow { client_history = h })
          (on_raw_client script flow now later)
  unfolding on_raw_client
  on_raw_client-Judged script flow now later t = elim (Option-cases script.raw_client) [
    | inl e ↦ inl (e, rw (e, on_raw_client) refl)
    | inr (func, e) ↦
        let (bytes, l) = last_chunk-IsTiled flow.client_history t in
        let call = func (seen_by flow flow.client_history now) bytes in
        inr (
          func,
          bytes,
          _,
          _,
          e,
          l,
          apply_raw_chunk-RawVerdict flow.client_history later call,
          rw (e, on_raw_client, l) refl,
        )
  ]

  on_raw_server-Judged :
      (script : FilterModule U T Q R) (flow : RawFlow U T) (now later : T)
      → IsTiled flow.server_history
      → Judged script.raw_server
          (seen_by flow flow.server_history now)
          flow.server_history
          later
          (λ h. record flow { server_history = h })
          (on_raw_server script flow now later)
  unfolding on_raw_server
  on_raw_server-Judged script flow now later t = elim (Option-cases script.raw_server) [
    | inl e ↦ inl (e, rw (e, on_raw_server) refl)
    | inr (func, e) ↦
        let (bytes, l) = last_chunk-IsTiled flow.server_history t in
        let call = func (seen_by flow flow.server_history now) bytes in
        inr (
          func,
          bytes,
          _,
          _,
          e,
          l,
          apply_raw_chunk-RawVerdict flow.server_history later call,
          rw (e, on_raw_server, l) refl,
        )
  ]

  -- On a flow with tiled histories neither hook panics. A hook for which the script has a function
  -- calls it with the last chunk of its own side and with what both sides have sent so far, and does
  -- what it says: bytes replace that chunk, `...` ends the flow, and with anything else, an
  -- exception included, the flow goes on as it is, as it does with no function. Nothing else changes.
  pub on_raw-Judged :
      (script : FilterModule U T Q R) (flow : RawFlow U T) (now later : T)
      → IsTiled flow.client_history
      → IsTiled flow.server_history
      → Judged script.raw_client
          (seen_by flow flow.client_history now)
          flow.client_history
          later
          (λ h. record flow { client_history = h })
          (on_raw_client script flow now later)
        × Judged script.raw_server
            (seen_by flow flow.server_history now)
            flow.server_history
            later
            (λ h. record flow { server_history = h })
            (on_raw_server script flow now later)
  on_raw-Judged script flow now later tc ts =
      (on_raw_client-Judged script flow now later tc, on_raw_server-Judged script flow now later ts)
