-- ===== src/Filter/Raw.antt =====
-- src/filter/mod.rs: the hooks of raw flows.
pub mod Laws
pub mod Verdicts
use mini_proxad.Prelude.{
  ℕ, Option, none, some, Bytes, Error, foreign, Result, ok, err, panicked, ◌>>=◌, or_panic,
  ControlFlow, go_on, break,
}
use mini_proxad.History.Raw.{RawHistory, last_chunk, last_timestamp, set_last_chunk}
use mini_proxad.Flow.{RawFlow}
use mini_proxad.Filter.{
  PyObject, PyCall, raised, returned_input, returned, Verdict, keep, replace, kill, PyRawFlow,
  FilterModule, new_py_raw_flow_empty, new_py_raw_flow, extract_bytes, extract_ellipsis,
}

module _ {T : Type 0} where
  unfoldable pub apply_raw_chunk :
      Option (Verdict (Option Bytes)) → RawHistory T → T → RawHistory T × ControlFlow
  apply_raw_chunk (some kill) history now = (history, break)
  apply_raw_chunk (some (replace (some bytes))) history now =
      (set_last_chunk history bytes now, go_on)
  apply_raw_chunk (some (replace none)) history now = (history, go_on)
  apply_raw_chunk (some keep) history now = (history, go_on)
  apply_raw_chunk none history now = (history, go_on)

-- The closure under `Python::with_gil`: a returned object is extracted, unless it is the input.
unfoldable pub raw_result : {R : Type 0} → PyCall R → Option (Verdict (Option Bytes))
raw_result raised = none
raw_result returned_input = some keep
raw_result (returned o) = extract_bytes o

unfoldable pub open_result : {R : Type 0} → PyCall R → Option (Verdict (Unit {0}))
open_result raised = none
open_result returned_input = none
open_result (returned o) = extract_ellipsis o

unfoldable pub open_control : Option (Verdict (Unit {0})) → ControlFlow
open_control (some kill) = break
open_control (some keep) = go_on
open_control (some (replace u)) = go_on
open_control none = go_on

module _ {U T Q R : Type 0} where
  -- `now` and `later` are the readings of the clock by `last_timestamp` and `set_last_chunk`.
  unfoldable pub on_raw_client :
      FilterModule U T Q R → RawFlow U T → T → T → Result (RawFlow U T × ControlFlow)
  on_raw_client script flow now later = elim script.raw_client [
    | none ↦ ok (flow, go_on)
    | some func ↦ do
      bytes ← or_panic (last_chunk flow.client_history)
      let args =
          new_py_raw_flow flow.id flow.client_history.bytes flow.server_history.bytes flow.start
            (last_timestamp flow.client_history now)
      let (history, control) =
          apply_raw_chunk (raw_result (func args bytes)) flow.client_history later
      ok (record flow { client_history = history }, control)
  ]

  unfoldable pub on_raw_server :
      FilterModule U T Q R → RawFlow U T → T → T → Result (RawFlow U T × ControlFlow)
  on_raw_server script flow now later = elim script.raw_server [
    | none ↦ ok (flow, go_on)
    | some func ↦ do
      bytes ← or_panic (last_chunk flow.server_history)
      let args =
          new_py_raw_flow flow.id flow.client_history.bytes flow.server_history.bytes flow.start
            (last_timestamp flow.server_history now)
      let (history, control) =
          apply_raw_chunk (raw_result (func args bytes)) flow.server_history later
      ok (record flow { server_history = history }, control)
  ]

  unfoldable pub on_raw_open :
      FilterModule U T Q R → RawFlow U T → Result (RawFlow U T × ControlFlow)
  on_raw_open script flow = elim script.raw_open [
    | none ↦ ok (flow, go_on)
    | some func ↦
        ok (flow, open_control (open_result (func (new_py_raw_flow_empty flow.id flow.start))))
  ]
