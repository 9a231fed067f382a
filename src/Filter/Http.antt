-- ===== src/Filter/Http.antt =====
-- src/filter/mod.rs: the hooks of HTTP flows.
pub mod Laws
pub mod Verdicts
use mini_proxad.Prelude.{
  ℕ, Option, none, some, List, [], ◌∷◌, ◌++◌, last, pop, Result, ok, err, panicked, ControlFlow,
  go_on, break,
}
use mini_proxad.History.Http.{HttpHistory}
use mini_proxad.Flow.{HttpFlow}
use mini_proxad.Http.{HttpCrate, Request, Response}
use mini_proxad.Http.Extract.{
  PyHttpReq, PyHttpResp, new_py_http_req, new_py_http_resp, extract_response,
}
use mini_proxad.Filter.{
  PyCall, raised, returned_input, returned, Verdict, keep, replace, kill, FilterModule,
  new_py_http_flow, extract_resp,
}
use mini_proxad.Filter.Raw.{open_control, open_result}

abbrev pub HttpScript : HttpCrate → (U T : Type 0) → Type 0
HttpScript w U T = FilterModule U T (PyHttpReq w) (PyHttpResp w)

abbrev pub WebFlow : HttpCrate → (U T : Type 0) → Type 0
WebFlow w U T = HttpFlow U T (Request w) (Response w)

-- The closure under `Python::with_gil`. These hooks hand out no bytes object that the script could
-- return, so that `returned_input` does not occur.
unfoldable pub resp_result : {R : Type 0} → PyCall R → Option (Verdict R)
resp_result raised = none
resp_result returned_input = none
resp_result (returned o) = extract_resp o

-- `if let Some((last, _)) = responses.last_mut() { *last = resp }`.
unfoldable pub set_last : {A T : Type 0} → List (A × T) → A → List (A × T)
set_last [] a = []
set_last ((b, t) ∷ []) a = (a, t) ∷ []
set_last (x ∷ y ∷ rest) a = x ∷ set_last (y ∷ rest) a

module _ (w : HttpCrate) {U T : Type 0} where
  abbrev pub set_responses : WebFlow w U T → List (Response w × T) → WebFlow w U T
  set_responses flow responses = record flow {
    history = record flow.history { responses = responses };
  }

  -- The `match` on the result of `http_filter`.
  unfoldable pub apply_response :
      WebFlow w U T → Option (Verdict (PyHttpResp w)) → WebFlow w U T × ControlFlow
  apply_response flow (some kill) = (flow, break)
  apply_response flow (some (replace ob)) = elim (extract_response w ob).0 [
    | ok resp ↦ (set_responses flow (set_last flow.history.responses resp), go_on)
    | err e ↦ (flow, go_on)
    | panicked ↦ (flow, go_on)
  ]
  apply_response flow (some keep) = (flow, go_on)
  apply_response flow none = (flow, go_on)

  unfoldable pub on_http_response : HttpScript w U T → WebFlow w U T → WebFlow w U T × ControlFlow
  on_http_response script flow = elim script.http_filter [
    | none ↦ (flow, go_on)
    | some func ↦ elim (last flow.history.requests) [
      | none ↦ (flow, go_on)
      | some (req, req_time) ↦ elim (last flow.history.responses) [
        | none ↦ (flow, go_on)
        | some (resp, resp_time) ↦ apply_response flow (
            resp_result (
              func (new_py_http_flow flow.id flow.start (some req_time) (some resp_time))
                (new_py_http_req w req) (new_py_http_resp w resp)))
      ]
    ]
  ]

  unfoldable pub on_http_open : HttpScript w U T → WebFlow w U T → WebFlow w U T × ControlFlow
  on_http_open script flow = elim script.http_open [
    | none ↦ (flow, go_on)
    | some func ↦
        (flow, open_control (open_result (func (new_py_http_flow flow.id flow.start none none))))
  ]

  -- A custom response goes to the history with the time of the request.
  unfoldable pub add_custom : WebFlow w U T → Result (Response w) → WebFlow w U T
  add_custom flow (ok resp) = elim (last flow.history.requests) [
    | none ↦ flow
    | some (req, req_time) ↦ set_responses flow (flow.history.responses ++ (resp, req_time) ∷ [])
  ]
  add_custom flow (err e) = flow
  add_custom flow panicked = flow

  -- The `match` on the result of `http_request`.
  unfoldable pub apply_request :
      WebFlow w U T → Option (Verdict (PyHttpResp w)) → WebFlow w U T × ControlFlow
  apply_request flow (some kill) = (flow, break)
  apply_request flow (some (replace ob)) = (add_custom flow (extract_response w ob).0, break)
  apply_request flow (some keep) = (flow, go_on)
  apply_request flow none = (flow, go_on)

  unfoldable pub on_http_request : HttpScript w U T → WebFlow w U T → WebFlow w U T × ControlFlow
  on_http_request script flow = elim script.http_request [
    | none ↦ (flow, go_on)
    | some func ↦ elim (last flow.history.requests) [
      | none ↦ (flow, go_on)
      | some (req, req_time) ↦ apply_request flow (
          resp_result (
            func (new_py_http_flow flow.id flow.start (some req_time) none)
              (new_py_http_req w req)))
    ]
  ]

-- The macro `run_filter!` for these hooks, which do not panic.
abbrev pub run_hook : {F A : Type 0} → (F → A → A × ControlFlow) → Option F → A → A × ControlFlow
run_hook method none a = (a, go_on)
run_hook method (some filter) a = method filter a
