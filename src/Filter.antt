-- ===== src/Filter.antt =====
-- src/filter/mod.rs and the flow objects of src/filter/api.rs: the hooks that hand a flow to the
-- functions of a Python script. A Python function is a function of the model that may differ from
-- call to call; `Q` and `R` stand for the request and response objects that it gets and returns.
pub mod Raw
pub mod Http
pub mod Objects
pub mod Loading
pub mod Watcher
use mini_proxad.Prelude.{
  ℕ, Option, none, some, Bytes, Error, foreign, Result, ok, err, panicked, ControlFlow, go_on,
}

-- An object that a script returns: `None`, `...`, bytes (with what `extract::<&[u8]>` reads of
-- them), a response object, or anything else.
pub data PyObject (R : Type 0) : Type 0 where
  py_none py_ellipsis py_other : PyObject R
  py_bytes : Option Bytes → PyObject R
  py_resp : R → PyObject R

-- `func.call1(args)`: the function raises, returns the bytes object that it was given, or returns
-- another object.
pub data PyCall (R : Type 0) : Type 0 where
  raised : PyCall R
  returned_input : PyCall R
  returned : PyObject R → PyCall R

-- `Either<Option<A>, Py<PyEllipsis>>`.
pub data Verdict (A : Type 0) : Type 0 where
  keep : Verdict A
  replace : A → Verdict A
  kill : Verdict A

pub record PyRawFlow (U T : Type 0) : Type 0 where
  pub id : U
  pub client_history : Option Bytes
  pub server_history : Option Bytes
  pub start_time : T
  pub last_time : Option T

pub record PyHttpFlow (U T : Type 0) : Type 0 where
  pub id : U
  pub start_time : T
  pub request_time : Option T
  pub response_time : Option T

-- The functions that the script defines.
pub record FilterModule (U T Q R : Type 0) : Type 0 where
  pub http_filter : Option (PyHttpFlow U T → Q → R → PyCall R)
  pub http_request : Option (PyHttpFlow U T → Q → PyCall R)
  pub http_open : Option (PyHttpFlow U T → PyCall R)
  pub raw_client : Option (PyRawFlow U T → Bytes → PyCall R)
  pub raw_server : Option (PyRawFlow U T → Bytes → PyCall R)
  pub raw_open : Option (PyRawFlow U T → PyCall R)

pub record Filter (U T Q R : Type 0) : Type 0 where
  pub script_path : Bytes
  pub inner : FilterModule U T Q R

module _ {U T : Type 0} where
  unfoldable pub new_py_raw_flow_empty : U → T → PyRawFlow U T
  new_py_raw_flow_empty id start_time = record {
    id = id;
    client_history = none;
    server_history = none;
    start_time = start_time;
    last_time = none;
  }

  unfoldable pub new_py_raw_flow : U → Bytes → Bytes → T → T → PyRawFlow U T
  new_py_raw_flow id client_history server_history start_time last_time = record {
    id = id;
    client_history = some client_history;
    server_history = some server_history;
    start_time = start_time;
    last_time = some last_time;
  }

  unfoldable pub new_py_http_flow : U → T → Option T → Option T → PyHttpFlow U T
  new_py_http_flow id start last_req last_resp = record {
    id = id;
    start_time = start;
    request_time = last_req;
    response_time = last_resp;
  }

-- `none` is the error of an extraction, which the hooks log and drop.
module _ {R : Type 0} where
  -- `extract()` into `Either<Option<Py<PyBytes>>, Py<PyEllipsis>>`.
  unfoldable pub extract_bytes : PyObject R → Option (Verdict (Option Bytes))
  extract_bytes py_none = some keep
  extract_bytes py_ellipsis = some kill
  extract_bytes (py_bytes b) = some (replace b)
  extract_bytes py_other = none
  extract_bytes (py_resp r) = none

  -- `extract()` into `Either<Option<Py<PyHttpResp>>, Py<PyEllipsis>>`.
  unfoldable pub extract_resp : PyObject R → Option (Verdict R)
  extract_resp py_none = some keep
  extract_resp py_ellipsis = some kill
  extract_resp (py_resp r) = some (replace r)
  extract_resp py_other = none
  extract_resp (py_bytes b) = none

  -- `extract()` into `Option<Py<PyEllipsis>>`.
  unfoldable pub extract_ellipsis : PyObject R → Option (Verdict (Unit {0}))
  extract_ellipsis py_none = some keep
  extract_ellipsis py_ellipsis = some kill
  extract_ellipsis py_other = none
  extract_ellipsis (py_bytes b) = none
  extract_ellipsis (py_resp r) = none

-- The macro `run_filter!`: with no filter the flow goes on as it is.
abbrev pub run_filter {ℓ κ} :
    {F : Type ℓ} {A : Type κ}
    → Option F
    → (F → A → Result (A × ControlFlow))
    → A
    → Result (A × ControlFlow)
run_filter none method a = ok (a, go_on)
run_filter (some filter) method a = method filter a
