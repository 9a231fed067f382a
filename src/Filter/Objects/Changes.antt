-- ===== src/Filter/Objects/Changes.antt =====
-- src/filter/api.rs: what a script assigns to the fields of its objects (`#[pyo3(set)]`), and what the
-- garbage collector of Python clears (`__clear__`). `None` is assigned as well.
use mini_proxad.Prelude.{ℕ, Option, none, Bytes}
use mini_proxad.Http.{HttpCrate}
use mini_proxad.Http.Extract.{PyDict, PyHttpResp, PyHttpReq}
use mini_proxad.Filter.Objects.{PyUri}

module _ {w : HttpCrate} where
  unfoldable pub set_resp_headers : Option PyDict → PyHttpResp w → PyHttpResp w
  set_resp_headers headers ob = record ob { headers = headers }

  unfoldable pub set_resp_body : Option Bytes → PyHttpResp w → PyHttpResp w
  set_resp_body body ob = record ob { body = body }

  unfoldable pub set_resp_status : Option ℕ → PyHttpResp w → PyHttpResp w
  set_resp_status status ob = record ob { status = status }

  unfoldable pub set_req_headers : Option PyDict → PyHttpReq w → PyHttpReq w
  set_req_headers headers ob = record ob { headers = headers }

  unfoldable pub set_req_body : Option Bytes → PyHttpReq w → PyHttpReq w
  set_req_body body ob = record ob { body = body }

  unfoldable pub set_req_method : Option (Option Bytes) → PyHttpReq w → PyHttpReq w
  set_req_method method ob = record ob { method = method }

  unfoldable pub set_req_uri : Option w.Uri → PyHttpReq w → PyHttpReq w
  set_req_uri uri ob = record ob { uri = uri }

  unfoldable pub clear_resp : PyHttpResp w → PyHttpResp w
  clear_resp ob = record ob { headers = none; body = none; raw = none }

  unfoldable pub clear_req : PyHttpReq w → PyHttpReq w
  clear_req ob = record ob { headers = none; body = none; method = none; uri = none; raw = none }

  unfoldable pub clear_uri : PyUri w → PyUri w
  clear_uri ob = record ob { params = none }
