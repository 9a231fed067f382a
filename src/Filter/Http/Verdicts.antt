-- ===== src/Filter/Http/Verdicts.antt =====
-- How the hooks of HTTP flows (src/filter/mod.rs) carry out what the function of a script returns.
use mini_proxad.Prelude.{
  Option-cases, ◌≡◌, ◌≢◌, ◌⊎◌, refl, inl, inr, Option, none, some, [], ◌∷◌, ◌++◌, Bytes, last,
  Result, ok, err, panicked, ControlFlow, go_on, break,
}
use mini_proxad.Http.{HttpCrate, Request, Response}
use mini_proxad.Http.Extract.{
  PyHttpReq, PyHttpResp, extract_response, new_py_http_req, new_py_http_resp,
}
use mini_proxad.Filter.{
  py_none, py_ellipsis, py_other, py_bytes, py_resp, PyCall, raised, returned_input, returned,
  PyHttpFlow, new_py_http_flow, extract_resp,
}
use mini_proxad.Filter.Http.{
  HttpScript, WebFlow, set_last, set_responses, resp_result, apply_response, on_http_response,
  add_custom, apply_request, on_http_request,
}

module _ (w : HttpCrate) {U T : Type 0} where
  -- What comes of a flow, by what the function for requests does: a response that can be read is put
  -- behind the others with the time of the request, and the flow ends; `...`, or a response that
  -- cannot be read, ends it as it is; with anything else it goes on.
  pub data RequestVerdict (f : WebFlow w U T) (time : T)
      : PyCall (PyHttpResp w) → WebFlow w U T × ControlFlow → Type 0 where
    on_exception : RequestVerdict f time raised (f, go_on)
    on_input : RequestVerdict f time returned_input (f, go_on)
    on_none : RequestVerdict f time (returned py_none) (f, go_on)
    on_ellipsis : RequestVerdict f time (returned py_ellipsis) (f, break)
    on_response :
        (ob : PyHttpResp w) (resp : Response w)
        → (extract_response w ob).0 ≡ ok resp
        → RequestVerdict f time
            (returned (py_resp ob))
            (set_responses w f (f.history.responses ++ (resp, time) ∷ []), break)
    on_unreadable :
        (ob : PyHttpResp w)
        → ((resp : Response w) → (extract_response w ob).0 ≢ ok resp)
        → RequestVerdict f time (returned (py_resp ob)) (f, break)
    on_bytes : (b : Option Bytes) → RequestVerdict f time (returned (py_bytes b)) (f, go_on)
    on_other : RequestVerdict f time (returned py_other) (f, go_on)

  -- Likewise for responses: a response that can be read replaces the last one, and the flow goes on.
  pub data ResponseVerdict (f : WebFlow w U T)
      : PyCall (PyHttpResp w) → WebFlow w U T × ControlFlow → Type 0 where
    on_exception : ResponseVerdict f raised (f, go_on)
    on_input : ResponseVerdict f returned_input (f, go_on)
    on_none : ResponseVerdict f (returned py_none) (f, go_on)
    on_ellipsis : ResponseVerdict f (returned py_ellipsis) (f, break)
    on_response :
        (ob : PyHttpResp w) (resp : Response w)
        → (extract_response w ob).0 ≡ ok resp
        → ResponseVerdict f
            (returned (py_resp ob))
            (set_responses w f (set_last f.history.responses resp), go_on)
    on_unreadable :
        (ob : PyHttpResp w)
        → ((resp : Response w) → (extract_response w ob).0 ≢ ok resp)
        → ResponseVerdict f (returned (py_resp ob)) (f, go_on)
    on_bytes : (b : Option Bytes) → ResponseVerdict f (returned (py_bytes b)) (f, go_on)
    on_other : ResponseVerdict f (returned py_other) (f, go_on)

  apply_request-RequestVerdict :
      (f : WebFlow w U T) (req : Request w) (time : T)
      → last f.history.requests ≡ some (req, time)
      → (call : PyCall (PyHttpResp w))
      → RequestVerdict f time call (apply_request w f (resp_result call))
  unfolding apply_request resp_result extract_resp add_custom
  apply_request-RequestVerdict f req time l raised = on_exception
  apply_request-RequestVerdict f req time l returned_input = on_input
  apply_request-RequestVerdict f req time l (returned py_none) = on_none
  apply_request-RequestVerdict f req time l (returned py_ellipsis) = on_ellipsis
  apply_request-RequestVerdict f req time l (returned py_other) = on_other
  apply_request-RequestVerdict f req time l (returned (py_bytes b)) = on_bytes b
  apply_request-RequestVerdict f req time l (returned (py_resp ob)) =
      go (extract_response w ob).0 refl
    where
      go :
          (r : Result (Response w))
          → (extract_response w ob).0 ≡ r
          → RequestVerdict f time (returned (py_resp ob)) (add_custom w f r, break)
      go (ok resp) h = rw (add_custom, l) (on_response ob resp h)
      go (err e) h = on_unreadable ob (λ resp k. cc)
      go panicked h = on_unreadable ob (λ resp k. cc)

  apply_response-ResponseVerdict :
      (f : WebFlow w U T) (call : PyCall (PyHttpResp w))
      → ResponseVerdict f call (apply_response w f (resp_result call))
  unfolding apply_response resp_result extract_resp
  apply_response-ResponseVerdict f raised = on_exception
  apply_response-ResponseVerdict f returned_input = on_input
  apply_response-ResponseVerdict f (returned py_none) = on_none
  apply_response-ResponseVerdict f (returned py_ellipsis) = on_ellipsis
  apply_response-ResponseVerdict f (returned py_other) = on_other
  apply_response-ResponseVerdict f (returned (py_bytes b)) = on_bytes b
  apply_response-ResponseVerdict f (returned (py_resp ob)) = go (extract_response w ob).0 refl
    where
      go :
          (r : Result (Response w))
          → (extract_response w ob).0 ≡ r
          → ResponseVerdict f
              (returned (py_resp ob))
              (apply_response w f (resp_result (returned (py_resp ob))))
      go (ok resp) h = rw (h, apply_response) (on_response ob resp h)
      go (err e) h = rw (h, apply_response) (on_unreadable ob (λ resp k. cc))
      go panicked h = rw (h, apply_response) (on_unreadable ob (λ resp k. cc))

  -- In a flow that has a request, the request hook calls the function of the script, if it has one, with
  -- the last request, and does what it says: a response that can be read goes behind the others, with
  -- the time of the request, and the flow ends; `...`, and a response that cannot be read, end the
  -- flow as it is; and with anything else, an exception included, the flow goes on as it is, as it
  -- does with no function.
  pub on_http_request-RequestVerdict :
      (script : HttpScript w U T) (f : WebFlow w U T) (req : Request w) (time : T)
      → last f.history.requests ≡ some (req, time)
      → ((script.http_request ≡ none) × (on_http_request w script f ≡ (f, go_on)))
        ⊎ ((func : PyHttpFlow U T → PyHttpReq w → PyCall (PyHttpResp w)) × (script.http_request
              ≡ some func)
            × RequestVerdict f time
                (func (new_py_http_flow f.id f.start (some time) none) (new_py_http_req w req))
                (on_http_request w script f))
  unfolding on_http_request
  on_http_request-RequestVerdict script f req time l = elim (Option-cases script.http_request) [
    | inl h ↦ inl (h, rw (h, on_http_request) refl)
    | inr (func, h) ↦
        inr (func, h, rw (h, on_http_request, l) (apply_request-RequestVerdict f req time l _))
  ]

  -- In a flow that has a request and a response, the response hook calls the function of the script, if
  -- it has one, with the last of both, and does what it says: a response that can be read replaces
  -- the last one, `...` ends the flow, and with anything else, an exception and a response that
  -- cannot be read included, the flow goes on as it is, as it does with no function.
  pub on_http_response-ResponseVerdict :
      (script : HttpScript w U T) (f : WebFlow w U T) (req : Request w) (resp : Response w)
      (req_time resp_time : T)
      → last f.history.requests ≡ some (req, req_time)
      → last f.history.responses ≡ some (resp, resp_time)
      → ((script.http_filter ≡ none) × (on_http_response w script f ≡ (f, go_on)))
        ⊎ ((func : PyHttpFlow U T → PyHttpReq w → PyHttpResp w → PyCall (PyHttpResp w))
            × (script.http_filter ≡ some func)
            × ResponseVerdict f
                (func
                  (new_py_http_flow f.id f.start (some req_time) (some resp_time))
                  (new_py_http_req w req)
                  (new_py_http_resp w resp))
                (on_http_response w script f))
  unfolding on_http_response
  on_http_response-ResponseVerdict script f req resp req_time resp_time l m =
      elim (Option-cases script.http_filter) [
        | inl h ↦ inl (h, rw (h, on_http_response) refl)
        | inr (func, h) ↦
            inr (func, h, rw (h, on_http_response, l, m) (apply_response-ResponseVerdict f _))
      ]
