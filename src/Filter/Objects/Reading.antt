-- ===== src/Filter/Objects/Reading.antt =====
-- A message that a script has only looked at (src/filter/api.rs, src/http.rs).
use mini_proxad.Prelude.{◌≡◌, refl, Option, none, some, false, Result, ok, arith}
use mini_proxad.Http.{HttpCrate, Request, Response}
use mini_proxad.Http.Extract.{
  PyDict, new_py_http_resp, new_py_http_req, extract_response, extract_request, content_length,
  transfer_encoding,
}
use mini_proxad.Http.Extract.Laws.{IsHeaderMap, extract_response-unframed}
use mini_proxad.Filter.Objects.{
  cached_getter, get_resp_headers, get_resp_body, get_resp_status, get_resp_raw, get_req_body,
  get_req_uri, get_req_raw,
}

-- A value that a getter gives is kept.
cached_getter-keeps :
    {M V : Type 0} (cache : Option V) (which : Option M) (make : M → Result V) (v : V)
    → (cached_getter cache which make).0 ≡ ok v
    → (cached_getter cache which make).1 ≡ some v
unfolding cached_getter
cached_getter-keeps (some x) which make v h = ground arith
cached_getter-keeps none none make v h = ground arith
cached_getter-keeps none (some m) make v h = ground arith

module _ (w : HttpCrate) where
  -- A response of which a script has read the body, the status or the raw text, and a request of
  -- which it has read the body, the URI or the raw text, is read back as it was, provided that the
  -- crate `http` takes the status that it has given out.
  pub extract_get :
      (resp : Response w) (req : Request w)
      → w.status_code resp.status ≡ some resp.status
      → ((extract_response w (get_resp_body w (new_py_http_resp w resp)).1).0 ≡ ok resp)
        × ((extract_response w (get_resp_status w (new_py_http_resp w resp)).1).0 ≡ ok resp)
        × ((extract_response w (get_resp_raw w (new_py_http_resp w resp)).1).0 ≡ ok resp)
        × ((extract_request w (get_req_body w (new_py_http_req w req)).1).0 ≡ ok req)
        × ((extract_request w (get_req_uri w (new_py_http_req w req)).1).0 ≡ ok req)
        × ((extract_request w (get_req_raw w (new_py_http_req w req)).1).0 ≡ ok req)
  unfolding extract_response extract_request new_py_http_resp new_py_http_req get_resp_body
      get_resp_status get_resp_raw get_req_body get_req_uri get_req_raw cached_getter
  extract_get resp req h = (refl, rw h refl, refl, refl, refl, refl)

  -- A response of which a script has read the headers is read back without Content-Length and
  -- Transfer-Encoding, even if the script has not changed them (for a header map as the crate `http`
  -- describes it).
  pub extract_get_headers :
      (laws : IsHeaderMap w) (resp back : Response w) (dict : PyDict)
      → (get_resp_headers w (new_py_http_resp w resp)).0 ≡ ok dict
      → (extract_response w (get_resp_headers w (new_py_http_resp w resp)).1).0 ≡ ok back
      → (w.contains_key back.headers content_length ≡ false)
        × (w.contains_key back.headers transfer_encoding ≡ false)
  unfolding get_resp_headers new_py_http_resp
  extract_get_headers laws resp back dict h k =
      extract_response-unframed w laws _ dict back (cached_getter-keeps none (some resp) _ dict h) k
