-- ===== src/Filter/Objects.antt =====
-- src/filter/api.rs: what a script reads of the objects `HttpResp`, `HttpReq` and `Uri`. A getter
-- returns the object as well, in which it keeps the value that it has made.
pub mod Params
pub mod Reading
pub mod Changes
pub mod Display
use mini_proxad.Prelude.{
  ℕ, Option, none, some, Bool, true, false, List, [], ◌∷◌, ◌++◌, ◌==◌, ◌&&◌, if◌then◌else◌, Bytes,
  foreign, Result, ok, err, panicked, ◌>>=◌,
}
use mini_proxad.Http.{HttpCrate, Request, Response, request_to_bytes, response_to_bytes}
use mini_proxad.Http.Extract.{PyDict, PyHttpResp, PyHttpReq}

unfoldable pub eq_bytes : Bytes → Bytes → Bool
eq_bytes [] [] = true
eq_bytes [] (b ∷ ys) = false
eq_bytes (a ∷ xs) [] = false
eq_bytes (a ∷ xs) (b ∷ ys) = a == b && eq_bytes xs ys

-- `dict[k] = v`: an entry keeps its place.
unfoldable pub set_item : List (Bytes × Bytes) → Bytes → Bytes → List (Bytes × Bytes)
set_item [] k v = (k, v) ∷ []
set_item ((k', v') ∷ rest) k v =
    if eq_bytes k' k then (k', v) ∷ rest else (k', v') ∷ set_item rest k v

-- The loop of `get_headers`.
unfoldable pub header_dict :
    List (Bytes × Option Bytes) → List (Bytes × Bytes) → Result (List (Bytes × Bytes))
header_dict [] dict = ok dict
header_dict ((name, none) ∷ rest) dict = err foreign
header_dict ((name, some value) ∷ rest) dict = header_dict rest (set_item dict name value)

unfoldable pub as_dict : List (Bytes × Bytes) → PyDict
as_dict [] = []
as_dict ((k, v) ∷ rest) = (some k, some v) ∷ as_dict rest

-- The macro `cached_getter!`: the value, and the cache after it.
unfoldable pub cached_getter :
    {M V : Type 0} → Option V → Option M → (M → Result V) → Result V × Option V
cached_getter (some v) which make = (ok v, some v)
cached_getter none (some m) make = elim (make m) [
  | ok v ↦ (ok v, some v)
  | err e ↦ (err e, none)
  | panicked ↦ (panicked, none)
]
cached_getter none none make = (err foreign, none)

module _ (w : HttpCrate) where
  unfoldable pub get_resp_headers : PyHttpResp w → Result PyDict × PyHttpResp w
  get_resp_headers ob =
      let (v, cache) =
        cached_getter ob.headers ob.resp
          (λ resp. header_dict (w.entries resp.headers) [] >>= λ d. ok (as_dict d)) in
      (v, record ob { headers = cache })

  unfoldable pub get_resp_body : PyHttpResp w → Result Bytes × PyHttpResp w
  get_resp_body ob =
      let (v, cache) = cached_getter ob.body ob.resp (λ resp. ok resp.body) in
      (v, record ob { body = cache })

  unfoldable pub get_resp_status : PyHttpResp w → Result ℕ × PyHttpResp w
  get_resp_status ob =
      let (v, cache) = cached_getter ob.status ob.resp (λ resp. ok resp.status) in
      (v, record ob { status = cache })

  unfoldable pub get_resp_raw : PyHttpResp w → Result Bytes × PyHttpResp w
  get_resp_raw ob =
      let (v, cache) = cached_getter ob.raw ob.resp (response_to_bytes w) in
      (v, record ob { raw = cache })

  unfoldable pub get_req_headers : PyHttpReq w → Result PyDict × PyHttpReq w
  get_req_headers ob =
      let (v, cache) =
        cached_getter ob.headers ob.req
          (λ req. header_dict (w.entries req.headers) [] >>= λ d. ok (as_dict d)) in
      (v, record ob { headers = cache })

  unfoldable pub get_req_body : PyHttpReq w → Result Bytes × PyHttpReq w
  get_req_body ob =
      let (v, cache) = cached_getter ob.body ob.req (λ req. ok req.body) in
      (v, record ob { body = cache })

  unfoldable pub get_req_method : PyHttpReq w → Result (Option Bytes) × PyHttpReq w
  get_req_method ob =
      let (v, cache) =
        cached_getter ob.method ob.req (λ req. ok (some (w.method_text req.method))) in
      (v, record ob { method = cache })

  unfoldable pub get_req_uri : PyHttpReq w → Result w.Uri × PyHttpReq w
  get_req_uri ob =
      let (v, cache) = cached_getter ob.uri ob.req (λ req. ok req.uri) in
      (v, record ob { uri = cache })

  unfoldable pub get_req_raw : PyHttpReq w → Result Bytes × PyHttpReq w
  get_req_raw ob =
      let (v, cache) = cached_getter ob.raw ob.req (request_to_bytes w) in
      (v, record ob { raw = cache })

-- A dict of lists of values, as `params` makes it.
abbrev pub ParamDict : Type 0
ParamDict = List (Bytes × List Bytes)

pub record PyUri (w : HttpCrate) : Type 0 where
  pub uri : w.Uri
  pub params : Option ParamDict

-- The body of the loop of `params`.
unfoldable pub add_param : ParamDict → Bytes → Bytes → ParamDict
add_param [] k v = (k, v ∷ []) ∷ []
add_param ((k', vs) ∷ rest) k v =
    if eq_bytes k' k then (k', vs ++ v ∷ []) ∷ rest else (k', vs) ∷ add_param rest k v

unfoldable pub add_params : ParamDict → List (Bytes × Bytes) → ParamDict
add_params dict [] = dict
add_params dict ((k, v) ∷ pairs) = add_params (add_param dict k v) pairs

-- `query` is `uri.query()` with `form_urlencoded::parse`.
unfoldable pub get_params :
    {w : HttpCrate} → (w.Uri → Option (List (Bytes × Bytes))) → PyUri w → ParamDict × PyUri w
get_params query ob = elim ob.params [
  | some dict ↦ (dict, ob)
  | none ↦ elim (query ob.uri) [
    | none ↦ ([], record ob { params = some [] })
    | some pairs ↦ let dict = add_params [] pairs in (dict, record ob { params = some dict })
  ]
]
