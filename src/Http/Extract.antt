-- ===== src/Http/Extract.antt =====
-- src/filter/api.rs, the objects that stand for HTTP messages in a script, and src/http.rs, how a
-- message is read back from one (`extract_bound`). A dict is the list of its entries; `none` stands
-- for a key or a value that is not a `str`.
pub mod Laws
use Prim.Native.String.{String}
use mini_proxad.Prelude.{
  ℕ, ◌+◌, ◌-◌, ◌≤◌, ◌<◌, ◌≡◌, refl, Option, none, some, Bool, true, false, List, [], ◌∷◌, ◌++◌, map,
  ◌&&◌, ◌||◌, ltb, leb, ◌==◌, if◌then◌else◌, Bytes, codes, foreign, Result, ok, err, panicked,
  ◌>>=◌, ok_or, unwrap_or,
}
use mini_proxad.Http.{HttpCrate, Version, http_11, Request, Response}

abbrev pub PyDict : Type 0
PyDict = List (Option Bytes × Option Bytes)

pub record PyHttpResp (w : HttpCrate) : Type 0 where
  pub resp : Option (Response w)
  pub raw : Option Bytes
  pub headers : Option PyDict
  pub body : Option Bytes
  pub status : Option ℕ

-- The method is `none` inside where `to_str` refuses it.
pub record PyHttpReq (w : HttpCrate) : Type 0 where
  pub req : Option (Request w)
  pub raw : Option Bytes
  pub headers : Option PyDict
  pub body : Option Bytes
  pub method : Option (Option Bytes)
  pub uri : Option w.Uri

-- `u8::to_ascii_lowercase` and `str::eq_ignore_ascii_case`.
abbrev pub to_ascii_lowercase : ℕ → ℕ
to_ascii_lowercase b = if leb 65 b && leb b 90 then b + 32 else b

unfoldable pub eq_ignore_ascii_case : Bytes → Bytes → Bool
eq_ignore_ascii_case [] [] = true
eq_ignore_ascii_case [] (b ∷ bs) = false
eq_ignore_ascii_case (a ∷ rest) [] = false
eq_ignore_ascii_case (a ∷ rest) (b ∷ bs) =
    to_ascii_lowercase a == to_ascii_lowercase b && eq_ignore_ascii_case rest bs

abbrev pub content_length : Bytes
content_length = codes "content-length"

abbrev pub transfer_encoding : Bytes
transfer_encoding = codes "transfer-encoding"

-- `Response::new(body)` and the defaults of the two message types.
abbrev pub new_response : (w : HttpCrate) → Bytes → Response w
new_response w body = record {
  version = http_11;
  status = 200;
  headers = w.no_headers;
  body = body;
}

abbrev pub default_request : (w : HttpCrate) → Request w
default_request w = record {
  method = w.default_method;
  uri = w.default_uri;
  version = http_11;
  headers = w.no_headers;
  body = [];
}

-- `PyHttpResp::new`, `PyHttpReq::new` and the constructors that a script calls.
unfoldable pub new_py_http_resp : (w : HttpCrate) → Response w → PyHttpResp w
new_py_http_resp w resp = record {
  resp = some resp;
  raw = none;
  headers = none;
  body = none;
  status = none;
}

unfoldable pub new_py_http_req : (w : HttpCrate) → Request w → PyHttpReq w
new_py_http_req w req = record {
  req = some req;
  raw = none;
  headers = none;
  body = none;
  method = none;
  uri = none;
}

unfoldable pub py_new_resp : (w : HttpCrate) → PyDict → Bytes → ℕ → PyHttpResp w
py_new_resp w headers body status = record {
  resp = none;
  raw = none;
  headers = some headers;
  body = some body;
  status = some status;
}

unfoldable pub py_new_req : (w : HttpCrate) → PyDict → Bytes → Option Bytes → w.Uri → PyHttpReq w
py_new_req w headers body method uri = record {
  req = none;
  raw = none;
  headers = some headers;
  body = some body;
  method = some method;
  uri = some uri;
}

-- Whether the loop over the dict skips a key.
unfoldable pub is_framing : Bytes → Bool
is_framing k = eq_ignore_ascii_case k content_length || eq_ignore_ascii_case k transfer_encoding

module _ (w : HttpCrate) where
  -- The loop over the dict.
  unfoldable pub set_headers : w.HeaderMap → PyDict → Result w.HeaderMap
  set_headers headers [] = ok headers
  set_headers headers ((none, v) ∷ rest) = err foreign
  set_headers headers ((some k, v) ∷ rest) =
      let skipped = set_headers headers rest in
      let inserted = (do
        hk ← ok_or (w.header_name k) foreign
        value ← ok_or v foreign
        hv ← ok_or (w.header_value value) foreign
        set_headers (w.insert headers hk hv) rest) in
      if is_framing k then skipped else inserted

  abbrev pub new_headers : w.HeaderMap → Option PyDict → Result w.HeaderMap
  new_headers old none = ok old
  new_headers old (some dict) = set_headers (w.clear old) dict

  abbrev pub new_status : Option ℕ → ℕ → Result ℕ
  new_status none old = ok old
  new_status (some status) old = ok_or (w.status_code status) foreign

  abbrev pub new_method : Option (Option Bytes) → w.Method → Result w.Method
  new_method none old = ok old
  new_method (some text) old = ok_or text foreign >>= λ t. ok_or (w.parse_method t) foreign

  -- The response, and the object once its response and headers have been taken out.
  unfoldable pub extract_response : PyHttpResp w → Result (Response w) × PyHttpResp w
  extract_response ob =
      let inner = unwrap_or ob.resp (new_response w []) in
      (
        do
          headers ← new_headers inner.headers ob.headers
          status ← new_status ob.status inner.status
          ok (record inner {
            headers = headers;
            body = unwrap_or ob.body inner.body;
            status = status;
          }),
        record ob { resp = none; headers = none },
      )

  unfoldable pub extract_request : PyHttpReq w → Result (Request w) × PyHttpReq w
  extract_request ob =
      let inner = unwrap_or ob.req (default_request w) in
      (
        do
          headers ← new_headers inner.headers ob.headers
          method ← new_method ob.method inner.method
          ok (record inner {
            headers = headers;
            body = unwrap_or ob.body inner.body;
            method = method;
            uri = unwrap_or ob.uri inner.uri;
          }),
        record ob { req = none; headers = none },
      )
