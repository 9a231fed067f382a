-- ===== src/Filter/Objects/Display.antt =====
-- src/filter/api.rs: the texts of the objects of a script (`__str__`, `__repr__`), and the parts of a
-- `Uri`. `uuid_text` prints an id; `UriParts` is what the crate `http` takes out of a URI.
use mini_proxad.Prelude.{
  ℕ, Option, none, some, [], ◌++◌, Bytes, codes, decimal, length, Result, ok, foreign, ◌>>=◌, ok_or,
  unwrap_or,
}
use mini_proxad.Http.{HttpCrate, Request, Response}
use mini_proxad.Http.Extract.{PyHttpResp, PyHttpReq}
use mini_proxad.Filter.{PyRawFlow, PyHttpFlow}
use mini_proxad.Filter.Objects.{PyUri}

-- `.map(f).or_else(|| message.map(g)).unwrap_or(0)`.
abbrev pub either_length : {A M : Type 0} → Option A → (A → ℕ) → Option M → (M → ℕ) → ℕ
either_length (some a) f m g = f a
either_length none f (some m) g = g m
either_length none f none g = 0

unfoldable pub raw_flow_str : {U T : Type 0} → (U → Bytes) → PyRawFlow U T → Bytes
raw_flow_str uuid_text flow = codes "RawFlow(id=" ++ (uuid_text flow.id ++ codes ")")

unfoldable pub http_flow_str : {U T : Type 0} → (U → Bytes) → PyHttpFlow U T → Bytes
http_flow_str uuid_text flow = codes "HttpFlow(id=" ++ (uuid_text flow.id ++ codes ")")

-- What both texts end with.
abbrev lengths : ℕ → ℕ → Bytes
lengths headers_len body_len =
    codes ", headers.len="
    ++ (decimal headers_len ++ (codes ", body.len=" ++ (decimal body_len ++ codes ")")))

module _ (w : HttpCrate) where
  unfoldable pub resp_str : PyHttpResp w → Bytes
  resp_str ob =
      let headers_len =
        either_length ob.headers length ob.resp
          (λ (r : Response w). length (w.entries r.headers)) in
      let body_len = either_length ob.body length ob.resp (λ (r : Response w). length r.body) in
      let status = either_length ob.status (λ s. s) ob.resp (λ (r : Response w). r.status) in
      codes "HttpResp(status=" ++ (decimal status ++ lengths headers_len body_len)

  -- `none` inside: the method is no text, or there is neither a method nor a request.
  unfoldable pub method_of : PyHttpReq w → Option Bytes
  method_of ob = elim ob.method [
    | some method ↦ method
    | none ↦ elim ob.req [ some req ↦ some (w.method_text req.method) | none ↦ none ]
  ]

  unfoldable pub uri_of : PyHttpReq w → Option Bytes
  uri_of ob = elim ob.uri [
    | some uri ↦ some (w.uri_text uri)
    | none ↦ elim ob.req [ some req ↦ some (w.uri_text req.uri) | none ↦ none ]
  ]

  unfoldable pub req_str : PyHttpReq w → Bytes
  req_str ob =
      let headers_len =
        either_length ob.headers length ob.req (λ (r : Request w). length (w.entries r.headers)) in
      let body_len = either_length ob.body length ob.req (λ (r : Request w). length r.body) in
      codes "HttpReq(method="
      ++ (unwrap_or (method_of ob) (codes "<invalid>")
          ++ (codes ", uri="
              ++ (unwrap_or (uri_of ob) (codes "<invalid>") ++ lengths headers_len body_len)))

  pub record UriParts : Type 0 where
    pub parse : Bytes → Option w.Uri
    pub path_and_query : w.Uri → Option Bytes
    pub scheme_str : w.Uri → Option Bytes
    pub authority : w.Uri → Option Bytes
    pub host : w.Uri → Option Bytes
    pub port : w.Uri → Option ℕ
    pub path : w.Uri → Bytes
    pub query : w.Uri → Option Bytes

  unfoldable pub new_py_uri : w.Uri → PyUri w
  new_py_uri uri = record { uri = uri; params = none }

  unfoldable pub py_new_uri : UriParts → Bytes → Result (PyUri w)
  py_new_uri parts raw = ok_or (parts.parse raw) foreign >>= λ uri. ok (new_py_uri uri)

  unfoldable pub uri_repr : UriParts → PyUri w → Bytes
  uri_repr parts ob =
      codes "Uri(" ++ (unwrap_or (parts.path_and_query ob.uri) (parts.path ob.uri) ++ codes ")")

  unfoldable pub uri_raw : PyUri w → Bytes
  uri_raw ob = w.uri_text ob.uri

  unfoldable pub uri_query : UriParts → PyUri w → Bytes
  uri_query parts ob = unwrap_or (parts.query ob.uri) []
