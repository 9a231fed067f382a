-- ===== src/Http.antt =====
-- src/http.rs: HTTP messages, their text, and the settings of the HTTP proxy. The crates `http` and
-- `hyper` are parameters, collected in `HttpCrate`.
pub mod Extract
pub mod Settings
use Prim.Native.String.{String}
use mini_proxad.Prelude.{
  ℕ, Option, none, some, Bool, List, [], ◌∷◌, ◌++◌, Bytes, codes, decimal, foreign, Result, ok, err,
  panicked, ◌>>=◌,
}

-- `http::Version`, which is not exhaustive.
pub data Version : Type 0 where
  http_09 http_10 http_11 http_2 http_3 http_other : Version

-- What the program uses of the crates `http` and `http-body-util`.
pub record HttpCrate : Type 1 where
  pub Method : Type 0
  pub Uri : Type 0
  pub HeaderMap : Type 0
  -- How `{}` writes a method and a URI.
  pub method_text : Method → Bytes
  pub uri_text : Uri → Bytes
  -- The standard reason of a status code.
  pub canonical_reason : ℕ → Option Bytes
  -- The entries of a header map in the order of its iterator; `none` where `to_str` refuses the
  -- value.
  pub entries : HeaderMap → List (Bytes × Option Bytes)
  pub contains_key : HeaderMap → Bytes → Bool
  pub remove : HeaderMap → Bytes → HeaderMap
  pub insert : HeaderMap → Bytes → Bytes → HeaderMap
  pub clear : HeaderMap → HeaderMap
  -- `HeaderName::from_bytes`, `HeaderValue::from_str`, `StatusCode::from_u16`, `Method::from_str`.
  pub header_name : Bytes → Option Bytes
  pub header_value : Bytes → Option Bytes
  pub status_code : ℕ → Option ℕ
  pub parse_method : Bytes → Option Method
  -- `Request::default()` and `Response::default()`.
  pub default_method : Method
  pub default_uri : Uri
  pub no_headers : HeaderMap
  -- `Limited` of the crate `http-body-util`: the whole body, or `none` where it goes over the limit.
  pub limited_body : ℕ → Bytes → Option Bytes

-- `Response<Bytes>`, less its extensions.
pub record Response (w : HttpCrate) : Type 0 where
  pub version : Version
  pub status : ℕ
  pub headers : w.HeaderMap
  pub body : Bytes

-- `Request<Bytes>`, less its extensions.
pub record Request (w : HttpCrate) : Type 0 where
  pub method : w.Method
  pub uri : w.Uri
  pub version : Version
  pub headers : w.HeaderMap
  pub body : Bytes

abbrev pub crlf : Bytes
crlf = 13 ∷ 10 ∷ []

unfoldable pub version_to_bytes : Version → Result Bytes
version_to_bytes http_09 = ok (codes "HTTP/0.9")
version_to_bytes http_10 = ok (codes "HTTP/1.0")
version_to_bytes http_11 = ok (codes "HTTP/1.1")
version_to_bytes http_2 = ok (codes "HTTP/2.0")
version_to_bytes http_3 = ok (codes "HTTP/3.0")
version_to_bytes http_other = panicked

-- The loop over the headers, with what it appends.
unfoldable pub header_lines : List (Bytes × Option Bytes) → Result Bytes
header_lines [] = ok []
header_lines ((name, none) ∷ rest) = err foreign
header_lines ((name, some value) ∷ rest) = do
  lines ← header_lines rest
  ok ((name ++ (codes ": " ++ (value ++ crlf))) ++ lines)

abbrev pub or_empty : Option Bytes → Bytes
or_empty none = []
or_empty (some bytes) = bytes

unfoldable pub response_to_bytes : (w : HttpCrate) → Response w → Result Bytes
response_to_bytes w resp = do
  version ← version_to_bytes resp.version
  let line =
      version
      ++ (codes " "
          ++ (decimal resp.status
              ++ (codes " " ++ (or_empty (w.canonical_reason resp.status) ++ crlf))))
  lines ← header_lines (w.entries resp.headers)
  ok ((line ++ lines) ++ (crlf ++ resp.body))

unfoldable pub request_to_bytes : (w : HttpCrate) → Request w → Result Bytes
request_to_bytes w req = do
  version ← version_to_bytes req.version
  let line =
      w.method_text req.method
      ++ (codes " " ++ (w.uri_text req.uri ++ (codes " " ++ (version ++ crlf))))
  lines ← header_lines (w.entries req.headers)
  ok ((line ++ lines) ++ (crlf ++ req.body))
