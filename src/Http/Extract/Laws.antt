-- ===== src/Http/Extract/Laws.antt =====
-- What the read-back of a message from a script's object (src/http.rs) keeps.
use mini_proxad.Prelude.{
  ◌≡◌, refl, ◌∙◌, none, some, Bool, true, false, [], ◌∷◌, ◌||◌, Bytes, Bool-cases, Option-cases,
  inl, inr, Result, Error, ok, err, ◌≢◌, subst, unwrap_or, bind_ok, ap, arith,
}
use mini_proxad.Http.{HttpCrate, Request, Response}
use mini_proxad.Http.Extract.{
  PyDict, PyHttpResp, new_py_http_resp, new_py_http_req, new_response, extract_response,
  extract_request, set_headers, is_framing, new_headers, eq_ignore_ascii_case, content_length,
  transfer_encoding, new_status,
}

or_false : (a b : Bool) → (a || b) ≡ false → (a ≡ false) × (b ≡ false)
or_false false b h = (refl, h)
or_false true b h = ground arith

no_err : {A : Type 0} {e : Error} {a : A} → ◌≢◌ {A = Result A} (err e) (ok a)
no_err h = cc

-- What the crate `http` says of header names and maps: a name differs from its text in nothing but
-- case, an inserted name is found whatever its case, and a cleared map holds none.
pub record IsHeaderMap (w : HttpCrate) : Type 0 where
  pub names :
      (k hk n : Bytes)
      → w.header_name k ≡ some hk
      → eq_ignore_ascii_case hk n ≡ eq_ignore_ascii_case k n
  pub inserted :
      (m : w.HeaderMap) (k v n : Bytes)
      → w.contains_key (w.insert m k v) n ≡ (eq_ignore_ascii_case k n || w.contains_key m n)
  pub cleared : (m : w.HeaderMap) (n : Bytes) → w.contains_key (w.clear m) n ≡ false

module _ (w : HttpCrate) where
  -- A response or a request that was made into an object and not touched is read back as it was.
  pub extract-new :
      (resp : Response w) (req : Request w)
      → ((extract_response w (new_py_http_resp w resp)).0 ≡ ok resp)
        × ((extract_request w (new_py_http_req w req)).0 ≡ ok req)
  unfolding extract_response extract_request new_py_http_resp new_py_http_req
  extract-new resp req = (refl, refl)

  -- A property of header maps that clearing gives and that inserting under any name not about
  -- framing keeps.
  set_headers-keeps :
      (P : w.HeaderMap → Type 0)
      → ((m : w.HeaderMap) (k hk hv : Bytes)
          → is_framing k ≡ false
          → w.header_name k ≡ some hk
          → P m
          → P (w.insert m hk hv))
      → (dict : PyDict) (m out : w.HeaderMap) → P m
      → set_headers w m dict ≡ ok out
      → P out
  unfolding set_headers
  set_headers-keeps P h [] m out p e = let same : m ≡ out = cc in subst P same p
  set_headers-keeps P h ((none, v) ∷ rest) m out p e = absurd (no_err e)
  set_headers-keeps P h ((some k, v) ∷ rest) m out p e = elim (Bool-cases (is_framing k)) [
    | inl t ↦ set_headers-keeps P h rest m out p (rw t at e)
    | inr f ↦ elim (Option-cases (w.header_name k)) [
      | inl x ↦ absurd (no_err (rw (f, x) at e))
      | inr (hk, x) ↦ elim (Option-cases v) [
        | inl y ↦ absurd (no_err (rw (f, x, y) at e))
        | inr (value, y) ↦ elim (Option-cases (w.header_value value)) [
          | inl z ↦ absurd (no_err (rw (f, x, y, z) at e))
          | inr (hv, z) ↦
              set_headers-keeps P h rest (w.insert m hk hv) out (h m k hk hv f x p)
                (rw (f, x, y, z) at e)
        ]
      ]
    ]
  ]

  module _ (laws : IsHeaderMap w) where
    -- No header of a name that the loop skips gets into the map.
    set_headers-unframed :
        (n : Bytes)
        → ((k : Bytes) → is_framing k ≡ false → eq_ignore_ascii_case k n ≡ false)
        → (dict : PyDict) (m out : w.HeaderMap) → set_headers w (w.clear m) dict ≡ ok out
        → w.contains_key out n ≡ false
    set_headers-unframed n skip dict m out e =
        set_headers-keeps (λ x. w.contains_key x n ≡ false)
          (λ x k hk hv f name p.
            laws.inserted x hk hv n ∙ rw (laws.names k hk n name, skip k f, p) refl)
          dict (w.clear m) out (laws.cleared m n) e

    framing_skips :
        (k : Bytes)
        → is_framing k ≡ false
        → (eq_ignore_ascii_case k content_length ≡ false)
          × (eq_ignore_ascii_case k transfer_encoding ≡ false)
    unfolding is_framing
    framing_skips k h =
        or_false (eq_ignore_ascii_case k content_length) (eq_ignore_ascii_case k transfer_encoding)
          h

    -- For a header map as the crate `http` describes it: a response read back from an object whose headers
    -- a script has set has neither a Content-Length nor a Transfer-Encoding header, in whatever case the
    -- script has spelled them.
    pub extract_response-unframed :
        (ob : PyHttpResp w) (dict : PyDict) (resp : Response w)
        → ob.headers ≡ some dict
        → (extract_response w ob).0 ≡ ok resp
        → (w.contains_key resp.headers content_length ≡ false)
          × (w.contains_key resp.headers transfer_encoding ≡ false)
    unfolding extract_response
    extract_response-unframed ob dict resp h e =
        let inner = unwrap_or ob.resp (new_response w []) in
        let (headers, k, e') = bind_ok (new_headers w inner.headers ob.headers) _ resp e in
        let (status, l, e'') = bind_ok (new_status w ob.status inner.status) _ resp e' in
        let same : headers ≡ resp.headers = cc in
        let found : set_headers w (w.clear inner.headers) dict ≡ ok resp.headers =
          rw h at k ∙ ap ok same in
        (
          set_headers-unframed content_length (λ n f. (framing_skips n f).0) dict inner.headers
              resp.headers found,
          set_headers-unframed transfer_encoding (λ n f. (framing_skips n f).1) dict inner.headers
              resp.headers found,
        )
