-- ===== src/Filter/Http/Laws.antt =====
-- What the hooks of HTTP flows do to a flow (src/filter/mod.rs).
use mini_proxad.Prelude.{
  ◌≡◌, refl, Option, none, some, List, [], ◌∷◌, ◌++◌, last, Option-cases, inl, inr, Result, ok, err,
  panicked, ControlFlow, go_on, break,
}
use mini_proxad.History.Http.Bounds.{IsBounded}
use mini_proxad.Http.{HttpCrate, Request, Response}
use mini_proxad.Http.Extract.{PyHttpResp, extract_response}
use mini_proxad.Filter.{Verdict, keep, replace, kill}
use mini_proxad.Filter.Http.{
  HttpScript, WebFlow, set_last, set_responses, apply_response, on_http_response, add_custom,
  apply_request, on_http_request, run_hook,
}

module _ (w : HttpCrate) {U T : Type 0} where
  -- A hook leaves the requests and the sizes alone.
  pub record KeepsRequests (f g : WebFlow w U T) : Type 0 where
    pub requests : g.history.requests ≡ f.history.requests
    pub client_size : g.history.client_size ≡ f.history.client_size
    pub server_size : g.history.server_size ≡ f.history.server_size
    pub client_max : g.history.client_max ≡ f.history.client_max
    pub server_max : g.history.server_max ≡ f.history.server_max

  KeepsRequests-refl : (f : WebFlow w U T) → KeepsRequests f f
  KeepsRequests-refl f = record {
    requests = refl;
    client_size = refl;
    server_size = refl;
    client_max = refl;
    server_max = refl;
  }

  KeepsRequests-set :
      (f : WebFlow w U T) (rs : List (Response w × T)) → KeepsRequests f (set_responses w f rs)
  KeepsRequests-set f rs = record {
    requests = refl;
    client_size = refl;
    server_size = refl;
    client_max = refl;
    server_max = refl;
  }

  pub KeepsRequests-IsBounded :
      (f g : WebFlow w U T) → KeepsRequests f g → IsBounded f.history → IsBounded g.history
  KeepsRequests-IsBounded f g k b = record {
    client = rw (k.client_size, k.client_max) b.client;
    server = rw (k.server_size, k.server_max) b.server;
  }

  -- The request hook: nothing, a kill, or a custom response behind the others and a kill.
  pub data Requested (f : WebFlow w U T) : WebFlow w U T × ControlFlow → Type 0 where
    passed : Requested f (f, go_on)
    killed : Requested f (f, break)
    custom :
        (resp : Response w) (req : Request w) (time : T)
        → last f.history.requests ≡ some (req, time)
        → Requested f (set_responses w f (f.history.responses ++ (resp, time) ∷ []), break)

  -- The response hook: nothing, a kill, or another last response.
  pub data Responded (f : WebFlow w U T) : WebFlow w U T × ControlFlow → Type 0 where
    passed : Responded f (f, go_on)
    killed : Responded f (f, break)
    changed :
        (resp : Response w)
        → Responded f (set_responses w f (set_last f.history.responses resp), go_on)

  apply_response-Responded :
      (f : WebFlow w U T) (v : Option (Verdict (PyHttpResp w))) → Responded f (apply_response w f v)
  unfolding apply_response
  apply_response-Responded f (some kill) = killed
  apply_response-Responded f (some keep) = passed
  apply_response-Responded f none = passed
  apply_response-Responded f (some (replace ob)) = go (extract_response w ob).0 refl
    where
      go :
          (r : Result (Response w))
          → (extract_response w ob).0 ≡ r
          → Responded f (apply_response w f (some (replace ob)))
      go (ok resp) h = rw (h, apply_response) (changed resp)
      go (err e) h = rw (h, apply_response) passed
      go panicked h = rw (h, apply_response) passed

  -- The response hook leaves the flow and goes on or breaks, or it puts another response in the place of
  -- the last one and goes on.
  pub on_http_response-Responded :
      (script : HttpScript w U T) (f : WebFlow w U T) → Responded f (on_http_response w script f)
  unfolding on_http_response
  on_http_response-Responded script f = elim (Option-cases script.http_filter) [
    | inl h ↦ rw h passed
    | inr (func, h) ↦ elim (Option-cases (last f.history.requests)) [
      | inl k ↦ rw (h, on_http_response, k) passed
      | inr ((req, t), k) ↦ elim (Option-cases (last f.history.responses)) [
        | inl m ↦ rw (h, on_http_response, k, m) passed
        | inr ((resp, u), m) ↦ rw (h, on_http_response, k, m) (apply_response-Responded f _)
      ]
    ]
  ]

  add_custom-Requested :
      (f : WebFlow w U T) (r : Result (Response w)) → Requested f (add_custom w f r, break)
  unfolding add_custom
  add_custom-Requested f (ok resp) = elim (Option-cases (last f.history.requests)) [
    | inl h ↦ rw (add_custom, h) killed
    | inr ((req, t), h) ↦ rw (add_custom, h) (custom resp req t h)
  ]
  add_custom-Requested f (err e) = killed
  add_custom-Requested f panicked = killed

  apply_request-Requested :
      (f : WebFlow w U T) (v : Option (Verdict (PyHttpResp w))) → Requested f (apply_request w f v)
  unfolding apply_request
  apply_request-Requested f (some kill) = killed
  apply_request-Requested f (some keep) = passed
  apply_request-Requested f none = passed
  apply_request-Requested f (some (replace ob)) = add_custom-Requested f (extract_response w ob).0

  -- The request hook leaves the flow and goes on or breaks, or it puts a custom response behind the
  -- others, with the time of the last request, and breaks.
  pub on_http_request-Requested :
      (script : HttpScript w U T) (f : WebFlow w U T) → Requested f (on_http_request w script f)
  unfolding on_http_request
  on_http_request-Requested script f = elim (Option-cases script.http_request) [
    | inl h ↦ rw h passed
    | inr (func, h) ↦ elim (Option-cases (last f.history.requests)) [
      | inl k ↦ rw (h, on_http_request, k) passed
      | inr ((req, t), k) ↦ rw (h, on_http_request, k) (apply_request-Requested f _)
    ]
  ]

  pub run_request-Requested :
      (script : Option (HttpScript w U T)) (f : WebFlow w U T)
      → Requested f (run_hook (on_http_request w) script f)
  run_request-Requested none f = passed
  run_request-Requested (some script) f = on_http_request-Requested script f

  pub run_response-Responded :
      (script : Option (HttpScript w U T)) (f : WebFlow w U T)
      → Responded f (run_hook (on_http_response w) script f)
  run_response-Responded none f = passed
  run_response-Responded (some script) f = on_http_response-Responded script f

  pub Requested-Keeps :
      (f : WebFlow w U T) (r : WebFlow w U T × ControlFlow) → Requested f r → KeepsRequests f r.0
  Requested-Keeps f _ passed = KeepsRequests-refl f
  Requested-Keeps f _ killed = KeepsRequests-refl f
  Requested-Keeps f _ (custom resp req t h) = KeepsRequests-set f _

  pub Responded-Keeps :
      (f : WebFlow w U T) (r : WebFlow w U T × ControlFlow) → Responded f r → KeepsRequests f r.0
  Responded-Keeps f _ passed = KeepsRequests-refl f
  Responded-Keeps f _ killed = KeepsRequests-refl f
  Responded-Keeps f _ (changed resp) = KeepsRequests-set f _
