-- ===== src/Proxy/Hyper/Answers.antt =====
-- What the client gets from the HTTP service (src/proxy/hyper.rs).
use mini_proxad.Prelude.{
  ◌≡◌, ap, ◌∙◌, Option, none, some, Bytes, codes, length, inl, inr, ◌⊎◌, message, Result, ok, err,
  panicked, Option-cases, ControlFlow, go_on, break, arith,
}
use mini_proxad.Http.{HttpCrate, Request, Response}
use mini_proxad.Http.Extract.{new_response}
use mini_proxad.Filter.Http.{HttpScript, WebFlow, run_hook, on_http_request, on_http_response}
use mini_proxad.Proxy.Hyper.{
  Answer, answered, refused, timed_out, ProxyHyperInner, Handler, push_request, push_response,
  resume, blocked, return_response, last_response, finish, forward, serve, call, response_too_big,
  filter_invalid, filter_killed,
}

module _ (w : HttpCrate) {U T : Type 0} where
  -- What is returned is the last response of the history, or 403 if there is none.
  abbrev Answered : ProxyHyperInner w U T × Result (Response w) → Type 0
  Answered r =
      (resp : Response w)
      → r.1 ≡ ok resp
      → (last_response w r.0.flow ≡ some resp)
        ⊎ ((last_response w r.0.flow ≡ none)
            × (resp ≡ record (new_response w (codes filter_killed)) { status = 403 }))

  resume-Answered :
      {A : Type 0} (m : ProxyHyperInner w U T × Result A) (f : A → Handler w U T (Response w))
      → ((a : A) (i : ProxyHyperInner w U T) → Answered (f a i))
      → Answered (resume w m f)
  resume-Answered (i, ok a) f h resp k = h a i resp k
  resume-Answered (i, err e) f h resp k = ground arith
  resume-Answered (i, panicked) f h resp k = ground arith

  return_response-Answered :
      (r : WebFlow w U T × ControlFlow) (i : ProxyHyperInner w U T)
      → Answered (return_response w r i)
  unfolding return_response
  return_response-Answered (flow, break) i resp k = ground arith
  return_response-Answered (flow, go_on) i resp k = elim (Option-cases (last_response w flow)) [
    | inl e ↦
        let k' : ◌≡◌ {A = Result (Response w)} (err (message filter_invalid)) (ok resp) =
          rw e at k in
        ground arith
    | inr (last_resp, e) ↦
        let k' : ◌≡◌ {A = Result (Response w)} (ok last_resp) (ok resp) = rw e at k in
        let s : last_resp ≡ resp = cc in inl (e ∙ ap some s)
  ]

  finish-Answered :
      (script : Option (HttpScript w U T)) (later : T) (a : Answer w) (i : ProxyHyperInner w U T)
      → Answered (finish w script later a i)
  unfolding finish
  finish-Answered script later refused i resp k = ground arith
  finish-Answered script later timed_out i resp k = ground arith
  finish-Answered script later (answered r) i resp k = elim (Option-cases r.collected) [
    | inl e ↦
        let all : Answered (finish w script later (answered r) i) =
          rw (e, finish)
            (resume-Answered {A = Unit {0}}
              (push_response w (record r.parts { body = codes response_too_big }) 0 later i)
              (λ _ j. (j, err (message response_too_big))) (λ _ j resp k. ground arith)) in
        all resp k
    | inr (body, e) ↦
        let all : Answered (finish w script later (answered r) i) =
          rw (e, finish)
            (resume-Answered {A = Unit {0}}
              (push_response w (record r.parts { body = body }) (length body) later i)
              (λ _ j. return_response w (run_hook (on_http_response w) script j.flow) j)
              (λ _ j. return_response-Answered (run_hook (on_http_response w) script j.flow) j)) in
        all resp k
  ]

  forward-Answered :
      (script : Option (HttpScript w U T)) (server : Request w → Answer w) (later : T)
      (req : Request w) (r : WebFlow w U T × ControlFlow) (i : ProxyHyperInner w U T)
      → Answered (forward w script server later req r i)
  unfolding forward blocked
  forward-Answered script server later req (flow, go_on) i resp k =
      finish-Answered script later (server req) _ resp k
  forward-Answered script server later req (flow, break) i resp k =
      elim (Option-cases (last_response w flow)) [
        | inl e ↦
            let k' : ◌≡◌ {A = Result (Response w)}
                (ok (record (new_response w (codes filter_killed)) { status = 403 })) (ok resp) =
              rw e at k in
            inr (e, cc)
        | inr (last_resp, e) ↦
            let k' : ◌≡◌ {A = Result (Response w)} (ok last_resp) (ok resp) = rw e at k in
            let s : last_resp ≡ resp = cc in inl (e ∙ ap some s)
      ]

  call-Answered :
      (script script' : Option (HttpScript w U T)) (server : Request w → Answer w) (now later : T)
      (parts : Request w) (body : Bytes) (i : ProxyHyperInner w U T)
      → Answered (
          call w script script' server now later
            (record { parts = parts; collected = some body })
            i)
  unfolding call serve
  call-Answered script script' server now later parts body i = elim (Option-cases i.error) [
    | inl e ↦
        let req = record parts { body = body } in
        rw (e, call)
          (resume-Answered {A = Unit {0}} (push_request w req (length body) now i)
            (λ _ j.
              forward w script' server later req (run_hook (on_http_request w) script j.flow) j)
            (λ _ j.
              forward-Answered script' server later req (run_hook (on_http_request w) script j.flow)
                j))
    | inr (x, e) ↦ rw (e, call) (λ resp k. ground arith)
  ]

  -- A call whose request could be read and that returns a response returns the last one of the
  -- history, as the hooks have left it, so that the client gets what is recorded; or, if the history
  -- has no response, the 403 of a killed flow.
  pub call_returns :
      (script script' : Option (HttpScript w U T)) (server : Request w → Answer w) (now later : T)
      (parts : Request w) (body : Bytes) (i : ProxyHyperInner w U T) (resp : Response w)
      → let r =
          call w script script' server now later
            (record { parts = parts; collected = some body })
            i in
        r.1 ≡ ok resp
        → (last_response w r.0.flow ≡ some resp)
          ⊎ ((last_response w r.0.flow ≡ none)
              × (resp ≡ record (new_response w (codes filter_killed)) { status = 403 }))
  call_returns = call-Answered
