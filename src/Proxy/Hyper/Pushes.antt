-- ===== src/Proxy/Hyper/Pushes.antt =====
-- What the HTTP service (src/proxy/hyper.rs) keeps: the sizes of the history within their limits.
use mini_proxad.Prelude.{
  ℕ, ◌≡◌, refl, Option, codes, length, Option-cases, inl, inr, message, Result, ok, err, panicked,
  ControlFlow, go_on, break,
}
use mini_proxad.History.Http.Bounds.{IsBounded, push_request-IsBounded, push_response-IsBounded}
use mini_proxad.Http.{HttpCrate, Request, Response}
use mini_proxad.Filter.Http.{HttpScript, WebFlow, run_hook, on_http_response}
use mini_proxad.Filter.Http.Laws.{KeepsRequests-IsBounded, run_response-Responded, Responded-Keeps}
use mini_proxad.Proxy.Hyper.{
  Answer, answered, refused, timed_out, ProxyHyperInner, Handler, push_request, push_response,
  resume, return_response, response_too_big, finish, forward,
}

module _ (w : HttpCrate) {U T : Type 0} where
  -- What holds before a push and is kept by what follows holds after both.
  pub resume-keeps :
      {A B : Type 0} (P : ProxyHyperInner w U T → Type 0) (m : ProxyHyperInner w U T × Result A)
      (f : A → Handler w U T B)
      → P m.0
      → ((a : A) (i : ProxyHyperInner w U T) → P i → P (f a i).0)
      → P (resume w m f).0
  resume-keeps P (i, ok a) f h k = k a i h
  resume-keeps P (i, err e) f h k = h
  resume-keeps P (i, panicked) f h k = h

  abbrev pub Bounded : ProxyHyperInner w U T → Type 0
  Bounded i = IsBounded i.flow.history

  pub push_request-Bounded :
      (req : Request w) (len : ℕ) (now : T) (i : ProxyHyperInner w U T)
      → Bounded i
      → Bounded (push_request w req len now i).0
  unfolding push_request
  push_request-Bounded req len now i h = push_request-IsBounded i.flow.history _ len now h

  pub push_response-Bounded :
      (resp : Response w) (len : ℕ) (now : T) (i : ProxyHyperInner w U T)
      → Bounded i
      → Bounded (push_response w resp len now i).0
  unfolding push_response
  push_response-Bounded resp len now i h = push_response-IsBounded i.flow.history _ len now h

  -- A property that pushing a response and running the response hook keep is kept by `finish`.
  module _ (P : ProxyHyperInner w U T → Type 0)
      (pushes : (resp : Response w) (len : ℕ) (later : T) (i : ProxyHyperInner w U T)
        → P i
        → P (push_response w resp len later i).0)
      (hooks : (script : Option (HttpScript w U T)) (i : ProxyHyperInner w U T)
        → P i
        → P (record i { flow = (run_hook (on_http_response w) script i.flow).0 })) where
    return_response-keeps :
        (r : WebFlow w U T × ControlFlow) (i : ProxyHyperInner w U T)
        → P (record i { flow = r.0 })
        → P (return_response w r i).0
    unfolding return_response
    return_response-keeps (flow, break) i h = h
    return_response-keeps (flow, go_on) i h = h

    pub finish-keeps :
        (script : Option (HttpScript w U T)) (later : T) (a : Answer w) (i : ProxyHyperInner w U T)
        → P i
        → P (finish w script later a i).0
    unfolding finish
    finish-keeps script later refused i h = h
    finish-keeps script later timed_out i h = h
    finish-keeps script later (answered resp) i h = elim (Option-cases resp.collected) [
      | inl k ↦
          rw (k, finish)
            (resume-keeps {A = Unit {0}} {B = Response w} P
              (push_response w (record resp.parts { body = codes response_too_big }) 0 later i)
              (λ _ j. (j, err (message response_too_big))) (pushes _ 0 later i h) (λ _ j b. b))
      | inr (body, k) ↦
          rw (k, finish)
            (resume-keeps {A = Unit {0}} {B = Response w} P
              (push_response w (record resp.parts { body = body }) (length body) later i)
              (λ _ j. return_response w (run_hook (on_http_response w) script j.flow) j)
              (pushes _ (length body) later i h)
              (λ _ j b.
                return_response-keeps (run_hook (on_http_response w) script j.flow) j
                  (hooks script j b)))
    ]

  finish-Bounded :
      (script : Option (HttpScript w U T)) (later : T) (a : Answer w) (i : ProxyHyperInner w U T)
      → Bounded i
      → Bounded (finish w script later a i).0
  finish-Bounded = finish-keeps Bounded push_response-Bounded (λ script j b.
      KeepsRequests-IsBounded w j.flow _
        (Responded-Keeps w j.flow _ (run_response-Responded w script j.flow)) b)

  pub forward-Bounded :
      (script : Option (HttpScript w U T)) (server : Request w → Answer w) (later : T)
      (req : Request w) (r : WebFlow w U T × ControlFlow) (i : ProxyHyperInner w U T)
      → IsBounded r.0.history
      → Bounded (forward w script server later req r i).0
  unfolding forward
  forward-Bounded script server later req (flow, break) i h = h
  forward-Bounded script server later req (flow, go_on) i h =
      finish-Bounded script later (server req) _ h

  pub push_response-sent :
      (resp : Response w) (len : ℕ) (t : T) (j : ProxyHyperInner w U T)
      → (push_response w resp len t j).0.sent ≡ j.sent
  unfolding push_response
  push_response-sent resp len t j = refl

  pub push_request-sent :
      (req : Request w) (len : ℕ) (t : T) (j : ProxyHyperInner w U T)
      → (push_request w req len t j).0.sent ≡ j.sent
  unfolding push_request
  push_request-sent req len t j = refl
