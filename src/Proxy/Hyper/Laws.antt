-- ===== src/Proxy/Hyper/Laws.antt =====
-- What a call of the HTTP service (src/proxy/hyper.rs) sends, records and returns.
use mini_proxad.Prelude.{
  ℕ, ◌≡◌, refl, ◌∙◌, Option, none, some, List, [], ◌∷◌, ◌++◌, Bytes, codes, length, Option-cases,
  inl, inr, ◌⊎◌, message, ok, err, ControlFlow, go_on, break, Bool-cases,
}
use mini_proxad.History.Http.{HttpHistory}
use mini_proxad.History.Http.Bounds.{IsBounded}
use mini_proxad.Http.{HttpCrate, Request, Response}
use mini_proxad.Http.Extract.{new_response}
use mini_proxad.Filter.Http.{HttpScript, WebFlow, run_hook, on_http_request}
use mini_proxad.Filter.Http.Laws.{KeepsRequests-IsBounded, run_request-Requested, Requested-Keeps}
use mini_proxad.Proxy.Hyper.{
  Incoming, Answer, ProxyHyperInner, frame, push_request, push_response, reject_request, blocked,
  client_history, forward, serve, call, request_too_big,
}
use mini_proxad.Proxy.Hyper.Pushes.{
  resume-keeps, finish-keeps, Bounded, push_request-Bounded, push_response-Bounded, forward-Bounded,
  push_response-sent, push_request-sent,
}

module _ (w : HttpCrate) {U T : Type 0} where
  push_request-cases :
      (req : Request w) (len : ℕ) (t : T) (j : ProxyHyperInner w U T)
      → ((push_request w req len t j).1 ≡ ok tt)
        ⊎ ((push_request w req len t j).1 ≡ err (message client_history))
  unfolding push_request
  push_request-cases req len t j =
      elim (Bool-cases
        (mini_proxad.History.Http.push_request j.flow.history
          (record req { headers = frame w req.headers len }) len t).1) [
            | inl k ↦ inl (rw k refl)
            | inr k ↦ inr (rw k refl)
          ]

  -- The requests that the connection to the server has been given.
  abbrev Sent : List (Request w) → ProxyHyperInner w U T → Type 0
  Sent reqs i = i.sent ≡ reqs

  forward-Sent :
      (script : Option (HttpScript w U T)) (server : Request w → Answer w) (later : T)
      (req : Request w) (r : WebFlow w U T × ControlFlow) (i : ProxyHyperInner w U T)
      → ((r.1 ≡ break)
          × ((forward w script server later req r i).0.sent ≡ i.sent)
          × ((forward w script server later req r i).1 ≡ ok (blocked w r.0)))
        ⊎ ((r.1 ≡ go_on) × ((forward w script server later req r i).0.sent ≡ i.sent ++ req ∷ []))
  unfolding forward
  forward-Sent script server later req (flow, break) i = inl (refl, refl, refl)
  forward-Sent script server later req (flow, go_on) i = inr (
    refl,
    finish-keeps w (Sent (i.sent ++ req ∷ []))
        (λ resp len t j h. push_response-sent w resp len t j ∙ h) (λ s j h. h) script later
        (server req) _ refl,
  )

  module _ (script script' : Option (HttpScript w U T)) (server : Request w → Answer w)
      (now later : T) (incoming : Incoming (Request w)) where
    serve-Bounded :
        (i : ProxyHyperInner w U T)
        → Bounded w i
        → Bounded w (serve w script script' server now later incoming i).0
    unfolding serve reject_request
    serve-Bounded i h = elim (Option-cases incoming.collected) [
      | inl k ↦
          rw (k, serve)
            (resume-keeps w {A = Unit {0}} {B = Response w} (Bounded w)
              (push_request w (record incoming.parts { body = codes request_too_big }) 0 now i) _
              (push_request-Bounded w _ 0 now i h)
              (λ _ j b.
                resume-keeps w {A = Unit {0}} {B = Response w} (Bounded w)
                  (push_response w
                    (record (new_response w (codes request_too_big)) { status = 413 }) 0 later j)
                  _ (push_response-Bounded w _ 0 later j b) (λ _ l c. c)))
      | inr (body, k) ↦
          let req = record incoming.parts { body = body } in
          rw (k, serve)
            (resume-keeps w {A = Unit {0}} {B = Response w} (Bounded w)
              (push_request w req (length body) now i)
              (λ _ j.
                forward w script' server later req (run_hook (on_http_request w) script j.flow) j)
              (push_request-Bounded w _ (length body) now i h)
              (λ _ j b.
                forward-Bounded w script' server later req
                  (run_hook (on_http_request w) script j.flow) j
                  (KeepsRequests-IsBounded w j.flow _
                    (Requested-Keeps w j.flow _ (run_request-Requested w script j.flow)) b)))
    ]

    -- A call keeps the sizes of the history within their limits, whatever scripts and server do.
    pub call-IsBounded :
        (i : ProxyHyperInner w U T)
        → IsBounded i.flow.history
        → IsBounded (call w script script' server now later incoming i).0.flow.history
    unfolding call
    call-IsBounded i h = elim (Option-cases i.error) [
      | inl k ↦ rw (k, call) (serve-Bounded i h)
      | inr (e, k) ↦ rw (k, call) h
    ]

    serve-sends :
        (i : ProxyHyperInner w U T)
        → ((serve w script script' server now later incoming i).0.sent ≡ i.sent)
          ⊎ ((body : Bytes) × (incoming.collected ≡ some body)
              × (let req = record incoming.parts { body = body } in
                  let pushed = push_request w req (length body) now i in
                  (pushed.1 ≡ ok tt)
                  × ((run_hook (on_http_request w) script pushed.0.flow).1 ≡ go_on)
                  × ((serve w script script' server now later incoming i).0.sent
                      ≡ i.sent ++ req ∷ [])))
    unfolding serve reject_request
    serve-sends i = elim (Option-cases incoming.collected) [
      | inl k ↦ inl (
          rw (k, serve)
            (resume-keeps w {A = Unit {0}} {B = Response w} (Sent i.sent)
              (push_request w (record incoming.parts { body = codes request_too_big }) 0 now i) _
              (push_request-sent w _ 0 now i)
              (λ _ j b.
                resume-keeps w {A = Unit {0}} {B = Response w} (Sent i.sent)
                  (push_response w
                    (record (new_response w (codes request_too_big)) { status = 413 }) 0 later j)
                  _ (push_response-sent w _ 0 later j ∙ b) (λ _ l c. c))))
      | inr (body, k) ↦
          let req = record incoming.parts { body = body } in
          let pushed = push_request w req (length body) now i in
          let same = push_request-sent w req (length body) now i in
          elim (push_request-cases req (length body) now i) [
            | inl done ↦
                elim (forward-Sent script' server later req
                  (run_hook (on_http_request w) script pushed.0.flow) pushed.0) [
                    | inl (stop, sent, answer) ↦ inl (rw (k, serve, done) (sent ∙ same))
                    | inr (go, sent) ↦
                        inr (body, k, (done, go, rw (k, serve, done) (rw same at sent)))
                  ]
            | inr full ↦ inl (rw (k, serve, full) same)
          ]
    ]

    -- A call gives the connection to the server nothing, or exactly one request: the client's, with its
    -- own headers and body; and the latter only if no error was pending, the body could be read, the
    -- history took the request, and the request hook let it pass.
    pub call-sends :
        (i : ProxyHyperInner w U T)
        → ((call w script script' server now later incoming i).0.sent ≡ i.sent)
          ⊎ ((body : Bytes) × (incoming.collected ≡ some body)
              × (let req = record incoming.parts { body = body } in
                  let pushed = push_request w req (length body) now i in
                  (i.error ≡ none)
                  × (pushed.1 ≡ ok tt)
                  × ((run_hook (on_http_request w) script pushed.0.flow).1 ≡ go_on)
                  × ((call w script script' server now later incoming i).0.sent
                      ≡ i.sent ++ req ∷ [])))
    unfolding call
    call-sends i = elim (Option-cases i.error) [
      | inl k ↦ elim (serve-sends i) [
        | inl same ↦ inl (rw (k, call) same)
        | inr (body, c, (done, go, sent)) ↦ inr (body, c, (k, done, go, rw (k, call) sent))
      ]
      | inr (e, k) ↦ inl (rw (k, call) refl)
    ]
