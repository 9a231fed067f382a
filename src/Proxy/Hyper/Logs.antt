-- ===== src/Proxy/Hyper/Logs.antt =====
-- What one call of the HTTP service (src/proxy/hyper.rs) gives to the server and records.
use mini_proxad.Prelude.{
  ℕ, ◌≡◌, refl, sym, ap, subst, ◌∙◌, ◌⊎◌, inl, inr, Option, none, some, List, [], ◌∷◌, ◌++◌, map,
  codes, length, append-nil, append_assoc, Within, Within-nil, Within-append, Within-refl,
  Within-map, Option-cases, Bool-cases, ltb, ok, err, message, ControlFlow, go_on, break,
}
use mathlib.Core.List.{map-append}
use mini_proxad.Http.{HttpCrate, Request, Response}
use mini_proxad.Http.Extract.{new_response}
use mini_proxad.History.Http.{HttpHistory, usize_add}
use mini_proxad.Filter.Http.{HttpScript, WebFlow, run_hook, on_http_request}
use mini_proxad.Filter.Http.Laws.{
  run_request-Requested, run_response-Responded, Requested-Keeps, Responded-Keeps,
}
use mini_proxad.Proxy.Hyper.{
  Incoming, Answer, ProxyHyperInner, frame, push_request, push_response, reject_request, finish,
  forward, serve, call, request_too_big, client_history,
}
use mini_proxad.Proxy.Hyper.Pushes.{resume-keeps, finish-keeps}

Within-along :
    {A : Type 0} {xs xs' ys ys' : List A} → xs ≡ xs' → ys ≡ ys' → Within xs' ys' → Within xs ys
Within-along {xs' = xs'} {ys = ys} e d h =
    subst (λ zs. Within zs ys) (sym e) (subst (Within xs') (sym d) h)

-- A request as it is recorded, with its framing headers replaced.
abbrev pub framed : (w : HttpCrate) → ℕ → Request w → Request w
framed w len req = record req { headers = frame w req.headers len }

-- The request of a call, if its body could be read.
abbrev pub readable : (w : HttpCrate) → Incoming (Request w) → List (Request w)
readable w incoming = elim incoming.collected [
  | none ↦ []
  | some body ↦ record incoming.parts { body = body } ∷ []
]

module _ (w : HttpCrate) {U T : Type 0} where
  -- What the server has been given, and what is recorded of the client.
  abbrev Logged : List (Request w) → List (Request w × T) → ProxyHyperInner w U T → Type 0
  Logged sent requests i = (i.sent ≡ sent) × (i.flow.history.requests ≡ requests)

  push_request-Logged :
      (req : Request w) (len : ℕ) (t : T) (j : ProxyHyperInner w U T)
      → (((push_request w req len t j).1 ≡ ok tt)
          × Logged j.sent
              (j.flow.history.requests ++ (framed w len req, t) ∷ [])
              (push_request w req len t j).0)
        ⊎ (((push_request w req len t j).1 ≡ err (message client_history))
            × Logged j.sent j.flow.history.requests (push_request w req len t j).0)
  unfolding push_request mini_proxad.History.Http.push_request
  push_request-Logged req len t j =
      elim (Bool-cases (ltb j.flow.history.client_max (usize_add len j.flow.history.client_size))) [
        | inl full ↦ inr (rw full refl, (refl, rw full refl))
        | inr free ↦ inl (rw free refl, (refl, rw free refl))
      ]

  push_response-Logged :
      (sent : List (Request w)) (requests : List (Request w × T)) (resp : Response w) (len : ℕ)
      (t : T) (j : ProxyHyperInner w U T)
      → Logged sent requests j
      → Logged sent requests (push_response w resp len t j).0
  unfolding push_response mini_proxad.History.Http.push_response
  push_response-Logged sent requests resp len t j h =
      elim (Bool-cases (ltb j.flow.history.server_max (usize_add len j.flow.history.server_size))) [
        | inl full ↦ (h.0, rw full h.1)
        | inr free ↦ (h.0, rw free h.1)
      ]

  finish-Logged :
      (sent : List (Request w)) (requests : List (Request w × T))
      (script : Option (HttpScript w U T)) (later : T) (a : Answer w) (i : ProxyHyperInner w U T)
      → Logged sent requests i
      → Logged sent requests (finish w script later a i).0
  finish-Logged sent requests =
      finish-keeps w (Logged sent requests) (push_response-Logged sent requests) (λ script j h.
        (h.0, (Responded-Keeps w j.flow _ (run_response-Responded w script j.flow)).requests ∙ h.1))

  -- After the request hook the server gets the request, or nothing.
  forward-Logged :
      (script : Option (HttpScript w U T)) (server : Request w → Answer w) (later : T)
      (req : Request w) (r : WebFlow w U T × ControlFlow) (i : ProxyHyperInner w U T)
      → r.0.history.requests ≡ i.flow.history.requests
      → (new : List (Request w)) × Within new (req ∷ [])
        × Logged (i.sent ++ new) i.flow.history.requests (forward w script server later req r i).0
  unfolding forward
  forward-Logged script server later req (flow, break) i h =
      ([], Within-nil (req ∷ []), (sym (append-nil i.sent), h))
  forward-Logged script server later req (flow, go_on) i h = (
    req ∷ [],
    Within-refl (req ∷ []),
    finish-Logged (i.sent ++ req ∷ []) i.flow.history.requests script later (server req) _
        (refl, h),
  )

  -- The server has been given some of the requests, whole and in order, and each of them is also
  -- recorded, in order.
  abbrev pub Faithful : List (Request w) → ProxyHyperInner w U T → ProxyHyperInner w U T → Type 0
  Faithful asked i i' =
      (new : List (Request w)) × (recorded : List (Request w × T)) × Within new asked
      × Within (map (λ (r : Request w). framed w (length r.body) r) new) (map (λ r. r.0) recorded)
      × Logged (i.sent ++ new) (i.flow.history.requests ++ recorded) i'

  nothing_sent :
      (asked : List (Request w)) (recorded : List (Request w × T)) (i i' : ProxyHyperInner w U T)
      → Logged i.sent (i.flow.history.requests ++ recorded) i'
      → Faithful asked i i'
  nothing_sent asked recorded i i' (s, r) = (
    [],
    recorded,
    Within-nil asked,
    Within-nil (map (λ q. q.0) recorded),
    (s ∙ sym (append-nil i.sent), r),
  )

  pub Faithful-refl : (asked : List (Request w)) (i : ProxyHyperInner w U T) → Faithful asked i i
  Faithful-refl asked i = nothing_sent asked [] i i (refl, sym (append-nil i.flow.history.requests))

  pub Faithful-trans :
      (asked later : List (Request w)) (i j k : ProxyHyperInner w U T)
      → Faithful asked i j
      → Faithful later j k
      → Faithful (asked ++ later) i k
  Faithful-trans asked later i j k (new, rec, a, b, (s, r)) (new', rec', a', b', (s', r')) = (
    new ++ new',
    rec ++ rec',
    Within-append a a',
    Within-along (map-append _ new new') (map-append _ rec rec') (Within-append b b'),
    (
      s' ∙ ap (λ xs. xs ++ new') s ∙ append_assoc i.sent new new',
      r' ∙ ap (λ xs. xs ++ rec') r ∙ append_assoc i.flow.history.requests rec rec',
    ),
  )

  module _ (script script' : Option (HttpScript w U T)) (server : Request w → Answer w)
      (now later : T) (incoming : Incoming (Request w)) where
    serve-Faithful :
        (i : ProxyHyperInner w U T)
        → Faithful (readable w incoming) i (serve w script script' server now later incoming i).0
    unfolding serve reject_request
    serve-Faithful i = elim (Option-cases incoming.collected) [
      | inl k ↦
          let long = record incoming.parts { body = codes request_too_big } in
          elim (push_request-Logged long 0 now i) [
            | inl (done, h) ↦
                nothing_sent asked ((framed w 0 long, now) ∷ []) i
                  (serve w script script' server now later incoming i).0
                  (rw (k, serve, done)
                    (resume-keeps w {A = Unit {0}} {B = Response w}
                      (Logged i.sent (i.flow.history.requests ++ (framed w 0 long, now) ∷ []))
                      (push_response w
                        (record (new_response w (codes request_too_big)) { status = 413 }) 0 later
                        (push_request w long 0 now i).0)
                      _ (push_response-Logged i.sent _ _ 0 later _ h) (λ _ l c. c)))
            | inr (full, h) ↦
                nothing_sent asked [] i (serve w script script' server now later incoming i).0
                  (rw (k, serve, full) (h.0, h.1 ∙ sym (append-nil i.flow.history.requests)))
          ]
      | inr (body, k) ↦
          let req = record incoming.parts { body = body } in
          let pushed = push_request w req (length body) now i in
          let hook = run_hook (on_http_request w) script pushed.0.flow in
          elim (push_request-Logged req (length body) now i) [
            | inl (done, h) ↦
                let kept =
                  (Requested-Keeps w pushed.0.flow hook
                    (run_request-Requested w script pushed.0.flow)).requests in
                let (new, within, log) =
                  forward-Logged script' server later req hook pushed.0 kept in
                (
                  new,
                  (framed w (length body) req, now) ∷ [],
                  rw k within,
                  Within-map (λ (q : Request w). framed w (length q.body) q) within,
                  rw (k, serve, done) (log.0 ∙ ap (λ xs. xs ++ new) h.0, log.1 ∙ h.1),
                )
            | inr (full, h) ↦
                nothing_sent asked [] i (serve w script script' server now later incoming i).0
                  (rw (k, serve, full) (h.0, h.1 ∙ sym (append-nil i.flow.history.requests)))
          ]
    ]
      where
        asked : List (Request w)
        asked = readable w incoming

    pub call-Faithful :
        (i : ProxyHyperInner w U T)
        → Faithful (readable w incoming) i (call w script script' server now later incoming i).0
    unfolding call
    call-Faithful i = elim (Option-cases i.error) [
      | inl k ↦ rw (k, call) (serve-Faithful i)
      | inr (e, k) ↦
          nothing_sent (readable w incoming) [] i
            (call w script script' server now later incoming i).0
            (rw (k, call) (refl, sym (append-nil i.flow.history.requests)))
    ]
