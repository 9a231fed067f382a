-- ===== src/Proxy/Hyper/Errors.antt =====
-- Requests that are refused (src/proxy/hyper.rs): too long, or after an error.
use mini_proxad.Prelude.{
  ℕ, ◌+◌, ◌%◌, ◌^◌, ◌≤◌, ◌<◌, ◌≡◌, refl, ◌∙◌, Option, none, some, false, codes, Error, message, ok,
  err, arith, ltb, le→ltb_false,
}
use mini_proxad.History.Http.{HttpHistory}
use mini_proxad.History.Http.Bounds.{IsBounded}
use mini_proxad.Http.{HttpCrate, Request, Response}
use mini_proxad.Http.Extract.{new_response}
use mini_proxad.Filter.Http.{HttpScript}
use mini_proxad.Proxy.Hyper.{
  Incoming, Answer, ProxyHyperInner, push_request, push_response, reject_request, serve, call,
  request_too_big,
}
use mini_proxad.Proxy.Hyper.Pushes.{push_request-sent, push_response-sent}

module _ (w : HttpCrate) {U T : Type 0} where
  push_request_empty :
      (req : Request w) (now : T) (i : ProxyHyperInner w U T)
      → i.flow.history.client_size ≤ i.flow.history.client_max
      → i.flow.history.client_max < 2 ^ 64
      → (push_request w req 0 now i).1 ≡ ok tt
  unfolding push_request mini_proxad.History.Http.push_request
  push_request_empty req now i h k =
      let fits : ltb i.flow.history.client_max ((0 + i.flow.history.client_size) % 2 ^ 64) ≡ false =
        le→ltb_false _ _ (omega arith) in
      rw fits refl

  push_response_empty :
      (resp : Response w) (now : T) (i : ProxyHyperInner w U T)
      → i.flow.history.server_size ≤ i.flow.history.server_max
      → i.flow.history.server_max < 2 ^ 64
      → (push_response w resp 0 now i).1 ≡ ok tt
  unfolding push_response mini_proxad.History.Http.push_response
  push_response_empty resp now i h k =
      let fits : ltb i.flow.history.server_max ((0 + i.flow.history.server_size) % 2 ^ 64) ≡ false =
        le→ltb_false _ _ (omega arith) in
      rw fits refl

  push_request_server :
      (req : Request w) (len : ℕ) (now : T) (i : ProxyHyperInner w U T)
      → let h = (push_request w req len now i).0.flow.history in
        (h.server_size ≡ i.flow.history.server_size) × (h.server_max ≡ i.flow.history.server_max)
  unfolding push_request mini_proxad.History.Http.push_request
  push_request_server req len now i = ground arith

  call_latched :
      (script script' : Option (HttpScript w U T)) (server : Request w → Answer w) (now later : T)
      (incoming : Incoming (Request w)) (i : ProxyHyperInner w U T) (e : Error)
      → i.error ≡ some e
      → call w script script' server now later incoming i ≡ (record i { error = none }, err e)
  unfolding call
  call_latched script script' server now later incoming i e h = rw h refl

  module _ (script script' : Option (HttpScript w U T)) (server : Request w → Answer w)
      (now later : T) (incoming : Incoming (Request w)) where
    rejected :
        (i : ProxyHyperInner w U T)
        → IsBounded i.flow.history
        → i.flow.history.client_max < 2 ^ 64
        → i.flow.history.server_max < 2 ^ 64
        → i.error ≡ none
        → incoming.collected ≡ none
        → let r = call w script script' server now later incoming i in
          (r.1 ≡ ok (record (new_response w (codes request_too_big)) { status = 413 }))
          × (r.0.sent ≡ i.sent)
          × (r.0.error ≡ some (message request_too_big))
    unfolding call serve reject_request
    rejected i b c d e n =
        let req = record incoming.parts { body = codes request_too_big } in
        let resp = record (new_response w (codes request_too_big)) { status = 413 } in
        let first = push_request w req 0 now i in
        let (same_size, same_max) = push_request_server req 0 now i in
        let one = push_request_empty req now i b.client c in
        let two = push_response_empty resp later first.0 (omega arith) (omega arith) in
        rw (e, n, call, serve, one, two)
          (refl, push_response-sent w resp 0 later first.0 ∙ push_request-sent w req 0 now i, refl)

    -- A request that is too long is answered with 413 and goes not to the server, provided that the
    -- history is within its limits and these fit a `usize`; the next call, whatever it is, fails
    -- with the same text and does nothing else than to drop the error.
    pub call_rejects :
        (s s' : Option (HttpScript w U T)) (server' : Request w → Answer w) (t u : T)
        (next : Incoming (Request w)) (i : ProxyHyperInner w U T)
        → IsBounded i.flow.history
        → i.flow.history.client_max < 2 ^ 64
        → i.flow.history.server_max < 2 ^ 64
        → i.error ≡ none
        → incoming.collected ≡ none
        → let r = call w script script' server now later incoming i in
          (r.1 ≡ ok (record (new_response w (codes request_too_big)) { status = 413 }))
          × (r.0.sent ≡ i.sent)
          × (call w s s' server' t u next r.0
              ≡ (record r.0 { error = none }, err (message request_too_big)))
    call_rejects s s' server' t u next i b c d e n =
        let (answer, sent, error) = rejected i b c d e n in
        (
          answer,
          sent,
          call_latched s s' server' t u next (call w script script' server now later incoming i).0
              (message request_too_big) error,
        )
