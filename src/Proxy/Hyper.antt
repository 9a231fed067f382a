-- ===== src/Proxy/Hyper.antt =====
-- src/proxy/hyper.rs: the service between an HTTP client and the server. The connection to the
-- server is a function from the request to the answer; the record keeps what has been sent to it.
pub mod Pushes
pub mod Laws
pub mod Logs
pub mod Sequence
pub mod Errors
pub mod Answers
use Prim.Native.String.{String}
use mini_proxad.Prelude.{
  ℕ, ◌≡◌, Option, none, some, Bool, true, false, List, [], ◌∷◌, ◌++◌, Bytes, codes, decimal, length,
  last, Error, elapsed, foreign, message, Result, ok, err, panicked, ControlFlow, go_on, break, not,
  if◌then◌else◌, ok_or, unwrap_or,
}
use mini_proxad.Http.{HttpCrate, Request, Response}
use mini_proxad.Http.Extract.{content_length, transfer_encoding, new_response}
use mini_proxad.History.Http.{HttpHistory}
use mini_proxad.Flow.{HttpFlow}
use mini_proxad.Filter.Http.{HttpScript, WebFlow, on_http_request, on_http_response, run_hook}

abbrev pub response_too_big : String
response_too_big = "Response body too big"

abbrev pub request_too_big : String
request_too_big = "Response body too big"

abbrev pub filter_killed : String
filter_killed = "Killed by filter"

abbrev pub filter_invalid : String
filter_invalid = "Invalid filter output"

abbrev pub server_timeout : String
server_timeout = "Server timeout elapsed"

abbrev pub client_history : String
client_history = "Client history too big"

abbrev pub server_history : String
server_history = "Server history too big"

-- A message whose body is still to come; `none` if the body cannot be read.
pub record Incoming (M : Type 0) : Type 0 where
  pub parts : M
  pub collected : Option Bytes

-- What `time::timeout(.., send_request(..))` gives.
pub data Answer (w : HttpCrate) : Type 0 where
  answered : Incoming (Response w) → Answer w
  refused timed_out : Answer w

module _ (w : HttpCrate) (U T : Type 0) where
  pub record ProxyHyperInner : Type 0 where
    pub sent : List (Request w)
    pub flow : WebFlow w U T
    pub error : Option Error

  pub record ProxyHyper : Type 0 where
    pub max_body : ℕ
    pub inner : ProxyHyperInner

  unfoldable pub new_proxy_hyper : ℕ → WebFlow w U T → ProxyHyper
  new_proxy_hyper max_body flow = record {
    max_body = max_body;
    inner = record { sent = []; flow = flow; error = none };
  }

-- `Limited::new(incoming, max_body)`.
unfoldable pub limited : (w : HttpCrate) → {M : Type 0} → ℕ → Incoming M → Incoming M
limited w max_body incoming = elim incoming.collected [
  | none ↦ incoming
  | some body ↦ record incoming { collected = w.limited_body max_body body }
]

unfoldable pub limited_answer : (w : HttpCrate) → ℕ → Answer w → Answer w
limited_answer w max_body (answered resp) = answered (limited w max_body resp)
limited_answer w max_body refused = refused
limited_answer w max_body timed_out = timed_out

-- The transfer encoding is replaced by the length, as the body has been collected.
unfoldable pub frame : (w : HttpCrate) → w.HeaderMap → ℕ → w.HeaderMap
frame w headers len =
    if w.contains_key headers transfer_encoding
    then w.insert (w.remove headers transfer_encoding) content_length (decimal len)
    else headers

-- Code under the lock, which may fail: what it did before stays.
abbrev pub Handler : HttpCrate → (U T : Type 0) → Type 0 → Type 0
Handler w U T A = ProxyHyperInner w U T → ProxyHyperInner w U T × Result A

module _ (w : HttpCrate) {U T : Type 0} where
  abbrev pub set_history :
      ProxyHyperInner w U T → HttpHistory (Request w) (Response w) T → ProxyHyperInner w U T
  set_history inner history = record inner { flow = record inner.flow { history = history } }

  unfoldable pub push_request : Request w → ℕ → T → Handler w U T (Unit {0})
  push_request req len now inner =
      let (history, pushed) =
        mini_proxad.History.Http.push_request inner.flow.history
          (record req { headers = frame w req.headers len }) len now in
      (set_history inner history, if not pushed then err (message client_history) else ok tt)

  unfoldable pub push_response : Response w → ℕ → T → Handler w U T (Unit {0})
  push_response resp len now inner =
      let (history, pushed) =
        mini_proxad.History.Http.push_response inner.flow.history
          (record resp { headers = frame w resp.headers len }) len now in
      (set_history inner history, if not pushed then err (message server_history) else ok tt)

  abbrev pub resume :
      {A B : Type 0}
      → ProxyHyperInner w U T × Result A
      → (A → Handler w U T B)
      → ProxyHyperInner w U T × Result B
  resume (inner, ok a) f = f a inner
  resume (inner, err e) f = (inner, err e)
  resume (inner, panicked) f = (inner, panicked)

  -- The 413 of a request that is too long; the next call finds the error.
  unfoldable pub reject_request : Request w → (now later : T) → Handler w U T (Response w)
  reject_request parts now later inner =
      let text = codes request_too_big in
      let resp = record (new_response w text) { status = 413 } in
      resume (push_request (record parts { body = text }) 0 now inner) (λ _ inner₁.
        resume (push_response resp 0 later inner₁)
          (λ _ inner₂. (record inner₂ { error = some (message request_too_big) }, ok resp)))

  abbrev pub last_response : WebFlow w U T → Option (Response w)
  last_response flow = elim (last flow.history.responses) [
    | none ↦ none
    | some (resp, time) ↦ some resp
  ]

  -- The answer to a request that the filter has blocked.
  unfoldable pub blocked : WebFlow w U T → Response w
  blocked flow =
      unwrap_or (last_response flow)
        (record (new_response w (codes filter_killed)) { status = 403 })

  -- After the response hook: what the client gets is the last response of the history.
  unfoldable pub return_response : WebFlow w U T × ControlFlow → Handler w U T (Response w)
  return_response (flow, break) inner = (record inner { flow = flow }, err (message filter_killed))
  return_response (flow, go_on) inner =
      (record inner { flow = flow }, ok_or (last_response flow) (message filter_invalid))

  -- From the server's answer on.
  unfoldable pub finish : Option (HttpScript w U T) → T → Answer w → Handler w U T (Response w)
  finish script later refused inner = (inner, err foreign)
  finish script later timed_out inner = (inner, err (message server_timeout))
  finish script later (answered resp) inner = elim resp.collected [
    | none ↦
        resume (push_response (record resp.parts { body = codes response_too_big }) 0 later inner)
          (λ _ inner₁. (inner₁, err (message response_too_big)))
    | some body ↦
        resume (push_response (record resp.parts { body = body }) (length body) later inner)
          (λ _ inner₁. return_response (run_hook (on_http_response w) script inner₁.flow) inner₁)
  ]

  -- After the request hook.
  unfoldable pub forward :
      Option (HttpScript w U T)
      → (Request w → Answer w)
      → T
      → Request w
      → WebFlow w U T × ControlFlow
      → Handler w U T (Response w)
  forward script server later req (flow, break) inner =
      (record inner { flow = flow }, ok (blocked flow))
  forward script server later req (flow, go_on) inner =
      finish script later (server req) (record inner { flow = flow; sent = inner.sent ++ req ∷ [] })

  -- `HyperService::call` once there is no error from before, with the readings of the clock at the
  -- two pushes, the filter as it is at the two hooks, and the server; the messages are those that
  -- `Limited` hands on.
  unfoldable pub serve :
      Option (HttpScript w U T)
      → Option (HttpScript w U T)
      → (Request w → Answer w)
      → (now later : T) → Incoming (Request w)
      → Handler w U T (Response w)
  serve script script' server now later incoming inner = elim incoming.collected [
    | none ↦ reject_request incoming.parts now later inner
    | some body ↦
        let req = record incoming.parts { body = body } in
        resume (push_request req (length body) now inner) (λ _ inner₁.
          forward script' server later req (run_hook (on_http_request w) script inner₁.flow) inner₁)
  ]

  unfoldable pub call :
      Option (HttpScript w U T)
      → Option (HttpScript w U T)
      → (Request w → Answer w)
      → (now later : T) → Incoming (Request w)
      → Handler w U T (Response w)
  call script script' server now later incoming inner = elim inner.error [
    | some e ↦ (record inner { error = none }, err e)
    | none ↦ serve script script' server now later incoming inner
  ]

  -- The call of a service, with the messages as they come.
  unfoldable pub call_service :
      Option (HttpScript w U T)
      → Option (HttpScript w U T)
      → (Request w → Answer w)
      → (now later : T) → Incoming (Request w)
      → ProxyHyper w U T
      → ProxyHyper w U T × Result (Response w)
  call_service script script' server now later incoming service =
      let max = service.max_body in
      let (inner, result) =
        call script script' (λ req. limited_answer w max (server req)) now later
          (limited w max incoming) service.inner in
      (record service { inner = inner }, result)
