-- ===== src/Examples/Web.antt =====
-- An HTTP flow through the service.
use mini_proxad.Prelude.{
  ℕ, ◌≡◌, ◌⊎◌, refl, Option, none, some, false, [], ◌∷◌, Bytes, codes, length, Error, message, ok,
  err, go_on, arith,
}
use mini_proxad.Http.{Request, Response, http_11}
use mini_proxad.Http.Extract.{
  PyDict, PyHttpResp, new_py_http_resp, new_py_http_req, extract_response, extract_request,
  new_response, content_length, transfer_encoding, set_headers, is_framing, eq_ignore_ascii_case,
}
use mini_proxad.Http.Extract.Laws.{extract-new, extract_response-unframed}
use mini_proxad.History.Http.{HttpHistory, new_http_history}
use mini_proxad.History.Http.Bounds.{IsBounded}
use mini_proxad.Filter.Http.{HttpScript, WebFlow, run_hook, on_http_request, on_http_response}
use mini_proxad.Filter.Http.Verdicts.{
  RequestVerdict, ResponseVerdict, on_http_request-RequestVerdict, on_http_response-ResponseVerdict,
}
use mini_proxad.Http.Extract.{PyHttpReq}
use mini_proxad.Filter.{PyHttpFlow, PyCall, new_py_http_flow, returned, py_resp}
use mini_proxad.Proxy.Hyper.{
  limited, Incoming, Answer, answered, ProxyHyperInner, new_proxy_hyper, push_request, call,
  request_too_big, last_response, filter_killed,
}
use mini_proxad.Prelude.{ltb, List}
use mini_proxad.Flow.{http}
use mini_proxad.Flow.Iter.{flow_items, message_bytes, left, right}
use mini_proxad.Flow.Iter.Merge.{traverse}
use mini_proxad.Flow.Iter.Dialogue.{dialogue, flow_items-dialogue}
use mini_proxad.Filter.Objects.{
  PyUri, get_params, eq_bytes, get_resp_body, get_resp_status, get_resp_raw, get_req_body,
  get_req_uri, get_req_raw, get_resp_headers, cached_getter, header_dict, set_item, as_dict,
}
use mini_proxad.Filter.Objects.Params.{lookup, get_params_lem}
use mini_proxad.Filter.Objects.Reading.{extract_get, extract_get_headers}
use mini_proxad.Proxy.Hyper.Sequence.{Calling, run_calls, asked, run_calls-Faithful}
use mini_proxad.Proxy.Hyper.Logs.{Faithful}
use mini_proxad.Proxy.Hyper.Laws.{call-sends}
use mini_proxad.Proxy.Hyper.Errors.{call_rejects}
use mini_proxad.Proxy.Hyper.Answers.{call_returns}
use mini_proxad.Examples.World.{plain, plain-IsHeaderMap, has_key, client, server, script}

abbrev get : Request plain
get = record { method = codes "GET"; uri = codes "/"; version = http_11; headers = []; body = [] }

abbrev found : Response plain
found = record { version = http_11; status = 200; headers = []; body = 1 ∷ 2 ∷ [] }

extract-new_example :
    ((extract_response plain (new_py_http_resp plain found)).0 ≡ ok found)
    × ((extract_request plain (new_py_http_req plain get)).0 ≡ ok get)
extract-new_example = extract-new plain found get

abbrev dict : PyDict
dict = (some (codes "Content-Length"), some (codes "9")) ∷ (some (codes "a"), some (codes "b")) ∷ []

abbrev made : PyHttpResp plain
made = record {
  resp = none;
  raw = none;
  headers = some dict;
  body = some (1 ∷ []);
  status = some 404;
}

abbrev read_back : Response plain
read_back = record {
  version = http_11;
  status = 404;
  headers = (codes "a", codes "b") ∷ [];
  body = 1 ∷ [];
}

extract_response-unframed_example :
    (has_key ((codes "a", codes "b") ∷ []) content_length ≡ false)
    × (has_key ((codes "a", codes "b") ∷ []) transfer_encoding ≡ false)
unfolding extract_response set_headers is_framing eq_ignore_ascii_case
extract_response-unframed_example =
    extract_response-unframed plain plain-IsHeaderMap made dict read_back refl refl

abbrev toy : HttpScript plain ℕ ℕ
toy = script

abbrev fresh : WebFlow plain ℕ ℕ
fresh = record {
  id = 0;
  start = 1;
  client_addr = client;
  server_addr = server;
  history = record {
    requests = (get, 2) ∷ [];
    responses = (found, 3) ∷ [];
    client_size = 0;
    server_size = 2;
    client_max = 100;
    server_max = 100;
  };
}

-- A script that answers the request itself and changes the response.
abbrev answering : HttpScript plain ℕ ℕ
answering = record toy {
  http_request = some (λ flow req. returned (py_resp made));
  http_filter = some (λ flow req resp. returned (py_resp made));
}

on_http_request-RequestVerdict_example :
    ((answering.http_request ≡ none) × (on_http_request plain answering fresh ≡ (fresh, go_on)))
    ⊎ ((func : PyHttpFlow ℕ ℕ → PyHttpReq plain → PyCall (PyHttpResp plain))
        × (answering.http_request ≡ some func)
        × RequestVerdict plain fresh 2
            (func (new_py_http_flow 0 1 (some 2) none) (new_py_http_req plain get))
            (on_http_request plain answering fresh))
on_http_request-RequestVerdict_example =
    on_http_request-RequestVerdict plain answering fresh get 2 refl

on_http_response-ResponseVerdict_example :
    ((answering.http_filter ≡ none) × (on_http_response plain answering fresh ≡ (fresh, go_on)))
    ⊎ ((func : PyHttpFlow ℕ ℕ → PyHttpReq plain → PyHttpResp plain → PyCall (PyHttpResp plain))
        × (answering.http_filter ≡ some func)
        × ResponseVerdict plain fresh
            (func
              (new_py_http_flow 0 1 (some 2) (some 3))
              (new_py_http_req plain get)
              (new_py_http_resp plain found))
            (on_http_response plain answering fresh))
on_http_response-ResponseVerdict_example =
    on_http_response-ResponseVerdict plain answering fresh get found 2 3 refl refl

abbrev idle : ProxyHyperInner plain ℕ ℕ
idle = record { sent = get ∷ []; flow = fresh; error = none }

abbrev pub upstream : Request plain → Answer plain
upstream req = answered (record { parts = found; collected = some (7 ∷ []) })

abbrev pub arriving : Incoming (Request plain)
arriving = record { parts = get; collected = some (5 ∷ 6 ∷ []) }

abbrev endless : Incoming (Request plain)
endless = record { parts = get; collected = none }

-- A body of two bytes is over a limit of one.
limited_result : (limited plain 1 arriving ≡ endless) × (limited plain 2 arriving ≡ arriving)
unfolding limited
limited_result = (refl, refl)

idle-IsBounded : IsBounded fresh.history
idle-IsBounded = record { client = omega arith; server = omega arith }

-- The first request is killed by a script, the second goes to the server, the third is too long.
abbrev some_calls : List (Calling plain ℕ ℕ)
some_calls =
    record {
      script = some toy;
      script' = none;
      server = upstream;
      now = 4;
      later = 5;
      incoming = arriving;
    }
    ∷ record {
      script = none;
      script' = none;
      server = upstream;
      now = 6;
      later = 7;
      incoming = arriving;
    }
    ∷ record {
      script = none;
      script' = none;
      server = upstream;
      now = 8;
      later = 9;
      incoming = endless;
    }
    ∷ []

run_calls-Faithful_example :
    Faithful plain (asked plain some_calls) idle (run_calls plain some_calls idle)
    × IsBounded (run_calls plain some_calls idle).flow.history
run_calls-Faithful_example = run_calls-Faithful plain some_calls idle idle-IsBounded

call-sends_example :
    let after = call plain none none upstream 4 5 arriving idle in
    (after.0.sent ≡ get ∷ [])
    ⊎ ((body : Bytes) × ◌≡◌ {A = Option Bytes} (some (5 ∷ 6 ∷ [])) (some body)
        × (let req = record get { body = body } in
            let pushed = push_request plain req (length body) 4 idle in
            ◌≡◌ {A = Option Error} none none
            × (pushed.1 ≡ ok tt)
            × ((run_hook (on_http_request plain {U = ℕ} {T = ℕ}) none pushed.0.flow).1 ≡ go_on)
            × (after.0.sent ≡ get ∷ req ∷ [])))
call-sends_example = call-sends plain none none upstream 4 5 arriving idle

call_rejects_example :
    let r = call plain none none upstream 4 5 endless idle in
    (r.1 ≡ ok (record (new_response plain (codes request_too_big)) { status = 413 }))
    × (r.0.sent ≡ get ∷ [])
    × (call plain (some toy) none upstream 6 7 arriving r.0
        ≡ (record r.0 { error = none }, err (message request_too_big)))
call_rejects_example =
    call_rejects plain none none upstream 4 5 endless (some toy) none upstream 6 7 arriving idle
      idle-IsBounded (omega arith) (omega arith) refl refl

-- The script kills the flow, and the client gets the response of the request before.
call_returns_example :
    let r = call plain (some toy) none upstream 4 5 arriving idle in
    (last_response plain r.0.flow ≡ some found)
    ⊎ ((last_response plain r.0.flow ≡ none)
        × (found ≡ record (new_response plain (codes filter_killed)) { status = 403 }))
unfolding call mini_proxad.Proxy.Hyper.serve push_request mini_proxad.History.Http.push_request
    mini_proxad.Proxy.Hyper.forward on_http_request mini_proxad.Filter.Http.apply_request
    mini_proxad.Filter.Http.resp_result mini_proxad.Filter.extract_resp
    mini_proxad.Proxy.Hyper.blocked
call_returns_example =
    call_returns plain (some toy) none upstream 4 5 get (5 ∷ 6 ∷ []) idle found refl

abbrev unanswered : WebFlow plain ℕ ℕ
unanswered = record fresh {
  history = record (fresh.history) { requests = (get, 2) ∷ (get, 4) ∷ (get, 5) ∷ [] };
}

-- The third request does not come out.
flow_items-dialogue_example :
    flow_items plain ltb (http unanswered)
    ≡ traverse
        (message_bytes plain)
        ((client, 2, left get) ∷ (server, 3, right found) ∷ (client, 4, left get) ∷ [])
unfolding dialogue
flow_items-dialogue_example = flow_items-dialogue plain ltb unanswered

-- `a=1&b=2&a=3` for every URI.
abbrev a_b_a : Bytes → Option (List (Bytes × Bytes))
a_b_a uri = some ((codes "a", codes "1") ∷ (codes "b", codes "2") ∷ (codes "a", codes "3") ∷ [])

abbrev some_uri : PyUri plain
some_uri = record { uri = codes "/"; params = none }

get_params_lem_example :
    let r = get_params {w = plain} a_b_a some_uri in
    (lookup r.0 (codes "a") ≡ some (codes "1" ∷ codes "3" ∷ []))
    × (r.1.params ≡ some r.0)
    × (get_params {w = plain} a_b_a r.1 ≡ r)
unfolding eq_bytes
get_params_lem_example =
    get_params_lem {w = plain} a_b_a some_uri
      ((codes "a", codes "1") ∷ (codes "b", codes "2") ∷ (codes "a", codes "3") ∷ []) (codes "a")
      refl refl

extract_get_example :
    ((extract_response plain (get_resp_body plain (new_py_http_resp plain found)).1).0 ≡ ok found)
    × ((extract_response plain (get_resp_status plain (new_py_http_resp plain found)).1).0
        ≡ ok found)
    × ((extract_response plain (get_resp_raw plain (new_py_http_resp plain found)).1).0 ≡ ok found)
    × ((extract_request plain (get_req_body plain (new_py_http_req plain get)).1).0 ≡ ok get)
    × ((extract_request plain (get_req_uri plain (new_py_http_req plain get)).1).0 ≡ ok get)
    × ((extract_request plain (get_req_raw plain (new_py_http_req plain get)).1).0 ≡ ok get)
extract_get_example = extract_get plain found get refl

-- A script that reads the headers of this response loses the length.
abbrev framed : Response plain
framed = record found { headers = (content_length, codes "2") ∷ (codes "a", codes "b") ∷ [] }

abbrev unframed : Response plain
unframed = record found { headers = (codes "a", codes "b") ∷ [] }

extract_get_headers_example :
    (has_key (unframed.headers) content_length ≡ false)
    × (has_key (unframed.headers) transfer_encoding ≡ false)
unfolding get_resp_headers cached_getter header_dict set_item eq_bytes as_dict new_py_http_resp
    extract_response set_headers is_framing eq_ignore_ascii_case
extract_get_headers_example =
    extract_get_headers plain plain-IsHeaderMap framed unframed
      ((some content_length, some (codes "2")) ∷ (some (codes "a"), some (codes "b")) ∷ []) refl
      refl
