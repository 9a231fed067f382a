-- ===== src/Proxy/Accept/Tasks.antt =====
-- What the tasks of `handle_accept` (src/proxy/mod.rs) do to the flows.
use mini_proxad.Prelude.{
  ℕ, ◌≡◌, refl, sym, ap, Option, none, some, Option-cases, All-push, All-set, All-get, Bool, true,
  false, Bool-cases, List, [], ◌∷◌, ◌++◌, ◌∙◌, get_elem?, set, inl, inr, append-nil, ok, err,
  panicked, ControlFlow, go_on, break,
}
use mini_proxad.Http.{HttpCrate}
use mini_proxad.Http.Extract.{PyHttpReq, PyHttpResp}
use mini_proxad.Flow.{RawFlow, raw, http}
use mini_proxad.Filter.{new_py_http_flow}
use mini_proxad.Filter.Raw.{open_control, open_result}
use mini_proxad.Filter.Http.{WebFlow, HttpScript, on_http_open, run_hook}
use mini_proxad.Tls.{Rustls}
use mini_proxad.Proxy.Raw.{Ready, Closing, Progress, running, finished, Session, handle_flow}
use mini_proxad.Proxy.Hyper.{ProxyHyper, new_proxy_hyper, call, call_service}
use mini_proxad.Proxy.Hyper.Sequence.{Calling, limited_calling, run_calls, run_calls_one_more}
use mini_proxad.Proxy.Accept.{
  WebFilter, AnyFlow, WebService, Task, raw_task, http_task, Visit, Running, Event, raw_ends, calls,
  http_ends, open_http, accept_one, hand_over, end_task, end_raw, into_flow, end_http, add_task,
  on_task,
}
use mini_proxad.Proxy.Accept.Handover.{
  Fresh, FreshHttp, Called, Served, IsReady, IsSound, handed, Goes, stays, end_task-IsSound,
  hand_over-Goes, then_Goes,
}

module _ (w : HttpCrate) {U T : Type 0} {r : Rustls} (service : WebService w U T r) where
  ended :
      (i : ℕ) (f : AnyFlow w U T) (s : Running w U T)
      → Served w service f
      → IsSound w service s
      → Goes w service s (hand_over w f (end_task w i s))
  ended i f s p v =
      then_Goes w service s (end_task w i s) (hand_over w f (end_task w i s)) refl refl
        (hand_over-Goes w service f (end_task w i s) p (end_task-IsSound w service i s v))

  only_ended : (i : ℕ) (s : Running w U T) → IsSound w service s → Goes w service s (end_task w i s)
  only_ended i s v =
      then_Goes w service s (end_task w i s) (end_task w i s) refl refl
        (stays w service (end_task w i s) (end_task-IsSound w service i s v))

  end_raw-Goes :
      (i : ℕ) (filter : Option (WebFilter w U T))
      (turns : List (Ready U T (PyHttpReq w) (PyHttpResp w))) (closing : Closing)
      (flow : RawFlow U T) (s : Running w U T)
      → Fresh w service flow
      → IsSound w service s
      → (out : Session U T × Progress) → handle_flow filter turns closing flow ≡ out
      → Goes w service s (end_raw w i out s)
  unfolding end_raw
  end_raw-Goes i filter turns closing flow s p v (session, running) e = stays w service s v
  end_raw-Goes i filter turns closing flow s p v (session, finished (ok u)) e =
      ended i (raw session.flow) s
        (filter, turns, closing, flow, ok u, p, ap (λ o. o.0.flow) (sym e), ap (λ o. o.1) e) v
  end_raw-Goes i filter turns closing flow s p v (session, finished (err x)) e =
      ended i (raw session.flow) s
        (filter, turns, closing, flow, err x, p, ap (λ o. o.0.flow) (sym e), ap (λ o. o.1) e) v
  end_raw-Goes i filter turns closing flow s p v (session, finished panicked) e = only_ended i s v

  end_http-Goes :
      (i : ℕ) (alone : Bool) (hyper : ProxyHyper w U T) (s : Running w U T)
      → Called w service hyper
      → IsSound w service s
      → Goes w service s (end_http w i (into_flow w alone hyper) s)
  unfolding end_http into_flow
  end_http-Goes i true hyper s b v = ended i (http hyper.inner.flow) s (hyper, b, refl) v
  end_http-Goes i false hyper s b v = only_ended i s v

  called :
      (i : ℕ) (hyper : ProxyHyper w U T) (s : Running w U T)
      → Called w service hyper
      → IsSound w service s
      → Goes w service s (record s { tasks = set s.tasks i (some (http_task hyper)) })
  called i hyper s b v = (
    record {
      tasks = All-set (IsReady w service) s.tasks i (some (http_task hyper)) v.tasks b;
      received = v.received;
      waiting = v.waiting;
      refused = v.refused;
      bounded = v.bounded;
    },
    λ o. (o, ([], sym (append-nil (handed w service s)))),
  )

  next-Called :
      (c : Calling w U T) (hyper : ProxyHyper w U T)
      → Called w service hyper
      → Called w service
          (call_service w c.script c.script' c.server c.now c.later c.incoming hyper).0
  unfolding call_service
  next-Called c hyper (cs, flow, fresh, e) =
      let d = limited_calling w hyper.max_body c in
      (
        cs ++ d ∷ [],
        flow,
        fresh,
        ap (λ i. (call w d.script d.script' d.server d.now d.later d.incoming i).0) e
            ∙ sym (run_calls_one_more w cs d (new_proxy_hyper w U T hyper.max_body flow).inner),
      )

  pub on_task-Goes :
      (e : Event w U T) (i : ℕ) (s : Running w U T)
      → IsSound w service s
      → (t : Option (Option (Task w U T))) → get_elem? s.tasks i ≡ t
      → Goes w service s (on_task w e t s)
  unfolding on_task
  on_task-Goes (raw_ends j filter turns closing) i s v (some (some (raw_task flow))) h =
      end_raw-Goes j filter turns closing flow s
        (All-get (IsReady w service) s.tasks i (some (raw_task flow)) v.tasks h) v
        (handle_flow filter turns closing flow) refl
  on_task-Goes (calls j script script' server now later incoming) i s v
        (some (some (http_task hyper))) h =
      called j (call_service w script script' server now later incoming hyper).0 s
        (next-Called
          (record {
            script = script;
            script' = script';
            server = server;
            now = now;
            later = later;
            incoming = incoming;
          })
          hyper (All-get (IsReady w service) s.tasks i (some (http_task hyper)) v.tasks h))
        v
  on_task-Goes (http_ends j alone) i s v (some (some (http_task hyper))) h =
      end_http-Goes j alone hyper s
        (All-get (IsReady w service) s.tasks i (some (http_task hyper)) v.tasks h) v
  on_task-Goes (raw_ends j filter turns closing) i s v none h = stays w service s v
  on_task-Goes (raw_ends j filter turns closing) i s v (some none) h = stays w service s v
  on_task-Goes (raw_ends j filter turns closing) i s v (some (some (http_task hyper))) h =
      stays w service s v
  on_task-Goes _ i s v _ h = stays w service s v

  opening_hook :
      (script : Option (HttpScript w U T)) (flow : WebFlow w U T)
      → (c : ControlFlow) × (run_hook (on_http_open w) script flow ≡ (flow, c))
  unfolding on_http_open
  opening_hook none flow = (go_on, refl)
  opening_hook (some script) flow = elim (Option-cases script.http_open) [
    | inl e ↦ (go_on, rw (e, on_http_open) refl)
    | inr (func, e) ↦ (
      open_control (open_result (func (new_py_http_flow flow.id flow.start none none))),
      rw (e, on_http_open) refl,
    )
  ]

  open_http-IsReady :
      (max_body : ℕ) (script : Option (HttpScript w U T)) (flow : WebFlow w U T)
      → FreshHttp w service flow
      → IsReady w service (open_http w max_body script flow)
  unfolding open_http new_proxy_hyper run_calls
  open_http-IsReady max_body script flow b = let (c, e) = opening_hook script flow in go c e
    where
      go :
          (c : ControlFlow)
          → run_hook (on_http_open w) script flow ≡ (flow, c)
          → IsReady w service (open_http w max_body script flow)
      go break e = rw (ap (λ o. o.1) e, open_http) tt
      go go_on e = rw (ap (λ o. o.1) e, open_http, ap (λ o. o.0) e) ([], flow, b, refl)

  pub accept_one-IsReady : (visit : Visit w U T) → IsReady w service (accept_one w service visit)
  unfolding accept_one
  accept_one-IsReady visit = elim (Option-cases visit.accepted) [
    | inl e ↦ rw (e, accept_one) tt
    | inr (addr, e) ↦ elim (Bool-cases visit.connected) [
      | inr off ↦ rw (e, accept_one, off) tt
      | inl on ↦ elim (Option-cases service.http_config) [
        | inl k ↦ rw (e, accept_one, on, k) (visit.id, visit.now, addr, refl)
        | inr (config, k) ↦ elim (Bool-cases visit.handshake) [
          | inr failed ↦ rw (e, accept_one, on, k, failed) tt
          | inl shaken ↦
              rw (e, accept_one, on, k, shaken)
                (open_http-IsReady config.max_body visit.script _ (visit.id, visit.now, addr, refl))
        ]
      ]
    ]
  ]

  pub add_task-Goes :
      (t : Option (Task w U T)) (s : Running w U T)
      → IsReady w service t
      → IsSound w service s
      → Goes w service s (add_task w t s)
  unfolding add_task
  add_task-Goes none s p v = stays w service s v
  add_task-Goes (some t) s p v = (
    record {
      tasks = All-push (IsReady w service) s.tasks (some t) v.tasks p;
      received = v.received;
      waiting = v.waiting;
      refused = v.refused;
      bounded = v.bounded;
    },
    λ o. (o, ([], sym (append-nil (handed w service s)))),
  )
