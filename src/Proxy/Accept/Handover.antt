-- ===== src/Proxy/Accept/Handover.antt =====
-- The hand-over of a flow to the dumper (src/proxy/mod.rs), and what it keeps.
use mini_proxad.Prelude.{
  ℕ, ◌≤◌, ◌<◌, ◌≡◌, refl, sym, ap, ◌∙◌, Option, none, some, Option-cases, All-push, All-set, Bool,
  true, false, Bool-cases, List, [], ◌∷◌, ◌++◌, ◌&&◌, length, length-append, ltb, ltb→lt, All, inl,
  inr, append_assoc, append-nil, arith, Result, subst,
}
use mini_proxad.Net.{SocketAddr}
use mini_proxad.Http.{HttpCrate, Request, Response}
use mini_proxad.Http.Extract.{PyHttpReq, PyHttpResp}
use mini_proxad.Flow.{RawFlow, raw, http, new_raw_flow, new_http_flow}
use mini_proxad.Tls.{Rustls}
use mini_proxad.Proxy.Raw.{Ready, Closing, finished, handle_flow}
use mini_proxad.Filter.Http.{WebFlow}
use mini_proxad.Proxy.Hyper.{ProxyHyper, new_proxy_hyper}
use mini_proxad.Proxy.Hyper.Sequence.{Calling, run_calls}
use mini_proxad.Proxy.Dumper.Start.{dump_channel_limit}
use mini_proxad.Proxy.Accept.{
  Channel, try_send, WebFilter, AnyFlow, WebService, Task, raw_task, http_task, Running, hand_over,
  end_task, close_channel,
}

abbrev pub queue_of : {F : Type 0} → Option (Channel F) → List F
queue_of none = []
queue_of (some c) = c.queue

abbrev pub is_open_dumper : {F : Type 0} → Option (Channel F) → Bool
is_open_dumper none = false
is_open_dumper (some c) = c.is_open

module _ (w : HttpCrate) {U T : Type 0} {r : Rustls} (service : WebService w U T r) where
  -- A raw flow as it is made for a connection: between a client and the service, with nothing recorded.
  abbrev pub Fresh : RawFlow U T → Type 0
  Fresh flow =
      (id : U) × (now : T) × (client_addr : SocketAddr) × (flow
        ≡ new_raw_flow id now client_addr service.client_max_history service.server_addr
            service.server_max_history)

  -- Likewise an HTTP flow, and what a service has left of it after some calls.
  abbrev pub FreshHttp : WebFlow w U T → Type 0
  FreshHttp flow =
      (id : U) × (now : T) × (client_addr : SocketAddr) × (flow
        ≡ new_http_flow (Request w) (Response w) id now client_addr service.client_max_history
            service.server_addr service.server_max_history)

  abbrev pub Called : ProxyHyper w U T → Type 0
  Called hyper =
      (cs : List (Calling w U T)) × (flow : WebFlow w U T) × FreshHttp flow
      × (hyper.inner ≡ run_calls w cs (new_proxy_hyper w U T hyper.max_body flow).inner)

  -- Where a flow that is handed over comes from: a raw flow is what `handle_flow` has left of a fresh
  -- one, at the end of its work; an HTTP flow is what the calls of a service have left of a fresh one.
  abbrev pub Served : AnyFlow w U T → Type 0
  Served (raw f) =
      (filter : Option (WebFilter w U T)) × (turns : List (Ready U T (PyHttpReq w) (PyHttpResp w)))
      × (closing : Closing) × (flow : RawFlow U T) × (result : Result (Unit {0})) × Fresh flow
      × (f ≡ (handle_flow filter turns closing flow).0.flow)
      × ((handle_flow filter turns closing flow).1 ≡ finished result)
  Served (http f) = (hyper : ProxyHyper w U T) × Called hyper × (f ≡ hyper.inner.flow)

  abbrev pub IsReady : Option (Task w U T) → Type 0
  IsReady none = Unit
  IsReady (some (raw_task flow)) = Fresh flow
  IsReady (some (http_task hyper)) = Called hyper

  pub record IsSound (s : Running w U T) : Type 0 where
    pub tasks : All IsReady s.tasks
    pub received : All Served s.received
    pub waiting : All Served (queue_of s.dumper)
    pub refused : All Served s.refused
    pub bounded : length (queue_of s.dumper) ≤ dump_channel_limit

  -- What the dumper has got and what waits for it, in the order of the hand-overs.
  abbrev pub handed : Running w U T → List (AnyFlow w U T)
  handed s = s.received ++ queue_of s.dumper

  -- If the dumper still runs it has run before, and the flows that had been handed over are the first
  -- ones still.
  abbrev pub Extends : Running w U T → Running w U T → Type 0
  Extends s s' =
      is_open_dumper s'.dumper ≡ true
      → (is_open_dumper s.dumper ≡ true)
        × ((rest : List (AnyFlow w U T)) × (handed s' ≡ handed s ++ rest))

  abbrev pub Goes : Running w U T → Running w U T → Type 0
  Goes s s' = IsSound s' × Extends s s'

  pub stays : (s : Running w U T) → IsSound s → Goes s s
  stays s v = (v, λ e. (e, ([], sym (append-nil (handed s)))))

  pub end_task-IsSound : (i : ℕ) (s : Running w U T) → IsSound s → IsSound (end_task w i s)
  end_task-IsSound i s v = record {
    tasks = All-set IsReady s.tasks i none v.tasks tt;
    received = v.received;
    waiting = v.waiting;
    refused = v.refused;
    bounded = v.bounded;
  }

  module _ (s : Running w U T) (v : IsSound s) (c : Channel (AnyFlow w U T))
      (e : s.dumper ≡ some c) where
    waits : All Served c.queue
    waits = subst (λ d. All Served (queue_of d)) e v.waiting

    few : length c.queue ≤ dump_channel_limit
    few = subst (λ d. length (queue_of d) ≤ dump_channel_limit) e v.bounded

    same_open : is_open_dumper s.dumper ≡ c.is_open
    same_open = ap is_open_dumper e

    same_queue : queue_of s.dumper ≡ c.queue
    same_queue = ap queue_of e

    queued :
        (f : AnyFlow w U T)
        → Served f
        → c.is_open ≡ true
        → length c.queue < dump_channel_limit
        → Goes s (record s { dumper = some (record c { queue = c.queue ++ f ∷ [] }) })
    queued f p o l = (
      record {
        tasks = v.tasks;
        received = v.received;
        waiting = All-push Served c.queue f waits p;
        refused = v.refused;
        bounded = omega (arith, length-append c.queue (f ∷ []));
      },
      λ _.
          (same_open ∙ o, (f ∷ [], rw same_queue (sym (append_assoc s.received c.queue (f ∷ []))))),
    )

    turned_away :
        (f : AnyFlow w U T)
        → Served f
        → Goes s (record s { dumper = some c; refused = s.refused ++ f ∷ [] })
    turned_away f p = (
      record {
        tasks = v.tasks;
        received = v.received;
        waiting = waits;
        refused = All-push Served s.refused f v.refused p;
        bounded = few;
      },
      λ o. (same_open ∙ o, ([], rw same_queue (sym (append-nil (s.received ++ c.queue))))),
    )

    pub taken :
        (f : AnyFlow w U T) (fs : List (AnyFlow w U T))
        → c.queue ≡ f ∷ fs
        → Goes s
            (record s { dumper = some (record c { queue = fs }); received = s.received ++ f ∷ [] })
    taken f fs q =
        let split : All Served (f ∷ fs) = subst (All Served) q waits in
        (
          record {
            tasks = v.tasks;
            received = All-push Served s.received f v.received split.0;
            waiting = split.1;
            refused = v.refused;
            bounded = omega (arith, ap length q, few);
          },
          λ o. (
            same_open ∙ o,
            (
              [],
              rw (same_queue, q)
                  (append_assoc s.received (f ∷ []) fs ∙ sym (append-nil (s.received ++ f ∷ fs))),
            ),
          ),
        )

    pub closed : Goes s (record s { dumper = some (close_channel w c) })
    unfolding close_channel
    closed = (
      record {
        tasks = v.tasks;
        received = v.received;
        waiting = tt;
        refused = v.refused;
        bounded = omega arith;
      },
      λ o. cc,
    )

  -- A flow is handed over only while the dumper runs and fewer than the limit wait.
  pub hand_over-Goes :
      (f : AnyFlow w U T) (s : Running w U T) → Served f → IsSound s → Goes s (hand_over w f s)
  unfolding hand_over try_send
  hand_over-Goes f s p v = elim (Option-cases s.dumper) [
    | inl e ↦
        let same : hand_over w f s ≡ s = simp (e, hand_over) in
        subst (Goes s) (sym same) (stays s v)
    | inr (c, e) ↦ elim (Bool-cases (c.is_open && ltb (length c.queue) dump_channel_limit)) [
      | inl t ↦
          let same : hand_over w f s
              ≡ record s { dumper = some (record c { queue = c.queue ++ f ∷ [] }) } =
            rw (e, hand_over, t) refl in
          subst (Goes s) (sym same) (
            queued s v c e f p (ground arith)
              (ltb→lt (length c.queue) dump_channel_limit (ground arith)))
      | inr t ↦
          let same : hand_over w f s ≡ record s { dumper = some c; refused = s.refused ++ f ∷ [] } =
            rw (e, hand_over, t) refl in
          subst (Goes s) (sym same) (turned_away s v c e f p)
    ]
  ]

  pub then_Goes :
      (s s' t : Running w U T)
      → s.received ≡ s'.received
      → s.dumper ≡ s'.dumper
      → Goes s' t
      → Goes s t
  then_Goes s s' t er ed g = (
    g.0,
    λ o.
        let (before, (rest, h)) = g.1 o in
        (ap is_open_dumper ed ∙ before, (rest, h ∙ rw (er, ed) refl)),
  )
