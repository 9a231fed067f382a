-- ===== src/Proxy/Accept.antt =====
-- src/proxy/mod.rs, `handle_accept`: the loop over the connections, the tasks that it spawns, and
-- the channel to the dumper's task, which holds `DUMP_CHANNEL_LIMIT` flows. The environment chooses
-- the order of events: a connection, a call of an HTTP connection, the end of a task, and what the
-- dumper does.
pub mod Handover
pub mod Tasks
pub mod Delivery
pub mod Outcomes
pub mod Numbers
pub mod Offers
pub mod Moves
pub mod Steps
pub mod Isolation
use mini_proxad.Prelude.{
  ℕ, zero, suc, ◌+◌, Option, none, some, Bool, true, false, List, [], ◌∷◌, ◌++◌, ◌&&◌, length,
  get_elem?, set, ltb, if◌then◌else◌, Result, ok, err, panicked, ControlFlow, go_on, break,
}
use mini_proxad.Net.{SocketAddr}
use mini_proxad.Http.{HttpCrate, Request, Response}
use mini_proxad.Http.Extract.{PyHttpReq, PyHttpResp}
use mini_proxad.Flow.{RawFlow, Flow, raw, http, new_raw_flow, new_http_flow}
use mini_proxad.Filter.{Filter}
use mini_proxad.Filter.Http.{HttpScript, WebFlow, on_http_open, run_hook}
use mini_proxad.Tls.{Rustls}
use mini_proxad.Service.{Service}
use mini_proxad.Proxy.Raw.{Ready, Closing, Progress, running, finished, Session, handle_flow}
use mini_proxad.Proxy.Hyper.{ProxyHyper, Answer, Incoming, new_proxy_hyper, call_service}
use mini_proxad.Proxy.Dumper.Start.{dump_channel_limit}

-- `mpsc::sync_channel`: what waits in it, oldest first, and whether the receiver is still there.
pub record Channel (F : Type 0) : Type 0 where
  pub queue : List F
  pub is_open : Bool

unfoldable pub try_send : {F : Type 0} → Channel F → F → Channel F × Bool
try_send c f =
    if c.is_open && ltb (length c.queue) dump_channel_limit
    then (record c { queue = c.queue ++ f ∷ [] }, true)
    else (c, false)

module _ (w : HttpCrate) (U T : Type 0) where
  abbrev pub WebFilter : Type 0
  WebFilter = Filter U T (PyHttpReq w) (PyHttpResp w)

  abbrev pub AnyFlow : Type 0
  AnyFlow = Flow U T (Request w) (Response w)

  abbrev pub WebService : Rustls → Type 0
  WebService r = Service r U T (PyHttpReq w) (PyHttpResp w)

  -- What a spawned task owns: the flow of `handle_flow`, or that of the HTTP service.
  pub data Task : Type 0 where
    raw_task : RawFlow U T → Task
    http_task : ProxyHyper w U T → Task

  -- What one round of the loop meets: `none` and `false` are errors; with the fresh id, the reading of
  -- the clock and the filter at the opening of an HTTP flow.
  pub record Visit : Type 0 where
    pub accepted : Option SocketAddr
    pub connected : Bool
    pub handshake : Bool
    pub id : U
    pub now : T
    pub script : Option (HttpScript w U T)

  -- The tasks, `none` where one has ended; what the dumper has taken out of the channel; and the flows
  -- of the warnings that they could not be sent.
  pub record Running : Type 0 where
    pub tasks : List (Option Task)
    pub dumper : Option (Channel AnyFlow)
    pub received : List AnyFlow
    pub refused : List AnyFlow

  pub data Event : Type 0 where
    visits : Visit → Event
    raw_ends :
        ℕ → Option WebFilter → List (Ready U T (PyHttpReq w) (PyHttpResp w)) → Closing → Event
    calls :
        ℕ
        → Option (HttpScript w U T)
        → Option (HttpScript w U T)
        → (Request w → Answer w)
        → (now later : T) → Incoming (Request w)
        → Event
    -- `true`: the connection to the client has dropped the other handle of the service.
    http_ends : ℕ → Bool → Event
    receives dumper_ends : Event

module _ (w : HttpCrate) {U T : Type 0} where
  -- The HTTP branch, once both streams are there.
  unfoldable pub open_http : ℕ → Option (HttpScript w U T) → WebFlow w U T → Option (Task w U T)
  open_http max_body script flow =
      let (flow', control) = run_hook (on_http_open w) script flow in
      elim control [
        | break ↦ none
        | go_on ↦ some (http_task (new_proxy_hyper w U T max_body flow'))
      ]

  -- `channel.try_send(..)`, where there is a dumper.
  unfoldable pub hand_over : AnyFlow w U T → Running w U T → Running w U T
  hand_over flow s = elim s.dumper [
    | none ↦ s
    | some channel ↦
        let (channel', sent) = try_send channel flow in
        if sent
        then record s { dumper = some channel' }
        else record s { dumper = some channel'; refused = s.refused ++ flow ∷ [] }
  ]

  abbrev pub end_task : ℕ → Running w U T → Running w U T
  end_task i s = record s { tasks = set s.tasks i none }

  -- The end of the task of a raw flow, if it has come so far. A panic ends it with no hand-over.
  unfoldable pub end_raw : ℕ → Session U T × Progress → Running w U T → Running w U T
  end_raw i (session, running) s = s
  end_raw i (session, finished (ok u)) s = hand_over (raw session.flow) (end_task i s)
  end_raw i (session, finished (err e)) s = hand_over (raw session.flow) (end_task i s)
  end_raw i (session, finished panicked) s = end_task i s

  -- `into_flow`: only the last handle gets the flow.
  unfoldable pub into_flow : Bool → ProxyHyper w U T → Option (WebFlow w U T)
  into_flow true hyper = some hyper.inner.flow
  into_flow false hyper = none

  unfoldable pub end_http : ℕ → Option (WebFlow w U T) → Running w U T → Running w U T
  end_http i none s = end_task i s
  end_http i (some flow) s = hand_over (http flow) (end_task i s)

  -- `recv` of the dumper, and the end of its task, which drops what waits.
  unfoldable pub take_one : Channel (AnyFlow w U T) → Running w U T → Running w U T
  take_one channel s = elim channel.queue [
    | [] ↦ s
    | f ∷ fs ↦ record s {
      dumper = some (record channel { queue = fs });
      received = s.received ++ f ∷ [];
    }
  ]

  unfoldable pub close_channel : Channel (AnyFlow w U T) → Channel (AnyFlow w U T)
  close_channel channel = record { queue = []; is_open = false }

  unfoldable pub add_task : Option (Task w U T) → Running w U T → Running w U T
  add_task none s = s
  add_task (some t) s = record s { tasks = s.tasks ++ some t ∷ [] }

  unfoldable pub on_task :
      Event w U T → Option (Option (Task w U T)) → Running w U T → Running w U T
  on_task (raw_ends i filter turns closing) (some (some (raw_task flow))) s =
      end_raw i (handle_flow filter turns closing flow) s
  on_task (calls i script script' server now later incoming) (some (some (http_task hyper))) s =
      record s {
        tasks =
            set s.tasks i
              (some (http_task (call_service w script script' server now later incoming hyper).0));
      }
  on_task (http_ends i alone) (some (some (http_task hyper))) s =
      end_http i (into_flow alone hyper) s
  on_task e t s = s

  unfoldable pub on_dumper :
      Event w U T → Option (Channel (AnyFlow w U T)) → Running w U T → Running w U T
  on_dumper receives (some channel) s = take_one channel s
  on_dumper dumper_ends (some channel) s = record s { dumper = some (close_channel channel) }
  on_dumper e c s = s

  -- A proxy that has just been started, with a dumper or without.
  unfoldable pub started : Bool → Running w U T
  started dumping = record {
    tasks = [];
    dumper = if dumping then some (record { queue = []; is_open = true }) else none;
    received = [];
    refused = [];
  }

module _ (w : HttpCrate) {U T : Type 0} {r : Rustls} where
  -- The body of the loop: the task that it spawns, if any.
  unfoldable pub accept_one : WebService w U T r → Visit w U T → Option (Task w U T)
  accept_one service v = elim v.accepted [
    | none ↦ none
    | some client_addr ↦
        if v.connected
        then elim service.http_config [
          | some config ↦
              if v.handshake
              then open_http w config.max_body v.script (
                  new_http_flow (Request w) (Response w) v.id v.now client_addr
                    service.client_max_history service.server_addr service.server_max_history)
              else none
          | none ↦ some (
              raw_task (
                new_raw_flow v.id v.now client_addr service.client_max_history service.server_addr
                  service.server_max_history))
        ]
        else none
  ]

  -- One event; one that no task is ready for changes nothing.
  unfoldable pub step : WebService w U T r → Event w U T → Running w U T → Running w U T
  step service (visits v) s = add_task w (accept_one service v) s
  step service (raw_ends i filter turns closing) s =
      on_task w (raw_ends i filter turns closing) (get_elem? s.tasks i) s
  step service (calls i script script' server now later incoming) s =
      on_task w (calls i script script' server now later incoming) (get_elem? s.tasks i) s
  step service (http_ends i alone) s = on_task w (http_ends i alone) (get_elem? s.tasks i) s
  step service receives s = on_dumper w receives s.dumper s
  step service dumper_ends s = on_dumper w dumper_ends s.dumper s

  unfoldable pub run : WebService w U T r → List (Event w U T) → Running w U T → Running w U T
  run service [] s = s
  run service (e ∷ es) s = run service es (step service e s)
