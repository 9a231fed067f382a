-- ===== src/Proxy/Accept/Delivery.antt =====
-- What reaches the dumper of the connections that `handle_accept` (src/proxy/mod.rs) has served.
use mini_proxad.Prelude.{
  ◌≡◌, refl, sym, ◌∙◌, Option, none, some, Bool, true, false, List, [], ◌∷◌, ◌++◌, get_elem?,
  append_assoc, arith, subst,
}
use mini_proxad.Http.{HttpCrate}
use mini_proxad.Tls.{Rustls}
use mini_proxad.Proxy.Accept.{
  Channel, AnyFlow, WebService, Running, Event, visits, raw_ends, calls, http_ends, receives,
  dumper_ends, accept_one, take_one, on_dumper, step, run, started,
}
use mini_proxad.Proxy.Accept.Handover.{IsSound, handed, Extends, Goes, stays, taken, closed}
use mini_proxad.Proxy.Accept.Tasks.{on_task-Goes, add_task-Goes, accept_one-IsReady}

module _ (w : HttpCrate) {U T : Type 0} {r : Rustls} (service : WebService w U T r) where
  take_one-Goes :
      (c : Channel (AnyFlow w U T)) (s : Running w U T)
      → IsSound w service s
      → s.dumper ≡ some c
      → (q : List (AnyFlow w U T)) → c.queue ≡ q
      → Goes w service s (take_one w c s)
  unfolding take_one
  take_one-Goes c s v e [] h =
      let same : take_one w c s ≡ s = simp (h, take_one) in
      subst (Goes w service s) (sym same) (stays w service s v)
  take_one-Goes c s v e (f ∷ fs) h =
      let same : take_one w c s
          ≡ record s { dumper = some (record c { queue = fs }); received = s.received ++ f ∷ [] } =
        rw (h, take_one) refl in
      subst (Goes w service s) (sym same) (taken w service s v c e f fs h)

  on_dumper-Goes :
      (e : Event w U T) (d : Option (Channel (AnyFlow w U T))) (s : Running w U T)
      → IsSound w service s
      → s.dumper ≡ d
      → Goes w service s (on_dumper w e d s)
  unfolding on_dumper
  on_dumper-Goes receives (some c) s v h = take_one-Goes c s v h c.queue refl
  on_dumper-Goes dumper_ends (some c) s v h = closed w service s v c h
  on_dumper-Goes receives none s v h = stays w service s v
  on_dumper-Goes _ d s v h = stays w service s v

  step-Goes :
      (e : Event w U T) (s : Running w U T)
      → IsSound w service s
      → Goes w service s (step w service e s)
  unfolding step
  step-Goes (visits visit) s v =
      add_task-Goes w service (accept_one w service visit) s (accept_one-IsReady w service visit) v
  step-Goes (raw_ends i filter turns closing) s v =
      on_task-Goes w service (raw_ends i filter turns closing) i s v (get_elem? s.tasks i) refl
  step-Goes (calls i script script' server now later incoming) s v =
      on_task-Goes w service (calls i script script' server now later incoming) i s v
        (get_elem? s.tasks i) refl
  step-Goes (http_ends i alone) s v =
      on_task-Goes w service (http_ends i alone) i s v (get_elem? s.tasks i) refl
  step-Goes receives s v = on_dumper-Goes receives s.dumper s v refl
  step-Goes dumper_ends s v = on_dumper-Goes dumper_ends s.dumper s v refl

  Goes-trans :
      (s t u : Running w U T) → Goes w service s t → Goes w service t u → Goes w service s u
  Goes-trans s t u g h = (
    h.0,
    λ o.
        let (open_t, (later, e)) = h.1 o in
        let (open_s, (rest, k)) = g.1 open_t in
        (open_s, (rest ++ later, e ∙ rw k (append_assoc (handed w service s) rest later))),
  )

  -- From a sound state, over any events: every flow that is handed over to the dumper, whether it has
  -- been taken, waits or was refused, is what `handle_flow` has left of a fresh raw flow at its end, or
  -- what some calls of the service have left of a fresh HTTP flow; never more flows wait than the
  -- channel holds; and as long as the dumper runs, flows are taken in the order in which they were
  -- handed over, and none that was accepted by the channel is lost.
  pub run-Sound :
      (es : List (Event w U T)) (s : Running w U T)
      → IsSound w service s
      → IsSound w service (run w service es s) × Extends w service s (run w service es s)
  unfolding run
  run-Sound [] s v = stays w service s v
  run-Sound (e ∷ es) s v =
      let first = step-Goes e s v in
      Goes-trans s (step w service e s) (run w service es (step w service e s)) first
        (run-Sound es (step w service e s) first.0)

  pub started-IsSound : (dumping : Bool) → IsSound w service (started w dumping)
  unfolding started
  started-IsSound true = record {
    tasks = tt;
    received = tt;
    waiting = tt;
    refused = tt;
    bounded = omega arith;
  }
  started-IsSound false = record {
    tasks = tt;
    received = tt;
    waiting = tt;
    refused = tt;
    bounded = omega arith;
  }
