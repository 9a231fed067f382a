-- ===== src/Proxy/Accept/Outcomes.antt =====
-- What each connection of `handle_accept` (src/proxy/mod.rs) comes to when it is looked at alone: only
-- the events of its own task, after it has been accepted.
use mini_proxad.Prelude.{
  ℕ, suc, Option, none, some, Bool, true, false, List, [], ◌∷◌, ◌==◌, map, if◌then◌else◌, ok, err,
  panicked,
}
use mini_proxad.Http.{HttpCrate}
use mini_proxad.Flow.{RawFlow, raw, http}
use mini_proxad.Tls.{Rustls}
use mini_proxad.Proxy.Raw.{Progress, running, finished, Session, handle_flow}
use mini_proxad.Proxy.Hyper.{ProxyHyper}
use mini_proxad.Proxy.Hyper.Sequence.{Calling, limited_calling, run_calls}
use mini_proxad.Proxy.Accept.{
  AnyFlow, WebService, Task, raw_task, http_task, Event, visits, raw_ends, calls, http_ends,
  receives, dumper_ends, accept_one,
}

-- The task that is left, if it has not ended, and the flow that it has given to the dumper.
abbrev pub Outcome : HttpCrate → Type 0 → Type 0 → Type 0
Outcome w U T = Option (Task w U T) × Option (AnyFlow w U T)

module _ (w : HttpCrate) {U T : Type 0} where
  -- The calls of the connection with this number up to its end, and whether it then has the only
  -- handle of the flow; `none`: it has not ended.
  unfoldable pub own_calls : ℕ → List (Event w U T) → List (Calling w U T) × Option Bool
  own_calls k [] = ([], none)
  own_calls k (calls j script script' server now later incoming ∷ es) =
      let rest = own_calls k es in
      if j == k
      then (
        record {
          script = script;
          script' = script';
          server = server;
          now = now;
          later = later;
          incoming = incoming;
        }
            ∷ rest.0,
        rest.1,
      )
      else rest
  own_calls k (http_ends j alone ∷ es) =
      let rest = own_calls k es in if j == k then ([], some alone) else rest
  own_calls k (visits v ∷ es) = own_calls k es
  own_calls k (raw_ends j filter turns closing ∷ es) = own_calls k es
  own_calls k (receives ∷ es) = own_calls k es
  own_calls k (dumper_ends ∷ es) = own_calls k es

  -- The service after these calls, each with the messages that its limit lets through.
  abbrev pub all_called : List (Calling w U T) → ProxyHyper w U T → ProxyHyper w U T
  all_called cs hyper = record hyper {
    inner = run_calls w (map (limited_calling w hyper.max_body) cs) hyper.inner;
  }

  -- All calls of the connection have reached the flow, which is given away at the end.
  abbrev pub http_outcome : List (Calling w U T) × Option Bool → ProxyHyper w U T → Outcome w U T
  http_outcome (cs, none) hyper = (some (http_task (all_called cs hyper)), none)
  http_outcome (cs, some true) hyper = (none, some (http (all_called cs hyper).inner.flow))
  http_outcome (cs, some false) hyper = (none, none)

  -- The whole work of `handle_flow`; if it has not come to its end, it is looked at again later.
  abbrev pub raw_end : Session U T × Progress → Outcome w U T → Outcome w U T
  raw_end (session, running) later = later
  raw_end (session, finished (ok u)) later = (none, some (raw session.flow))
  raw_end (session, finished (err e)) later = (none, some (raw session.flow))
  raw_end (session, finished panicked) later = (none, none)

  unfoldable pub raw_outcome : ℕ → List (Event w U T) → RawFlow U T → Outcome w U T
  raw_outcome k [] flow = (some (raw_task flow), none)
  raw_outcome k (raw_ends j filter turns closing ∷ es) flow =
      let rest = raw_outcome k es flow in
      if j == k then raw_end (handle_flow filter turns closing flow) rest else rest
  raw_outcome k (calls j script script' server now later incoming ∷ es) flow = raw_outcome k es flow
  raw_outcome k (http_ends j alone ∷ es) flow = raw_outcome k es flow
  raw_outcome k (visits v ∷ es) flow = raw_outcome k es flow
  raw_outcome k (receives ∷ es) flow = raw_outcome k es flow
  raw_outcome k (dumper_ends ∷ es) flow = raw_outcome k es flow

  unfoldable pub outcome : ℕ → List (Event w U T) → Option (Task w U T) → Outcome w U T
  outcome k es none = (none, none)
  outcome k es (some (raw_task flow)) = raw_outcome k es flow
  outcome k es (some (http_task hyper)) = http_outcome (own_calls k es) hyper

  -- Of tasks with the numbers from `k` on.
  unfoldable pub outcomes :
      ℕ → List (Event w U T) → List (Option (Task w U T)) → List (Outcome w U T)
  outcomes k es [] = []
  outcomes k es (t ∷ ts) = outcome k es t ∷ outcomes (suc k) es ts

  abbrev pub left : List (Outcome w U T) → List (Option (Task w U T))
  left = map λ o. o.0

  abbrev pub given_by : Option (AnyFlow w U T) → List (AnyFlow w U T) → List (AnyFlow w U T)
  given_by none fs = fs
  given_by (some f) fs = f ∷ fs

  -- The flows that are given to the dumper, by connection.
  abbrev pub shares : List (Outcome w U T) → List (AnyFlow w U T)
  shares [] = []
  shares (o ∷ os) = given_by o.1 (shares os)

-- The connections that are accepted from now on, each with what comes after it.
module _ (w : HttpCrate) {U T : Type 0} {r : Rustls} (service : WebService w U T r) where
  abbrev pub numbered :
      ℕ
      → List (Event w U T)
      → Option (Task w U T)
      → (ℕ → List (Outcome w U T))
      → List (Outcome w U T)
  numbered n es none next = next n
  numbered n es (some t) next = outcome w n es (some t) ∷ next (suc n)

  unfoldable pub connections : ℕ → List (Event w U T) → List (Outcome w U T)
  connections n [] = []
  connections n (visits v ∷ es) = numbered n es (accept_one w service v) (λ m. connections m es)
  connections n (raw_ends j filter turns closing ∷ es) = connections n es
  connections n (calls j script script' server now later incoming ∷ es) = connections n es
  connections n (http_ends j alone ∷ es) = connections n es
  connections n (receives ∷ es) = connections n es
  connections n (dumper_ends ∷ es) = connections n es
