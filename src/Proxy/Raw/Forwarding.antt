-- ===== src/Proxy/Raw/Forwarding.antt =====
-- Whole raw flows: `handle_flow` of src/proxy/mod.rs over any sequence of rounds.
use mini_proxad.Prelude.{
  arith, inr, inl, Option-cases, ℕ, ◌≡◌, refl, ◌≢◌, Option, none, some, List, [], ◌∷◌, Result, ok,
  err, panicked, ControlFlow, go_on, break,
}
use mini_proxad.Net.{SocketAddr}
use mini_proxad.History.Raw.{new_raw_history}
use mini_proxad.Flow.{RawFlow, new_raw_flow}
use mini_proxad.Filter.{Filter, run_filter, new_py_raw_flow_empty}
use mini_proxad.Filter.Raw.{on_raw_open, open_control, open_result}
use mini_proxad.Proxy.Raw.{
  Session, Ready, from_client, from_server, turn, run_turns, opened, Closing, close_streams,
  Progress, running, finished, after_loop, handle_flow,
}
use mini_proxad.Proxy.Raw.Sync.{
  BothTiled, IsSynced, IsBehind, Keeps, IsSynced-IsBehind, BothReadable, BothTiled-BothReadable,
}
use mini_proxad.Proxy.Raw.ClientSide.{client_turn-Keeps}
use mini_proxad.Proxy.Raw.ServerSide.{server_turn-Keeps}

module _ {U T Q R : Type 0} where
  turn-Keeps : (r : Ready U T Q R) (s : Session U T) → IsSynced s → Keeps (turn r s).0 (turn r s).1
  unfolding turn
  turn-Keeps (from_client t) s v = client_turn-Keeps t s v
  turn-Keeps (from_server t) s v = server_turn-Keeps t s v

  run_turns-Keeps :
      (rs : List (Ready U T Q R)) (s : Session U T)
      → IsSynced s
      → Keeps (run_turns rs s).0 (run_turns rs s).1
  unfolding run_turns
  run_turns-Keeps [] s v = record {
    sound = λ x. cc;
    tiled = λ _ _. (v.client, v.server);
    synced = λ _. v;
    behind = IsSynced-IsBehind s v;
    readable = BothTiled-BothReadable s.flow (v.client, v.server);
  }
  run_turns-Keeps (r ∷ rs) s v =
      go (turn r s).1 refl (turn-Keeps r s v) (λ e. run_turns-Keeps rs (turn r s).0 e)
    where
      go :
          (c : Result ControlFlow)
          → (turn r s).1 ≡ c
          → Keeps (turn r s).0 (turn r s).1
          → (IsSynced (turn r s).0
              → Keeps (run_turns rs (turn r s).0).0 (run_turns rs (turn r s).0).1)
          → Keeps (run_turns (r ∷ rs) s).0 (run_turns (r ∷ rs) s).1
      go (ok go_on) e k rest = rw (e, run_turns) (rest (k.synced e))
      go (ok break) e k rest = rw (e, run_turns) (rw e at k)
      go (err x) e k rest = rw (e, run_turns) (rw e at k)
      go panicked e k rest = absurd (k.sound e)

-- The opening hook never panics and leaves the flow as it is.
pub on_raw_open_same :
    {U T Q R : Type 0} (filter : Option (Filter U T Q R)) (flow : RawFlow U T)
    → (c : ControlFlow) × (run_filter filter (λ f. on_raw_open f.inner) flow ≡ ok (flow, c))
unfolding on_raw_open
on_raw_open_same none flow = (go_on, refl)
on_raw_open_same (some f) flow = elim (Option-cases f.inner.raw_open) [
  | inl e ↦ (go_on, rw (e, on_raw_open))
  | inr (func, e) ↦ (
    open_control (open_result (func (new_py_raw_flow_empty flow.id flow.start))),
    rw (e, on_raw_open),
  )
]

new_raw_flow-IsSynced :
    {U T : Type 0} (id : U) (now : T) (ca sa : SocketAddr) (cm sm : ℕ)
    → IsSynced (opened (new_raw_flow id now ca cm sa sm))
unfolding new_raw_flow new_raw_history
new_raw_flow-IsSynced {T = T} id now ca sa cm sm = record {
  client = refl;
  server = refl;
  to_server = refl;
  to_client = refl;
}

-- What a flow has done, however far it has come: it has not panicked, each peer has got a prefix
-- of what is recorded of the other, and while it runs each has got all of it; each chunk can be read.
pub record Forwards {U T : Type 0} (s : Session U T) (p : Progress) : Type 0 where
  pub sound : p ≢ finished panicked
  pub behind : IsBehind s
  pub synced : p ≡ running → IsSynced s
  pub tiled : p ≡ finished (ok tt) → BothTiled s.flow
  pub readable : BothReadable s.flow

close_streams-ne-panicked : (c : Closing) → close_streams c ≢ panicked
unfolding close_streams
close_streams-ne-panicked c = ground arith

after_loop-Forwards :
    {U T : Type 0} (c : Closing) (s : Session U T) (r : Result ControlFlow)
    → Keeps s r
    → Forwards s (after_loop c r)
unfolding after_loop
after_loop-Forwards c s (ok go_on) k = record {
  sound = λ x. cc;
  behind = k.behind;
  readable = k.readable;
  synced = λ _. k.synced refl;
  tiled = λ x. cc;
}
after_loop-Forwards c s (ok break) k = record {
  sound = λ x. close_streams-ne-panicked c (cc);
  behind = k.behind;
  readable = k.readable;
  synced = λ x. cc;
  tiled = λ _. k.tiled break refl;
}
after_loop-Forwards c s (err e) k = record {
  sound = λ x. cc;
  behind = k.behind;
  readable = k.readable;
  synced = λ x. cc;
  tiled = λ x. cc;
}
after_loop-Forwards c s panicked k = absurd (k.sound refl)

module _ {U T Q R : Type 0} where
  handle_flow-Forwards_from :
      (filter : Option (Filter U T Q R)) (turns : List (Ready U T Q R)) (closing : Closing)
      (flow : RawFlow U T)
      → IsSynced (opened flow)
      → let r = handle_flow filter turns closing flow in Forwards r.0 r.1
  unfolding handle_flow
  handle_flow-Forwards_from filter turns closing flow v =
      let (c, e) = on_raw_open_same filter flow in go c e
    where
      go :
          (c : ControlFlow)
          → run_filter filter (λ f. on_raw_open f.inner) flow ≡ ok (flow, c)
          → let r = handle_flow filter turns closing flow in Forwards r.0 r.1
      go break e =
          rw (e, handle_flow)
            (record {
              sound = λ x. cc;
              behind = IsSynced-IsBehind (opened flow) v;
              readable = BothTiled-BothReadable flow (v.client, v.server);
              synced = λ x. cc;
              tiled = λ _. (v.client, v.server);
            })
      go go_on e =
          rw (e, handle_flow)
            (after_loop-Forwards closing (run_turns turns (opened flow)).0
              (run_turns turns (opened flow)).1 (run_turns-Keeps turns (opened flow) v))

  module _ (filter : Option (Filter U T Q R)) (turns : List (Ready U T Q R)) (closing : Closing)
      (id : U) (now : T) (client_addr : SocketAddr) (client_max : ℕ) (server_addr : SocketAddr)
      (server_max : ℕ) where
    pub handle_flow-Forwards :
        let r =
          handle_flow filter turns closing
            (new_raw_flow id now client_addr client_max server_addr server_max) in
        Forwards r.0 r.1
    handle_flow-Forwards =
        handle_flow-Forwards_from filter turns closing
          (new_raw_flow id now client_addr client_max server_addr server_max)
          (new_raw_flow-IsSynced id now client_addr server_addr client_max server_max)

    -- A new raw flow, from its opening and over any rounds of the loop, with any script, any answers
    -- of the streams and any outcome of the writes: it never panics, the service has got a prefix of
    -- what is recorded of the client, and the client a prefix of what is recorded of the service.
    pub handle_flow-IsBehind :
        let r =
          handle_flow filter turns closing
            (new_raw_flow id now client_addr client_max server_addr server_max) in
        (r.1 ≢ finished panicked) × IsBehind r.0
    handle_flow-IsBehind = (handle_flow-Forwards.sound, handle_flow-Forwards.behind)

    -- A new raw flow that is still running after any rounds of the loop: its chunks tile the recorded
    -- bytes, and each peer has got exactly what is recorded of the other, nothing missing.
    pub handle_flow-IsSynced :
        let r =
          handle_flow filter turns closing
            (new_raw_flow id now client_addr client_max server_addr server_max) in
        r.1 ≡ running → IsSynced r.0
    handle_flow-IsSynced = handle_flow-Forwards.synced
