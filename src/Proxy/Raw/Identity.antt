-- ===== src/Proxy/Raw/Identity.antt =====
-- What `handle_flow` (src/proxy/mod.rs) leaves alone: who a flow is between, and since when.
use mini_proxad.Prelude.{
  ◌≡◌, refl, Option, List, [], ◌∷◌, arith, Result, ok, err, panicked, ControlFlow, go_on, break,
  Option-cases, inl, inr,
}
use mini_proxad.Flow.{RawFlow}
use mini_proxad.Filter.{Filter, FilterModule, run_filter}
use mini_proxad.Filter.Raw.{on_raw_client, on_raw_server, on_raw_open}
use mini_proxad.Proxy.Raw.{
  read_chunk, Session, opened, Turn, Ready, from_client, from_server, forward_client,
  forward_server, client_turn, server_turn, turn, run_turns, Closing, handle_flow,
}
use mini_proxad.Proxy.Raw.Forwarding.{on_raw_open_same}

module _ {U T : Type 0} where
  pub record IsSame (f g : RawFlow U T) : Type 0 where
    pub id : g.id ≡ f.id
    pub start : g.start ≡ f.start
    pub client_addr : g.client_addr ≡ f.client_addr
    pub server_addr : g.server_addr ≡ f.server_addr

  same : {f : RawFlow U T} → IsSame f f
  same = record { id = refl; start = refl; client_addr = refl; server_addr = refl }

module _ {U T Q R : Type 0} where
  on_raw_client-IsSame :
      (script : FilterModule U T Q R) (f g : RawFlow U T) (now later : T) (c : ControlFlow)
      → on_raw_client script f now later ≡ ok (g, c)
      → IsSame f g
  unfolding on_raw_client
  on_raw_client-IsSame script f g now later c h = ground arith

  on_raw_server-IsSame :
      (script : FilterModule U T Q R) (f g : RawFlow U T) (now later : T) (c : ControlFlow)
      → on_raw_server script f now later ≡ ok (g, c)
      → IsSame f g
  unfolding on_raw_server
  on_raw_server-IsSame script f g now later c h = ground arith

  -- The filter of a round gives the flow back with the same ends.
  run_client-IsSame :
      (t : Turn U T Q R) (f g : RawFlow U T) (c : ControlFlow)
      → run_filter t.filter (λ m flow. on_raw_client m.inner flow t.called_at t.replaced_at) f
        ≡ ok (g, c)
      → IsSame f g
  run_client-IsSame t f g c h = elim (Option-cases t.filter) [
    | inl e ↦ let given = (rw e at h) in ground arith
    | inr (m, e) ↦ on_raw_client-IsSame m.inner f g t.called_at t.replaced_at c (rw e at h)
  ]

  forward_client-IsSame :
      (t : Turn U T Q R) (s : Session U T) → IsSame s.flow (forward_client t s).0.flow
  unfolding forward_client
  forward_client-IsSame t s = go (run_filter t.filter hook s.flow) refl
    where
      hook : Filter U T Q R → RawFlow U T → Result (RawFlow U T × ControlFlow)
      hook = λ m flow. on_raw_client m.inner flow t.called_at t.replaced_at

      go :
          (r : Result (RawFlow U T × ControlFlow))
          → run_filter t.filter hook s.flow ≡ r
          → IsSame s.flow (forward_client t s).0.flow
      go (ok (g, break)) e = rw (e, forward_client) (run_client-IsSame t s.flow g break e)
      go (ok (g, go_on)) e = rw (e, forward_client) (run_client-IsSame t s.flow g go_on e)
      go (err x) e = rw (e, forward_client) same
      go panicked e = rw (e, forward_client) same

  client_turn-IsSame : (t : Turn U T Q R) (s : Session U T) → IsSame s.flow (client_turn t s).0.flow
  unfolding client_turn
  client_turn-IsSame t s =
      let h = (read_chunk t.wakes s.flow.client_history t.read_at).0 in
      let s' = record s { flow = record (s.flow) { client_history = h } } in
      ground (arith, forward_client-IsSame t s')

  run_server-IsSame :
      (t : Turn U T Q R) (f g : RawFlow U T) (c : ControlFlow)
      → run_filter t.filter (λ m flow. on_raw_server m.inner flow t.called_at t.replaced_at) f
        ≡ ok (g, c)
      → IsSame f g
  run_server-IsSame t f g c h = elim (Option-cases t.filter) [
    | inl e ↦ let given = (rw e at h) in ground arith
    | inr (m, e) ↦ on_raw_server-IsSame m.inner f g t.called_at t.replaced_at c (rw e at h)
  ]

  forward_server-IsSame :
      (t : Turn U T Q R) (s : Session U T) → IsSame s.flow (forward_server t s).0.flow
  unfolding forward_server
  forward_server-IsSame t s = go (run_filter t.filter hook s.flow) refl
    where
      hook : Filter U T Q R → RawFlow U T → Result (RawFlow U T × ControlFlow)
      hook = λ m flow. on_raw_server m.inner flow t.called_at t.replaced_at

      go :
          (r : Result (RawFlow U T × ControlFlow))
          → run_filter t.filter hook s.flow ≡ r
          → IsSame s.flow (forward_server t s).0.flow
      go (ok (g, break)) e = rw (e, forward_server) (run_server-IsSame t s.flow g break e)
      go (ok (g, go_on)) e = rw (e, forward_server) (run_server-IsSame t s.flow g go_on e)
      go (err x) e = rw (e, forward_server) same
      go panicked e = rw (e, forward_server) same

  server_turn-IsSame : (t : Turn U T Q R) (s : Session U T) → IsSame s.flow (server_turn t s).0.flow
  unfolding server_turn
  server_turn-IsSame t s =
      let h = (read_chunk t.wakes s.flow.server_history t.read_at).0 in
      let s' = record s { flow = record (s.flow) { server_history = h } } in
      ground (arith, forward_server-IsSame t s')

  turn-IsSame : (r : Ready U T Q R) (s : Session U T) → IsSame s.flow (turn r s).0.flow
  unfolding turn
  turn-IsSame (from_client t) s = client_turn-IsSame t s
  turn-IsSame (from_server t) s = server_turn-IsSame t s

  run_turns-IsSame :
      (rs : List (Ready U T Q R)) (s : Session U T) → IsSame s.flow (run_turns rs s).0.flow
  unfolding run_turns
  run_turns-IsSame [] s = same
  run_turns-IsSame (r ∷ rs) s = ground (arith, turn-IsSame r s, run_turns-IsSame rs (turn r s).0)

  pub handle_flow-IsSame :
      (filter : Option (Filter U T Q R)) (turns : List (Ready U T Q R)) (closing : Closing)
      (flow : RawFlow U T)
      → IsSame flow (handle_flow filter turns closing flow).0.flow
  unfolding handle_flow
  handle_flow-IsSame filter turns closing flow = let (c, e) = on_raw_open_same filter flow in go c e
    where
      go :
          (c : ControlFlow)
          → run_filter filter (λ f. on_raw_open f.inner) flow ≡ ok (flow, c)
          → IsSame flow (handle_flow filter turns closing flow).0.flow
      go break e = rw (e, handle_flow) same
      go go_on e = rw (e, handle_flow) (run_turns-IsSame turns (opened flow))
