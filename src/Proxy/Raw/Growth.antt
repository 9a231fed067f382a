-- ===== src/Proxy/Raw/Growth.antt =====
-- Every round of `handle_flow` (src/proxy/mod.rs) that goes on adds to a history.
use mini_proxad.Prelude.{
  ℕ, Bytes, ◌+◌, ◌≤◌, ◌<◌, ◌≡◌, ◌≢◌, refl, List, [], ◌∷◌, All, length, length-append, arith, Result,
  ok, err, panicked, ControlFlow, go_on, break,
}
use mini_proxad.Net.{SocketAddr}
use mini_proxad.History.Raw.{RawHistory, new_raw_history}
use mini_proxad.Flow.{RawFlow, new_raw_flow}
use mini_proxad.Filter.{run_filter}
use mini_proxad.Filter.Raw.{on_raw_client, on_raw_server}
use mini_proxad.Proxy.Raw.{
  FlowStatus, read_chunk, Session, Turn, Ready, from_client, from_server, forward_client,
  forward_server, client_turn, server_turn, turn, run_turns, Closing, finished, after_loop,
}
use mini_proxad.Proxy.Raw.Reads.{
  Reads, got, too_big, at_end, late, failing, extended, read_chunk-Reads,
}
use mini_proxad.Proxy.Raw.ClientSide.{with_client}
use mini_proxad.Proxy.Raw.ServerSide.{with_server}

module _ {U T Q R : Type 0} where
  -- The filter of the round leaves the flow alone, whether it lets it go on or kills it. So does no
  -- filter at all, and a script that returns no bytes.
  abbrev pub NeverReplaces : Ready U T Q R → Type 0
  NeverReplaces (from_client t) =
      (flow : RawFlow U T)
      → (c : ControlFlow) × (run_filter t.filter
            (λ f g. on_raw_client f.inner g t.called_at t.replaced_at) flow
          ≡ ok (flow, c))
  NeverReplaces (from_server t) =
      (flow : RawFlow U T)
      → (c : ControlFlow) × (run_filter t.filter
            (λ f g. on_raw_server f.inner g t.called_at t.replaced_at) flow
          ≡ ok (flow, c))

module _ {U T : Type 0} where
  abbrev pub size : RawFlow U T → ℕ
  size f = length f.client_history.bytes + length f.server_history.bytes

  abbrev pub limit : RawFlow U T → ℕ
  limit f = f.client_history.max_size + f.server_history.max_size

  pub record Fits (f : RawFlow U T) : Type 0 where
    client : length f.client_history.bytes ≤ f.client_history.max_size
    server : length f.server_history.bytes ≤ f.server_history.max_size

  -- A round that goes on has recorded something, within the limits.
  record Grown (f f' : RawFlow U T) : Type 0 where
    grown : size f < size f'
    same_limit : limit f' ≡ limit f
    fits : Fits f'

  longer_client :
      (s : Session U T) (new : Bytes) (now : T)
      → 0 < length new
      → length s.flow.client_history.bytes + length new < s.flow.client_history.max_size
      → Fits s.flow
      → Grown s.flow (with_client s (extended s.flow.client_history new now)).flow
  longer_client s new now p q f =
      let e = length-append s.flow.client_history.bytes new in
      record {
        grown = omega arith;
        same_limit = refl;
        fits = record { client = omega arith; server = f.server };
      }

  longer_server :
      (s : Session U T) (new : Bytes) (now : T)
      → 0 < length new
      → length s.flow.server_history.bytes + length new < s.flow.server_history.max_size
      → Fits s.flow
      → Grown s.flow (with_server s (extended s.flow.server_history new now)).flow
  longer_server s new now p q f =
      let e = length-append s.flow.server_history.bytes new in
      record {
        grown = omega arith;
        same_limit = refl;
        fits = record { client = f.client; server = omega arith };
      }

module _ {U T Q R : Type 0} where
  forward_client-flow :
      (t : Turn U T Q R) (s : Session U T)
      → NeverReplaces (from_client t)
      → (forward_client t s).0.flow ≡ s.flow
  unfolding forward_client
  forward_client-flow t s h = let (c, e) = h s.flow in go c e
    where
      go :
          (c : ControlFlow)
          → run_filter t.filter (λ f g. on_raw_client f.inner g t.called_at t.replaced_at) s.flow
            ≡ ok (s.flow, c)
          → (forward_client t s).0.flow ≡ s.flow
      go break e = rw (e, forward_client)
      go go_on e = rw (e, forward_client)

  forward_server-flow :
      (t : Turn U T Q R) (s : Session U T)
      → NeverReplaces (from_server t)
      → (forward_server t s).0.flow ≡ s.flow
  unfolding forward_server
  forward_server-flow t s h = let (c, e) = h s.flow in go c e
    where
      go :
          (c : ControlFlow)
          → run_filter t.filter (λ f g. on_raw_server f.inner g t.called_at t.replaced_at) s.flow
            ≡ ok (s.flow, c)
          → (forward_server t s).0.flow ≡ s.flow
      go break e = rw (e, forward_server)
      go go_on e = rw (e, forward_server)

  client_turn-Grown :
      (t : Turn U T Q R) (s : Session U T)
      → NeverReplaces (from_client t)
      → Fits s.flow
      → (client_turn t s).1 ≡ ok go_on
      → Grown s.flow (client_turn t s).0.flow
  unfolding client_turn
  client_turn-Grown t s n f =
      go (read_chunk t.wakes s.flow.client_history t.read_at).0
        (read_chunk t.wakes s.flow.client_history t.read_at).1 refl refl
        (read_chunk-Reads t.wakes s.flow.client_history t.read_at)
    where
      go :
          (h : RawHistory T) (st : Result FlowStatus)
          → (read_chunk t.wakes s.flow.client_history t.read_at).0 ≡ h
          → (read_chunk t.wakes s.flow.client_history t.read_at).1 ≡ st
          → Reads s.flow.client_history t.read_at h st
          → (client_turn t s).1 ≡ ok go_on
          → Grown s.flow (client_turn t s).0.flow
      go h st eh es (got new p q) r =
          rw (es, client_turn, eh)
            (rw
              (forward_client-flow t (with_client s (extended s.flow.client_history new t.read_at))
                n)
              (longer_client s new t.read_at p q f))
      go h st eh es (too_big new p q) r = let stopped = (rw (es, client_turn) at r) in cc
      go h st eh es at_end r = let stopped = (rw (es, client_turn) at r) in cc
      go h st eh es late r = let stopped = (rw (es, client_turn) at r) in cc
      go h st eh es (failing new e) r = let stopped = (rw (es, client_turn) at r) in cc

  server_turn-Grown :
      (t : Turn U T Q R) (s : Session U T)
      → NeverReplaces (from_server t)
      → Fits s.flow
      → (server_turn t s).1 ≡ ok go_on
      → Grown s.flow (server_turn t s).0.flow
  unfolding server_turn
  server_turn-Grown t s n f =
      go (read_chunk t.wakes s.flow.server_history t.read_at).0
        (read_chunk t.wakes s.flow.server_history t.read_at).1 refl refl
        (read_chunk-Reads t.wakes s.flow.server_history t.read_at)
    where
      go :
          (h : RawHistory T) (st : Result FlowStatus)
          → (read_chunk t.wakes s.flow.server_history t.read_at).0 ≡ h
          → (read_chunk t.wakes s.flow.server_history t.read_at).1 ≡ st
          → Reads s.flow.server_history t.read_at h st
          → (server_turn t s).1 ≡ ok go_on
          → Grown s.flow (server_turn t s).0.flow
      go h st eh es (got new p q) r =
          rw (es, server_turn, eh)
            (rw
              (forward_server-flow t (with_server s (extended s.flow.server_history new t.read_at))
                n)
              (longer_server s new t.read_at p q f))
      go h st eh es (too_big new p q) r = let stopped = (rw (es, server_turn) at r) in cc
      go h st eh es at_end r = let stopped = (rw (es, server_turn) at r) in cc
      go h st eh es late r = let stopped = (rw (es, server_turn) at r) in cc
      go h st eh es (failing new e) r = let stopped = (rw (es, server_turn) at r) in cc

  turn-Grown :
      (r : Ready U T Q R) (s : Session U T)
      → NeverReplaces r
      → Fits s.flow
      → (turn r s).1 ≡ ok go_on
      → Grown s.flow (turn r s).0.flow
  unfolding turn
  turn-Grown (from_client t) s n f e = client_turn-Grown t s n f e
  turn-Grown (from_server t) s n f e = server_turn-Grown t s n f e

  -- Every round makes the recorded bytes more, and they stay within the limits.
  pub length-le-limit :
      (rs : List (Ready U T Q R)) (s : Session U T)
      → All NeverReplaces rs
      → Fits s.flow
      → (run_turns rs s).1 ≡ ok go_on
      → length rs + size s.flow ≤ limit s.flow
  unfolding run_turns
  length-le-limit [] s n f e = omega (arith, f.client, f.server)
  length-le-limit (r ∷ rs) s (n, ns) f e =
      go (turn r s).1 refl (λ one. turn-Grown r s n f one)
        (λ fits more. length-le-limit rs (turn r s).0 ns fits more)
    where
      go :
          (c : Result ControlFlow)
          → (turn r s).1 ≡ c
          → ((turn r s).1 ≡ ok go_on → Grown s.flow (turn r s).0.flow)
          → (Fits (turn r s).0.flow
              → (run_turns rs (turn r s).0).1 ≡ ok go_on
              → length rs + size (turn r s).0.flow ≤ limit (turn r s).0.flow)
          → length (r ∷ rs) + size s.flow ≤ limit s.flow
      go (ok go_on) q grown rest =
          let g = grown q in
          let later = rest g.fits (rw (q, run_turns) at e) in
          omega (arith, g.grown, g.same_limit, later)
      go (ok break) q grown rest = let stopped = (rw (q, run_turns) at e) in cc
      go (err x) q grown rest = let stopped = (rw (q, run_turns) at e) in cc
      go panicked q grown rest = let stopped = (rw (q, run_turns) at e) in cc

pub after_loop-finished :
    (c : Closing) (r : Result ControlFlow)
    → r ≢ ok go_on
    → (result : Result (Unit {0})) × (after_loop c r ≡ finished result)
unfolding after_loop
after_loop-finished c (ok go_on) h = absurd (h refl)
after_loop-finished c (ok break) h = (_, refl)
after_loop-finished c (err e) h = (_, refl)
after_loop-finished c panicked h = (_, refl)

pub new_raw_flow-Fits :
    {U T : Type 0} (id : U) (now : T) (ca sa : SocketAddr) (cm sm : ℕ)
    → Fits (new_raw_flow id now ca cm sa sm)
unfolding new_raw_flow new_raw_history
new_raw_flow-Fits id now ca sa cm sm = record { client = omega arith; server = omega arith }
