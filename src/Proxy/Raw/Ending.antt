-- ===== src/Proxy/Raw/Ending.antt =====
-- The loop of `handle_flow` (src/proxy/mod.rs) comes to an end: a history that reaches its limit ends
-- the flow.
use mini_proxad.Prelude.{
  ℕ, ◌+◌, ◌<◌, ◌≡◌, ◌≢◌, refl, Option, List, All, length, arith, Result, ok, panicked, ControlFlow,
  go_on, break,
}
use mini_proxad.Net.{SocketAddr}
use mini_proxad.History.Raw.{new_raw_history}
use mini_proxad.Flow.{RawFlow, new_raw_flow}
use mini_proxad.Filter.{Filter, run_filter}
use mini_proxad.Filter.Raw.{on_raw_open}
use mini_proxad.Proxy.Raw.{opened, Ready, run_turns, Closing, finished, handle_flow}
use mini_proxad.Proxy.Raw.Forwarding.{on_raw_open_same, handle_flow-IsBehind}
use mini_proxad.Proxy.Raw.Growth.{
  NeverReplaces, size, limit, Fits, length-le-limit, after_loop-finished, new_raw_flow-Fits,
}

module _ {U T Q R : Type 0} where
  run_turns-ends :
      (rs : List (Ready U T Q R)) (flow : RawFlow U T)
      → All NeverReplaces rs
      → Fits flow
      → size flow ≡ 0
      → limit flow < length rs
      → (run_turns rs (opened flow)).1 ≢ ok go_on
  run_turns-ends rs flow n f z h e =
      let le = length-le-limit rs (opened flow) n f e in absurd (omega arith)

  handle_flow-finished :
      (filter : Option (Filter U T Q R)) (turns : List (Ready U T Q R)) (closing : Closing)
      (flow : RawFlow U T)
      → (run_turns turns (opened flow)).1 ≢ ok go_on
      → (result : Result (Unit {0})) × ((handle_flow filter turns closing flow).1 ≡ finished result)
  unfolding handle_flow
  handle_flow-finished filter turns closing flow h =
      let (c, e) = on_raw_open_same filter flow in go c e
    where
      go :
          (c : ControlFlow)
          → run_filter filter (λ f. on_raw_open f.inner) flow ≡ ok (flow, c)
          → (result : Result (Unit {0})) × ((handle_flow filter turns closing flow).1
              ≡ finished result)
      go break e = (ok tt, rw (e, handle_flow))
      go go_on e =
          let (result, done) = after_loop-finished closing (run_turns turns (opened flow)).1 h in
          (result, rw (e, handle_flow) done)

  -- A new raw flow whose rounds have filters that replace no chunk, as with no filter at all: after
  -- more rounds than the limits of the two histories together it is finished, whatever the peers
  -- send, with success or an error and not with a panic.
  pub handle_flow-ends :
      (filter : Option (Filter U T Q R)) (turns : List (Ready U T Q R)) (closing : Closing) (id : U)
      (now : T) (client_addr server_addr : SocketAddr) (client_max server_max : ℕ)
      → All NeverReplaces turns
      → client_max + server_max < length turns
      → let r =
          handle_flow filter turns closing
            (new_raw_flow id now client_addr client_max server_addr server_max) in
        (result : Result (Unit {0})) × (r.1 ≡ finished result) × (result ≢ panicked)
  unfolding new_raw_flow new_raw_history
  handle_flow-ends filter turns closing id now client_addr server_addr client_max server_max n h =
      let flow = new_raw_flow id now client_addr client_max server_addr server_max in
      let (sound, _) =
        handle_flow-IsBehind filter turns closing id now client_addr client_max server_addr
          server_max in
      let (result, done) = handle_flow-finished filter turns closing flow (
        run_turns-ends turns flow n
          (new_raw_flow-Fits id now client_addr server_addr client_max server_max) refl h) in
      (result, done, λ p. sound (rw p at done))
