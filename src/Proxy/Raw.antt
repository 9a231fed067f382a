-- ===== src/Proxy/Raw.antt =====
-- src/proxy/mod.rs: reading and forwarding the chunks of a raw flow (`read_chunk`,
-- `write_last_chunk`, `handle_flow`). The environment gives, for each round of the `select!` loop,
-- the side that is ready first with the answers of its stream, the readings of the clock, the
-- filter in force (the watcher may replace its functions between rounds) and how the write goes.
pub mod Reads
pub mod Sync
pub mod ClientSide
pub mod ServerSide
pub mod Forwarding
pub mod Growth
pub mod Ending
pub mod Identity
use mini_proxad.Prelude.{
  ErrorKind, ℕ, zero, suc, ◌+◌, Option, none, some, List, [], ◌∷◌, ◌++◌, Bytes, length, leb,
  if◌then◌else◌, io, Result, ok, err, panicked, ◌>>=◌, ◌>>◌, ControlFlow, go_on, break,
}
use mini_proxad.History.Raw.{RawChunk, RawHistory, last_chunk}
use mini_proxad.Flow.{RawFlow}
use mini_proxad.Stream
use mini_proxad.Stream.{Poll, pending, ready, broken, Writing, write_chunk}
use mini_proxad.Filter.{Filter, run_filter}
use mini_proxad.Filter.Raw.{on_raw_client, on_raw_server, on_raw_open}

pub data FlowStatus : Type 0 where
  read closed timeout history_too_big : FlowStatus

module _ {T : Type 0} where
  unfoldable pub record_chunk : RawHistory T → ℕ → ℕ → T → RawHistory T × Result FlowStatus
  record_chunk history start n now = (
    record history {
      chunks =
          history.chunks
          ++ record { range = record { start = start; end = start + n }; timestamp = now } ∷ [];
    },
    ok (if leb history.max_size (start + n) then history_too_big else read),
  )

  -- A stream with no further answer before the deadline is a timeout.
  unfoldable pub read_chunk : List (List Poll) → RawHistory T → T → RawHistory T × Result FlowStatus
  read_chunk wakes history now =
      let start = length history.bytes in
      let got = Stream.read_chunk wakes history.bytes in
      let grown = record history { bytes = got.buffer } in
      elim got.outcome [
        | pending ↦ (grown, ok timeout)
        | ready zero ↦ (grown, ok closed)
        | ready (suc n) ↦ record_chunk grown start (suc n) now
        | broken e ↦ (grown, err (io e))
      ]

  -- What the peer has got, and the result.
  unfoldable pub write_last_chunk : Writing → Bytes → RawHistory T → Bytes × Result (Unit {0})
  write_last_chunk writing sent history = elim (last_chunk history) [
    | none ↦ (sent, panicked)
    | some chunk ↦ write_chunk writing sent chunk
  ]

-- A flow in progress, with the bytes that each peer has got.
pub record Session (U T : Type 0) : Type 0 where
  pub flow : RawFlow U T
  pub to_server : Bytes
  pub to_client : Bytes

abbrev pub opened : {U T : Type 0} → RawFlow U T → Session U T
opened flow = record { flow = flow; to_server = []; to_client = [] }

-- What the environment gives to one round of the loop.
pub record Turn (U T Q R : Type 0) : Type 0 where
  pub wakes : List (List Poll)
  pub read_at : T
  pub called_at : T
  pub replaced_at : T
  pub filter : Option (Filter U T Q R)
  pub writing : Writing

pub data Ready (U T Q R : Type 0) : Type 0 where
  from_client from_server : Turn U T Q R → Ready U T Q R

module _ {U T Q R : Type 0} where
  unfoldable pub forward_client : Turn U T Q R → Session U T → Session U T × Result ControlFlow
  forward_client t s =
      let hook = λ (f : Filter U T Q R) (flow : RawFlow U T).
        on_raw_client f.inner flow t.called_at t.replaced_at in
      elim (run_filter t.filter hook s.flow) [
        | ok (flow, break) ↦ (record s { flow = flow }, ok break)
        | ok (flow, go_on) ↦
            let (sent, result) = write_last_chunk t.writing s.to_server flow.client_history in
            (record s { flow = flow; to_server = sent }, result >> ok go_on)
        | err e ↦ (s, err e)
        | panicked ↦ (s, panicked)
      ]

  unfoldable pub client_turn : Turn U T Q R → Session U T → Session U T × Result ControlFlow
  client_turn t s =
      let (history, status) = read_chunk t.wakes s.flow.client_history t.read_at in
      let s' = record s { flow = record (s.flow) { client_history = history } } in
      elim status [
        | ok read ↦ forward_client t s'
        | ok closed ↦ (s', ok break)
        | ok timeout ↦ (s', ok break)
        | ok history_too_big ↦ (s', ok break)
        | err e ↦ (s', err e)
        | panicked ↦ (s', panicked)
      ]

  unfoldable pub forward_server : Turn U T Q R → Session U T → Session U T × Result ControlFlow
  forward_server t s =
      let hook = λ (f : Filter U T Q R) (flow : RawFlow U T).
        on_raw_server f.inner flow t.called_at t.replaced_at in
      elim (run_filter t.filter hook s.flow) [
        | ok (flow, break) ↦ (record s { flow = flow }, ok break)
        | ok (flow, go_on) ↦
            let (sent, result) = write_last_chunk t.writing s.to_client flow.server_history in
            (record s { flow = flow; to_client = sent }, result >> ok go_on)
        | err e ↦ (s, err e)
        | panicked ↦ (s, panicked)
      ]

  unfoldable pub server_turn : Turn U T Q R → Session U T → Session U T × Result ControlFlow
  server_turn t s =
      let (history, status) = read_chunk t.wakes s.flow.server_history t.read_at in
      let s' = record s { flow = record (s.flow) { server_history = history } } in
      elim status [
        | ok read ↦ forward_server t s'
        | ok closed ↦ (s', ok break)
        | ok timeout ↦ (s', ok break)
        | ok history_too_big ↦ (s', ok break)
        | err e ↦ (s', err e)
        | panicked ↦ (s', panicked)
      ]

  unfoldable pub turn : Ready U T Q R → Session U T → Session U T × Result ControlFlow
  turn (from_client t) s = client_turn t s
  turn (from_server t) s = server_turn t s

  -- The loop over the rounds that the environment has given so far. `ok go_on`: it still runs.
  unfoldable pub run_turns : List (Ready U T Q R) → Session U T → Session U T × Result ControlFlow
  run_turns [] s = (s, ok go_on)
  run_turns (r ∷ rs) s =
      let (s', result) = turn r s in
      let rest = run_turns rs s' in
      elim result [
        | ok go_on ↦ rest
        | ok break ↦ (s', ok break)
        | err e ↦ (s', err e)
        | panicked ↦ (s', panicked)
      ]

-- The errors, if any, of `flush` and `shutdown` of the two streams.
pub record Closing : Type 0 where
  pub client_flush : Option ErrorKind
  pub server_flush : Option ErrorKind
  pub client_shutdown : Option ErrorKind
  pub server_shutdown : Option ErrorKind

abbrev pub io_result : Option ErrorKind → Result (Unit {0})
io_result none = ok tt
io_result (some e) = err (io e)

unfoldable pub close_streams : Closing → Result (Unit {0})
close_streams c = do
  io_result c.client_flush
  io_result c.server_flush
  io_result c.client_shutdown
  io_result c.server_shutdown

-- The future of a flow: still running, or finished with a result.
pub data Progress : Type 0 where
  running : Progress
  finished : Result (Unit {0}) → Progress

unfoldable pub after_loop : Closing → Result ControlFlow → Progress
after_loop c (ok go_on) = running
after_loop c (ok break) = finished (close_streams c)
after_loop c (err e) = finished (err e)
after_loop c panicked = finished panicked

module _ {U T Q R : Type 0} where
  -- `filter` is the one in force when the flow opens.
  unfoldable pub handle_flow :
      Option (Filter U T Q R)
      → List (Ready U T Q R)
      → Closing
      → RawFlow U T
      → Session U T × Progress
  handle_flow filter turns closing flow = elim (run_filter filter (λ f. on_raw_open f.inner) flow) [
    | ok (flow', break) ↦ (opened flow', finished (ok tt))
    | ok (flow', go_on) ↦
        let (s, result) = run_turns turns (opened flow') in (s, after_loop closing result)
    | err e ↦ (opened flow, finished (err e))
    | panicked ↦ (opened flow, finished panicked)
  ]
