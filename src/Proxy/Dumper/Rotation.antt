-- ===== src/Proxy/Dumper/Rotation.antt =====
-- src/proxy/dumper.rs, `dumper`: the loop that fills one pcap file after another. The environment
-- gives, for each round, the time since the file was begun and what the channel has; and for each
-- file that is finished, whether its name can be made and what the file system does with it.
pub mod Count
pub mod Captures
pub mod Listing
pub mod Contents
use mini_proxad.Prelude.{
  ℕ, ◌+◌, Option, none, some, Bool, true, false, List, [], ◌∷◌, ◌++◌, ltb, leb, ◌==◌, ◌||◌,
  if◌then◌else◌, Error, foreign, context, Result, ok, err, panicked, Bytes,
}
use mini_proxad.Filter.Objects.{eq_bytes}
use mini_proxad.Flow.{Flow}
use mini_proxad.Http.{HttpCrate, Request, Response}
use mini_proxad.Proxy.Dumper.Packet.{PcapPacket, Wire}
use mini_proxad.Proxy.Dumper.Conversation.{Chrono, write_tcp_flow}

-- `rx.recv_timeout(..)`.
pub data Recv (F : Type 0) : Type 0 where
  delivered : F → Recv F
  timed_out disconnected : Recv F

pub record Tick (F : Type 0) : Type 0 where
  pub elapsed : ℕ
  pub channel : Recv F

-- A file is still being filled, is to be saved with so many packets, or the task has ended.
pub data Filling : Type 0 where
  filling full : ℕ → Filling
  crashed : Result (Unit {0}) → Filling

-- Durations are nanoseconds.
pub record Limits : Type 0 where
  pub interval : ℕ
  pub max_packets : ℕ

-- What is counted of a flow that has been written, or not.
abbrev pub count : ℕ → List PcapPacket × Result ℕ → List PcapPacket × Filling
count n_packets (packets, ok n) = (packets, filling (n_packets + n))
count n_packets (packets, err e) = (packets, filling n_packets)
count n_packets (packets, panicked) = (packets, crashed panicked)

abbrev pub go_round :
    List PcapPacket × Filling
    → (ℕ → List PcapPacket → List PcapPacket × Filling)
    → List PcapPacket × Filling
go_round (packets, filling n) next = next n packets
go_round (packets, full n) next = (packets, full n)
go_round (packets, crashed r) next = (packets, crashed r)

module _ (w : HttpCrate) {U T : Type 0} (wire : Wire) (chrono : Chrono T) (limits : Limits) where
  -- The `match` on what the channel gives.
  unfoldable pub receive :
      Recv (Flow U T (Request w) (Response w)) → ℕ → List PcapPacket → List PcapPacket × Filling
  receive (delivered flow) n_packets packets =
      count n_packets (write_tcp_flow w wire chrono flow packets)
  receive timed_out n_packets packets = (packets, full n_packets)
  receive disconnected n_packets packets =
      (packets, crashed (err (context "Dumper channel closed" foreign)))

  -- The inner loop, from a file with some packets on.
  unfoldable pub fill :
      List (Tick (Flow U T (Request w) (Response w)))
      → ℕ
      → List PcapPacket
      → List PcapPacket × Filling
  fill [] n_packets packets = (packets, filling n_packets)
  fill (tick ∷ ticks) n_packets packets =
      let round = go_round (receive tick.channel n_packets packets) (fill ticks) in
      if leb limits.interval tick.elapsed || ltb limits.max_packets n_packets
      then (packets, full n_packets)
      else round

-- `tmpfile.persist(path)`: the file is moved, or this fails, with EXDEV or otherwise.
pub data Persisted : Type 0 where
  moved other_device : Persisted
  refused : Error → Persisted

-- `fs::copy`: all is copied, or it fails, after the target has been touched or before.
pub data Copied : Type 0 where
  copied_all : Copied
  copy_failed : Bool → Copied

-- What comes of a file: the error of its beginning (`NamedTempFile::new`, `PcapWriter::new`), if any;
-- its name; and what the moving, the copying and the removing of the original give.
pub record Finish : Type 0 where
  pub begun : Option Error
  pub name : Result Bytes
  pub persisted : Persisted
  pub copied : Copied
  pub removed : Bool

-- A file of the directory, or what a failed copy has left of one.
pub data PcapFile : Type 0 where
  whole : List PcapPacket → PcapFile
  broken : PcapFile

-- The directory: each name once, the file that was written last at the end.
abbrev pub Directory : Type 0
Directory = List (Bytes × PcapFile)

unfoldable pub without_name : Bytes → Directory → Directory
without_name name [] = []
without_name name ((name', file) ∷ files) =
    let rest = without_name name files in if eq_bytes name' name then rest else (name', file) ∷ rest

-- A file of the same name is replaced.
unfoldable pub write_file : Bytes → PcapFile → Directory → Directory
write_file name file files = without_name name files ++ (name, file) ∷ []

unfoldable pub save_pcap :
    Finish → Bytes → List PcapPacket → Directory → Directory × Result (Unit {0})
save_pcap finish name packets files = elim finish.persisted [
  | moved ↦ (write_file name (whole packets) files, ok tt)
  | other_device ↦ elim finish.copied [
    | copied_all ↦
        (write_file name (whole packets) files, if finish.removed then ok tt else err foreign)
    | copy_failed touched ↦ (if touched then write_file name broken files else files, err foreign)
  ]
  | refused e ↦ (files, err e)
]

-- The directory after the file that is full; the result of `save_pcap` is only logged.
unfoldable pub save : Finish → ℕ → List PcapPacket → Directory → Directory × Result (Unit {0})
save finish n_packets packets files = if n_packets == 0 then (files, ok tt) else elim finish.name [
  | ok name ↦ ((save_pcap finish name packets files).0, ok tt)
  | err e ↦ (files, err e)
  | panicked ↦ (files, panicked)
]

module _ (w : HttpCrate) {U T : Type 0} (wire : Wire) (chrono : Chrono T) (limits : Limits) where
  -- The outer loop over the files that the environment has given so far; `some` is its end.
  unfoldable pub dumper :
      List (List (Tick (Flow U T (Request w) (Response w))) × Finish)
      → Directory
      → Directory × Option (Result (Unit {0}))
  dumper [] files = (files, none)
  dumper ((ticks, finish) ∷ rounds) files =
      let (packets, outcome) = fill w wire chrono limits ticks 0 [] in
      elim finish.begun [
        | some e ↦ (files, some (err e))
        | none ↦ elim outcome [
          | filling n ↦ (files, none)
          | crashed r ↦ (files, some r)
          | full n ↦
              let (files', result) = save finish n packets files in
              let rest = dumper rounds files' in
              elim result [
                | ok u ↦ rest
                | err e ↦ (files', some (err e))
                | panicked ↦ (files', some panicked)
              ]
        ]
      ]
