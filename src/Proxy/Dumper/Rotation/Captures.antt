-- ===== src/Proxy/Dumper/Rotation/Captures.antt =====
-- What lies in the files of the dumper (src/proxy/dumper.rs, `dumper`): the packets of the flows that
-- the channel has given.
use mini_proxad.Prelude.{
  ℕ, ◌≡◌, ◌≢◌, refl, sym, ap, ◌∙◌, inl, inr, List, [], ◌∷◌, ◌++◌, map, flatten, append-nil,
  append_assoc, ltb, leb, ◌||◌, ok, err, panicked, Result, Bool-cases, All,
}
use mini_proxad.Prelude.{Within, nothing, Within-nil, Within-append, Within-refl, Within-some}
use mini_proxad.Flow.{Flow, get_client_addr, get_server_addr}
use mini_proxad.Http.{HttpCrate, Request, Response}
use mini_proxad.Proxy.Dumper.Packet.{Header, PcapPacket, Wire}
use mini_proxad.Prelude.{Bytes}
use mini_proxad.Proxy.Dumper.Conversation.{Chrono, write_tcp_flow}
use mini_proxad.Proxy.Dumper.Transcript.{IsReliable}
use mini_proxad.Proxy.Dumper.Course.{IsTimely}
use mini_proxad.Proxy.Dumper.Files.{write_tcp_flow_ok, write_tcp_flow_v6}
use mini_proxad.Proxy.Dumper.Rotation.{
  Recv, delivered, timed_out, disconnected, Tick, Filling, filling, full, crashed, Limits, fill,
  receive, go_round, count, Finish,
}
use mini_proxad.Proxy.Dumper.Rotation.Count.{ipv4_of-cases, Iterable}

-- What the channel gives in a round, and in the rounds of several files.
abbrev pub given : {F : Type 0} → Recv F → List F
given (delivered f) = f ∷ []
given timed_out = []
given disconnected = []

abbrev pub given_in : {F : Type 0} → List (Tick F) → List F
given_in [] = []
given_in (tick ∷ ticks) = given tick.channel ++ given_in ticks

abbrev pub deliveries : {F : Type 0} → List (List (Tick F) × Finish) → List F
deliveries [] = []
deliveries ((ticks, finish) ∷ rounds) = given_in ticks ++ deliveries rounds

module _ (w : HttpCrate) {U T : Type 0} (wire : Wire) (chrono : Chrono T) where
  -- The packets of a flow in a file of its own, and of several flows one behind the other.
  abbrev pub capture : Flow U T (Request w) (Response w) → List PcapPacket
  capture flow = (write_tcp_flow w wire chrono flow []).0

  abbrev pub captures : List (Flow U T (Request w) (Response w)) → List PcapPacket
  captures flows = flatten (map capture flows)

  -- A file has grown by the packets of some flows of a list, in order.
  abbrev pub Grown :
      List PcapPacket → List (Flow U T (Request w) (Response w)) → List PcapPacket → Type 0
  Grown packets flows packets' =
      (fs : List (Flow U T (Request w) (Response w))) × Within fs flows
      × (packets' ≡ packets ++ captures fs)

  captures-append :
      (fs gs : List (Flow U T (Request w) (Response w)))
      → captures (fs ++ gs) ≡ captures fs ++ captures gs
  unfolding flatten
  captures-append [] gs = refl
  captures-append (f ∷ fs) gs =
      ap (λ ps. capture f ++ ps) (captures-append fs gs)
      ∙ sym (append_assoc (capture f) (captures fs) (captures gs))

module _ (w : HttpCrate) {U T : Type 0} (wire : Wire) (image : Header → Bytes → Bytes)
    (reliable : IsReliable wire image) (chrono : Chrono T) (timely : IsTimely chrono) where
  -- A flow is written behind what the file holds just as it is into an empty file; a panic is none.
  write_tcp_flow-capture :
      (flow : Flow U T (Request w) (Response w)) (packets : List PcapPacket)
      → Iterable w chrono (delivered flow)
      → ((write_tcp_flow w wire chrono flow packets).0 ≡ packets ++ capture w wire chrono flow)
        × ((write_tcp_flow w wire chrono flow packets).1 ≢ panicked)
  write_tcp_flow-capture flow packets (items, h) = elim (ipv4_of-cases (get_client_addr flow)) [
    | inr (e, k) ↦
        let all = λ (ps : List PcapPacket).
          write_tcp_flow_v6 w wire image reliable chrono timely flow e ps (inl k) in
        (
          ap (λ r. r.0) (all packets)
              ∙ sym (append-nil packets)
              ∙ ap (λ r. packets ++ r.0) (sym (all [])),
          rw (all packets) (λ x. cc),
        )
    | inl (c, k) ↦ elim (ipv4_of-cases (get_server_addr flow)) [
      | inr (e, l) ↦
          let all = λ (ps : List PcapPacket).
            write_tcp_flow_v6 w wire image reliable chrono timely flow e ps (inr (c, k, l)) in
          (
            ap (λ r. r.0) (all packets)
                ∙ sym (append-nil packets)
                ∙ ap (λ r. packets ++ r.0) (sym (all [])),
            rw (all packets) (λ x. cc),
          )
      | inl (s, l) ↦
          let all = λ (ps : List PcapPacket).
            write_tcp_flow_ok w wire image reliable chrono timely flow c s items ps k l h in
          (
            ap (λ r. r.0) (all packets) ∙ ap (λ r. packets ++ r.0) (sym (all [])),
            rw (all packets) (λ x. cc),
          )
    ]
  ]

  module _ (limits : Limits) where
    abbrev pub Fills :
        List PcapPacket
        → List (Flow U T (Request w) (Response w))
        → List PcapPacket × Filling
        → Type 0
    Fills packets flows r = Grown w wire chrono packets flows r.0 × (r.1 ≢ crashed panicked)

    go_round-Fills :
        (r : List PcapPacket × Filling) (next : ℕ → List PcapPacket → List PcapPacket × Filling)
        (packets : List PcapPacket) (fs later : List (Flow U T (Request w) (Response w)))
        → r.0 ≡ packets ++ captures w wire chrono fs
        → r.1 ≢ crashed panicked
        → ((n : ℕ) (ps : List PcapPacket) → Fills ps later (next n ps))
        → Fills packets (fs ++ later) (go_round r next)
    go_round-Fills (ps, filling n) next packets fs later e s k =
        let ((gs, within, d), sound) = k n ps in
        (
          (
            fs ++ gs,
            Within-append (Within-refl fs) within,
            d
                ∙ ap (λ qs. qs ++ captures w wire chrono gs) e
                ∙ append_assoc packets (captures w wire chrono fs) (captures w wire chrono gs)
                ∙ ap (λ qs. packets ++ qs) (sym (captures-append w wire chrono fs gs)),
          ),
          sound,
        )
    go_round-Fills (ps, full n) next packets fs later e s k = ((fs, Within-some fs later, e), s)
    go_round-Fills (ps, crashed r) next packets fs later e s k = ((fs, Within-some fs later, e), s)

    receive-capture :
        (c : Recv (Flow U T (Request w) (Response w))) (n : ℕ) (packets : List PcapPacket)
        → Iterable w chrono c
        → ((receive w wire chrono limits c n packets).0
            ≡ packets ++ captures w wire chrono (given c))
          × ((receive w wire chrono limits c n packets).1 ≢ crashed panicked)
    unfolding receive flatten
    receive-capture timed_out n packets h = (sym (append-nil packets), λ x. cc)
    receive-capture disconnected n packets h = (sym (append-nil packets), λ x. cc)
    receive-capture (delivered flow) n packets h =
        let (e, s) = write_tcp_flow-capture flow packets h in
        (
          count_packets n (write_tcp_flow w wire chrono flow packets)
              ∙ e
              ∙ ap (λ ps. packets ++ ps) (sym (append-nil (capture w wire chrono flow))),
          count_sound n (write_tcp_flow w wire chrono flow packets) s,
        )
      where
        count_packets : (n : ℕ) (r : List PcapPacket × Result ℕ) → (count n r).0 ≡ r.0
        count_packets n (ps, ok m) = refl
        count_packets n (ps, err x) = refl
        count_packets n (ps, panicked) = refl

        count_sound :
            (n : ℕ) (r : List PcapPacket × Result ℕ)
            → r.1 ≢ panicked
            → (count n r).1 ≢ crashed panicked
        count_sound n (ps, ok m) h = λ x. cc
        count_sound n (ps, err x) h = λ x. cc
        count_sound n (ps, panicked) h = absurd (h refl)

    pub fill-Fills :
        (ticks : List (Tick (Flow U T (Request w) (Response w)))) (n : ℕ)
        (packets : List PcapPacket)
        → All (λ t. Iterable w chrono t.channel) ticks
        → Fills packets (given_in ticks) (fill w wire chrono limits ticks n packets)
    unfolding fill flatten
    fill-Fills [] n packets hs = (([], nothing, sym (append-nil packets)), λ x. cc)
    fill-Fills (tick ∷ ticks) n packets hs =
        elim (Bool-cases (leb limits.interval tick.elapsed || ltb limits.max_packets n)) [
          | inl e ↦
              rw e (([], Within-nil (given_in (tick ∷ ticks)), sym (append-nil packets)), λ x. cc)
          | inr e ↦
              let (c, s) = receive-capture tick.channel n packets hs.0 in
              rw e (
                go_round-Fills (receive w wire chrono limits tick.channel n packets)
                  (fill w wire chrono limits ticks) packets (given tick.channel) (given_in ticks) c
                  s (λ m ps. fill-Fills ticks m ps hs.1))
        ]
