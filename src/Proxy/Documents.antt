-- ===== src/Proxy/Documents.antt =====
-- What a pcap file (src/proxy/dumper.rs, `write_tcp_flow`) says of a flow that was handed over.
use mini_proxad.Prelude.{
  ℕ, suc, ◌≡◌, ◌≢◌, ◌⊎◌, inl, inr, List, [], ◌++◌, Bytes, length, take, drop, take-append-drop,
  Error, ok, err,
}
use mini_proxad.Http.{HttpCrate, Request, Response}
use mini_proxad.Flow.{Flow, raw, http, RawFlow, HttpFlow, get_client_addr, get_server_addr}
use mini_proxad.Flow.Iter.Merge.{traverse}
use mini_proxad.Flow.Iter.Texts.{request_text, response_text}
use mini_proxad.Flow.Iter.Versions.{HasVersions, texts_known}
use mini_proxad.Proxy.Raw.Sync.{BothReadable}
use mini_proxad.Proxy.Dumper.Packet.{Header, Wire}
use mini_proxad.Proxy.Dumper.Conversation.{Chrono, ipv4_of, write_tcp_flow}
use mini_proxad.Proxy.Dumper.Transcript.{IsReliable}
use mini_proxad.Proxy.Dumper.Course.{IsTimely}
use mini_proxad.Proxy.Dumper.Files.{write_tcp_flow_v6}
use mini_proxad.Proxy.Dumper.Payloads.{Carried, write_tcp_flow_taken}
use mini_proxad.Proxy.Dumper.Messages.{Worded, write_tcp_flow_texts}
use mini_proxad.Proxy.Dumper.Rotation.Count.{ipv4_of-cases}

module _ (w : HttpCrate) {U T : Type 0} (wire : Wire) (image : Header → Bytes → Bytes)
    (reliable : IsReliable wire image) (chrono : Chrono T) (timely : IsTimely chrono) where
  -- Nothing is written of the flow, as it has an address that is not IPv4.
  abbrev Unwritten : Flow U T (Request w) (Response w) → Type 0
  Unwritten flow =
      (e : Error) × ((ipv4_of (get_client_addr flow) ≡ err e)
        ⊎ (ipv4_of (get_server_addr flow) ≡ err e))
      × (write_tcp_flow w wire chrono flow [] ≡ ([], err e))

  -- A transcript with the payloads of each side: of a raw flow a prefix of what is recorded of it; of an
  -- HTTP flow the texts of its messages, up to the first request without a response.
  abbrev pub Documented : Flow U T (Request w) (Response w) → Type 0
  Documented (raw f) =
      ((c s : ℕ) × (from_client from_server client_rest server_rest : Bytes) × Carried w wire image
          reliable chrono timely f c s [] from_client from_server
        × (from_client ++ client_rest ≡ f.client_history.bytes)
        × (from_server ++ server_rest ≡ f.server_history.bytes))
      ⊎ Unwritten (raw f)
  Documented (http f) =
      ((c s : ℕ) × (asked answered : List Bytes) × (traverse (request_text w)
            (take (suc (length f.history.responses)) f.history.requests)
          ≡ ok asked)
        × (traverse (response_text w) (take (length f.history.requests) f.history.responses)
            ≡ ok answered)
        × Worded w wire image reliable chrono timely f c s [] asked answered)
      ⊎ Unwritten (http f)

  -- A flow that is written has two IPv4 addresses.
  written_or_not :
      (flow : Flow U T (Request w) (Response w))
      → ((c s : ℕ) × (ipv4_of (get_client_addr flow) ≡ ok c)
          × (ipv4_of (get_server_addr flow) ≡ ok s))
        ⊎ Unwritten flow
  written_or_not flow = elim (ipv4_of-cases (get_client_addr flow)) [
    | inr (e, k) ↦
        inr (e, inl k, write_tcp_flow_v6 w wire image reliable chrono timely flow e [] (inl k))
    | inl (c, k) ↦ elim (ipv4_of-cases (get_server_addr flow)) [
      | inr (e, l) ↦ inr (
        e,
        inr l,
        write_tcp_flow_v6 w wire image reliable chrono timely flow e [] (inr (c, k, l)),
      )
      | inl (s, l) ↦ inl (c, s, k, l)
    ]
  ]

  pub raw-Documented :
      (f : RawFlow U T) → BothReadable f → f.client_addr ≢ f.server_addr → Documented (raw f)
  unfolding get_client_addr get_server_addr
  raw-Documented f (rc, rs) n = elim (written_or_not (raw f)) [
    | inr none_written ↦ inr none_written
    | inl (c, s, k, l) ↦ inl (
      c,
      s,
      take rc.0 f.client_history.bytes,
      take rs.0 f.server_history.bytes,
      drop rc.0 f.client_history.bytes,
      drop rs.0 f.server_history.bytes,
      write_tcp_flow_taken w wire image reliable chrono timely f c s [] rc rs n k l,
      take-append-drop rc.0 f.client_history.bytes,
      take-append-drop rs.0 f.server_history.bytes,
    )
  ]

  pub http-Documented :
      (f : HttpFlow U T (Request w) (Response w))
      → f.client_addr ≢ f.server_addr
      → HasVersions w f
      → Documented (http f)
  unfolding get_client_addr get_server_addr
  http-Documented f n known = elim (written_or_not (http f)) [
    | inr none_written ↦ inr none_written
    | inl (c, s, k, l) ↦
        let (asked, answered, a, b) = texts_known w f known in
        inl (
          c,
          s,
          asked,
          answered,
          a,
          b,
          write_tcp_flow_texts w wire image reliable chrono timely f c s [] asked answered n k l a
              b,
        )
  ]
