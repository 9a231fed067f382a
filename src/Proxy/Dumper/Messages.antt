-- ===== src/Proxy/Dumper/Messages.antt =====
-- What the packets of src/proxy/dumper.rs carry: the texts of the messages of an HTTP flow.
use mini_proxad.Prelude.{
  ℕ, suc, ◌≡◌, ◌≢◌, ◌∙◌, true, false, List, ◌++◌, map, Bytes, length, take, flatten, ok,
}
use mini_proxad.Net.{port_of}
use mini_proxad.Http.{HttpCrate, Request, Response}
use mini_proxad.Flow.{http, HttpFlow, get_client_addr, get_server_addr, get_start}
use mini_proxad.Flow.Iter.{Item}
use mini_proxad.Flow.Iter.Merge.{traverse}
use mini_proxad.Flow.Iter.Dialogue.{flow_items-dialogue}
use mini_proxad.Flow.Iter.Texts.{request_text, response_text, dialogue-Texts}
use mini_proxad.Proxy.Dumper.Packet.{Header, PcapPacket, Wire}
use mini_proxad.Proxy.Dumper.Conversation.{Chrono, make_ends, ipv4_of, write_tcp_flow}
use mini_proxad.Proxy.Dumper.Transcript.{IsReliable, seal}
use mini_proxad.Proxy.Dumper.Pieces.{spoken, all_pieces}
use mini_proxad.Proxy.Dumper.Course.{IsTimely, stamp_of, transcript}
use mini_proxad.Proxy.Dumper.Files.{write_tcp_flow_ok}
use mini_proxad.Proxy.Dumper.Payloads.{spoken-client, spoken-server}

module _ (w : HttpCrate) {U T : Type 0} (wire : Wire) (image : Header → Bytes → Bytes)
    (reliable : IsReliable wire image) (chrono : Chrono T) (timely : IsTimely chrono) where
  -- The file gets, behind what it holds, the transcript of items that carry these texts.
  abbrev pub Worded :
      HttpFlow U T (Request w) (Response w)
      → ℕ
      → ℕ
      → List PcapPacket
      → List Bytes
      → List Bytes
      → Type 0
  Worded flow c s packets asked answered =
      (items : List (Item T)) × (let segments =
          transcript (stamp_of chrono) flow.client_addr
            (make_ends c s (port_of flow.client_addr) (port_of flow.server_addr)) flow.start
            items in
        write_tcp_flow w wire chrono (http flow) packets
        ≡ (packets ++ map (seal image) segments, ok (length segments)))
      × (spoken true (all_pieces (stamp_of chrono) flow.client_addr items) ≡ flatten asked)
      × (spoken false (all_pieces (stamp_of chrono) flow.client_addr items) ≡ flatten answered)

  -- An HTTP flow between two IPv4 addresses that differ, written by a reliable writer at times that
  -- fit a `u64`, where no message has a version that panics: the file gets a transcript whose
  -- payloads of the client, joined, are the texts of its requests up to the first one that has no
  -- response, that one included, and whose payloads of the server are the texts of the responses to
  -- them. A message whose text is an error counts as an empty text.
  pub write_tcp_flow_texts :
      (flow : HttpFlow U T (Request w) (Response w)) (c s : ℕ) (packets : List PcapPacket)
      (asked answered : List Bytes)
      → flow.client_addr ≢ flow.server_addr
      → ipv4_of flow.client_addr ≡ ok c
      → ipv4_of flow.server_addr ≡ ok s
      → traverse (request_text w) (take (suc (length flow.history.responses)) flow.history.requests)
        ≡ ok asked
      → traverse (response_text w) (take (length flow.history.requests) flow.history.responses)
        ≡ ok answered
      → Worded flow c s packets asked answered
  unfolding get_client_addr get_server_addr get_start
  write_tcp_flow_texts flow c s packets asked answered n hc hs ha hb =
      let (items, read, (client, server, sides)) =
        dialogue-Texts w flow.client_addr flow.server_addr n flow.history.requests
          flow.history.responses asked answered ha hb in
      (
        items,
        write_tcp_flow_ok w wire image reliable chrono timely (http flow) c s items packets hc hs
            (flow_items-dialogue w chrono.before flow ∙ read),
        spoken-client (stamp_of chrono) flow.client_addr items ∙ client,
        spoken-server (stamp_of chrono) flow.client_addr flow.server_addr n items sides ∙ server,
      )
