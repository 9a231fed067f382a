-- ===== src/Proxy/Archive.antt =====
-- From the listener to the files: what lies in the pcap files (src/proxy/dumper.rs, `dumper`) of the
-- connections that `handle_accept` (src/proxy/mod.rs) has served.
use mini_proxad.Prelude.{◌≡◌, ◌≢◌, List, Within, Bytes, All}
use mini_proxad.Http.{HttpCrate}
use mini_proxad.Flow.{raw, http}
use mini_proxad.Flow.Iter.Versions.{HasVersions}
use mini_proxad.Tls.{Rustls}
use mini_proxad.Proxy.Accept.{AnyFlow, WebService}
use mini_proxad.Proxy.Accept.Handover.{Served}
use mini_proxad.Proxy.Documents.{Documented}
use mini_proxad.Proxy.Dumper.Packet.{Header, Wire}
use mini_proxad.Proxy.Dumper.Conversation.{Chrono}
use mini_proxad.Proxy.Dumper.Transcript.{IsReliable}
use mini_proxad.Proxy.Dumper.Course.{IsTimely}
use mini_proxad.Proxy.Dumper.Rotation.{Limits, Directory}
use mini_proxad.Proxy.Dumper.Rotation.Listing.{whole_files}
use mini_proxad.Proxy.Dumper.Rotation.Contents.{Group, written, flows_of}

module _ (w : HttpCrate) {U T : Type 0} (chrono : Chrono T) where
  -- A flow between two addresses that differ, where no message has a version that is not known.
  abbrev pub Legible : AnyFlow w U T → Type 0
  Legible (raw f) = f.client_addr ≢ f.server_addr
  Legible (http f) = (f.client_addr ≢ f.server_addr) × HasVersions w f

module _ (w : HttpCrate) {U T : Type 0} {r : Rustls} (service : WebService w U T r) (wire : Wire)
    (image : Header → Bytes → Bytes) (reliable : IsReliable wire image) (chrono : Chrono T)
    (timely : IsTimely chrono) (limits : Limits) where
  -- Each whole file holds the packets of a group of flows, each flow written whole; the groups are made
  -- of flows out of those that were received, in their order; and each of these has been served and is
  -- written as `Documented` says.
  abbrev pub Archived : List (AnyFlow w U T) → Directory → Type 0
  Archived received files =
      (groups : List (Group w U T)) × (whole_files files ≡ written w wire chrono groups)
      × Within (flows_of w groups) received
      × All (Served w service) (flows_of w groups)
      × All (Documented w wire image reliable chrono timely) (flows_of w groups)
