-- ===== src/Examples/World.antt =====
-- A concrete clock, header map, script and pcap writer, and a flow between two hosts.
use mini_proxad.Prelude.{
  ℕ, ◌%◌, ◌^◌, ◌≡◌, ◌≢◌, refl, none, some, Bool, true, false, List, [], ◌∷◌, ◌++◌, map, Bytes,
  length, length-append, replicate, ltb, leb, ltb→lt, le→ltb_false, le→leb, ◌||◌, ap, if◌then◌else◌,
  arith,
}
use mini_proxad.Net.{SocketAddr, addr_v4}
use mini_proxad.Http.{HttpCrate}
use mini_proxad.Http.Extract.{eq_ignore_ascii_case}
use mini_proxad.Http.Extract.Laws.{IsHeaderMap}
use mini_proxad.History.Raw.{RawHistory}
use mini_proxad.Flow.{RawFlow}
use mini_proxad.Filter.{FilterModule, returned, py_bytes, py_none, py_ellipsis}
use mini_proxad.Proxy.Dumper.Packet.{Header, Wire}
use mini_proxad.Proxy.Dumper.Conversation.{Chrono, max_payload}
use mini_proxad.Proxy.Dumper.Transcript.{IsReliable}
use mini_proxad.Proxy.Dumper.Course.{IsTimely}

unfoldable pub has_key : List (Bytes × Bytes) → Bytes → Bool
has_key [] n = false
has_key ((k, v) ∷ h) n = eq_ignore_ascii_case k n || has_key h n

unfoldable pub remove_key : List (Bytes × Bytes) → Bytes → List (Bytes × Bytes)
remove_key [] n = []
remove_key ((k, v) ∷ h) n =
    if eq_ignore_ascii_case k n then remove_key h n else (k, v) ∷ remove_key h n

-- Headers as an association list, methods and URIs as their text.
abbrev pub plain : HttpCrate
plain = record {
  Method = Bytes;
  Uri = Bytes;
  HeaderMap = List (Bytes × Bytes);
  method_text = λ m. m;
  uri_text = λ u. u;
  canonical_reason = λ s. none;
  entries = map (λ h. (h.0, some h.1));
  contains_key = has_key;
  remove = remove_key;
  insert = λ h k v. (k, v) ∷ h;
  clear = λ h. [];
  header_name = some;
  header_value = some;
  status_code = some;
  parse_method = some;
  default_method = [];
  default_uri = [];
  no_headers = [];
  limited_body = λ max body. if ltb max (length body) then none else some body;
}

abbrev pub client : SocketAddr
client = addr_v4 1 1_000

abbrev pub server : SocketAddr
server = addr_v4 2 80

-- Two chunks of the client, one of the server.
abbrev pub sent : RawHistory ℕ
sent = record {
  bytes = 7 ∷ 8 ∷ 9 ∷ [];
  chunks =
      record { range = record { start = 0; end = 2 }; timestamp = 10 }
      ∷ record { range = record { start = 2; end = 3 }; timestamp = 30 }
      ∷ [];
  max_size = 100;
}

abbrev pub received : RawHistory ℕ
received = record {
  bytes = 5 ∷ [];
  chunks = record { range = record { start = 0; end = 1 }; timestamp = 20 } ∷ [];
  max_size = 100;
}

abbrev pub two_way : RawFlow ℕ ℕ
two_way = record {
  id = 0;
  start = 1;
  client_addr = client;
  server_addr = server;
  client_history = sent;
  server_history = received;
}

pub client-ne-server : client ≢ server
client-ne-server h = ground arith

-- A script that replaces the client's bytes and kills the flow once the server speaks.
abbrev pub script : {Q R : Type 0} → FilterModule ℕ ℕ Q R
script = record {
  http_filter = none;
  http_request = some (λ flow req. returned py_ellipsis);
  http_open = none;
  raw_client = some (λ flow bytes. returned (py_bytes (some (6 ∷ []))));
  raw_server = some (λ flow bytes. returned py_ellipsis);
  raw_open = some (λ flow. returned py_none);
}

abbrev pub clock : Chrono ℕ
clock = record { before = ltb; unix_secs = λ t. t % 2 ^ 32; subsec_nanos = λ t. 0 }

pub clock-IsTimely : IsTimely clock
clock-IsTimely t = omega arith

pub before_asym : (a b : ℕ) → ltb a b ≡ true → ltb b a ≡ false
before_asym a b h = let lt = ltb→lt a b h in le→ltb_false b a (omega arith)

-- Headers of zeros.
abbrev pub image : Header → Bytes → Bytes
image h payload = replicate 54 0 ++ payload

abbrev pub writer : Wire
writer = record {
  encode = λ h payload. if leb (length payload) max_payload then some (image h payload) else none;
  accepts = λ packets p. true;
}

pub writer-IsReliable : IsReliable writer image
writer-IsReliable = record {
  encodes = λ h payload fits. let e = le→leb (length payload) max_payload fits in rw e refl;
  length-image = λ h payload. length-append (replicate 54 0) payload;
  accepts = λ packets p. refl;
}

pub plain-IsHeaderMap : IsHeaderMap plain
unfolding has_key
plain-IsHeaderMap = record {
  names = λ k hk n h. let same : hk ≡ k = cc in ap (λ x. eq_ignore_ascii_case x n) same;
  inserted = λ m k v n. refl;
  cleared = λ m n. refl;
}
