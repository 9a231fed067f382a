-- ===== src/Proxy/Link.antt =====
-- src/proxy/acceptor.rs and src/proxy/connector.rs: the streams to the clients and to the service.
-- The sockets and the TLS handshakes give what they give; `S` stands for a TCP stream, `E` for one
-- with TLS inside.
use mini_proxad.Prelude.{
  ◌≢◌, Option, none, some, Result, ok, panicked, ◌>>=◌, ◌>>◌, or_panic, arith,
}
use mini_proxad.Net.{SocketAddr, IpAddr, ip_of}
use mini_proxad.Tls.{Rustls, TlsConfig, ServerConfig, ClientConfig}
use mini_proxad.Service.{Service}

abbrev pub map_option : {A B : Type 0} → (A → B) → Option A → Option B
map_option f none = none
map_option f (some a) = some (f a)

pub record Acceptor (r : Rustls) : Type 0 where
  pub listener : SocketAddr
  pub tls_acceptor : Option (ServerConfig r)

pub record Connector (r : Rustls) : Type 0 where
  pub server_addr : SocketAddr
  pub server_name : Option IpAddr
  pub tls_connector : Option (ClientConfig r)

-- `Pin<Box<dyn ChunkStream>>`.
pub data ProxyStream (S E : Type 0) : Type 0 where
  plain_stream : S → ProxyStream S E
  tls_stream : E → ProxyStream S E

module _ {r : Rustls} {U T Q R : Type 0} where
  -- `bind` is `TcpListener::bind`.
  unfoldable pub new_acceptor :
      (SocketAddr → Result (Unit {0})) → Service r U T Q R → Result (Acceptor r)
  new_acceptor bind service = do
    bind service.client_addr
    ok (record {
      listener = service.client_addr;
      tls_acceptor = map_option (λ (t : TlsConfig r). t.server_config) service.tls_config;
    })

  unfoldable pub new_connector : Service r U T Q R → Connector r
  new_connector service = record {
    server_addr = service.server_addr;
    server_name = map_option (λ (t : TlsConfig r). ip_of service.server_addr) service.tls_config;
    tls_connector = map_option (λ (t : TlsConfig r). t.client_config) service.tls_config;
  }

module _ {r : Rustls} {S E : Type 0} where
  -- The next connection of the listener, and the handshake as its server.
  unfoldable pub accept :
      Result (S × SocketAddr)
      → (ServerConfig r → S → Result E)
      → Acceptor r
      → Result (ProxyStream S E × SocketAddr)
  accept next handshake acceptor = next >>= λ arrival. elim acceptor.tls_acceptor [
    | some config ↦ handshake config arrival.0 >>= λ e. ok (tls_stream e, arrival.1)
    | none ↦ ok (plain_stream arrival.0, arrival.1)
  ]

  -- `connect` of a TCP stream, and the handshake as its client, for the name.
  unfoldable pub connect :
      (SocketAddr → Result S)
      → (ClientConfig r → IpAddr → S → Result E)
      → Connector r
      → Result (ProxyStream S E)
  connect tcp handshake connector = tcp connector.server_addr >>= λ stream.
      elim connector.tls_connector [
        | some config ↦ or_panic connector.server_name >>= λ name.
            handshake config name stream >>= λ e. ok (tls_stream e)
        | none ↦ ok (plain_stream stream)
      ]

module _ {r : Rustls} {U T Q R S E : Type 0} where
  -- The name is there whenever it is expected.
  pub connect-ne-panicked :
      (service : Service r U T Q R) (tcp : SocketAddr → Result S)
      (handshake : ClientConfig r → IpAddr → S → Result E)
      → ((a : SocketAddr) → tcp a ≢ panicked)
      → ((c : ClientConfig r) (n : IpAddr) (s : S) → handshake c n s ≢ panicked)
      → connect tcp handshake (new_connector service) ≢ panicked
  unfolding connect new_connector
  connect-ne-panicked service tcp handshake p q h = grind (arith, p, q)
