-- ===== src/Service.antt =====
-- src/service.rs: the service that the configuration describes.
use mini_proxad.Prelude.{
  ℕ, ◌%◌, ◌^◌, Option, none, some, Bool, true, false, Bytes, message, Result, ok, ◌>>=◌, ok_or,
  with_context,
}
use mini_proxad.Net.{SocketAddr, socket_addr}
use mini_proxad.Config.{Config}
use mini_proxad.Tls.{Rustls, TlsConfig, new_tls_config}
use mini_proxad.Http.Settings.{HttpConfig, new_http_config}
use mini_proxad.Filter.{Filter}

pub record Service (r : Rustls) (U T Q R : Type 0) : Type 0 where
  pub name : Bytes
  pub client_addr : SocketAddr
  pub server_addr : SocketAddr
  pub client_timeout : ℕ
  pub server_timeout : ℕ
  pub client_max_history : ℕ
  pub server_max_history : ℕ
  pub tls_config : Option (TlsConfig r)
  pub http_config : Option HttpConfig
  pub filter : Option (Filter U T Q R)

-- `bool::then` with `transpose`.
abbrev pub then_some : {A : Type 0} → Bool → Result A → Result (Option A)
then_some true m = m >>= λ a. ok (some a)
then_some false m = ok none

-- The closure of `tls_enabled.then(..)`: `?` leaves it without the context.
unfoldable pub tls_of : (r : Rustls) → Config → Result (TlsConfig r)
tls_of r config = do
  cert ← ok_or config.tls_cert_file (message "TLS certificate is required")
  key ← ok_or config.tls_key_file (message "TLS key is required")
  with_context "Failed to load TLS config" (new_tls_config r cert key config.tls_ca_file)

unfoldable pub from_config : (r : Rustls) {U T Q R : Type 0} → Config → Result (Service r U T Q R)
from_config r config = do
  tls_config ← then_some config.tls_enabled (tls_of r config)
  http_config ←
      then_some config.http_enabled
        (with_context "Failed to load HTTP config" (new_http_config config))
  ok (record {
    name = config.service_name;
    client_addr = socket_addr config.client_ip config.client_port;
    server_addr = socket_addr config.server_ip config.server_port;
    client_timeout = config.client_timeout;
    server_timeout = config.server_timeout;
    client_max_history = config.client_max_history % 2 ^ 64;
    server_max_history = config.server_max_history % 2 ^ 64;
    tls_config = tls_config;
    http_config = http_config;
    filter = none;
  })
