-- ===== src/Config.antt =====
-- src/config.rs: the configuration as it is after the YAML file has been read, and the values that
-- serde puts where a key is missing. Texts and paths are bytes, durations are nanoseconds, and a
-- `Byte` is its number of bytes.
use mini_proxad.Prelude.{ℕ, ◌*◌, ◌^◌, Option, Bool, Bytes}
use mini_proxad.Net.{IpAddr}

pub record Config : Type 0 where
  pub service_name : Bytes
  pub client_ip : IpAddr
  pub client_port : ℕ
  pub server_ip : IpAddr
  pub server_port : ℕ
  pub client_timeout : ℕ
  pub server_timeout : ℕ
  pub client_max_history : ℕ
  pub server_max_history : ℕ
  pub tls_enabled : Bool
  pub tls_cert_file : Option Bytes
  pub tls_key_file : Option Bytes
  pub tls_ca_file : Option Bytes
  pub python_script : Option Bytes
  pub dump_enabled : Bool
  pub dump_path : Option Bytes
  pub dump_format : Option Bytes
  pub dump_interval : Option ℕ
  pub dump_max_packets : ℕ
  pub http_enabled : Bool
  pub http_keep_alive : Bool
  pub http_half_close : Bool
  pub http_date_header : Bool
  pub http_max_body : ℕ

abbrev pub default_timeout : ℕ
default_timeout = 30 * 10 ^ 9

abbrev pub default_max_history : ℕ
default_max_history = 512 * 2 ^ 20

abbrev pub default_max_body : ℕ
default_max_body = 8 * 2 ^ 20

abbrev pub default_max_packets : ℕ
default_max_packets = 512
