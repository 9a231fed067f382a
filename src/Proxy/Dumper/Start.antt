-- ===== src/Proxy/Dumper/Start.antt =====
-- src/proxy/dumper.rs, `start`: the checks before the dumper's task begins. The file system gives
-- what `metadata` and `create_dir_all` find; `ip_text` prints an address.
use mini_proxad.Prelude.{
  ℕ, List, [], ◌∷◌, Bytes, codes, decimal, Error, message, Result, ok, err, ◌>>=◌, ◌>>◌, ok_or,
}
use mini_proxad.Net.{IpAddr, SocketAddr, ip_of, port_of}
use mini_proxad.Config.{Config}
use mini_proxad.Tls.{Rustls}
use mini_proxad.Service.{Service}

abbrev pub dump_channel_limit : ℕ
dump_channel_limit = 400

-- `metadata(path).await`.
pub data Metadata : Type 0 where
  directory other_file missing : Metadata
  unreadable : Error → Metadata

pub record DumpSystem : Type 0 where
  pub metadata : Bytes → Metadata
  pub create_dir_all : Bytes → Result (Unit {0})
  pub ip_text : IpAddr → Bytes

pub record Dumper : Type 0 where
  pub path : Bytes
  pub format : Bytes
  pub interval : ℕ
  pub max_packets : ℕ
  pub format_map : List (Bytes × Bytes)

-- The `match` on the metadata.
unfoldable pub make_directory : DumpSystem → Bytes → Result (Unit {0})
make_directory sys path = elim (sys.metadata path) [
  | directory ↦ ok tt
  | other_file ↦ err (message "Expected a directory for pcaps")
  | missing ↦ sys.create_dir_all path
  | unreadable e ↦ err e
]

unfoldable pub make_format_map :
    (IpAddr → Bytes) → Bytes → SocketAddr → SocketAddr → List (Bytes × Bytes)
make_format_map ip_text name client_addr server_addr =
    (codes "service", name)
    ∷ (codes "client_ip", ip_text (ip_of client_addr))
    ∷ (codes "client_port", decimal (port_of client_addr))
    ∷ (codes "server_ip", ip_text (ip_of server_addr))
    ∷ (codes "server_port", decimal (port_of server_addr))
    ∷ (codes "from_ip", ip_text (ip_of client_addr))
    ∷ (codes "from_port", decimal (port_of client_addr))
    ∷ (codes "to_ip", ip_text (ip_of server_addr))
    ∷ (codes "to_port", decimal (port_of server_addr))
    ∷ []

unfoldable pub start_dumper :
    {r : Rustls} {U T Q R : Type 0} → DumpSystem → Service r U T Q R → Config → Result Dumper
start_dumper sys service config = do
  path ← ok_or config.dump_path (message "Dump path is required")
  make_directory sys path
  interval ← ok_or config.dump_interval (message "Dump interval is required")
  format ← ok_or config.dump_format (message "Dump format is required")
  ok (record {
    path = path;
    format = format;
    interval = interval;
    max_packets = config.dump_max_packets;
    format_map = make_format_map sys.ip_text service.name service.client_addr service.server_addr;
  })
