-- ===== src/Examples/Setup.antt =====
-- A process from its configuration to the running proxy.
use mini_proxad.Prelude.{
  ℕ, ◌≡◌, refl, Option, none, some, true, false, [], ◌∷◌, codes, ok, err, foreign,
}
use mini_proxad.Net.{v4, addr_v4, socket_addr}
use mini_proxad.Config.{
  Config, default_timeout, default_max_history, default_max_body, default_max_packets,
}
use mini_proxad.Tls.{
  Rustls, TlsConfig, load_certificates, load_private_key, collect_results, root_store, expect_all,
  parsable, no_certificate_verification, http_11_only, new_tls_config, Verifier,
}
use mini_proxad.Filter.{Filter}
use mini_proxad.Filter.Loading.{load_module, load_from_file, c_string}
use mini_proxad.Filter.Watcher.{spawn_watcher}
use mini_proxad.Service.{Service, from_config, tls_of}
use mini_proxad.Proxy.Link.{new_acceptor, new_connector}
use mini_proxad.Proxy.Dumper.Start.{DumpSystem, Metadata, directory, start_dumper}
use mini_proxad.Proxy.Start.{ProxyInner, start}
use mini_proxad.Startup.{Args, Host, load_filter, start_watcher, main, proxying}
use mini_proxad.Examples.Watching.{good_disk}

-- Certificates are numbers; a check of a chain fails, and a signature is always good.
abbrev strict : Verifier ℕ
strict = record {
  verify_server_cert = λ end_entity intermediates server_name ocsp now. err foreign;
  verify_tls12_signature = λ message cert dss. ok tt;
  verify_tls13_signature = λ message cert dss. ok tt;
  supported_verify_schemes = 1_027 ∷ [];
}

abbrev pub toy_tls : Rustls
toy_tls = record {
  Cert = ℕ;
  Key = ℕ;
  Anchor = ℕ;
  pem_file_iter = λ path. some (some 7 ∷ some 8 ∷ []);
  from_pem_file = λ path. some 7;
  parse_anchor = some;
  tls_server_roots = 1 ∷ [];
  with_single_cert = λ certs key. true;
  webpki = λ roots. strict;
  check_tls12 = λ message cert dss. ok tt;
  check_tls13 = λ message cert dss. ok tt;
  supported_schemes = 1_027 ∷ [];
}

abbrev toy_config : TlsConfig toy_tls
toy_config = record {
  server_config = record { certs = 7 ∷ 8 ∷ []; key = 7; alpn_protocols = http_11_only toy_tls };
  client_config = record {
    roots = 7 ∷ 8 ∷ [];
    verifier = record strict {
      verify_server_cert = λ end_entity intermediates server_name ocsp now. ok tt;
    };
    alpn_protocols = http_11_only toy_tls;
  };
}

toy_config_result :
    new_tls_config toy_tls (codes "cert.pem") (codes "key.pem") (some (codes "ca.pem"))
    ≡ ok toy_config
unfolding new_tls_config load_certificates collect_results load_private_key root_store expect_all
    parsable no_certificate_verification
toy_config_result = refl

abbrev listening : Config
listening = record {
  service_name = codes "web";
  client_ip = v4 1;
  client_port = 8_080;
  server_ip = v4 2;
  server_port = 80;
  client_timeout = default_timeout;
  server_timeout = default_timeout;
  client_max_history = default_max_history;
  server_max_history = default_max_history;
  tls_enabled = false;
  tls_cert_file = none;
  tls_key_file = none;
  tls_ca_file = none;
  python_script = some (codes "d/filter.py");
  dump_enabled = true;
  dump_path = some (codes "pcaps");
  dump_format = some (codes "{service}.pcap");
  dump_interval = some default_timeout;
  dump_max_packets = default_max_packets;
  http_enabled = true;
  http_keep_alive = true;
  http_half_close = false;
  http_date_header = false;
  http_max_body = default_max_body;
}

abbrev host : Host ℕ ℕ ℕ ℕ
host = record {
  load_config = λ path. ok listening;
  disk = good_disk;
  watching = record {
    init = true;
    path_text = some;
    parent = λ path. some (codes "d");
    file_name = λ path. some (codes "filter.py");
    add = λ path. true;
  };
  bind = λ addr. ok tt;
  dumping = record {
    metadata = λ path. directory;
    create_dir_all = λ path. ok tt;
    ip_text = λ ip. codes "ip";
  };
}

abbrev args : Args
args = record { verbose = false; config_path = codes "c.yml"; watcher = true }

-- What the process has built when it proxies.
abbrev outcome_of : Service toy_tls ℕ ℕ ℕ ℕ → ProxyInner toy_tls ℕ ℕ ℕ ℕ
outcome_of service = record {
  service = service;
  acceptor = record { listener = addr_v4 1 8_080; tls_acceptor = none };
  connector = record { server_addr = addr_v4 2 80; server_name = none; tls_connector = none };
  dumper = some (record {
    path = codes "pcaps";
    format = codes "{service}.pcap";
    interval = default_timeout;
    max_packets = default_max_packets;
    format_map =
        mini_proxad.Proxy.Dumper.Start.make_format_map (λ ip. codes "ip") (codes "web")
          (addr_v4 1 8_080) (addr_v4 2 80);
  });
}

abbrev pub web_service : {U T Q R : Type 0} → Option (Filter U T Q R) → Service toy_tls U T Q R
web_service filter = record {
  name = codes "web";
  client_addr = addr_v4 1 8_080;
  server_addr = addr_v4 2 80;
  client_timeout = default_timeout;
  server_timeout = default_timeout;
  client_max_history = default_max_history;
  server_max_history = default_max_history;
  tls_config = none;
  http_config = some (record {
    keep_alive = true;
    half_close = false;
    date_header = false;
    max_body = default_max_body;
    client_timeout = default_timeout;
  });
  filter = filter;
}

abbrev loaded_filter : Filter ℕ ℕ ℕ ℕ
loaded_filter = record {
  script_path = codes "d/filter.py";
  inner = record {
    http_filter = none;
    http_request = none;
    http_open = none;
    raw_client = none;
    raw_server = none;
    raw_open = none;
  };
}

main_result :
    main toy_tls host args
    ≡ proxying (outcome_of (web_service (some loaded_filter))) (some (codes "filter.py"))
unfolding main from_config tls_of mini_proxad.Http.Settings.new_http_config load_filter
    load_from_file load_module c_string start new_acceptor new_connector start_dumper
    mini_proxad.Proxy.Dumper.Start.make_directory start_watcher spawn_watcher socket_addr
main_result = refl
