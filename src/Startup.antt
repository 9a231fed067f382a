-- ===== src/Startup.antt =====
-- src/main.rs: from the command line to a running proxy. What the rest of the system gives is the
-- record `Host`.
use mini_proxad.Prelude.{
  ℕ, Option, none, some, Bool, Bytes, Result, ok, err, panicked, ◌>>=◌, if◌then◌else◌,
}
use mini_proxad.Net.{SocketAddr}
use mini_proxad.Config.{Config}
use mini_proxad.Tls.{Rustls}
use mini_proxad.Service.{from_config}
use mini_proxad.Filter.{Filter}
use mini_proxad.Filter.Loading.{Disk, load_from_file}
use mini_proxad.Filter.Watcher.{WatchSystem, spawn_watcher}
use mini_proxad.Proxy.Dumper.Start.{DumpSystem}
use mini_proxad.Proxy.Start.{ProxyInner, start}

pub record Args : Type 0 where
  pub verbose : Bool
  pub config_path : Bytes
  pub watcher : Bool

-- `load_config` is `File::open` and `serde_yaml::from_reader`; `interrupted` is how the wait for
-- ctrl-c ends. That the API module loads and that the limit of open files is raised is only logged.
pub record Host (U T Q R : Type 0) : Type 0 where
  pub load_config : Bytes → Result Config
  pub disk : Disk U T Q R
  pub watching : WatchSystem
  pub bind : SocketAddr → Result (Unit {0})
  pub dumping : DumpSystem

-- The process has ended with a code or by a panic, or it proxies, with the name that the watcher of
-- the script waits for, if there is one.
pub data Outcome (r : Rustls) (U T Q R : Type 0) : Type 0 where
  exited : ℕ → Outcome r U T Q R
  crashed : Outcome r U T Q R
  proxying : ProxyInner r U T Q R → Option Bytes → Outcome r U T Q R

-- `match` on a result whose error ends the process with the code 1.
abbrev pub or_exit {ℓ} :
    {A : Type ℓ} {r : Rustls} {U T Q R : Type 0}
    → Result A
    → (A → Outcome r U T Q R)
    → Outcome r U T Q R
or_exit (ok a) k = k a
or_exit (err e) k = exited 1
or_exit panicked k = crashed

module _ {U T Q R : Type 0} where
  -- `python_script.map(load_from_file).transpose()`.
  unfoldable pub load_filter : Host U T Q R → Option Bytes → Result (Option (Filter U T Q R))
  load_filter host none = ok none
  load_filter host (some path) = load_from_file host.disk path >>= λ f. ok (some f)

  -- A watcher that fails to start is only logged.
  unfoldable pub start_watcher : Host U T Q R → Args → Option (Filter U T Q R) → Option Bytes
  start_watcher host args none = none
  start_watcher host args (some filter) =
      if args.watcher
      then elim (spawn_watcher host.watching filter.script_path) [ ok name ↦ some name | _ ↦ none ]
      else none

module _ (r : Rustls) {U T Q R : Type 0} where
  unfoldable pub main : Host U T Q R → Args → Outcome r U T Q R
  main host args = or_exit (host.load_config args.config_path) (λ config.
      or_exit (from_config r {U = U} {T = T} {Q = Q} {R = R} config) (λ service.
        or_exit (load_filter host config.python_script) (λ filter.
          or_exit (start host.bind host.dumping (record service { filter = filter }) config)
            (λ inner. proxying inner (start_watcher host args filter)))))
