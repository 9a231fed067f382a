-- ===== src/Proxy/Start.antt =====
-- src/proxy/mod.rs, `Proxy` and `start`.
use mini_proxad.Prelude.{Option, Result, ok, ◌>>=◌, with_context}
use mini_proxad.Net.{SocketAddr}
use mini_proxad.Config.{Config}
use mini_proxad.Tls.{Rustls}
use mini_proxad.Service.{Service, then_some}
use mini_proxad.Proxy.Link.{Acceptor, Connector, new_acceptor, new_connector}
use mini_proxad.Proxy.Dumper.Start.{DumpSystem, Dumper, start_dumper}

-- The channel to the dumper's task stands here as the dumper.
pub record ProxyInner (r : Rustls) (U T Q R : Type 0) : Type 0 where
  pub service : Service r U T Q R
  pub acceptor : Acceptor r
  pub connector : Connector r
  pub dumper : Option Dumper

unfoldable pub start :
    {r : Rustls} {U T Q R : Type 0}
    → (SocketAddr → Result (Unit {0}))
    → DumpSystem
    → Service r U T Q R
    → Config
    → Result (ProxyInner r U T Q R)
start bind sys service config = do
  acceptor ← new_acceptor bind service
  let connector = new_connector service
  dumper ←
      then_some config.dump_enabled
        (with_context "Failed to start dumper" (start_dumper sys service config))
  ok (record { service = service; acceptor = acceptor; connector = connector; dumper = dumper })
