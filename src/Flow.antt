-- ===== src/Flow.antt =====
-- src/flow/mod.rs: the flows that the proxy records. `U` stands for `Uuid`, `T` for chrono's
-- `DateTime<Utc>`; the fresh id and the reading of the clock are arguments.
pub mod Iter
use mini_proxad.Prelude.{ℕ}
use mini_proxad.Net.{SocketAddr}
use mini_proxad.History.Raw.{RawHistory, new_raw_history}
use mini_proxad.History.Http.{HttpHistory, new_http_history}

pub record RawFlow (U T : Type 0) : Type 0 where
  pub id : U
  pub start : T
  pub client_addr : SocketAddr
  pub server_addr : SocketAddr
  pub client_history : RawHistory T
  pub server_history : RawHistory T

pub record HttpFlow (U T Req Resp : Type 0) : Type 0 where
  pub id : U
  pub start : T
  pub client_addr : SocketAddr
  pub server_addr : SocketAddr
  pub history : HttpHistory Req Resp T

pub data Flow (U T Req Resp : Type 0) : Type 0 where
  raw : RawFlow U T → Flow U T Req Resp
  http : HttpFlow U T Req Resp → Flow U T Req Resp

module _ {U T : Type 0} where
  unfoldable pub new_raw_flow : U → T → SocketAddr → ℕ → SocketAddr → ℕ → RawFlow U T
  new_raw_flow id now client_addr client_max_history server_addr server_max_history = record {
    id = id;
    start = now;
    client_addr = client_addr;
    server_addr = server_addr;
    client_history = new_raw_history T client_max_history;
    server_history = new_raw_history T server_max_history;
  }

module _ {U T : Type 0} (Req Resp : Type 0) where
  unfoldable pub new_http_flow : U → T → SocketAddr → ℕ → SocketAddr → ℕ → HttpFlow U T Req Resp
  new_http_flow id now client_addr client_max_history server_addr server_max_history = record {
    id = id;
    start = now;
    client_addr = client_addr;
    server_addr = server_addr;
    history = new_http_history Req Resp T client_max_history server_max_history;
  }

module _ {U T Req Resp : Type 0} where
  unfoldable pub get_id : Flow U T Req Resp → U
  get_id (raw f) = f.id
  get_id (http f) = f.id

  unfoldable pub get_start : Flow U T Req Resp → T
  get_start (raw f) = f.start
  get_start (http f) = f.start

  unfoldable pub get_client_addr : Flow U T Req Resp → SocketAddr
  get_client_addr (raw f) = f.client_addr
  get_client_addr (http f) = f.client_addr

  unfoldable pub get_server_addr : Flow U T Req Resp → SocketAddr
  get_server_addr (raw f) = f.server_addr
  get_server_addr (http f) = f.server_addr
