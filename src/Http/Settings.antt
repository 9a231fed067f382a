-- ===== src/Http/Settings.antt =====
-- src/http.rs, `HttpConfig`: the settings of the HTTP connections. A builder of hyper is the record of
-- what has been set on it; `none` is hyper's own default.
use mini_proxad.Prelude.{ℕ, ◌%◌, ◌^◌, Option, some, Bool, true, Result, ok}
use mini_proxad.Config.{Config}

pub record HttpConfig : Type 0 where
  pub keep_alive : Bool
  pub half_close : Bool
  pub date_header : Bool
  pub max_body : ℕ
  pub client_timeout : ℕ

unfoldable pub new_http_config : Config → Result HttpConfig
new_http_config config = ok (record {
  keep_alive = config.http_keep_alive;
  half_close = config.http_half_close;
  date_header = config.http_date_header;
  max_body = config.http_max_body % 2 ^ 64;
  client_timeout = config.client_timeout;
})

pub record ServerBuilder : Type 0 where
  pub preserve_header_case : Option Bool
  pub half_close : Option Bool
  pub keep_alive : Option Bool
  pub auto_date_header : Option Bool
  pub has_timer : Bool
  pub header_read_timeout : Option ℕ

pub record ClientBuilder : Type 0 where
  pub preserve_header_case : Option Bool

unfoldable pub server_builder : HttpConfig → ServerBuilder
server_builder h = record {
  preserve_header_case = some true;
  half_close = some h.half_close;
  keep_alive = some h.keep_alive;
  auto_date_header = some h.date_header;
  has_timer = true;
  header_read_timeout = some h.client_timeout;
}

unfoldable pub client_builder : HttpConfig → ClientBuilder
client_builder h = record { preserve_header_case = some true }
