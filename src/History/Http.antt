-- ===== src/History/Http.antt =====
-- src/flow/history.rs, the HTTP half: the requests and responses of a flow, with the size of their
-- bodies and its limits. `Req` and `Resp` stand for the messages, `T` for chrono's `DateTime<Utc>`.
-- Sums of `usize` wrap, as in a release build.
pub mod Bounds
use mini_proxad.Prelude.{
  ℕ, ◌+◌, ◌%◌, ◌^◌, Bool, true, false, List, [], ◌∷◌, ◌++◌, ltb, if◌then◌else◌,
}

pub record HttpHistory (Req Resp T : Type 0) : Type 0 where
  pub requests : List (Req × T)
  pub responses : List (Resp × T)
  pub client_size : ℕ
  pub server_size : ℕ
  pub client_max : ℕ
  pub server_max : ℕ

abbrev pub usize_add : ℕ → ℕ → ℕ
usize_add a b = (a + b) % 2 ^ 64

unfoldable pub new_http_history : (Req Resp T : Type 0) → ℕ → ℕ → HttpHistory Req Resp T
new_http_history Req Resp T client_max server_max = record {
  requests = [];
  responses = [];
  client_size = 0;
  server_size = 0;
  client_max = client_max;
  server_max = server_max;
}

module _ {Req Resp T : Type 0} where
  unfoldable pub push_request : HttpHistory Req Resp T → Req → ℕ → T → HttpHistory Req Resp T × Bool
  push_request h req len now =
      if ltb h.client_max (usize_add len h.client_size) then (h, false) else (
        record h {
          client_size = usize_add h.client_size len;
          requests = h.requests ++ (req, now) ∷ [];
        },
        true,
      )

  unfoldable pub push_response :
      HttpHistory Req Resp T → Resp → ℕ → T → HttpHistory Req Resp T × Bool
  push_response h resp len now =
      if ltb h.server_max (usize_add len h.server_size) then (h, false) else (
        record h {
          server_size = usize_add h.server_size len;
          responses = h.responses ++ (resp, now) ∷ [];
        },
        true,
      )
