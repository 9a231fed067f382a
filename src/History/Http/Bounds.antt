-- ===== src/History/Http/Bounds.antt =====
-- The size limits of an HTTP history (src/flow/history.rs).
use mini_proxad.Prelude.{◌⊎◌, ℕ, ◌+◌, ◌^◌, ◌≤◌, ◌<◌, ◌≡◌, true, false, [], ◌∷◌, ◌++◌, arith}
use mini_proxad.History.Http.{HttpHistory, push_request, push_response}

module _ {Req Resp T : Type 0} where
  -- The sizes are within the limits.
  pub record IsBounded (h : HttpHistory Req Resp T) : Type 0 where
    pub client : h.client_size ≤ h.client_max
    pub server : h.server_size ≤ h.server_max

  pub push_request-IsBounded :
      (h : HttpHistory Req Resp T) (req : Req) (len : ℕ) (now : T)
      → IsBounded h
      → IsBounded (push_request h req len now).0
  unfolding push_request
  push_request-IsBounded h req len now b = ground arith

  pub push_response-IsBounded :
      (h : HttpHistory Req Resp T) (resp : Resp) (len : ℕ) (now : T)
      → IsBounded h
      → IsBounded (push_response h resp len now).0
  unfolding push_response
  push_response-IsBounded h resp len now b = ground arith

  -- A message is taken exactly if its body still fits under the limit; then it stands at the end and
  -- its length is added, else nothing changes.
  abbrev pub RequestExact : HttpHistory Req Resp T → Req → ℕ → T → Type 0
  RequestExact h req len now =
      ((h.client_size + len ≤ h.client_max)
        × ((push_request h req len now).1 ≡ true)
        × ((push_request h req len now).0.client_size ≡ h.client_size + len)
        × ((push_request h req len now).0.requests ≡ h.requests ++ (req, now) ∷ []))
      ⊎ ((h.client_max < h.client_size + len)
          × ((push_request h req len now).1 ≡ false)
          × ((push_request h req len now).0 ≡ h))

  abbrev pub ResponseExact : HttpHistory Req Resp T → Resp → ℕ → T → Type 0
  ResponseExact h resp len now =
      ((h.server_size + len ≤ h.server_max)
        × ((push_response h resp len now).1 ≡ true)
        × ((push_response h resp len now).0.server_size ≡ h.server_size + len)
        × ((push_response h resp len now).0.responses ≡ h.responses ++ (resp, now) ∷ []))
      ⊎ ((h.server_max < h.server_size + len)
          × ((push_response h resp len now).1 ≡ false)
          × ((push_response h resp len now).0 ≡ h))

  push_request-RequestExact :
      (h : HttpHistory Req Resp T) (req : Req) (len : ℕ) (now : T)
      → IsBounded h
      → len < 2 ^ 63
      → h.client_max < 2 ^ 63
      → RequestExact h req len now
  unfolding push_request
  push_request-RequestExact h req len now b p q = grind arith

  push_response-ResponseExact :
      (h : HttpHistory Req Resp T) (resp : Resp) (len : ℕ) (now : T)
      → IsBounded h
      → len < 2 ^ 63
      → h.server_max < 2 ^ 63
      → ResponseExact h resp len now
  unfolding push_response
  push_response-ResponseExact h resp len now b p q = grind arith

  -- For bodies and limits below 2^63 a request is taken exactly if its body still fits under the limit
  -- of the client, and a response exactly if its body fits under that of the server; then it stands
  -- at the end and its length is added, else nothing changes.
  pub push_exact :
      (h : HttpHistory Req Resp T) (req : Req) (resp : Resp) (asked answered : ℕ) (now : T)
      → IsBounded h
      → asked < 2 ^ 63
      → answered < 2 ^ 63
      → h.client_max < 2 ^ 63
      → h.server_max < 2 ^ 63
      → RequestExact h req asked now × ResponseExact h resp answered now
  push_exact h req resp asked answered now b p q cm sm = (
    push_request-RequestExact h req asked now b p cm,
    push_response-ResponseExact h resp answered now b q sm,
  )
