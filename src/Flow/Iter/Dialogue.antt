-- ===== src/Flow/Iter/Dialogue.antt =====
-- The iterator over an HTTP flow (src/flow/iter.rs) against the dialogue of its messages.
use mini_proxad.Prelude.{
  ℕ, zero, suc, ◌+◌, ◌≤◌, ◌<◌, ◌≡◌, refl, ap, ◌∙◌, inl, inr, none, some, Bool, true, false, List,
  [], ◌∷◌, length, ok, ◌>>=◌, drop, drop-cases, arith, leb, le→leb, bind_assoc, Bool-cases, leb→le,
}
use mini_proxad.Net.{SocketAddr}
use mini_proxad.Http.{HttpCrate, Request, Response}
use mini_proxad.Flow.{HttpFlow, http}
use mini_proxad.Flow.Iter.{
  after, HttpFlowIterator, EitherHttp, left, right, http_next, http_iter, into_http_iter,
  message_bytes, next, collect, calls, into_iter, flow_items,
}
use mini_proxad.Flow.Iter.Merge.{traverse}

module _ {Req Resp T : Type 0} (ca sa : SocketAddr) where
  -- Request and response in turn, up to the first request without a response, and with it.
  unfoldable pub dialogue :
      List (Req × T) → List (Resp × T) → List (SocketAddr × T × EitherHttp Req Resp)
  dialogue [] rs = []
  dialogue ((req, t) ∷ qs) [] = (ca, t, left req) ∷ []
  dialogue ((req, t) ∷ qs) ((resp, u) ∷ rs) =
      (ca, t, left req) ∷ (sa, u, right resp) ∷ dialogue qs rs

  -- The dialogue from a response on.
  abbrev reply : List (Req × T) → List (Resp × T) → List (SocketAddr × T × EitherHttp Req Resp)
  reply qs [] = []
  reply qs ((resp, u) ∷ rs) = (sa, u, right resp) ∷ dialogue qs rs

  dialogue-cons :
      (req : Req) (t : T) (qs : List (Req × T)) (rs : List (Resp × T))
      → dialogue ((req, t) ∷ qs) rs ≡ (ca, t, left req) ∷ reply qs rs
  unfolding dialogue
  dialogue-cons req t qs [] = refl
  dialogue-cons req t qs ((resp, u) ∷ rs) = refl

  length-dialogue :
      (qs : List (Req × T)) (rs : List (Resp × T)) → length (dialogue qs rs) ≤ length qs + length rs
  unfolding dialogue
  length-dialogue [] rs = omega arith
  length-dialogue (q ∷ qs) [] = omega arith
  length-dialogue (q ∷ qs) (r ∷ rs) = omega (arith, length-dialogue qs rs)

module _ (w : HttpCrate) {U T : Type 0} (before : T → T → Bool)
    (flow : HttpFlow U T (Request w) (Response w)) where
  abbrev qs : List (Request w × T)
  qs = flow.history.requests

  abbrev rs : List (Response w × T)
  rs = flow.history.responses

  abbrev at_index : ℕ → ℕ → HttpFlowIterator U T (Request w) (Response w)
  at_index i j = record { flow = flow; client_index = i; server_index = j }

  collect_stop :
      (n : ℕ) (it it' : HttpFlowIterator U T (Request w) (Response w))
      → http_next it ≡ (none, it')
      → collect w (suc n) before (http_iter it) ≡ ok []
  unfolding collect next
  collect_stop n it it' e = rw (e, next)

  collect_step :
      (n : ℕ) (it it' : HttpFlowIterator U T (Request w) (Response w))
      (a : SocketAddr × T × EitherHttp (Request w) (Response w))
      → http_next it ≡ (some a, it')
      → collect w (suc n) before (http_iter it)
        ≡ (message_bytes w a >>= λ b. collect w n before (http_iter it') >>= λ bs. ok (b ∷ bs))
  unfolding collect next
  collect_step n it it' a e =
      rw (e, next)
        (bind_assoc (λ b. ok (some b)) (after (collect w n before (http_iter it')))
          (message_bytes w a))

  -- The iterator before a request, and before a response.
  collect-dialogue :
      (n : ℕ)
      → ((i : ℕ)
          → length (dialogue flow.client_addr flow.server_addr (drop i qs) (drop i rs)) < n
          → collect w n before (http_iter (at_index i i))
            ≡ traverse
                (message_bytes w)
                (dialogue flow.client_addr flow.server_addr (drop i qs) (drop i rs)))
        × ((i : ℕ)
            → length (reply flow.client_addr flow.server_addr (drop (i + 1) qs) (drop i rs)) < n
            → collect w n before (http_iter (at_index (i + 1) i))
              ≡ traverse
                  (message_bytes w)
                  (reply flow.client_addr flow.server_addr (drop (i + 1) qs) (drop i rs)))
  unfolding http_next dialogue
  collect-dialogue zero = (λ i h. absurd (omega arith), λ i h. absurd (omega arith))
  collect-dialogue (suc n) =
      let (ask, answer) = collect-dialogue n in
      (
        λ i h. elim (drop-cases qs i) [
          | inl (d, g) ↦
              let first : leb i i ≡ true = le→leb i i (omega arith) in
              collect_stop n _ (at_index i i) (rw (first, http_next, g)) ∙ rw d refl
          | inr ((req, t), d, g) ↦
              let first : leb i i ≡ true = le→leb i i (omega arith) in
              let split : dialogue flow.client_addr flow.server_addr (drop i qs) (drop i rs)
                  ≡ (flow.client_addr, t, left req)
                    ∷ reply flow.client_addr flow.server_addr (drop (i + 1) qs) (drop i rs) =
                rw d (
                  dialogue-cons flow.client_addr flow.server_addr req t (drop (i + 1) qs)
                    (drop i rs)) in
              collect_step n _ (at_index (i + 1) i) (flow.client_addr, t, left req)
                (rw (first, http_next, g))
              ∙ rw (split, answer i (omega (arith, ap length split))) refl
        ],
        λ i h. elim (drop-cases rs i) [
          | inl (d, g) ↦
              let second : leb (i + 1) i ≡ false = not_leb i in
              collect_stop n _ (at_index (i + 1) i) (rw (second, http_next, g)) ∙ rw d refl
          | inr ((resp, t), d, g) ↦
              let second : leb (i + 1) i ≡ false = not_leb i in
              let split : reply flow.client_addr flow.server_addr (drop (i + 1) qs) (drop i rs)
                  ≡ (flow.server_addr, t, right resp)
                    ∷ dialogue flow.client_addr flow.server_addr (drop (i + 1) qs)
                        (drop (i + 1) rs) =
                rw d refl in
              collect_step n _ (at_index (i + 1) (i + 1)) (flow.server_addr, t, right resp)
                (rw (second, http_next, g))
              ∙ rw (split, ask (i + 1) (omega (arith, ap length split))) refl
        ],
      )
    where
      not_leb : (i : ℕ) → leb (i + 1) i ≡ false
      not_leb i = elim (Bool-cases (leb (i + 1) i)) [
        | inl e ↦ let le = leb→le _ _ e in absurd (omega arith)
        | inr e ↦ e
      ]

  -- The loop over an HTTP flow gets the texts of the dialogue of its messages, a request and its
  -- response in turn, and no message behind the first request without a response.
  pub flow_items-dialogue :
      flow_items w before (http flow)
      ≡ traverse
          (message_bytes w)
          (dialogue flow.client_addr flow.server_addr flow.history.requests flow.history.responses)
  unfolding flow_items calls into_iter into_http_iter
  flow_items-dialogue =
      (collect-dialogue (suc (length qs + length rs))).0 0
        (omega (arith, length-dialogue flow.client_addr flow.server_addr qs rs))
