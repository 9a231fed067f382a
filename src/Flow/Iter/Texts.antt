-- ===== src/Flow/Iter/Texts.antt =====
-- The texts that the loop over an HTTP flow (src/flow/iter.rs) gets of each side.
use mini_proxad.Prelude.{
  suc, ◌≡◌, ◌≢◌, refl, sym, ◌⊎◌, inl, inr, List, [], ◌∷◌, Bytes, length, take, flatten, Result, ok,
  ◌>>=◌, bind_ok, All,
}
use mini_proxad.Net.{SocketAddr}
use mini_proxad.Http.{HttpCrate, Request, Response, request_to_bytes, response_to_bytes}
use mini_proxad.Flow.Iter.{Item, left, right, message_bytes, bytes_or_empty}
use mini_proxad.Flow.Iter.Merge.{traverse}
use mini_proxad.Flow.Iter.Sides.{bytes_from, addr_eq_ne, addr_eq_refl}
use mini_proxad.Flow.Iter.Dialogue.{dialogue}

traverse-cons :
    {A B : Type 0} (f : A → Result B) (x : A) (xs : List A) (ys : List B)
    → traverse f (x ∷ xs) ≡ ok ys
    → (b : B) × (bs : List B) × (f x ≡ ok b) × (traverse f xs ≡ ok bs) × (ys ≡ b ∷ bs)
traverse-cons {B = B} f x xs ys h =
    let (b, one, h') = bind_ok (f x) (λ b. traverse f xs >>= λ bs. ok (b ∷ bs)) ys h in
    let (bs, more, e) = bind_ok (traverse f xs) (λ bs. ok (b ∷ bs)) ys h' in (b, bs, one, more, cc)

module _ (w : HttpCrate) {T : Type 0} where
  -- What is written of a message: nothing, if its text is an error.
  abbrev pub request_text : Request w × T → Result Bytes
  request_text q = bytes_or_empty (request_to_bytes w q.0)

  abbrev pub response_text : Response w × T → Result Bytes
  response_text r = bytes_or_empty (response_to_bytes w r.0)

  left_ok :
      (addr : SocketAddr) (t : T) (req : Request w) (b : Bytes)
      → request_text (req, t) ≡ ok b
      → message_bytes w (addr, t, left req) ≡ ok (addr, t, b)
  unfolding message_bytes
  left_ok addr t req b h = rw h refl

  right_ok :
      (addr : SocketAddr) (t : T) (resp : Response w) (b : Bytes)
      → response_text (resp, t) ≡ ok b
      → message_bytes w (addr, t, right resp) ≡ ok (addr, t, b)
  unfolding message_bytes
  right_ok addr t resp b h = rw h refl

  module _ (client_addr server_addr : SocketAddr) (differ : client_addr ≢ server_addr) where
    -- The items are of the two sides, and hold the given texts of each.
    abbrev pub Texts : List (Item T) → List Bytes → List Bytes → Type 0
    Texts items asked answered =
        (bytes_from client_addr items ≡ flatten asked)
        × (bytes_from server_addr items ≡ flatten answered)
        × All (λ item. (item.0 ≡ client_addr) ⊎ (item.0 ≡ server_addr)) items

    Texts-client :
        (t : T) (b : Bytes) (items : List (Item T)) (asked answered : List Bytes)
        → Texts items asked answered
        → Texts ((client_addr, t, b) ∷ items) (b ∷ asked) answered
    unfolding flatten
    Texts-client t b items asked answered (c, s, sides) = (
      rw (addr_eq_refl client_addr, c) refl,
      rw (addr_eq_ne server_addr client_addr (λ e. differ (sym e))) s,
      (inl refl, sides),
    )

    Texts-server :
        (t : T) (b : Bytes) (items : List (Item T)) (asked answered : List Bytes)
        → Texts items asked answered
        → Texts ((server_addr, t, b) ∷ items) asked (b ∷ answered)
    unfolding flatten
    Texts-server t b items asked answered (c, s, sides) = (
      rw (addr_eq_ne client_addr server_addr differ) c,
      rw (addr_eq_refl server_addr, s) refl,
      (inr refl, sides),
    )

    -- The dialogue has one request more than responses at most, and no response without a request.
    pub dialogue-Texts :
        (qs : List (Request w × T)) (rs : List (Response w × T)) (asked answered : List Bytes)
        → traverse request_text (take (suc (length rs)) qs) ≡ ok asked
        → traverse response_text (take (length qs) rs) ≡ ok answered
        → (items : List (Item T)) × (traverse
              (message_bytes w)
              (dialogue client_addr server_addr qs rs)
            ≡ ok items)
          × Texts items asked answered
    unfolding dialogue flatten
    dialogue-Texts [] rs asked answered ha hb =
        let ea : asked ≡ [] = cc in
        let eb : answered ≡ [] = cc in ([], refl, (rw ea refl, rw eb refl, tt))
    dialogue-Texts ((req, t) ∷ qs) [] asked answered ha hb =
        let (a, as', one, more, ea) = traverse-cons request_text (req, t) [] asked ha in
        let none_left : as' ≡ [] = cc in
        let eb : answered ≡ [] = cc in
        (
          (client_addr, t, a) ∷ [],
          rw (left_ok client_addr t req a one) refl,
          rw (ea, none_left, eb) (Texts-client t a [] [] [] (refl, refl, tt)),
        )
    dialogue-Texts ((req, t) ∷ qs) ((resp, u) ∷ rs) asked answered ha hb =
        let (a, as', one, more, ea) = traverse-cons request_text (req, t) _ asked ha in
        let (b, bs, two, rest, eb) = traverse-cons response_text (resp, u) _ answered hb in
        let (items, read, texts) = dialogue-Texts qs rs as' bs more rest in
        (
          (client_addr, t, a) ∷ (server_addr, u, b) ∷ items,
          rw (left_ok client_addr t req a one, right_ok server_addr u resp b two, read) refl,
          rw (ea, eb)
              (Texts-client t a ((server_addr, u, b) ∷ items) as' (b ∷ bs)
                (Texts-server u b items as' bs texts)),
        )
