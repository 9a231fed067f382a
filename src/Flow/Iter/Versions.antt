-- ===== src/Flow/Iter/Versions.antt =====
-- When the loop over an HTTP flow (src/flow/iter.rs) comes to its end: `version_to_bytes` of
-- src/http.rs panics at a version that it does not know.
use mini_proxad.Prelude.{
  ℕ, zero, suc, ◌≡◌, ◌≢◌, refl, Bool, Option, none, some, List, [], ◌∷◌, Bytes, length, take,
  Result, ok, err, panicked, ◌>>=◌, All, ◌∙◌,
}
use mini_proxad.Http.{
  HttpCrate, Request, Response, Version, http_09, http_10, http_11, http_2, http_3, http_other,
  version_to_bytes, header_lines, request_to_bytes, response_to_bytes,
}
use mini_proxad.Flow.{HttpFlow, http}
use mini_proxad.Flow.Iter.{Item, flow_items, bytes_or_empty}
use mini_proxad.Flow.Iter.Merge.{traverse}
use mini_proxad.Flow.Iter.Dialogue.{flow_items-dialogue}
use mini_proxad.Flow.Iter.Texts.{request_text, response_text, dialogue-Texts}

bind_sound :
    {A B : Type 0} (m : Result A) (k : A → Result B)
    → m ≢ panicked
    → ((a : A) → k a ≢ panicked)
    → (m >>= k) ≢ panicked
bind_sound (ok a) k h g = g a
bind_sound (err e) k h g = λ x. cc
bind_sound panicked k h g = absurd (h refl)

version_to_bytes_sound : (v : Version) → v ≢ http_other → version_to_bytes v ≢ panicked
unfolding version_to_bytes
version_to_bytes_sound http_09 h = λ x. cc
version_to_bytes_sound http_10 h = λ x. cc
version_to_bytes_sound http_11 h = λ x. cc
version_to_bytes_sound http_2 h = λ x. cc
version_to_bytes_sound http_3 h = λ x. cc
version_to_bytes_sound http_other h = absurd (h refl)

header_lines_sound : (entries : List (Bytes × Option Bytes)) → header_lines entries ≢ panicked
unfolding header_lines
header_lines_sound [] = λ x. cc
header_lines_sound ((name, none) ∷ rest) = λ x. cc
header_lines_sound ((name, some value) ∷ rest) =
    bind_sound (header_lines rest) (λ lines. ok _) (header_lines_sound rest) (λ lines x. cc)

bytes_or_empty_sound : (r : Result Bytes) → r ≢ panicked → (b : Bytes) × (bytes_or_empty r ≡ ok b)
bytes_or_empty_sound (ok bytes) h = (bytes, refl)
bytes_or_empty_sound (err e) h = ([], refl)
bytes_or_empty_sound panicked h = absurd (h refl)

traverse_known :
    {A B : Type 0} (f : A → Result B) (P : A → Type 0)
    → ((x : A) → P x → (b : B) × (f x ≡ ok b))
    → (n : ℕ) (xs : List A) → All P xs
    → (ys : List B) × (traverse f (take n xs) ≡ ok ys)
traverse_known f P k zero xs a = ([], refl)
traverse_known f P k (suc n) [] a = ([], refl)
traverse_known f P k (suc n) (x ∷ xs) (p, a) =
    let (y, one) = k x p in
    let (ys, more) = traverse_known f P k n xs a in (y ∷ ys, rw (one, more) refl)

module _ (w : HttpCrate) {T : Type 0} where
  request_text_known :
      (q : Request w × T) → q.0.version ≢ http_other → (b : Bytes) × (request_text w q ≡ ok b)
  unfolding request_to_bytes
  request_text_known (req, t) h = bytes_or_empty_sound (request_to_bytes w req) (
      bind_sound (version_to_bytes req.version) _ (version_to_bytes_sound req.version h) (λ v.
        bind_sound (header_lines (w.entries req.headers)) _
          (header_lines_sound (w.entries req.headers)) (λ lines x. cc)))

  response_text_known :
      (r : Response w × T) → r.0.version ≢ http_other → (b : Bytes) × (response_text w r ≡ ok b)
  unfolding response_to_bytes
  response_text_known (resp, t) h = bytes_or_empty_sound (response_to_bytes w resp) (
      bind_sound (version_to_bytes resp.version) _ (version_to_bytes_sound resp.version h) (λ v.
        bind_sound (header_lines (w.entries resp.headers)) _
          (header_lines_sound (w.entries resp.headers)) (λ lines x. cc)))

module _ (w : HttpCrate) {U T : Type 0} where
  -- No message of the flow has a version that `version_to_bytes` does not know.
  abbrev pub HasVersions : HttpFlow U T (Request w) (Response w) → Type 0
  HasVersions f =
      All (λ q. q.0.version ≢ http_other) f.history.requests
      × All (λ r. r.0.version ≢ http_other) f.history.responses

  -- So the messages of such a flow that the loop gets have texts.
  pub texts_known :
      (f : HttpFlow U T (Request w) (Response w))
      → HasVersions f
      → (asked answered : List Bytes) × (traverse
            (request_text w)
            (take (suc (length f.history.responses)) f.history.requests)
          ≡ ok asked)
        × (traverse (response_text w) (take (length f.history.requests) f.history.responses)
            ≡ ok answered)
  texts_known f (hq, hr) =
      let (asked, a) =
        traverse_known (request_text w) (λ (q : Request w × T). q.0.version ≢ http_other)
          (request_text_known w) (suc (length f.history.responses)) f.history.requests hq in
      let (answered, b) =
        traverse_known (response_text w) (λ (r : Response w × T). r.0.version ≢ http_other)
          (response_text_known w) (length f.history.requests) f.history.responses hr in
      (asked, answered, a, b)

  -- The loop over such a flow between two addresses that differ ends without a panic.
  pub flow_items_known :
      (before : T → T → Bool) (f : HttpFlow U T (Request w) (Response w))
      → f.client_addr ≢ f.server_addr
      → HasVersions f
      → (items : List (Item T)) × (flow_items w before (http f) ≡ ok items)
  flow_items_known before f n known =
      let (asked, answered, a, b) = texts_known f known in
      let (items, read, texts) =
        dialogue-Texts w f.client_addr f.server_addr n f.history.requests f.history.responses asked
          answered a b in
      (items, flow_items-dialogue w before f ∙ read)
