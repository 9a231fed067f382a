-- ===== src/Proxy/Dumper/Pieces.antt =====
-- The parts of the items that a flow yields (src/proxy/dumper.rs, src/flow/iter.rs).
use native.Mathlib.Nat.{add-zero}
use mini_proxad.Prelude.{
  ℕ, zero, suc, ◌+◌, ◌≤◌, ◌<◌, ◌≡◌, refl, sym, ap, ◌∙◌, Bool, true, false, List, [], ◌∷◌, ◌++◌,
  flatten, length-append, Bytes, length, ltb, if◌then◌else◌, drop, arith, length-take, length-drop,
  append_assoc, take-append-drop, Bool-cases, inl, inr, ltb→lt, ltb-false, All,
}
use mini_proxad.Net.{SocketAddr, addr_eq}
use mini_proxad.Flow.Iter.{Item}
use mini_proxad.Proxy.Dumper.Packet.{Duration}
use mini_proxad.Proxy.Dumper.Conversation.{Ends, max_payload, max_payload_lem}
use mini_proxad.Proxy.Dumper.Transcript.{Piece, split, pieces, data_segments, segment, data_flags}
use mini_proxad.Proxy.Dumper.Slices.{bump_client, bump_server}

-- How much a side has sent after some pieces.
unfoldable pub client_sent : ℕ → List Piece → ℕ
client_sent cb [] = cb
client_sent cb (p ∷ ps) = client_sent (bump_client p.from_client cb (length p.payload)) ps

unfoldable pub server_sent : ℕ → List Piece → ℕ
server_sent sb [] = sb
server_sent sb (p ∷ ps) = server_sent (bump_server p.from_client sb (length p.payload)) ps

-- The payloads of a side, joined.
unfoldable pub spoken : Bool → List Piece → Bytes
spoken who [] = []
spoken true (p ∷ ps) = (if p.from_client then p.payload else []) ++ spoken true ps
spoken false (p ∷ ps) = (if p.from_client then [] else p.payload) ++ spoken false ps

-- Every piece has a byte and fits into a packet.
abbrev pub FitsAll : List Piece → Type 0
FitsAll ps = All (λ p. (0 < length p.payload) × (length p.payload ≤ max_payload)) ps

nothing : (bytes : Bytes) → length bytes ≤ 0 → flatten [] ≡ bytes
unfolding flatten
nothing [] h = refl
nothing (b ∷ bytes) h = absurd (omega arith)

pub flatten-split :
    (fuel : ℕ) (bytes : Bytes) → length bytes ≤ fuel → flatten (split fuel bytes) ≡ bytes
unfolding flatten split
flatten-split zero [] h = refl
flatten-split zero (b ∷ bytes) h = absurd (omega arith)
flatten-split (suc fuel) bytes h = elim (Bool-cases (ltb 0 (length bytes))) [
  | inl e ↦
      let more = ltb→lt _ _ e in
      rw e (
        rw
          (flatten-split fuel (drop max_payload bytes)
            (omega (arith, length-drop max_payload bytes, max_payload_lem)))
          (take-append-drop max_payload bytes))
  | inr e ↦ rw e (nothing bytes (ltb-false _ _ e))
]

module _ (at : Duration) where
  pub client_sent-pieces :
      (who first : Bool) (cb : ℕ) (bs : List Bytes)
      → client_sent cb (pieces who at first bs) ≡ bump_client who cb (length (flatten bs))
  unfolding client_sent pieces flatten
  client_sent-pieces true first cb [] = sym (add-zero cb)
  client_sent-pieces false first cb [] = refl
  client_sent-pieces true first cb (b ∷ bs) =
      client_sent-pieces true false (cb + length b) bs ∙ omega (arith, length-append b (flatten bs))
  client_sent-pieces false first cb (b ∷ bs) = client_sent-pieces false false cb bs

  pub server_sent-pieces :
      (who first : Bool) (sb : ℕ) (bs : List Bytes)
      → server_sent sb (pieces who at first bs) ≡ bump_server who sb (length (flatten bs))
  unfolding server_sent pieces flatten
  server_sent-pieces true first sb [] = refl
  server_sent-pieces false first sb [] = sym (add-zero sb)
  server_sent-pieces true first sb (b ∷ bs) = server_sent-pieces true false sb bs
  server_sent-pieces false first sb (b ∷ bs) =
      server_sent-pieces false false (sb + length b) bs
      ∙ omega (arith, length-append b (flatten bs))

  pub spoken-own :
      (who first : Bool) (bs : List Bytes) → spoken who (pieces who at first bs) ≡ flatten bs
  unfolding spoken pieces flatten
  spoken-own true first [] = refl
  spoken-own false first [] = refl
  spoken-own true first (b ∷ bs) = ap (λ r. b ++ r) (spoken-own true false bs)
  spoken-own false first (b ∷ bs) = ap (λ r. b ++ r) (spoken-own false false bs)

  pub spoken-other :
      (first : Bool) (bs : List Bytes)
      → (spoken true (pieces false at first bs) ≡ [])
        × (spoken false (pieces true at first bs) ≡ [])
  unfolding spoken pieces
  spoken-other first [] = (refl, refl)
  spoken-other first (b ∷ bs) = spoken-other false bs

pub spoken-append :
    (who : Bool) (ps qs : List Piece) → spoken who (ps ++ qs) ≡ spoken who ps ++ spoken who qs
unfolding spoken
spoken-append true [] qs = refl
spoken-append false [] qs = refl
spoken-append true (p ∷ ps) qs =
    ap (λ r. (if p.from_client then p.payload else []) ++ r) (spoken-append true ps qs)
    ∙ sym (append_assoc (if p.from_client then p.payload else []) (spoken true ps) (spoken true qs))
spoken-append false (p ∷ ps) qs =
    ap (λ r. (if p.from_client then [] else p.payload) ++ r) (spoken-append false ps qs)
    ∙ sym
        (append_assoc (if p.from_client then [] else p.payload) (spoken false ps) (spoken false qs))

pub data_segments-append :
    (ends : Ends) (cb sb : ℕ) (ps qs : List Piece)
    → data_segments ends cb sb (ps ++ qs)
      ≡ data_segments ends cb sb ps ++ data_segments ends (client_sent cb ps) (server_sent sb ps) qs
unfolding data_segments client_sent server_sent
data_segments-append ends cb sb [] qs = refl
data_segments-append ends cb sb (p ∷ ps) qs =
    ap (λ r. segment ends p.from_client p.at cb sb (data_flags p.first) p.payload ∷ r)
      (data_segments-append ends (bump_client p.from_client cb (length p.payload))
        (bump_server p.from_client sb (length p.payload)) ps qs)

pub client_sent-append :
    (ps qs : List Piece) (cb : ℕ) → client_sent cb (ps ++ qs) ≡ client_sent (client_sent cb ps) qs
unfolding client_sent
client_sent-append [] qs cb = refl
client_sent-append (p ∷ ps) qs cb =
    client_sent-append ps qs (bump_client p.from_client cb (length p.payload))

pub server_sent-append :
    (ps qs : List Piece) (sb : ℕ) → server_sent sb (ps ++ qs) ≡ server_sent (server_sent sb ps) qs
unfolding server_sent
server_sent-append [] qs sb = refl
server_sent-append (p ∷ ps) qs sb =
    server_sent-append ps qs (bump_server p.from_client sb (length p.payload))

pub length-data_segments :
    (ends : Ends) (cb sb : ℕ) (ps : List Piece) → length (data_segments ends cb sb ps) ≡ length ps
unfolding data_segments
length-data_segments ends cb sb [] = refl
length-data_segments ends cb sb (p ∷ ps) =
    rw
      (length-data_segments ends (bump_client p.from_client cb (length p.payload))
        (bump_server p.from_client sb (length p.payload)) ps)
      refl

pub All-append :
    {A : Type 0} (P : A → Type 0) (xs ys : List A) → All P xs → All P ys → All P (xs ++ ys)
All-append P [] ys h k = k
All-append P (x ∷ xs) ys (h, hs) k = (h, All-append P xs ys hs k)

split-FitsAll :
    (fuel : ℕ) (who first : Bool) (at : Duration) (bytes : Bytes)
    → FitsAll (pieces who at first (split fuel bytes))
unfolding split pieces
split-FitsAll zero who first at bytes = tt
split-FitsAll (suc fuel) who first at bytes = elim (Bool-cases (ltb 0 (length bytes))) [
  | inl e ↦
      let more = ltb→lt _ _ e in
      rw e (
        (
          omega (arith, length-take max_payload bytes, max_payload_lem),
          omega (arith, length-take max_payload bytes),
        ),
        split-FitsAll fuel who false at (drop max_payload bytes),
      )
  | inr e ↦ rw e tt
]

module _ {T : Type 0} (stamp : T → Duration) (client_addr : SocketAddr) where
  -- The pieces of an item; it is the client's if it comes with the client's address.
  unfoldable pub item_pieces : Item T → List Piece
  item_pieces (addr, ts, bytes) =
      pieces (addr_eq addr client_addr) (stamp ts) true (split (length bytes) bytes)

  unfoldable pub all_pieces : List (Item T) → List Piece
  all_pieces [] = []
  all_pieces (item ∷ items) = item_pieces item ++ all_pieces items

  pub all_pieces-FitsAll : (items : List (Item T)) → FitsAll (all_pieces items)
  unfolding all_pieces item_pieces
  all_pieces-FitsAll [] = tt
  all_pieces-FitsAll ((addr, ts, bytes) ∷ items) =
      All-append _ _ (all_pieces items)
        (split-FitsAll (length bytes) (addr_eq addr client_addr) true (stamp ts) bytes)
        (all_pieces-FitsAll items)
