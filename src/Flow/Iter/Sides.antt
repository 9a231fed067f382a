-- ===== src/Flow/Iter/Sides.antt =====
-- What the items of a raw flow (src/flow/iter.rs) carry of each side.
use mini_proxad.Prelude.{
  ◌≡◌, ◌≢◌, refl, sym, inl, inr, Bool, true, false, List, [], ◌∷◌, ◌++◌, Bytes, if◌then◌else◌,
  Result, ok, map, flatten, Bool-cases, All,
}
use mini_proxad.Net.{SocketAddr, addr_eq, addr_eq_iff}
use mini_proxad.History.Raw.{RawChunk}
use mini_proxad.Flow.Iter.{Item}
use mini_proxad.Flow.Iter.Merge.{merge, traverse}

-- The bytes of the items that come with an address, joined.
abbrev pub bytes_from : {T : Type 0} → SocketAddr → List (Item T) → Bytes
bytes_from a [] = []
bytes_from a ((b, ts, bytes) ∷ items) = (if addr_eq a b then bytes else []) ++ bytes_from a items

pub traverse_ok :
    {A B : Type 0} (f : A → Result B) (g : A → B) (xs : List A)
    → All (λ x. f x ≡ ok (g x)) xs
    → traverse f xs ≡ ok (map g xs)
traverse_ok f g [] h = refl
traverse_ok f g (x ∷ xs) (e, h) = rw (e, traverse_ok f g xs h)

pub addr_eq_refl : (a : SocketAddr) → addr_eq a a ≡ true
addr_eq_refl a = (addr_eq_iff a a).1 refl

pub addr_eq_ne : (a b : SocketAddr) → a ≢ b → addr_eq a b ≡ false
addr_eq_ne a b h = elim (Bool-cases (addr_eq a b)) [
  | inl e ↦ absurd (h ((addr_eq_iff a b).0 e))
  | inr e ↦ e
]

pub All-map :
    {A B : Type 0} (P : B → Type 0) (f : A → B) (xs : List A)
    → All (λ x. P (f x)) xs
    → All P (map f xs)
All-map P f [] h = tt
All-map P f (x ∷ xs) (h, hs) = (h, All-map P f xs hs)

pub All-each : {A : Type 0} {P : A → Type 0} → ((x : A) → P x) → (xs : List A) → All P xs
All-each h [] = tt
All-each h (x ∷ xs) = (h x, All-each h xs)

module _ {T : Type 0} (before : T → T → Bool) (ca sa : SocketAddr) where
  pub All-merge :
      (P : SocketAddr × RawChunk T → Type 0) (cs ss : List (RawChunk T))
      → All (λ c. P (ca, c)) cs
      → All (λ s. P (sa, s)) ss
      → All P (merge before ca sa cs ss)
  unfolding merge
  All-merge P [] ss hc hs = All-map P (λ s. (sa, s)) ss hs
  All-merge P (c ∷ cs) [] hc hs = All-map P (λ d. (ca, d)) (c ∷ cs) hc
  All-merge P (c ∷ cs) (s ∷ ss) hc hs = elim (Bool-cases (before c.timestamp s.timestamp)) [
    | inl e ↦ rw (e, merge) (hc.0, All-merge P cs (s ∷ ss) hc.1 hs)
    | inr e ↦ rw (e, merge) (hs.0, All-merge P (c ∷ cs) ss hc hs.1)
  ]

  -- Items whose bytes are given by a function of address and chunk.
  module _ (f : SocketAddr → RawChunk T → Bytes) where
    abbrev pub stamped : SocketAddr × RawChunk T → Item T
    stamped (a, c) = (a, c.timestamp, f a c)

    bytes_one :
        (a : SocketAddr) (cs : List (RawChunk T))
        → bytes_from a (map stamped (map (λ c. (a, c)) cs)) ≡ flatten (map (f a) cs)
    unfolding flatten
    bytes_one a [] = refl
    bytes_one a (c ∷ cs) = rw (addr_eq_refl a, bytes_one a cs)

    bytes_none :
        (a b : SocketAddr) (cs : List (RawChunk T))
        → a ≢ b
        → bytes_from a (map stamped (map (λ c. (b, c)) cs)) ≡ []
    bytes_none a b [] h = refl
    bytes_none a b (c ∷ cs) h = rw (addr_eq_ne a b h, bytes_none a b cs h)

    pub bytes_from_client :
        (cs ss : List (RawChunk T))
        → ca ≢ sa
        → bytes_from ca (map stamped (merge before ca sa cs ss)) ≡ flatten (map (f ca) cs)
    unfolding merge flatten
    bytes_from_client [] ss h = bytes_none ca sa ss h
    bytes_from_client (c ∷ cs) [] h = bytes_one ca (c ∷ cs)
    bytes_from_client (c ∷ cs) (s ∷ ss) h = elim (Bool-cases (before c.timestamp s.timestamp)) [
      | inl e ↦ rw (e, merge, addr_eq_refl ca, bytes_from_client cs (s ∷ ss) h)
      | inr e ↦ rw (e, merge, addr_eq_ne ca sa h) (bytes_from_client (c ∷ cs) ss h)
    ]

    pub bytes_from_server :
        (cs ss : List (RawChunk T))
        → ca ≢ sa
        → bytes_from sa (map stamped (merge before ca sa cs ss)) ≡ flatten (map (f sa) ss)
    unfolding merge flatten
    bytes_from_server [] ss h = bytes_one sa ss
    bytes_from_server (c ∷ cs) [] h = bytes_none sa ca (c ∷ cs) (λ e. h (sym e))
    bytes_from_server (c ∷ cs) (s ∷ ss) h = elim (Bool-cases (before c.timestamp s.timestamp)) [
      | inl e ↦ rw (e, merge, addr_eq_ne sa ca (λ k. h (sym k))) (bytes_from_server cs (s ∷ ss) h)
      | inr e ↦ rw (e, merge, addr_eq_refl sa, bytes_from_server (c ∷ cs) ss h)
    ]
