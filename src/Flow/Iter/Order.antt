-- ===== src/Flow/Iter/Order.antt =====
-- The order in which a raw flow gives out its chunks (src/flow/iter.rs).
use mini_proxad.Prelude.{◌≡◌, Bool, true, false, List, [], ◌∷◌, map, Bool-cases, inl, inr}
use mini_proxad.Net.{SocketAddr}
use mini_proxad.History.Raw.{RawChunk}
use mini_proxad.Flow.Iter.Merge.{merge}

module _ {T : Type 0} (before : T → T → Bool) where
  -- No time of the list is before its predecessor, the first not before `t`.
  abbrev pub Follows : T → List T → Type 0
  Follows t [] = Unit
  Follows t (u ∷ ts) = (before u t ≡ false) × Follows u ts

  abbrev pub IsChronological : List T → Type 0
  IsChronological [] = Unit
  IsChronological (t ∷ ts) = Follows t ts

  abbrev pub times : List (RawChunk T) → List T
  times = map λ c. c.timestamp

  abbrev pub times_of : List (SocketAddr × RawChunk T) → List T
  times_of = map λ p. p.1.timestamp

  module _ (asym : (a b : T) → before a b ≡ true → before b a ≡ false) (ca sa : SocketAddr) where
    Follows-tagged :
        (a : SocketAddr) (t : T) (cs : List (RawChunk T))
        → Follows t (times cs)
        → Follows t (times_of (map (λ c. (a, c)) cs))
    Follows-tagged a t [] h = tt
    Follows-tagged a t (c ∷ cs) (h, k) = (h, Follows-tagged a c.timestamp cs k)

    Follows-merge :
        (t : T) (cs ss : List (RawChunk T))
        → Follows t (times cs)
        → Follows t (times ss)
        → Follows t (times_of (merge before ca sa cs ss))
    unfolding merge
    Follows-merge t [] ss hc hs = Follows-tagged sa t ss hs
    Follows-merge t (c ∷ cs) [] hc hs = Follows-tagged ca t (c ∷ cs) hc
    Follows-merge t (c ∷ cs) (s ∷ ss) hc hs = elim (Bool-cases (before c.timestamp s.timestamp)) [
      | inl e ↦
          rw (e, merge)
            (
              hc.0,
              Follows-merge c.timestamp cs (s ∷ ss) hc.1 (asym c.timestamp s.timestamp e, hs.1),
            )
      | inr e ↦ rw (e, merge) (hs.0, Follows-merge s.timestamp (c ∷ cs) ss (e, hc.1) hs.1)
    ]

    -- If the chunks of each side are in order of time, so are the merged ones.
    pub merge-IsChronological :
        (cs ss : List (RawChunk T))
        → IsChronological (times cs)
        → IsChronological (times ss)
        → IsChronological (times_of (merge before ca sa cs ss))
    unfolding merge
    merge-IsChronological [] [] hc hs = tt
    merge-IsChronological [] (s ∷ ss) hc hs = Follows-tagged sa s.timestamp ss hs
    merge-IsChronological (c ∷ cs) [] hc hs = Follows-tagged ca c.timestamp cs hc
    merge-IsChronological (c ∷ cs) (s ∷ ss) hc hs =
        elim (Bool-cases (before c.timestamp s.timestamp)) [
          | inl e ↦
              rw (e, merge)
                (Follows-merge c.timestamp cs (s ∷ ss) hc (asym c.timestamp s.timestamp e, hs))
          | inr e ↦ rw (e, merge) (Follows-merge s.timestamp (c ∷ cs) ss (e, hc) hs)
        ]
