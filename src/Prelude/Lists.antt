-- ===== src/Prelude/Lists.antt =====
-- Vectors as lists, oldest element first, measured and indexed by native numbers.
use Prim.Native.Nat.{ℕ, zero, suc, ◌+◌, ◌-◌, ◌≤◌, min}
use Prim.Native.Nat.add
use mathlib.Core.Path.{◌≡◌, refl, ap, subst}
use mathlib.Core.Logic.{◌⊎◌, inl, inr}
use mathlib.Core.List.{List, [], ◌∷◌, ◌++◌, map}
use mathlib.Core.Option.{Option, none, some}
use native.Mathlib.Omega.{arith}
use mini_proxad.Prelude.Tests.{leb, if◌then◌else◌, le→leb}
use mathlib.Core.Bool.{◌&&◌}

module _ {ℓ} {A : Type ℓ} where
  abbrev pub length : List A → ℕ
  length [] = 0
  length (x ∷ xs) = suc (length xs)

  abbrev pub get_elem? : List A → ℕ → Option A
  get_elem? [] i = none
  get_elem? (x ∷ xs) zero = some x
  get_elem? (x ∷ xs) (suc i) = get_elem? xs i

  -- A write out of bounds changes nothing.
  abbrev pub set : List A → ℕ → A → List A
  set [] i v = []
  set (x ∷ xs) zero v = v ∷ xs
  set (x ∷ xs) (suc i) v = x ∷ set xs i v

  abbrev pub take : ℕ → List A → List A
  take zero xs = []
  take (suc n) [] = []
  take (suc n) (x ∷ xs) = x ∷ take n xs

  abbrev pub drop : ℕ → List A → List A
  drop zero xs = xs
  drop (suc n) [] = []
  drop (suc n) (x ∷ xs) = drop n xs

  abbrev pub replicate : ℕ → A → List A
  replicate zero a = []
  replicate (suc n) a = a ∷ replicate n a

  -- `Vec::pop`, with what is left, and `slice::last`.
  abbrev pub pop : List A → Option (List A × A)
  pop [] = none
  pop (x ∷ xs) = elim (pop xs) [ none ↦ some ([], x) | some (ys, y) ↦ some (x ∷ ys, y) ]

  abbrev pub last : List A → Option A
  last xs = elim (pop xs) [ none ↦ none | some (ys, y) ↦ some y ]

  -- `&xs[lo..hi]`; `none` is the panic on a range that is reversed or out of bounds.
  abbrev pub slice : List A → ℕ → ℕ → Option (List A)
  slice xs lo hi =
      if leb lo hi && leb hi (length xs) then some (take (hi - lo) (drop lo xs)) else none

module _ {ℓ} {A : Type ℓ} where
  pub length-append : (xs ys : List A) → length (xs ++ ys) ≡ length xs + length ys
  length-append [] ys = omega arith
  length-append (x ∷ xs) ys = omega (arith, length-append xs ys)

  pub length-take : (n : ℕ) (xs : List A) → length (take n xs) ≡ min n (length xs)
  length-take zero xs = omega arith
  length-take (suc n) [] = omega arith
  length-take (suc n) (x ∷ xs) = omega (arith, length-take n xs)

  pub length-drop : (n : ℕ) (xs : List A) → length (drop n xs) ≡ length xs - n
  length-drop zero xs = omega arith
  length-drop (suc n) [] = omega arith
  length-drop (suc n) (x ∷ xs) = omega (arith, length-drop n xs)

  pub take-append-drop : (n : ℕ) (xs : List A) → take n xs ++ drop n xs ≡ xs
  take-append-drop zero xs = refl
  take-append-drop (suc n) [] = refl
  take-append-drop (suc n) (x ∷ xs) = ap (◌∷◌ x) (take-append-drop n xs)

  pub take_all : (n : ℕ) (xs : List A) → length xs ≤ n → take n xs ≡ xs
  take_all zero [] h = refl
  take_all zero (x ∷ xs) h = absurd (omega arith)
  take_all (suc n) [] h = refl
  take_all (suc n) (x ∷ xs) h = ap (◌∷◌ x) (take_all n xs (omega arith))

  pub drop_all : (n : ℕ) (xs : List A) → length xs ≤ n → drop n xs ≡ []
  drop_all zero [] h = refl
  drop_all zero (x ∷ xs) h = absurd (omega arith)
  drop_all (suc n) [] h = refl
  drop_all (suc n) (x ∷ xs) h = drop_all n xs (omega arith)

  pub take-append_le : (n : ℕ) (xs ys : List A) → n ≤ length xs → take n (xs ++ ys) ≡ take n xs
  take-append_le zero xs ys h = refl
  take-append_le (suc n) [] ys h = absurd (omega arith)
  take-append_le (suc n) (x ∷ xs) ys h = ap (◌∷◌ x) (take-append_le n xs ys (omega arith))

  pub drop-append_le :
      (n : ℕ) (xs ys : List A) → n ≤ length xs → drop n (xs ++ ys) ≡ drop n xs ++ ys
  drop-append_le zero xs ys h = refl
  drop-append_le (suc n) [] ys h = absurd (omega arith)
  drop-append_le (suc n) (x ∷ xs) ys h = drop-append_le n xs ys (omega arith)

  pub drop-drop : (m n : ℕ) (xs : List A) → drop m (drop n xs) ≡ drop (n + m) xs
  drop-drop m zero xs = ap (λ k. drop k xs) (omega arith)
  drop-drop m (suc n) [] = drop_nil m (suc n + m)
    where
      drop_nil : (i j : ℕ) → drop {A = A} i [] ≡ drop j []
      drop_nil zero zero = refl
      drop_nil zero (suc j) = refl
      drop_nil (suc i) zero = refl
      drop_nil (suc i) (suc j) = refl
  drop-drop m (suc n) (x ∷ xs) = rw add.suc (drop-drop m n xs)

  pub take-append-take :
      (m n k : ℕ) (xs : List A) → m + n ≡ k → take m xs ++ take n (drop m xs) ≡ take k xs
  take-append-take zero n k xs h = ap (λ i. take i xs) (omega arith)
  take-append-take (suc m) zero zero xs h = absurd (omega arith)
  take-append-take (suc m) (suc n) zero xs h = absurd (omega arith)
  take-append-take (suc m) zero (suc k) [] h = refl
  take-append-take (suc m) (suc n) (suc k) [] h = refl
  take-append-take (suc m) n (suc k) (x ∷ xs) h =
      ap (◌∷◌ x) (take-append-take m n k xs (omega arith))

  pub pop-push : (xs : List A) (y : A) → pop (xs ++ y ∷ []) ≡ some (xs, y)
  pop-push [] y = refl
  pop-push (x ∷ xs) y = ground (arith, pop-push xs y)

  pub pop-cases :
      (xs : List A)
      → ((xs ≡ []) × (pop xs ≡ none))
        ⊎ ((ys : List A) × (y : A) × (xs ≡ ys ++ y ∷ []) × (pop xs ≡ some (ys, y)))
  pop-cases [] = inl (refl, refl)
  pop-cases (x ∷ xs) = elim (pop-cases xs) [
    | inl (e, p) ↦ inr ([], x, ground arith, ground arith)
    | inr (ys, y, e, p) ↦ inr (x ∷ ys, y, ground arith, ground arith)
  ]

  -- A slice within bounds does not panic.
  pub slice-some :
      (xs : List A) (lo hi : ℕ)
      → lo ≤ hi
      → hi ≤ length xs
      → slice xs lo hi ≡ some (take (hi - lo) (drop lo xs))
  slice-some xs lo hi p q = ground (arith, le→leb lo hi p, le→leb hi (length xs) q)

  -- An index into a list, and what is left from there on.
  pub drop-cases :
      (xs : List A) (i : ℕ)
      → ((drop i xs ≡ []) × (get_elem? xs i ≡ none))
        ⊎ ((x : A) × (drop i xs ≡ x ∷ drop (i + 1) xs) × (get_elem? xs i ≡ some x))
  drop-cases [] zero = inl (refl, refl)
  drop-cases [] (suc i) = inl (refl, refl)
  drop-cases (x ∷ xs) zero = inr (x, refl, refl)
  drop-cases (x ∷ xs) (suc i) = rw add.suc (drop-cases xs i)

  pub length-map {κ} : {B : Type κ} (xs : List A) (f : A → B) → length (map f xs) ≡ length xs
  length-map [] f = refl
  length-map (x ∷ xs) f = ap suc (length-map xs f)

-- Each element has the property.
abbrev pub All {ℓ κ} : {A : Type ℓ} → (A → Type κ) → List A → Type κ
All P [] = Unit
All P (x ∷ xs) = P x × All P xs

module _ {ℓ} {A : Type ℓ} (P : A → Type 0) where
  pub All-push : (xs : List A) (x : A) → All P xs → P x → All P (xs ++ x ∷ [])
  All-push [] x h p = (p, tt)
  All-push (y ∷ ys) x h p = (h.0, All-push ys x h.1 p)

  pub All-set : (xs : List A) (i : ℕ) (x : A) → All P xs → P x → All P (set xs i x)
  All-set [] i x h p = tt
  All-set (y ∷ ys) zero x h p = (p, h.1)
  All-set (y ∷ ys) (suc i) x h p = (h.0, All-set ys i x h.1 p)

  pub All-get : (xs : List A) (i : ℕ) (x : A) → All P xs → get_elem? xs i ≡ some x → P x
  All-get [] i x h e = cc
  All-get (y ∷ ys) zero x h e = let same : y ≡ x = cc in subst P same h.0
  All-get (y ∷ ys) (suc i) x h e = All-get ys i x h.1 e
