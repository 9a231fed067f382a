-- ===== src/Prelude/Sublists.antt =====
-- What is left of a list where some elements are left out.
use mathlib.Core.List.{List, [], ◌∷◌, ◌++◌, map}
use mathlib.Core.Path.{◌≡◌, refl, ap}
use mini_proxad.Prelude.Lists.{All}

-- `xs` is what is left of `ys` where some elements are left out.
pub data Within {A : Type 0} : List A → List A → Type 0 where
  nothing : Within [] []
  with_it : {x : A} {xs ys : List A} → Within xs ys → Within (x ∷ xs) (x ∷ ys)
  without : {y : A} {xs ys : List A} → Within xs ys → Within xs (y ∷ ys)

pub Within-nil : {A : Type 0} (ys : List A) → Within [] ys
Within-nil [] = nothing
Within-nil (y ∷ ys) = without (Within-nil ys)

pub Within-empty : {A : Type 0} {xs : List A} → Within xs [] → xs ≡ []
Within-empty nothing = refl

pub Within-append :
    {A : Type 0} {xs ys us vs : List A} → Within xs ys → Within us vs → Within (xs ++ us) (ys ++ vs)
Within-append nothing k = k
Within-append (with_it h) k = with_it (Within-append h k)
Within-append (without h) k = without (Within-append h k)

pub Within-refl : {A : Type 0} (xs : List A) → Within xs xs
Within-refl [] = nothing
Within-refl (x ∷ xs) = with_it (Within-refl xs)

pub Within-some : {A : Type 0} (xs ys : List A) → Within xs (xs ++ ys)
Within-some [] ys = Within-nil ys
Within-some (x ∷ xs) ys = with_it (Within-some xs ys)

pub All-Within : {A : Type 0} (P : A → Type 0) {xs ys : List A} → Within xs ys → All P ys → All P xs
All-Within P nothing a = tt
All-Within P (with_it h) (p, a) = (p, All-Within P h a)
All-Within P (without h) (p, a) = All-Within P h a

pub Within-map :
    {A B : Type 0} (f : A → B) {xs ys : List A} → Within xs ys → Within (map f xs) (map f ys)
Within-map f nothing = nothing
Within-map f (with_it h) = with_it (Within-map f h)
Within-map f (without h) = without (Within-map f h)

pub Within-trans : {A : Type 0} {xs ys zs : List A} → Within xs ys → Within ys zs → Within xs zs
Within-trans h nothing = h
Within-trans (with_it h) (with_it k) = with_it (Within-trans h k)
Within-trans (without h) (with_it k) = without (Within-trans h k)
Within-trans h (without k) = without (Within-trans h k)

-- What is left of a list and one more element, in two parts.
pub Within-split :
    {A : Type 0} (ys zs : List A) {xs : List A}
    → Within xs (ys ++ zs)
    → (us : List A) × (vs : List A) × (xs ≡ us ++ vs) × Within us ys × Within vs zs
Within-split [] zs {xs} h = ([], xs, refl, nothing, h)
Within-split (y ∷ ys) zs (with_it h) =
    let (us, vs, e, a, b) = Within-split ys zs h in (y ∷ us, vs, ap (λ l. y ∷ l) e, with_it a, b)
Within-split (y ∷ ys) zs (without h) =
    let (us, vs, e, a, b) = Within-split ys zs h in (us, vs, e, without a, b)
