-- ===== src/Prelude/Results.antt =====
-- `anyhow::Result`, the `?` operator, and panics.
use native.Mathlib.Omega.{arith}
use Prim.Native.String.{String}
use mathlib.Core.Path.{◌≡◌, refl}
use mathlib.Core.Logic.{◌⊎◌, inl, inr}
use mathlib.Core.Option.{Option, none, some}

-- `std::io::ErrorKind`, as far as the program tells kinds apart.
pub data ErrorKind : Type 0 where
  unexpected_eof not_found other : ErrorKind

-- `anyhow::Error`: an I/O error, an elapsed `tokio::time::timeout`, a message of the program, an
-- error of another crate, or one of these under a `context`.
pub data Error : Type 0 where
  io : ErrorKind → Error
  elapsed : Error
  message : String → Error
  foreign : Error
  context : String → Error → Error

-- A panic unwinds past every `?`, so it stands beside the errors.
pub data Result {ℓ} (A : Type ℓ) : Type ℓ where
  ok : A → Result A
  err : Error → Result A
  panicked : Result A

infixl 5 ◌>>=◌ ◌>>◌
abbrev pub ◌>>=◌ {ℓ κ} : {A : Type ℓ} {B : Type κ} → Result A → (A → Result B) → Result B
panicked >>= k = panicked
err e >>= k = err e
ok a >>= k = k a

abbrev pub ◌>>◌ {ℓ} : {B : Type ℓ} → Result (Unit {0}) → Result B → Result B
m >> k = m >>= λ _. k

-- `Option::unwrap_or`.
abbrev pub unwrap_or {ℓ} : {A : Type ℓ} → Option A → A → A
unwrap_or none a = a
unwrap_or (some a) b = a

-- `Option::ok_or_else`.
abbrev pub ok_or {ℓ} : {A : Type ℓ} → Option A → Error → Result A
ok_or none e = err e
ok_or (some a) e = ok a

-- `Context::context` on a result and on an option.
abbrev pub with_context {ℓ} : {A : Type ℓ} → String → Result A → Result A
with_context c (ok a) = ok a
with_context c (err e) = err (context c e)
with_context c panicked = panicked

-- An access that panics where it is out of bounds.
abbrev pub or_panic {ℓ} : {A : Type ℓ} → Option A → Result A
or_panic none = panicked
or_panic (some a) = ok a

-- `std::ops::ControlFlow<()>`.
pub data ControlFlow : Type 0 where
  go_on break : ControlFlow

pub Result-cases {ℓ} :
    {A : Type ℓ} (r : Result A)
    → ((a : A) × (r ≡ ok a)) ⊎ (((e : Error) × (r ≡ err e)) ⊎ (r ≡ panicked))
Result-cases (ok a) = inl (a, refl)
Result-cases (err e) = inr (inl (e, refl))
Result-cases panicked = inr (inr refl)

module _ {ℓ κ} {A : Type ℓ} {B : Type κ} where
  -- What went well before a result went well.
  pub bind_ok :
      (m : Result A) (k : A → Result B) (b : B)
      → (m >>= k) ≡ ok b
      → (a : A) × (m ≡ ok a) × (k a ≡ ok b)
  bind_ok (ok a) k b h = (a, refl, h)
  bind_ok (err e) k b h = ground arith
  bind_ok panicked k b h = ground arith

  module _ {μ} {C : Type μ} (k : A → Result B) (then : B → Result C) where
    pub bind_assoc : (m : Result A) → ((m >>= k) >>= then) ≡ (m >>= λ x. k x >>= then)
    bind_assoc panicked = refl
    bind_assoc (err e) = refl
    bind_assoc (ok x) = refl
