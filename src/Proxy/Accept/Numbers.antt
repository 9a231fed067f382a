-- ===== src/Proxy/Accept/Numbers.antt =====
-- The outcomes of the connections of `handle_accept` (src/proxy/mod.rs) under one event more: only the
-- task with the number of the event changes.
use mathlib.Core.List.Perm
use mathlib.Core.List.{Perm, perm_middle}
use mini_proxad.Prelude.{
  ℕ, zero, suc, ◌+◌, ◌≤◌, ◌≡◌, ◌≢◌, refl, ap, sym, ◌∙◌, Option, none, some, Bool, false, List, [],
  ◌∷◌, ◌==◌, length, get_elem?, set, arith,
}
use mini_proxad.Http.{HttpCrate}
use mini_proxad.Proxy.Accept.{
  AnyFlow, Task, raw_task, http_task, Event, visits, raw_ends, calls, http_ends, receives,
  dumper_ends,
}
use mini_proxad.Proxy.Accept.Outcomes.{
  Outcome, own_calls, raw_outcome, outcome, outcomes, left, given_by, shares,
}

set-same : {A : Type 0} (xs : List A) (i : ℕ) (x : A) → get_elem? xs i ≡ some x → set xs i x ≡ xs
set-same [] i x e = refl
set-same (y ∷ ys) zero x e = let same : x ≡ y = cc in ap (λ z. z ∷ ys) same
set-same (y ∷ ys) (suc i) x e = ap (λ zs. y ∷ zs) (set-same ys i x e)

pub length-set : {A : Type 0} (xs : List A) (i : ℕ) (x : A) → length (set xs i x) ≡ length xs
length-set [] i x = refl
length-set (y ∷ ys) zero x = refl
length-set (y ∷ ys) (suc i) x = ap suc (length-set ys i x)

module _ (w : HttpCrate) {U T : Type 0} where
  abbrev pub aims : ℕ → Event w U T → Bool
  aims k (raw_ends j filter turns closing) = j == k
  aims k (calls j script script' server now later incoming) = j == k
  aims k (http_ends j alone) = j == k
  aims k (visits v) = false
  aims k receives = false
  aims k dumper_ends = false

  outcome-skip :
      (k : ℕ) (e : Event w U T) (es : List (Event w U T)) (t : Option (Task w U T))
      → aims k e ≡ false
      → outcome w k (e ∷ es) t ≡ outcome w k es t
  unfolding outcome raw_outcome own_calls
  outcome-skip k e es none h = refl
  outcome-skip k (raw_ends j filter turns closing) es (some (raw_task flow)) h = rw h refl
  outcome-skip k (calls j script script' server now later incoming) es (some (raw_task flow)) h =
      refl
  outcome-skip k (http_ends j alone) es (some (raw_task flow)) h = refl
  outcome-skip k (visits v) es (some (raw_task flow)) h = refl
  outcome-skip k receives es (some (raw_task flow)) h = refl
  outcome-skip k dumper_ends es (some (raw_task flow)) h = refl
  outcome-skip k (raw_ends j filter turns closing) es (some (http_task inner)) h = refl
  outcome-skip k (calls j script script' server now later incoming) es (some (http_task inner)) h =
      rw h refl
  outcome-skip k (http_ends j alone) es (some (http_task inner)) h = rw h refl
  outcome-skip k (visits v) es (some (http_task inner)) h = refl
  outcome-skip k receives es (some (http_task inner)) h = refl
  outcome-skip k dumper_ends es (some (http_task inner)) h = refl

  -- An event that is of none of the tasks.
  pub outcomes-skip :
      (k : ℕ) (e : Event w U T) (es : List (Event w U T)) (ts : List (Option (Task w U T)))
      → ((m : ℕ) → k ≤ m → aims m e ≡ false)
      → outcomes w k (e ∷ es) ts ≡ outcomes w k es ts
  unfolding outcomes
  outcomes-skip k e es [] h = refl
  outcomes-skip k e es (t ∷ ts) h =
      ap (λ o. o ∷ outcomes w (suc k) (e ∷ es) ts) (outcome-skip k e es t (h k (omega arith)))
      ∙ ap (λ os. outcome w k es t ∷ os) (outcomes-skip (suc k) e es ts (λ m l. h m (omega arith)))

  pub outcomes-out :
      (k i : ℕ) (e : Event w U T) (es : List (Event w U T)) (ts : List (Option (Task w U T)))
      → get_elem? ts i ≡ none
      → ((m : ℕ) → m ≢ k + i → aims m e ≡ false)
      → outcomes w k (e ∷ es) ts ≡ outcomes w k es ts
  unfolding outcomes
  outcomes-out k i e es [] n h = refl
  outcomes-out k zero e es (t ∷ ts) n h = cc
  outcomes-out k (suc i) e es (t ∷ ts) n h =
      ap (λ o. o ∷ outcomes w (suc k) (e ∷ es) ts) (outcome-skip k e es t (h k (λ z. omega arith)))
      ∙ ap (λ os. outcome w k es t ∷ os)
          (outcomes-out (suc k) i e es ts n (λ m d. h m (λ z. d (omega arith))))

  outcomes-hit :
      (k i n : ℕ) (e : Event w U T) (es : List (Event w U T)) (ts : List (Option (Task w U T)))
      (t : Option (Task w U T))
      → n ≡ k + i
      → get_elem? ts i ≡ some t
      → ((m : ℕ) → m ≢ n → aims m e ≡ false)
      → outcomes w k (e ∷ es) ts ≡ set (outcomes w k es ts) i (outcome w n (e ∷ es) t)
  unfolding outcomes
  outcomes-hit k i n e es [] t p g h = cc
  outcomes-hit k zero n e es (u ∷ ts) t p g h =
      let same : u ≡ t = cc in
      let here : n ≡ k = omega arith in
      ap (λ os. outcome w k (e ∷ es) u ∷ os)
        (outcomes-skip (suc k) e es ts (λ m l. h m (λ z. omega arith)))
      ∙ ap (λ v. outcome w k (e ∷ es) v ∷ outcomes w (suc k) es ts) same
      ∙ ap (λ m. outcome w m (e ∷ es) t ∷ outcomes w (suc k) es ts) (sym here)
  outcomes-hit k (suc i) n e es (u ∷ ts) t p g h =
      ap (λ o. o ∷ outcomes w (suc k) (e ∷ es) ts) (outcome-skip k e es u (h k (λ z. omega arith)))
      ∙ ap (λ os. outcome w k es u ∷ os) (outcomes-hit (suc k) i n e es ts t (omega arith) g h)

  outcomes-set :
      (k i n : ℕ) (es : List (Event w U T)) (ts : List (Option (Task w U T)))
      (x : Option (Task w U T))
      → n ≡ k + i
      → outcomes w k es (set ts i x) ≡ set (outcomes w k es ts) i (outcome w n es x)
  unfolding outcomes
  outcomes-set k i n es [] x p = refl
  outcomes-set k zero n es (t ∷ ts) x p =
      let here : k ≡ n = omega arith in ap (λ m. outcome w m es x ∷ outcomes w (suc k) es ts) here
  outcomes-set k (suc i) n es (t ∷ ts) x p =
      ap (λ os. outcome w k es t ∷ os) (outcomes-set (suc k) i n es ts x (omega arith))

  -- The task goes on as another.
  pub outcomes-goes :
      (i : ℕ) (e : Event w U T) (es : List (Event w U T)) (ts : List (Option (Task w U T)))
      (t t' : Option (Task w U T))
      → get_elem? ts i ≡ some t
      → ((m : ℕ) → m ≢ i → aims m e ≡ false)
      → outcome w i (e ∷ es) t ≡ outcome w i es t'
      → outcomes w 0 (e ∷ es) ts ≡ outcomes w 0 es (set ts i t')
  outcomes-goes i e es ts t t' g h same =
      outcomes-hit 0 i i e es ts t (omega arith) g h
      ∙ ap (set (outcomes w 0 es ts) i) same
      ∙ sym (outcomes-set 0 i i es ts t' (omega arith))

  pub outcomes-stays :
      (i : ℕ) (e : Event w U T) (es : List (Event w U T)) (ts : List (Option (Task w U T)))
      (t : Option (Task w U T))
      → get_elem? ts i ≡ some t
      → ((m : ℕ) → m ≢ i → aims m e ≡ false)
      → outcome w i (e ∷ es) t ≡ outcome w i es t
      → outcomes w 0 (e ∷ es) ts ≡ outcomes w 0 es ts
  outcomes-stays i e es ts t g h same =
      outcomes-goes i e es ts t t g h same ∙ ap (outcomes w 0 es) (set-same ts i t g)

  left-set :
      (os : List (Outcome w U T)) (i : ℕ) (f g : Option (AnyFlow w U T))
      → left w (set os i (none, f)) ≡ left w (set os i (none, g))
  left-set [] i f g = refl
  left-set (o ∷ os) zero f g = refl
  left-set (o ∷ os) (suc i) f g = ap (λ ts. o.0 ∷ ts) (left-set os i f g)

  given-Perm :
      (a b : Option (AnyFlow w U T)) (fs gs : List (AnyFlow w U T))
      → Perm fs (given_by w b gs)
      → Perm (given_by w a fs) (given_by w b (given_by w a gs))
  given-Perm none b fs gs p = p
  given-Perm (some f) none fs gs p = Perm.append_left (f ∷ []) p
  given-Perm (some f) (some g) fs gs p =
      Perm.trans (Perm.append_left (f ∷ []) p) (perm_middle (f ∷ []) gs)

  shares-set :
      (os : List (Outcome w U T)) (i : ℕ) (o : Outcome w U T) (f : Option (AnyFlow w U T))
      → get_elem? os i ≡ some o
      → Perm (shares w (set os i (none, f))) (given_by w f (shares w (set os i (none, none))))
  shares-set [] i o f g = cc
  shares-set (p ∷ os) zero o f g = Perm.refl (given_by w f (shares w os))
  shares-set (p ∷ os) (suc i) o f g = given-Perm p.1 f _ _ (shares-set os i o f g)

  get-outcomes :
      (k i : ℕ) (es : List (Event w U T)) (ts : List (Option (Task w U T)))
      (t : Option (Task w U T))
      → get_elem? ts i ≡ some t
      → (o : Outcome w U T) × (get_elem? (outcomes w k es ts) i ≡ some o)
  unfolding outcomes
  get-outcomes k i es [] t g = cc
  get-outcomes k zero es (u ∷ ts) t g = (outcome w k es u, refl)
  get-outcomes k (suc i) es (u ∷ ts) t g = get-outcomes (suc k) i es ts t g

  -- The task ends and may give its flow.
  pub outcomes-ends :
      (i : ℕ) (e : Event w U T) (es : List (Event w U T)) (ts : List (Option (Task w U T)))
      (t : Option (Task w U T)) (f : Option (AnyFlow w U T))
      → get_elem? ts i ≡ some t
      → ((m : ℕ) → m ≢ i → aims m e ≡ false)
      → outcome w i (e ∷ es) t ≡ (none, f)
      → (left w (outcomes w 0 (e ∷ es) ts) ≡ left w (outcomes w 0 es (set ts i none)))
        × Perm
            (shares w (outcomes w 0 (e ∷ es) ts))
            (given_by w f (shares w (outcomes w 0 es (set ts i none))))
  unfolding outcome
  outcomes-ends i e es ts t f g h same =
      let os = outcomes w 0 es ts in
      let before : outcomes w 0 (e ∷ es) ts ≡ set os i (none, f) =
        outcomes-hit 0 i i e es ts t (omega arith) g h ∙ ap (set os i) same in
      let after : outcomes w 0 es (set ts i none) ≡ set os i (none, none) =
        outcomes-set 0 i i es ts none (omega arith) in
      let (o, there) = get-outcomes 0 i es ts t g in
      rw (before, after) (left-set os i f none, shares-set os i o f there)
