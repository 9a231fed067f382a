-- ===== src/Proxy/Accept/Moves.antt =====
-- One event of `handle_accept` (src/proxy/mod.rs) against the outcomes of the connections.
use mathlib.Core.List.Perm
use mathlib.Core.List.{Perm, perm_middle}
use mini_proxad.Prelude.{
  ℕ, ◌≡◌, ◌≢◌, refl, ap, sym, subst, ◌∙◌, Option, none, some, false, List, [], ◌∷◌, ◌++◌, ◌==◌,
  length, get_elem?, set, arith,
}
use mini_proxad.Http.{HttpCrate}
use mini_proxad.Tls.{Rustls}
use mini_proxad.Proxy.Accept.{AnyFlow, WebService, Task, Running, Event}
use mini_proxad.Proxy.Accept.Outcomes.{
  Outcome, outcome, outcomes, left, given_by, shares, connections,
}
use mini_proxad.Proxy.Accept.Numbers.{
  aims, length-set, outcomes-out, outcomes-goes, outcomes-stays, outcomes-ends,
}
use mini_proxad.Proxy.Accept.Offers.{offered, IsDumping}

pub not_mine : (i m : ℕ) → m ≢ i → i == m ≡ false
not_mine i m d = ground arith

module _ (w : HttpCrate) {U T : Type 0} where
  left-append : (os ps : List (Outcome w U T)) → left w (os ++ ps) ≡ left w os ++ left w ps
  left-append [] ps = refl
  left-append (o ∷ os) ps = ap (λ l. o.0 ∷ l) (left-append os ps)

  given_by-append :
      (f : Option (AnyFlow w U T)) (fs gs : List (AnyFlow w U T))
      → given_by w f (fs ++ gs) ≡ given_by w f fs ++ gs
  given_by-append none fs gs = refl
  given_by-append (some f) fs gs = refl

  shares-append : (os ps : List (Outcome w U T)) → shares w (os ++ ps) ≡ shares w os ++ shares w ps
  shares-append [] ps = refl
  shares-append (o ∷ os) ps =
      ap (given_by w o.1) (shares-append os ps) ∙ given_by-append o.1 (shares w os) (shares w ps)

  -- A flow goes over from what is to come to what has been offered.
  passes-Perm :
      (f : Option (AnyFlow w U T)) (past now next later rest : List (AnyFlow w U T))
      → Perm now (given_by w f past)
      → Perm next (given_by w f later)
      → Perm (past ++ (next ++ rest)) (now ++ (later ++ rest))
  passes-Perm none past now next later rest p q =
      Perm.append (Perm.symm p) (Perm.append_right rest q)
  passes-Perm (some f) past now next later rest p q =
      Perm.trans (Perm.append_left past (Perm.append_right rest q)) (
        Perm.trans (perm_middle past (later ++ rest))
          (Perm.append_right (later ++ rest) (Perm.symm p)))

module _ (w : HttpCrate) {U T : Type 0} {r : Rustls} (service : WebService w U T r) where
  -- The connections there are and those that come.
  abbrev pub everyone : List (Event w U T) → Running w U T → List (Outcome w U T)
  everyone es s = outcomes w 0 es s.tasks ++ connections w service (length s.tasks) es

  -- From one state and the events before it, to another and those that are left.
  abbrev pub Same : List (Event w U T) → Running w U T → List (Event w U T) → Running w U T → Type 0
  Same es s es' s' =
      (left w (everyone es s) ≡ left w (everyone es' s'))
      × Perm (offered w s ++ shares w (everyone es s)) (offered w s' ++ shares w (everyone es' s'))

  unfoldable pub Moves : Event w U T → Running w U T → Running w U T → Type 0
  Moves e s s' = IsDumping w s' × ((es : List (Event w U T)) → Same (e ∷ es) s es s')

  pub unmoved :
      (e : Event w U T) (s s' : Running w U T)
      → IsDumping w s'
      → offered w s' ≡ offered w s
      → ((es : List (Event w U T)) → everyone (e ∷ es) s ≡ everyone es s')
      → Moves e s s'
  unfolding Moves
  unmoved e s s' v o h = (
    v,
    λ es. (
      ap (left w) (h es),
      subst
          (λ os. Perm (offered w s ++ shares w (everyone (e ∷ es) s)) (offered w s' ++ shares w os))
          (h es)
          (subst (λ l. Perm l (offered w s' ++ shares w (everyone (e ∷ es) s)))
            (ap (λ l. l ++ shares w (everyone (e ∷ es) s)) o) (Perm.refl _)),
    ),
  )

  -- An event of the task with the number `i`.
  module _ (e : Event w U T) (i : ℕ) (mine : (m : ℕ) → m ≢ i → aims w m e ≡ false)
      (quiet : (n : ℕ) (es : List (Event w U T))
        → connections w service n (e ∷ es) ≡ connections w service n es)
      (s : Running w U T) (v : IsDumping w s) where
    pub nothing_there : get_elem? s.tasks i ≡ none → Moves e s s
    nothing_there g = unmoved e s s v refl λ es.
        ap (λ os. os ++ connections w service (length s.tasks) (e ∷ es))
          (outcomes-out w 0 i e es s.tasks g λ m d. mine m (λ z. d (omega arith)))
        ∙ ap (λ cs. outcomes w 0 es s.tasks ++ cs) (quiet (length s.tasks) es)

    pub goes_on :
        (t t' : Option (Task w U T))
        → get_elem? s.tasks i ≡ some t
        → ((es : List (Event w U T)) → outcome w i (e ∷ es) t ≡ outcome w i es t')
        → Moves e s (record s { tasks = set s.tasks i t' })
    goes_on t t' g h =
        unmoved e s (record s { tasks = set s.tasks i t' })
          (record { channel = v.channel; dumper = v.dumper; is_open = v.is_open; full = v.full })
          refl
          λ es.
            ap (λ os. os ++ connections w service (length s.tasks) (e ∷ es))
              (outcomes-goes w i e es s.tasks t t' g mine (h es))
            ∙ ap (λ cs. outcomes w 0 es (set s.tasks i t') ++ cs)
                (quiet (length s.tasks) es
                  ∙ ap (λ n. connections w service n es) (sym (length-set s.tasks i t')))

    pub stays_there :
        (t : Option (Task w U T))
        → get_elem? s.tasks i ≡ some t
        → ((es : List (Event w U T)) → outcome w i (e ∷ es) t ≡ outcome w i es t)
        → Moves e s s
    stays_there t g h = unmoved e s s v refl λ es.
        ap (λ os. os ++ connections w service (length s.tasks) (e ∷ es))
          (outcomes-stays w i e es s.tasks t g mine (h es))
        ∙ ap (λ cs. outcomes w 0 es s.tasks ++ cs) (quiet (length s.tasks) es)

    pub comes_to_end :
        (t : Option (Task w U T)) (f : Option (AnyFlow w U T)) (s' : Running w U T)
        → get_elem? s.tasks i ≡ some t
        → ((es : List (Event w U T)) → outcome w i (e ∷ es) t ≡ (none, f))
        → IsDumping w s'
        → s'.tasks ≡ set s.tasks i none
        → Perm (offered w s') (given_by w f (offered w s))
        → Moves e s s'
    unfolding Moves
    comes_to_end t f s' g h v' k p = (
      v',
      λ es.
          let (lefts, perm) = outcomes-ends w i e es s.tasks t f g mine (h es) in
          let cs = connections w service (length s.tasks) es in
          let before : everyone (e ∷ es) s ≡ outcomes w 0 (e ∷ es) s.tasks ++ cs =
            ap (λ l. outcomes w 0 (e ∷ es) s.tasks ++ l) (quiet (length s.tasks) es) in
          let after : everyone es s' ≡ outcomes w 0 es (set s.tasks i none) ++ cs =
            ap (λ ts. outcomes w 0 es ts ++ connections w service (length ts) es) k
            ∙ ap (λ n. outcomes w 0 es (set s.tasks i none) ++ connections w service n es)
                (length-set s.tasks i none) in
          (
            ap (left w) before
                ∙ left-append w (outcomes w 0 (e ∷ es) s.tasks) cs
                ∙ ap (λ l. l ++ left w cs) lefts
                ∙ sym (left-append w (outcomes w 0 es (set s.tasks i none)) cs)
                ∙ sym (ap (left w) after),
            rw
                (
                  before,
                  after,
                  shares-append w (outcomes w 0 (e ∷ es) s.tasks) cs,
                  shares-append w (outcomes w 0 es (set s.tasks i none)) cs,
                )
                (passes-Perm w f (offered w s) (offered w s')
                  (shares w (outcomes w 0 (e ∷ es) s.tasks))
                  (shares w (outcomes w 0 es (set s.tasks i none))) (shares w cs) p perm),
          ),
    )
