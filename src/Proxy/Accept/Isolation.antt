-- ===== src/Proxy/Accept/Isolation.antt =====
-- The tasks of `handle_accept` (src/proxy/mod.rs) together against each connection alone: what is left
-- of the tasks, and which flows reach the dumper.
use mathlib.Core.List.Perm
use mathlib.Core.List.{Perm}
use mini_proxad.Prelude.{
  ℕ, suc, ◌+◌, ◌≤◌, ◌≡◌, inl, refl, ap, sym, subst, ◌∙◌, Option, none, some, true, false, List, [],
  ◌∷◌, ◌++◌, length, length-append, append_assoc, append-nil, get_elem?, All, arith,
}
use mini_proxad.Http.{HttpCrate}
use mini_proxad.Tls.{Rustls}
use mini_proxad.Proxy.Hyper.Sequence.{run_calls}
use mini_proxad.Proxy.Dumper.Start.{dump_channel_limit}
use mini_proxad.Proxy.Accept.{
  WebService, Task, raw_task, http_task, Running, Event, visits, raw_ends, calls, http_ends,
  receives, dumper_ends, accept_one, take_one, add_task, Visit, on_dumper, step, run, started,
}
use mini_proxad.Proxy.Accept.Outcomes.{
  own_calls, raw_outcome, outcome, outcomes, left, given_by, shares, connections,
}
use mini_proxad.Proxy.Accept.Numbers.{outcomes-skip}
use mini_proxad.Proxy.Accept.Moves.{everyone, Moves, unmoved}
use mini_proxad.Proxy.Accept.Handover.{queue_of}
use mini_proxad.Proxy.Accept.Delivery.{run-Sound, started-IsSound}
use mini_proxad.Proxy.Accept.Steps.{raw_ends-on_task, calls-on_task, http_ends-on_task}
use mini_proxad.Proxy.Accept.Offers.{offered, Full, IsDumping, ends_dumper, take_one-offered}

module _ (w : HttpCrate) {U T : Type 0} where
  outcomes-append :
      (k : ℕ) (es : List (Event w U T)) (ts : List (Option (Task w U T))) (t : Option (Task w U T))
      (n : ℕ)
      → n ≡ k + length ts
      → outcomes w k es (ts ++ t ∷ []) ≡ outcomes w k es ts ++ outcome w n es t ∷ []
  unfolding outcomes
  outcomes-append k es [] t n e =
      let here : k ≡ n = omega arith in ap (λ m. outcome w m es t ∷ []) here
  outcomes-append k es (u ∷ ts) t n e =
      ap (λ os. outcome w k es u ∷ os) (outcomes-append (suc k) es ts t n (omega arith))

  -- With no event to come nothing is given, and all tasks are left.
  outcome-nil : (k : ℕ) (t : Option (Task w U T)) → outcome w k [] t ≡ (t, none)
  unfolding outcome raw_outcome own_calls run_calls
  outcome-nil k none = refl
  outcome-nil k (some (raw_task flow)) = refl
  outcome-nil k (some (http_task inner)) = refl

  outcomes-nil :
      (k : ℕ) (ts : List (Option (Task w U T)))
      → (left w (outcomes w k [] ts) ≡ ts) × (shares w (outcomes w k [] ts) ≡ [])
  unfolding outcomes
  outcomes-nil k [] = (refl, refl)
  outcomes-nil k (t ∷ ts) =
      let (a, b) = outcomes-nil (suc k) ts in
      let here = outcome-nil k t in
      (
        ap (λ l. (outcome w k [] t).0 ∷ l) a ∙ ap (λ o. o.0 ∷ ts) here,
        ap (given_by w (outcome w k [] t).1) b ∙ ap (λ o. given_by w o.1 []) here,
      )

module _ (w : HttpCrate) {U T : Type 0} {r : Rustls} (service : WebService w U T r) where
  receives-Moves :
      (s : Running w U T) → IsDumping w s → Moves w service receives s (step w service receives s)
  unfolding step on_dumper connections
  receives-Moves s v =
      let (v', o, k) = take_one-offered w s v v.channel.queue refl in
      let same : step w service receives s ≡ take_one w v.channel s =
        ap (λ d. on_dumper w receives d s) v.dumper in
      subst (Moves w service receives s) (sym same) (
        unmoved w service receives s (take_one w v.channel s) v' o λ es.
          ap (λ os. os ++ connections w service (length s.tasks) es)
            (outcomes-skip w 0 receives es s.tasks (λ m l. refl))
          ∙ ap (λ ts. outcomes w 0 es ts ++ connections w service (length ts) es) (sym k))

  visits-Moves :
      (visit : Visit w U T) (s : Running w U T)
      → IsDumping w s
      → (t : Option (Task w U T)) → accept_one w service visit ≡ t
      → Moves w service (visits visit) s (add_task w t s)
  unfolding add_task connections
  visits-Moves visit s v none a = unmoved w service (visits visit) s s v refl λ es.
      ap (λ os. os ++ connections w service (length s.tasks) (visits visit ∷ es))
        (outcomes-skip w 0 (visits visit) es s.tasks (λ m l. refl))
      ∙ rw a refl
  visits-Moves visit s v (some t) a =
      unmoved w service (visits visit) s (record s { tasks = s.tasks ++ some t ∷ [] })
        (record { channel = v.channel; dumper = v.dumper; is_open = v.is_open; full = v.full }) refl
        λ es.
          let n = length s.tasks in
          let more : suc n ≡ length (s.tasks ++ some t ∷ []) =
            omega (arith, length-append s.tasks (some t ∷ [])) in
          ap (λ os. os ++ connections w service n (visits visit ∷ es))
            (outcomes-skip w 0 (visits visit) es s.tasks (λ m l. refl))
          ∙ rw a (
              sym (
                append_assoc (outcomes w 0 es s.tasks) (outcome w n es (some t) ∷ [])
                  (connections w service (suc n) es))
              ∙ ap (λ os. os ++ connections w service (suc n) es)
                  (sym (outcomes-append w 0 es s.tasks (some t) n (omega arith)))
              ∙ ap (λ m. outcomes w 0 es (s.tasks ++ some t ∷ []) ++ connections w service m es)
                  more)

  step-Moves :
      (e : Event w U T) (s : Running w U T)
      → IsDumping w s
      → ends_dumper w e ≡ false
      → Moves w service e s (step w service e s)
  unfolding step
  step-Moves (visits visit) s v h = visits-Moves visit s v (accept_one w service visit) refl
  step-Moves (raw_ends i filter turns closing) s v h =
      raw_ends-on_task w service i filter turns closing s v (get_elem? s.tasks i) refl
  step-Moves (calls i script script' server now later incoming) s v h =
      calls-on_task w service i
        (record {
          script = script;
          script' = script';
          server = server;
          now = now;
          later = later;
          incoming = incoming;
        })
        s v (get_elem? s.tasks i) refl
  step-Moves (http_ends i alone) s v h =
      http_ends-on_task w service i alone s v (get_elem? s.tasks i) refl
  step-Moves receives s v h = receives-Moves s v
  step-Moves dumper_ends s v h = cc

  run-Moves :
      (es : List (Event w U T)) (s : Running w U T)
      → IsDumping w s
      → All (λ e. ends_dumper w e ≡ false) es
      → IsDumping w (run w service es s)
        × (left w (everyone w service es s) ≡ (run w service es s).tasks)
        × Perm (offered w s ++ shares w (everyone w service es s)) (offered w (run w service es s))
  unfolding run connections Moves
  run-Moves [] s v h =
      let (a, b) = outcomes-nil w 0 s.tasks in
      let all = append-nil (outcomes w 0 [] s.tasks) in
      (
        v,
        ap (left w) all ∙ a,
        subst (λ l. Perm l (offered w s))
            (sym (ap (λ os. offered w s ++ os) (ap (shares w) all ∙ b) ∙ append-nil (offered w s)))
            (Perm.refl (offered w s)),
      )
  run-Moves (e ∷ es) s v (h, hs) =
      let (v', next) = step-Moves e s v h in
      let (lefts, perm) = next es in
      let (last, lefts', perm') = run-Moves es (step w service e s) v' hs in
      (last, lefts ∙ lefts', Perm.trans perm perm')

  -- A proxy from its start, with a dumper that does not end, over any events in any order: the tasks
  -- are those of the connections that were accepted, each as its own events alone have left it after
  -- it was accepted, all calls of an HTTP connection included; the flows that the dumper has got, that
  -- wait for it or that were refused are, up to their order, exactly the flows with which these
  -- connections have ended, each of them once; never more wait than the channel holds; and a flow is
  -- refused only after as many as the channel holds have been sent.
  pub run-Isolated :
      (es : List (Event w U T))
      → All (λ e. ends_dumper w e ≡ false) es
      → let s = run w service es (started w true) in
        (s.tasks ≡ left w (connections w service 0 es))
        × Perm (offered w s) (shares w (connections w service 0 es))
        × (length (queue_of s.dumper) ≤ dump_channel_limit)
        × Full w s
  unfolding started outcomes
  run-Isolated es h =
      let (sound, extends) =
        run-Sound w service es (started w true) (started-IsSound w service true) in
      let (v, lefts, perm) =
        run-Moves es (started w true)
          (record {
            channel = record { queue = []; is_open = true };
            dumper = refl;
            is_open = refl;
            full = inl refl;
          })
          h in
      (sym lefts, Perm.symm perm, sound.bounded, v.full)
