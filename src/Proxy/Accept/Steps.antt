-- ===== src/Proxy/Accept/Steps.antt =====
-- What each event of a task of `handle_accept` (src/proxy/mod.rs) does, against the outcome of that
-- connection alone.
use mathlib.Core.List.Perm
use mini_proxad.Prelude.{
  ℕ, ◌≡◌, ◌≢◌, refl, Option, none, some, Bool, true, false, List, ◌∷◌, ◌==◌, get_elem?, set, ok,
  err, panicked, arith,
}
use mini_proxad.Http.{HttpCrate}
use mini_proxad.Http.Extract.{PyHttpReq, PyHttpResp}
use mini_proxad.Flow.{RawFlow, raw, http}
use mini_proxad.Tls.{Rustls}
use mini_proxad.Proxy.Raw.{Ready, Closing, Progress, running, finished, Session, handle_flow}
use mini_proxad.Proxy.Hyper.{ProxyHyper, call_service}
use mini_proxad.Proxy.Hyper.Sequence.{Calling, run_calls}
use mini_proxad.Proxy.Accept.{
  WebFilter, AnyFlow, WebService, Task, raw_task, http_task, Running, Event, raw_ends, calls,
  http_ends, hand_over, end_task, end_raw, into_flow, end_http, on_task,
}
use mini_proxad.Proxy.Accept.Outcomes.{own_calls, http_outcome, raw_outcome, outcome, connections}
use mini_proxad.Proxy.Accept.Numbers.{aims}
use mini_proxad.Proxy.Accept.Moves.{
  not_mine, Moves, nothing_there, goes_on, stays_there, comes_to_end,
}
use mini_proxad.Proxy.Accept.Offers.{offered, IsDumping, hand_over-offered}

-- The first call of a connection and those that follow.
http_outcome-call :
    (w : HttpCrate) {U T : Type 0} (c : Calling w U T) (cs : List (Calling w U T))
    (end : Option Bool) (hyper : ProxyHyper w U T)
    → http_outcome w (c ∷ cs, end) hyper
      ≡ http_outcome w
          (cs, end)
          (call_service w c.script c.script' c.server c.now c.later c.incoming hyper).0
unfolding run_calls call_service
http_outcome-call w c cs none hyper = refl
http_outcome-call w c cs (some true) hyper = refl
http_outcome-call w c cs (some false) hyper = refl

itself : (i : ℕ) → i == i ≡ true
itself i = ground arith

module _ (w : HttpCrate) {U T : Type 0} {r : Rustls} (service : WebService w U T r) where
  same_dumper :
      (s : Running w U T)
      → IsDumping w s
      → (ts : List (Option (Task w U T))) → IsDumping w (record s { tasks = ts })
  same_dumper s v ts = record {
    channel = v.channel;
    dumper = v.dumper;
    is_open = v.is_open;
    full = v.full;
  }

  module _ (e : Event w U T) (i : ℕ) (mine : (m : ℕ) → m ≢ i → aims w m e ≡ false)
      (quiet : (n : ℕ) (es : List (Event w U T))
        → connections w service n (e ∷ es) ≡ connections w service n es)
      (s : Running w U T) (v : IsDumping w s) (t : Option (Task w U T))
      (g : get_elem? s.tasks i ≡ some t) where
    gives :
        (f : AnyFlow w U T)
        → ((es : List (Event w U T)) → outcome w i (e ∷ es) t ≡ (none, some f))
        → Moves w service e s (hand_over w f (end_task w i s))
    gives f h =
        let (v', p, k) =
          hand_over-offered w f (end_task w i s) (same_dumper s v (set s.tasks i none)) in
        comes_to_end w service e i mine quiet s v t (some f) (hand_over w f (end_task w i s)) g h v'
          k p

    gives_nothing :
        ((es : List (Event w U T)) → outcome w i (e ∷ es) t ≡ (none, none))
        → Moves w service e s (end_task w i s)
    gives_nothing h =
        comes_to_end w service e i mine quiet s v t none (end_task w i s) g h
          (same_dumper s v (set s.tasks i none)) refl (Perm.refl (offered w s))

  raw_ends-Moves :
      (i : ℕ) (filter : Option (WebFilter w U T))
      (turns : List (Ready U T (PyHttpReq w) (PyHttpResp w))) (closing : Closing)
      (flow : RawFlow U T) (s : Running w U T)
      → IsDumping w s
      → get_elem? s.tasks i ≡ some (some (raw_task flow))
      → (out : Session U T × Progress) → handle_flow filter turns closing flow ≡ out
      → Moves w service (raw_ends i filter turns closing) s (end_raw w i out s)
  unfolding end_raw outcome raw_outcome connections
  raw_ends-Moves i filter turns closing flow s v g out h = go out h
    where
      e : Event w U T
      e = raw_ends i filter turns closing

      mine : (m : ℕ) → m ≢ i → aims w m e ≡ false
      mine m d = not_mine i m d

      go :
          (out : Session U T × Progress)
          → handle_flow filter turns closing flow ≡ out
          → Moves w service e s (end_raw w i out s)
      go (session, running) h =
          stays_there w service e i mine (λ n es. refl) s v (some (raw_task flow)) g
            λ es. rw (itself i, h) refl
      go (session, finished (ok u)) h =
          gives e i mine (λ n es. refl) s v (some (raw_task flow)) g (raw session.flow)
            λ es. rw (itself i, h) refl
      go (session, finished (err x)) h =
          gives e i mine (λ n es. refl) s v (some (raw_task flow)) g (raw session.flow)
            λ es. rw (itself i, h) refl
      go (session, finished panicked) h =
          gives_nothing e i mine (λ n es. refl) s v (some (raw_task flow)) g
            λ es. rw (itself i, h) refl

  http_ends-Moves :
      (i : ℕ) (alone : Bool) (hyper : ProxyHyper w U T) (s : Running w U T)
      → IsDumping w s
      → get_elem? s.tasks i ≡ some (some (http_task hyper))
      → Moves w service (http_ends i alone) s (end_http w i (into_flow w alone hyper) s)
  unfolding end_http into_flow outcome own_calls connections run_calls
  http_ends-Moves i true hyper s v g =
      gives (http_ends i true) i (λ m d. not_mine i m d) (λ n es. refl) s v (some (http_task hyper))
        g (http hyper.inner.flow) λ es. rw (itself i) refl
  http_ends-Moves i false hyper s v g =
      gives_nothing (http_ends i false) i (λ m d. not_mine i m d) (λ n es. refl) s v
        (some (http_task hyper)) g λ es. rw (itself i) refl

  -- A task that has ended, or a number that no task has.
  module _ (e : Event w U T) (i : ℕ) (mine : (m : ℕ) → m ≢ i → aims w m e ≡ false)
      (quiet : (n : ℕ) (es : List (Event w U T))
        → connections w service n (e ∷ es) ≡ connections w service n es)
      (s : Running w U T) (v : IsDumping w s) where
    gone : get_elem? s.tasks i ≡ some none → Moves w service e s s
    unfolding outcome
    gone g = stays_there w service e i mine quiet s v none g λ es. refl

    absent : get_elem? s.tasks i ≡ none → Moves w service e s s
    absent g = nothing_there w service e i mine quiet s v g

  pub raw_ends-on_task :
      (i : ℕ) (filter : Option (WebFilter w U T))
      (turns : List (Ready U T (PyHttpReq w) (PyHttpResp w))) (closing : Closing)
      (s : Running w U T)
      → IsDumping w s
      → (t : Option (Option (Task w U T))) → get_elem? s.tasks i ≡ t
      → Moves w service
          (raw_ends i filter turns closing)
          s
          (on_task w (raw_ends i filter turns closing) t s)
  unfolding on_task connections outcome own_calls
  raw_ends-on_task i filter turns closing s v none g =
      absent (raw_ends i filter turns closing) i (λ m d. not_mine i m d) (λ n es. refl) s v g
  raw_ends-on_task i filter turns closing s v (some none) g =
      gone (raw_ends i filter turns closing) i (λ m d. not_mine i m d) (λ n es. refl) s v g
  raw_ends-on_task i filter turns closing s v (some (some (raw_task flow))) g =
      raw_ends-Moves i filter turns closing flow s v g (handle_flow filter turns closing flow) refl
  raw_ends-on_task i filter turns closing s v (some (some (http_task hyper))) g =
      stays_there w service (raw_ends i filter turns closing) i (λ m d. not_mine i m d)
        (λ n es. refl) s v (some (http_task hyper)) g λ es. refl

  pub calls-on_task :
      (i : ℕ) (c : Calling w U T) (s : Running w U T)
      → IsDumping w s
      → (t : Option (Option (Task w U T))) → get_elem? s.tasks i ≡ t
      → let e = calls i c.script c.script' c.server c.now c.later c.incoming in
        Moves w service e s (on_task w e t s)
  unfolding on_task connections outcome own_calls raw_outcome
  calls-on_task i c s v none g =
      absent (calls i c.script c.script' c.server c.now c.later c.incoming) i
        (λ m d. not_mine i m d) (λ n es. refl) s v g
  calls-on_task i c s v (some none) g =
      gone (calls i c.script c.script' c.server c.now c.later c.incoming) i (λ m d. not_mine i m d)
        (λ n es. refl) s v g
  calls-on_task i c s v (some (some (raw_task flow))) g =
      stays_there w service (calls i c.script c.script' c.server c.now c.later c.incoming) i
        (λ m d. not_mine i m d) (λ n es. refl) s v (some (raw_task flow)) g λ es. refl
  calls-on_task i c s v (some (some (http_task hyper))) g =
      goes_on w service (calls i c.script c.script' c.server c.now c.later c.incoming) i
        (λ m d. not_mine i m d) (λ n es. refl) s v (some (http_task hyper))
        (some
          (http_task (call_service w c.script c.script' c.server c.now c.later c.incoming hyper).0))
        g
        λ es. rw (itself i) (http_outcome-call w c (own_calls w i es).0 (own_calls w i es).1 hyper)

  pub http_ends-on_task :
      (i : ℕ) (alone : Bool) (s : Running w U T)
      → IsDumping w s
      → (t : Option (Option (Task w U T))) → get_elem? s.tasks i ≡ t
      → Moves w service (http_ends i alone) s (on_task w (http_ends i alone) t s)
  unfolding on_task connections outcome raw_outcome
  http_ends-on_task i alone s v none g =
      absent (http_ends i alone) i (λ m d. not_mine i m d) (λ n es. refl) s v g
  http_ends-on_task i alone s v (some none) g =
      gone (http_ends i alone) i (λ m d. not_mine i m d) (λ n es. refl) s v g
  http_ends-on_task i alone s v (some (some (raw_task flow))) g =
      stays_there w service (http_ends i alone) i (λ m d. not_mine i m d) (λ n es. refl) s v
        (some (raw_task flow)) g λ es. refl
  http_ends-on_task i alone s v (some (some (http_task hyper))) g =
      http_ends-Moves i alone hyper s v g
