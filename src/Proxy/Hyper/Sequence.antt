-- ===== src/Proxy/Hyper/Sequence.antt =====
-- The calls of one HTTP connection (src/proxy/hyper.rs), one after the other: what the server gets
-- against what the client asks and what the flow records.
use mini_proxad.Prelude.{ℕ, ◌≡◌, refl, Option, List, [], ◌∷◌, ◌++◌}
use mini_proxad.Http.{HttpCrate, Request}
use mini_proxad.History.Http.Bounds.{IsBounded}
use mini_proxad.Filter.Http.{HttpScript}
use mini_proxad.Proxy.Hyper.{Incoming, Answer, ProxyHyperInner, limited, limited_answer, call}
use mini_proxad.Proxy.Hyper.Laws.{call-IsBounded}
use mini_proxad.Proxy.Hyper.Logs.{call-Faithful, readable, Faithful, Faithful-refl, Faithful-trans}

-- One call of a connection, with what the environment gives to it.
pub record Calling (w : HttpCrate) (U T : Type 0) : Type 0 where
  pub script : Option (HttpScript w U T)
  pub script' : Option (HttpScript w U T)
  pub server : Request w → Answer w
  pub now : T
  pub later : T
  pub incoming : Incoming (Request w)

-- The call as the limit of a service lets it through.
abbrev pub limited_calling : (w : HttpCrate) {U T : Type 0} → ℕ → Calling w U T → Calling w U T
limited_calling w max_body c = record c {
  server = λ req. limited_answer w max_body (c.server req);
  incoming = limited w max_body c.incoming;
}

module _ (w : HttpCrate) {U T : Type 0} where
  -- The calls of a connection in turn, whatever each of them returns.
  unfoldable pub run_calls : List (Calling w U T) → ProxyHyperInner w U T → ProxyHyperInner w U T
  run_calls [] i = i
  run_calls (c ∷ cs) i =
      run_calls cs (call w c.script c.script' c.server c.now c.later c.incoming i).0

  pub run_calls_one_more :
      (cs : List (Calling w U T)) (c : Calling w U T) (i : ProxyHyperInner w U T)
      → run_calls (cs ++ c ∷ []) i
        ≡ (call w c.script c.script' c.server c.now c.later c.incoming (run_calls cs i)).0
  unfolding run_calls
  run_calls_one_more [] c i = refl
  run_calls_one_more (d ∷ cs) c i =
      run_calls_one_more cs c (call w d.script d.script' d.server d.now d.later d.incoming i).0

  abbrev pub asked : List (Calling w U T) → List (Request w)
  asked [] = []
  asked (c ∷ cs) = readable w c.incoming ++ asked cs

  -- Over any calls of one connection, with any scripts and any server: the server is given requests of
  -- the client that could be read, each with its own headers and body, in their order and none twice;
  -- every request that it is given is also recorded, in order, with its framing headers replaced; and
  -- the sizes of the history stay within their limits if they were.
  pub run_calls-Faithful :
      (cs : List (Calling w U T)) (i : ProxyHyperInner w U T)
      → IsBounded i.flow.history
      → Faithful w (asked cs) i (run_calls cs i) × IsBounded (run_calls cs i).flow.history
  unfolding run_calls
  run_calls-Faithful [] i b = (Faithful-refl w [] i, b)
  run_calls-Faithful (c ∷ cs) i b =
      let next = (call w c.script c.script' c.server c.now c.later c.incoming i).0 in
      let (rest, bounded) =
        run_calls-Faithful cs next
          (call-IsBounded w c.script c.script' c.server c.now c.later c.incoming i b) in
      (
        Faithful-trans w (readable w c.incoming) (asked cs) i next (run_calls cs next)
            (call-Faithful w c.script c.script' c.server c.now c.later c.incoming i) rest,
        bounded,
      )
