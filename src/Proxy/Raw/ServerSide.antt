-- ===== src/Proxy/Raw/ServerSide.antt =====
-- A round of `handle_flow` (src/proxy/mod.rs) in which the service is ready first.
use mini_proxad.Prelude.{
  Option-cases, ◌≡◌, refl, sym, ap, ◌∙◌, inl, inr, ◌≢◌, [], ◌++◌, Bytes, Result, ok, err, panicked,
  append-nil, append_assoc, ControlFlow, go_on, break, io,
}
use mini_proxad.History.Raw.{RawHistory}
use mini_proxad.History.Raw.Tiling.{IsTiled, IsReadable, IsTiled-IsReadable}
use mini_proxad.Flow.{RawFlow}
use mini_proxad.Filter.{run_filter}
use mini_proxad.Filter.Raw.{on_raw_server}
use mini_proxad.Filter.Raw.Laws.{kept, ServerHooked, on_raw_server-Hooked}
use mini_proxad.Proxy.Raw.{FlowStatus, read_chunk, Session, Turn, forward_server, server_turn}
use mini_proxad.Proxy.Raw.Reads.{
  Reads, got, too_big, at_end, late, failing, extended, read_chunk-Reads, HasNext, Applied-HasNext,
  extended-IsTiled, failing-IsReadable,
}
use mini_proxad.Proxy.Raw.Sync.{
  IsSynced, Keeps, prefix_refl, IsSynced-IsBehind, BothTiled-BothReadable, write_last_chunk_lem,
}

module _ {U T : Type 0} where
  abbrev pub with_server : Session U T → RawHistory T → Session U T
  with_server s h = record s { flow = record (s.flow) { server_history = h } }

  -- A flow that stops with new bytes of the service that were not forwarded.
  stopped_server :
      (s : Session U T) (h : RawHistory T) (r : Result ControlFlow) (new : Bytes)
      → IsSynced s
      → h.bytes ≡ s.flow.server_history.bytes ++ new
      → ((c : ControlFlow) → r ≡ ok c → IsTiled h)
      → IsReadable h
      → r ≢ panicked
      → r ≢ ok go_on
      → Keeps (with_server s h) r
  stopped_server s h r new v e k l p q = record {
    readable = (IsTiled-IsReadable s.flow.client_history v.client, l);
    sound = p;
    tiled = λ c x. (v.client, k c x);
    synced = λ x. absurd (q x);
    behind = record {
      to_client = (new, e ∙ ap (λ bs. bs ++ new) v.to_client);
      to_server = prefix_refl s.to_server s.flow.client_history.bytes v.to_server;
    };
  }

module _ {U T Q R : Type 0} where
  run_server-Hooked :
      (t : Turn U T Q R) (flow : RawFlow U T)
      → IsTiled flow.server_history
      → ServerHooked flow
          (run_filter t.filter (λ f g. on_raw_server f.inner g t.called_at t.replaced_at) flow)
  run_server-Hooked t flow tiled = elim (Option-cases t.filter) [
    | inl e ↦ (flow.server_history, go_on, rw e, kept)
    | inr (f, e) ↦ rw e (on_raw_server-Hooked f.inner flow t.called_at t.replaced_at tiled)
  ]

  forward_server-Keeps :
      (t : Turn U T Q R) (s : Session U T) (new : Bytes) (now : T)
      → IsSynced s
      → let r = forward_server t (with_server s (extended s.flow.server_history new now)) in
        Keeps r.0 r.1
  unfolding forward_server
  forward_server-Keeps t s new now v =
      let (h, c, e, a) =
        run_server-Hooked t s'.flow (extended-IsTiled s.flow.server_history new now v.server) in
      go h c e (Applied-HasNext s.flow.server_history new now v.server a)
    where
      s' : Session U T
      s' = with_server s (extended s.flow.server_history new now)

      go :
          (h : RawHistory T) (c : ControlFlow)
          → run_filter t.filter (λ f g. on_raw_server f.inner g t.called_at t.replaced_at) s'.flow
            ≡ ok (record (s'.flow) { server_history = h }, c)
          → HasNext s.flow.server_history h
          → Keeps (forward_server t s').0 (forward_server t s').1
      go h break e (chunk, b, l, tiled) =
          rw (e, forward_server)
            (record {
              sound = λ x. cc;
              tiled = λ c x. (v.client, tiled);
              synced = λ x. cc;
              readable =
                  (IsTiled-IsReadable s.flow.client_history v.client, IsTiled-IsReadable h tiled);
              behind = record {
                to_client = (chunk, b ∙ ap (λ bs. bs ++ chunk) v.to_client);
                to_server = prefix_refl s.to_server s.flow.client_history.bytes v.to_server;
              };
            })
      go h go_on e (chunk, b, l, tiled) =
          rw (e, forward_server)
            (elim (write_last_chunk_lem t.writing s.to_client chunk h l) [
              | inl (w, r) ↦
                  let told : h.bytes ≡ s.to_client ++ chunk =
                    b ∙ ap (λ bs. bs ++ chunk) v.to_client in
                  let v' : IsSynced
                      (record (with_server s h) { to_client = s.to_client ++ chunk }) =
                    record {
                      client = v.client;
                      server = tiled;
                      to_client = told;
                      to_server = v.to_server;
                    } in
                  rw (w, r)
                    (record {
                      sound = λ x. cc;
                      tiled = λ c x. (v'.client, v'.server);
                      synced = λ _. v';
                      behind = IsSynced-IsBehind _ v';
                      readable =
                          BothTiled-BothReadable (with_server s h).flow (v'.client, v'.server);
                    })
              | inr (part, rest, c, w, k, r) ↦
                  rw (w, r)
                    (record {
                      sound = λ x. cc;
                      tiled = λ c x. cc;
                      synced = λ x. cc;
                      readable = (
                        IsTiled-IsReadable s.flow.client_history v.client,
                        IsTiled-IsReadable h tiled,
                      );
                      behind = record {
                        to_client = (
                          rest,
                          b ∙ cc (v.to_client, c) ∙ sym (append_assoc s.to_client part rest),
                        );
                        to_server = prefix_refl s.to_server s.flow.client_history.bytes v.to_server;
                      };
                    })
            ])

  pub server_turn-Keeps :
      (t : Turn U T Q R) (s : Session U T)
      → IsSynced s
      → Keeps (server_turn t s).0 (server_turn t s).1
  unfolding server_turn
  server_turn-Keeps t s v =
      go (read_chunk t.wakes s.flow.server_history t.read_at).0
        (read_chunk t.wakes s.flow.server_history t.read_at).1 refl refl
        (read_chunk-Reads t.wakes s.flow.server_history t.read_at)
    where
      go :
          (h : RawHistory T) (st : Result FlowStatus)
          → (read_chunk t.wakes s.flow.server_history t.read_at).0 ≡ h
          → (read_chunk t.wakes s.flow.server_history t.read_at).1 ≡ st
          → Reads s.flow.server_history t.read_at h st
          → Keeps (server_turn t s).0 (server_turn t s).1
      go h st eh es (got new p q) =
          rw (es, server_turn, eh) (forward_server-Keeps t s new t.read_at v)
      go h st eh es (too_big new p q) =
          rw (es, server_turn, eh)
            (stopped_server s _ (ok break) new v refl
              (λ _ _. extended-IsTiled s.flow.server_history new t.read_at v.server)
              (IsTiled-IsReadable (extended s.flow.server_history new t.read_at)
                (extended-IsTiled s.flow.server_history new t.read_at v.server))
              (λ x. cc) (λ x. cc))
      go h st eh es at_end =
          rw (es, server_turn, eh)
            (stopped_server s _ (ok break) [] v (sym (append-nil s.flow.server_history.bytes))
              (λ _ _. v.server) (IsTiled-IsReadable s.flow.server_history v.server) (λ x. cc)
              (λ x. cc))
      go h st eh es late =
          rw (es, server_turn, eh)
            (stopped_server s _ (ok break) [] v (sym (append-nil s.flow.server_history.bytes))
              (λ _ _. v.server) (IsTiled-IsReadable s.flow.server_history v.server) (λ x. cc)
              (λ x. cc))
      go h st eh es (failing new e) =
          rw (es, server_turn, eh)
            (stopped_server s _ (err (io e)) new v refl (λ _ x. cc)
              (failing-IsReadable s.flow.server_history new v.server) (λ x. cc) (λ x. cc))
