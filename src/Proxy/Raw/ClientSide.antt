-- ===== src/Proxy/Raw/ClientSide.antt =====
-- A round of `handle_flow` (src/proxy/mod.rs) in which the client is ready first.
use mini_proxad.Prelude.{
  Option-cases, ◌≡◌, refl, sym, ap, ◌∙◌, inl, inr, ◌≢◌, [], ◌++◌, Bytes, Result, ok, err, panicked,
  append-nil, append_assoc, ControlFlow, go_on, break, io,
}
use mini_proxad.History.Raw.{RawHistory}
use mini_proxad.History.Raw.Tiling.{IsTiled, IsReadable, IsTiled-IsReadable}
use mini_proxad.Flow.{RawFlow}
use mini_proxad.Filter.{run_filter}
use mini_proxad.Filter.Raw.{on_raw_client}
use mini_proxad.Filter.Raw.Laws.{kept, ClientHooked, on_raw_client-Hooked}
use mini_proxad.Proxy.Raw.{FlowStatus, read_chunk, Session, Turn, forward_client, client_turn}
use mini_proxad.Proxy.Raw.Reads.{
  Reads, got, too_big, at_end, late, failing, extended, read_chunk-Reads, HasNext, Applied-HasNext,
  extended-IsTiled, failing-IsReadable,
}
use mini_proxad.Proxy.Raw.Sync.{
  IsSynced, Keeps, prefix_refl, IsSynced-IsBehind, BothTiled-BothReadable, write_last_chunk_lem,
}

module _ {U T : Type 0} where
  abbrev pub with_client : Session U T → RawHistory T → Session U T
  with_client s h = record s { flow = record (s.flow) { client_history = h } }

  -- A flow that stops with new bytes of the client that were not forwarded.
  stopped_client :
      (s : Session U T) (h : RawHistory T) (r : Result ControlFlow) (new : Bytes)
      → IsSynced s
      → h.bytes ≡ s.flow.client_history.bytes ++ new
      → ((c : ControlFlow) → r ≡ ok c → IsTiled h)
      → IsReadable h
      → r ≢ panicked
      → r ≢ ok go_on
      → Keeps (with_client s h) r
  stopped_client s h r new v e k l p q = record {
    readable = (l, IsTiled-IsReadable s.flow.server_history v.server);
    sound = p;
    tiled = λ c x. (k c x, v.server);
    synced = λ x. absurd (q x);
    behind = record {
      to_server = (new, e ∙ ap (λ bs. bs ++ new) v.to_server);
      to_client = prefix_refl s.to_client s.flow.server_history.bytes v.to_client;
    };
  }

module _ {U T Q R : Type 0} where
  run_client-Hooked :
      (t : Turn U T Q R) (flow : RawFlow U T)
      → IsTiled flow.client_history
      → ClientHooked flow
          (run_filter t.filter (λ f g. on_raw_client f.inner g t.called_at t.replaced_at) flow)
  run_client-Hooked t flow tiled = elim (Option-cases t.filter) [
    | inl e ↦ (flow.client_history, go_on, rw e, kept)
    | inr (f, e) ↦ rw e (on_raw_client-Hooked f.inner flow t.called_at t.replaced_at tiled)
  ]

  forward_client-Keeps :
      (t : Turn U T Q R) (s : Session U T) (new : Bytes) (now : T)
      → IsSynced s
      → let r = forward_client t (with_client s (extended s.flow.client_history new now)) in
        Keeps r.0 r.1
  unfolding forward_client
  forward_client-Keeps t s new now v =
      let (h, c, e, a) =
        run_client-Hooked t s'.flow (extended-IsTiled s.flow.client_history new now v.client) in
      go h c e (Applied-HasNext s.flow.client_history new now v.client a)
    where
      s' : Session U T
      s' = with_client s (extended s.flow.client_history new now)

      go :
          (h : RawHistory T) (c : ControlFlow)
          → run_filter t.filter (λ f g. on_raw_client f.inner g t.called_at t.replaced_at) s'.flow
            ≡ ok (record (s'.flow) { client_history = h }, c)
          → HasNext s.flow.client_history h
          → Keeps (forward_client t s').0 (forward_client t s').1
      go h break e (chunk, b, l, tiled) =
          rw (e, forward_client)
            (record {
              sound = λ x. cc;
              tiled = λ c x. (tiled, v.server);
              synced = λ x. cc;
              readable =
                  (IsTiled-IsReadable h tiled, IsTiled-IsReadable s.flow.server_history v.server);
              behind = record {
                to_server = (chunk, b ∙ ap (λ bs. bs ++ chunk) v.to_server);
                to_client = prefix_refl s.to_client s.flow.server_history.bytes v.to_client;
              };
            })
      go h go_on e (chunk, b, l, tiled) =
          rw (e, forward_client)
            (elim (write_last_chunk_lem t.writing s.to_server chunk h l) [
              | inl (w, r) ↦
                  let told : h.bytes ≡ s.to_server ++ chunk =
                    b ∙ ap (λ bs. bs ++ chunk) v.to_server in
                  let v' : IsSynced
                      (record (with_client s h) { to_server = s.to_server ++ chunk }) =
                    record {
                      client = tiled;
                      server = v.server;
                      to_server = told;
                      to_client = v.to_client;
                    } in
                  rw (w, r)
                    (record {
                      sound = λ x. cc;
                      tiled = λ c x. (v'.client, v'.server);
                      synced = λ _. v';
                      behind = IsSynced-IsBehind _ v';
                      readable =
                          BothTiled-BothReadable (with_client s h).flow (v'.client, v'.server);
                    })
              | inr (part, rest, c, w, k, r) ↦
                  rw (w, r)
                    (record {
                      sound = λ x. cc;
                      tiled = λ c x. cc;
                      synced = λ x. cc;
                      readable = (
                        IsTiled-IsReadable h tiled,
                        IsTiled-IsReadable s.flow.server_history v.server,
                      );
                      behind = record {
                        to_server = (
                          rest,
                          b ∙ cc (v.to_server, c) ∙ sym (append_assoc s.to_server part rest),
                        );
                        to_client = prefix_refl s.to_client s.flow.server_history.bytes v.to_client;
                      };
                    })
            ])

  pub client_turn-Keeps :
      (t : Turn U T Q R) (s : Session U T)
      → IsSynced s
      → Keeps (client_turn t s).0 (client_turn t s).1
  unfolding client_turn
  client_turn-Keeps t s v =
      go (read_chunk t.wakes s.flow.client_history t.read_at).0
        (read_chunk t.wakes s.flow.client_history t.read_at).1 refl refl
        (read_chunk-Reads t.wakes s.flow.client_history t.read_at)
    where
      go :
          (h : RawHistory T) (st : Result FlowStatus)
          → (read_chunk t.wakes s.flow.client_history t.read_at).0 ≡ h
          → (read_chunk t.wakes s.flow.client_history t.read_at).1 ≡ st
          → Reads s.flow.client_history t.read_at h st
          → Keeps (client_turn t s).0 (client_turn t s).1
      go h st eh es (got new p q) =
          rw (es, client_turn, eh) (forward_client-Keeps t s new t.read_at v)
      go h st eh es (too_big new p q) =
          rw (es, client_turn, eh)
            (stopped_client s _ (ok break) new v refl
              (λ _ _. extended-IsTiled s.flow.client_history new t.read_at v.client)
              (IsTiled-IsReadable (extended s.flow.client_history new t.read_at)
                (extended-IsTiled s.flow.client_history new t.read_at v.client))
              (λ x. cc) (λ x. cc))
      go h st eh es at_end =
          rw (es, client_turn, eh)
            (stopped_client s _ (ok break) [] v (sym (append-nil s.flow.client_history.bytes))
              (λ _ _. v.client) (IsTiled-IsReadable s.flow.client_history v.client) (λ x. cc)
              (λ x. cc))
      go h st eh es late =
          rw (es, client_turn, eh)
            (stopped_client s _ (ok break) [] v (sym (append-nil s.flow.client_history.bytes))
              (λ _ _. v.client) (IsTiled-IsReadable s.flow.client_history v.client) (λ x. cc)
              (λ x. cc))
      go h st eh es (failing new e) =
          rw (es, client_turn, eh)
            (stopped_client s _ (err (io e)) new v refl (λ _ x. cc)
              (failing-IsReadable s.flow.client_history new v.client) (λ x. cc) (λ x. cc))
