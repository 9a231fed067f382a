-- ===== src/Proxy/Accept/Offers.antt =====
-- The channel to the dumper (src/proxy/mod.rs): which flows have been offered to it, whether it has
-- taken them or not.
use mathlib.Core.List.{Perm, perm_middle}
use mini_proxad.Prelude.{
  ◌+◌, ◌≤◌, ◌≡◌, ◌⊎◌, inl, inr, refl, ap, sym, subst, ◌∙◌, some, Bool, true, false, Bool-cases,
  List, [], ◌∷◌, ◌++◌, ◌&&◌, length, length-append, append_assoc, append-nil, ltb, arith,
}
use mini_proxad.Http.{HttpCrate}
use mini_proxad.Proxy.Dumper.Start.{dump_channel_limit}
use mini_proxad.Proxy.Accept.{
  Channel, try_send, AnyFlow, Running, Event, dumper_ends, hand_over, take_one,
}
use mini_proxad.Proxy.Accept.Handover.{queue_of, handed}

module _ (w : HttpCrate) {U T : Type 0} where
  -- The flows that the dumper has got, that wait for it, and that the channel has refused.
  abbrev pub offered : Running w U T → List (AnyFlow w U T)
  offered s = (s.received ++ queue_of s.dumper) ++ s.refused

  -- A flow is refused only by a full channel.
  abbrev pub Full : Running w U T → Type 0
  Full s = (s.refused ≡ []) ⊎ (dump_channel_limit ≤ length s.received + length (queue_of s.dumper))

  pub record IsDumping (s : Running w U T) : Type 0 where
    pub channel : Channel (AnyFlow w U T)
    pub dumper : s.dumper ≡ some channel
    pub is_open : channel.is_open ≡ true
    pub full : Full s

  abbrev pub ends_dumper : Event w U T → Bool
  ends_dumper dumper_ends = true
  ends_dumper _ = false

  queued-Perm :
      (got waiting turned : List (AnyFlow w U T)) (f : AnyFlow w U T)
      → Perm ((got ++ (waiting ++ f ∷ [])) ++ turned) (f ∷ ((got ++ waiting) ++ turned))
  queued-Perm got waiting turned f =
      let moved : (got ++ (waiting ++ f ∷ [])) ++ turned ≡ (got ++ waiting) ++ f ∷ turned =
        ap (λ l. l ++ turned) (sym (append_assoc got waiting (f ∷ [])))
        ∙ append_assoc (got ++ waiting) (f ∷ []) turned in
      subst (λ l. Perm l (f ∷ ((got ++ waiting) ++ turned))) (sym moved)
        (perm_middle (got ++ waiting) turned)

  refused-Perm :
      (handed turned : List (AnyFlow w U T)) (f : AnyFlow w U T)
      → Perm (handed ++ (turned ++ f ∷ [])) (f ∷ (handed ++ turned))
  refused-Perm handed turned f =
      subst (λ l. Perm l (f ∷ (handed ++ turned))) (append_assoc handed turned (f ∷ []))
        (subst (λ l. Perm ((handed ++ turned) ++ f ∷ []) (f ∷ l)) (append-nil (handed ++ turned))
          (perm_middle (handed ++ turned) []))

  module _ (s : Running w U T) (v : IsDumping s) where
    same_queue : queue_of s.dumper ≡ v.channel.queue
    same_queue = ap queue_of v.dumper

    same_offered : offered s ≡ (s.received ++ v.channel.queue) ++ s.refused
    same_offered = ap (λ q. (s.received ++ q) ++ s.refused) same_queue

    full_queue :
        (s.refused ≡ []) ⊎ (dump_channel_limit ≤ length s.received + length v.channel.queue)
    full_queue =
        subst (λ q. (s.refused ≡ []) ⊎ (dump_channel_limit ≤ length s.received + length q))
          same_queue v.full

    accepted-IsDumping :
        (f : AnyFlow w U T)
        → IsDumping
            (record s { dumper = some (record (v.channel) { queue = v.channel.queue ++ f ∷ [] }) })
    accepted-IsDumping f = record {
      channel = record (v.channel) { queue = v.channel.queue ++ f ∷ [] };
      dumper = refl;
      is_open = v.is_open;
      full = elim full_queue [
        | inl none_yet ↦ inl none_yet
        | inr many ↦ inr (omega (arith, many, length-append v.channel.queue (f ∷ [])))
      ];
    }

    refused-IsDumping :
        (f : AnyFlow w U T)
        → dump_channel_limit ≤ length v.channel.queue
        → IsDumping (record s { dumper = some v.channel; refused = s.refused ++ f ∷ [] })
    refused-IsDumping f l = record {
      channel = v.channel;
      dumper = refl;
      is_open = v.is_open;
      full = inr (omega arith);
    }

  pub hand_over-offered :
      (f : AnyFlow w U T) (s : Running w U T)
      → IsDumping s
      → IsDumping (hand_over w f s)
        × Perm (offered (hand_over w f s)) (f ∷ offered s)
        × ((hand_over w f s).tasks ≡ s.tasks)
  unfolding hand_over try_send
  hand_over-offered f s v =
      elim (Bool-cases (v.channel.is_open && ltb (length v.channel.queue) dump_channel_limit)) [
        | inl t ↦
            let c = record (v.channel) { queue = v.channel.queue ++ f ∷ [] } in
            let same : hand_over w f s ≡ record s { dumper = some c } =
              rw (v.dumper, hand_over, t) refl in
            rw (same, same_offered s v)
              (accepted-IsDumping s v f, queued-Perm s.received v.channel.queue s.refused f, refl)
        | inr t ↦
            let same : hand_over w f s
                ≡ record s { dumper = some v.channel; refused = s.refused ++ f ∷ [] } =
              rw (v.dumper, hand_over, t) refl in
            rw (same, same_offered s v)
              (
                refused-IsDumping s v f (let o = v.is_open in ground arith),
                refused-Perm (s.received ++ v.channel.queue) s.refused f,
                refl,
              )
      ]

  -- The dumper takes the oldest.
  pub take_one-offered :
      (s : Running w U T) (v : IsDumping s) (q : List (AnyFlow w U T))
      → v.channel.queue ≡ q
      → IsDumping (take_one w v.channel s)
        × (offered (take_one w v.channel s) ≡ offered s)
        × ((take_one w v.channel s).tasks ≡ s.tasks)
  unfolding take_one
  take_one-offered s v [] e =
      let same : take_one w v.channel s ≡ s = simp (e, take_one) in rw same (v, refl, refl)
  take_one-offered s v (f ∷ fs) e =
      let same : take_one w v.channel s ≡ record s {
        dumper = some (record (v.channel) { queue = fs });
        received = s.received ++ f ∷ [];
      } =
        rw (e, take_one) refl in
      rw (same, same_offered s v, e)
        (
          record {
            channel = record (v.channel) { queue = fs };
            dumper = refl;
            is_open = v.is_open;
            full = elim (full_queue s v) [
              | inl none_yet ↦ inl none_yet
              | inr many ↦ inr (omega (arith, many, ap length e, length-append s.received (f ∷ [])))
            ];
          },
          ap (λ l. l ++ s.refused) (append_assoc s.received (f ∷ []) fs),
          refl,
        )
