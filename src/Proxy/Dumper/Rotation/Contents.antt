-- ===== src/Proxy/Dumper/Rotation/Contents.antt =====
-- What lies in the files that the dumper (src/proxy/dumper.rs, `dumper`) has saved.
use mini_proxad.Prelude.{
  Within, nothing, with_it, without, Within-nil, Within-append, Within-refl, Within-trans,
  Within-split, subst, none, Option-cases,
}
use mini_proxad.Proxy.Dumper.Rotation.Captures.{
  deliveries, given_in, Grown, captures, Fills, fill-Fills,
}
use mini_proxad.Prelude.{
  ◌≡◌, ◌≢◌, refl, sym, ap, ◌∙◌, inl, inr, some, List, [], ◌∷◌, ◌++◌, map, flatten, append-nil,
  append_assoc, panicked, Result-cases, All,
}
use mini_proxad.Flow.{Flow}
use mini_proxad.Http.{HttpCrate, Request, Response}
use mini_proxad.Proxy.Dumper.Packet.{Header, PcapPacket, Wire}
use mini_proxad.Prelude.{Bytes}
use mini_proxad.Proxy.Dumper.Conversation.{Chrono}
use mini_proxad.Proxy.Dumper.Transcript.{IsReliable}
use mini_proxad.Proxy.Dumper.Course.{IsTimely}
use mini_proxad.Proxy.Dumper.Rotation.{
  Tick, Filling, filling, full, crashed, Limits, fill, Finish, save, dumper, Directory,
}
use mini_proxad.Proxy.Dumper.Rotation.Count.{Iterable}
use mini_proxad.Proxy.Dumper.Rotation.Listing.{whole_files, Changed, save-Changed}

-- A name and the flows whose packets the file has.
abbrev pub Group : HttpCrate → Type 0 → Type 0 → Type 0
Group w U T = Bytes × List (Flow U T (Request w) (Response w))

abbrev pub flows_of :
    (w : HttpCrate) {U T : Type 0} → List (Group w U T) → List (Flow U T (Request w) (Response w))
flows_of w groups = flatten (map (λ g. g.1) groups)

abbrev pub written :
    (w : HttpCrate) {U T : Type 0}
    → Wire
    → Chrono T
    → List (Group w U T)
    → List (Bytes × List PcapPacket)
written w wire chrono = map λ g. (g.0, captures w wire chrono g.1)

module _ (w : HttpCrate) {U T : Type 0} (wire : Wire) (image : Header → Bytes → Bytes)
    (reliable : IsReliable wire image) (chrono : Chrono T) (timely : IsTimely chrono)
    (limits : Limits) where
  -- The whole files are some of those from before and one for each group of flows, with its captures;
  -- the groups are of the flows that the channel has given, in order.
  abbrev pub Saved : Directory → List (Flow U T (Request w) (Response w)) → Directory → Type 0
  Saved files flows files' =
      (kept : List (Bytes × List PcapPacket)) × (groups : List (Group w U T)) × Within kept
        (whole_files files)
      × Within (flows_of w groups) flows
      × (whole_files files' ≡ kept ++ written w wire chrono groups)

  Saved-refl :
      (files : Directory) (flows : List (Flow U T (Request w) (Response w)))
      → Saved files flows files
  unfolding flatten
  Saved-refl files flows = (
    whole_files files,
    [],
    Within-refl (whole_files files),
    Within-nil flows,
    sym (append-nil (whole_files files)),
  )

  -- A file that holds the captures of some flows, and is saved or not, and those that follow.
  Saved-then :
      (files files' later : Directory) (packets : List PcapPacket)
      (now next : List (Flow U T (Request w) (Response w)))
      → Grown w wire chrono [] now packets
      → Changed packets files files'
      → Saved files' next later
      → Saved files (now ++ next) later
  unfolding flatten
  Saved-then files files' later packets now next g (left, some_left, inl e)
        (kept, groups, some_kept, within, d) =
      (
        kept,
        groups,
        Within-trans (subst (Within kept) e some_kept) some_left,
        Within-append (Within-nil now) within,
        d,
      )
  Saved-then files files' later packets now next (fs, some_now, c) (left, some_left, inr (name, e))
        (kept, groups, some_kept, within, d) =
      let (us, vs, split, a, b) =
        Within-split left ((name, packets) ∷ []) (subst (Within kept) e some_kept) in
      go vs b us a (d ∙ ap (λ l. l ++ written w wire chrono groups) split)
    where
      go :
          (vs : List (Bytes × List PcapPacket))
          → Within vs ((name, packets) ∷ [])
          → (us : List (Bytes × List PcapPacket)) → Within us left
          → whole_files later ≡ (us ++ vs) ++ written w wire chrono groups
          → Saved files (now ++ next) later
      go [] b us a d = (
        us,
        groups,
        Within-trans a some_left,
        Within-append (Within-nil now) within,
        d ∙ ap (λ l. l ++ written w wire chrono groups) (append-nil us),
      )
      go (v ∷ vs) (without x) us a d = elim x [ ]
      go (v ∷ vs) (with_it nothing) us a d = (
        us,
        (name, fs) ∷ groups,
        Within-trans a some_left,
        Within-append some_now within,
        d
            ∙ append_assoc us ((name, packets) ∷ []) (written w wire chrono groups)
            ∙ ap (λ ps. us ++ (name, ps) ∷ written w wire chrono groups) c,
      )

  -- The dumper, over any directory, with a reliable writer, times that fit a `u64`, flows that can be
  -- iterated over and names that do not panic: its task does not panic; and the whole files are some
  -- of those from before and new ones, each with the packets of some of the flows that the channel
  -- has given, as `write_tcp_flow` writes them, in the order in which they came, and none twice.
  pub dumper-Saved :
      (rounds : List (List (Tick (Flow U T (Request w) (Response w))) × Finish)) (files : Directory)
      → All (λ r. All (λ t. Iterable w chrono t.channel) r.0 × (r.1.name ≢ panicked)) rounds
      → Saved files (deliveries rounds) (dumper w wire chrono limits rounds files).0
        × ((dumper w wire chrono limits rounds files).1 ≢ some panicked)
  unfolding dumper
  dumper-Saved [] files hs = (Saved-refl files [], λ x. cc)
  dumper-Saved ((ticks, finish) ∷ rounds) files ((hs, named), later) =
      elim (Option-cases finish.begun) [
        | inr (x, k) ↦
            rw (dumper, k) (Saved-refl files (given_in ticks ++ deliveries rounds), λ y. cc)
        | inl k ↦
            go k filled.1 refl (fill-Fills w wire image reliable chrono timely limits ticks 0 [] hs)
              (λ f. dumper-Saved rounds f later)
      ]
    where
      filled : List PcapPacket × Filling
      filled = fill w wire chrono limits ticks 0 []

      Goal : Type 0
      Goal =
          Saved files (given_in ticks ++ deliveries rounds)
            (dumper w wire chrono limits ((ticks, finish) ∷ rounds) files).0
          × ((dumper w wire chrono limits ((ticks, finish) ∷ rounds) files).1 ≢ some panicked)

      go :
          finish.begun ≡ none
          → (outcome : Filling) → filled.1 ≡ outcome
          → Fills w wire image reliable chrono timely limits [] (given_in ticks) filled
          → ((f : Directory)
              → Saved f (deliveries rounds) (dumper w wire chrono limits rounds f).0
                × ((dumper w wire chrono limits rounds f).1 ≢ some panicked))
          → Goal
      go b (filling n) e g rest =
          rw (b, e, dumper) (Saved-refl files (given_in ticks ++ deliveries rounds), λ x. cc)
      go b (crashed r) e (g, sound) rest =
          rw (b, e, dumper)
            (Saved-refl files (given_in ticks ++ deliveries rounds), λ x. sound (e ∙ cc))
      go b (full n) e (g, sound) rest =
          let saved = save finish n filled.0 files in
          let (change, calm) = save-Changed finish n filled.0 files named in
          let stays =
            Saved-then files saved.0 saved.0 filled.0 (given_in ticks) (deliveries rounds) g change
              (Saved-refl saved.0 (deliveries rounds)) in
          elim (Result-cases saved.1) [
            | inl (u, k) ↦
                let (more, quiet) = rest saved.0 in
                rw (b, e, dumper, k)
                  (
                    Saved-then files saved.0 (dumper w wire chrono limits rounds saved.0).0 filled.0
                        (given_in ticks) (deliveries rounds) g change more,
                    quiet,
                  )
            | inr (inl (x, k)) ↦ rw (b, e, dumper, k) (stays, λ y. cc)
            | inr (inr k) ↦ absurd (calm k)
          ]
