-- ===== src/Filter/Watcher/Bursts.antt =====
-- The watcher of src/filter/mod.rs against the bursts of its items: what comes with less than the
-- debounce time between one item and the next.
use mini_proxad.Prelude.{
  ◌≡◌, refl, ap, ◌∙◌, inl, inr, Bool, true, false, Bool-cases, List, [], ◌∷◌, ◌++◌, ◌||◌, leb,
  if◌then◌else◌, arith, Bytes, ok, Result-cases,
}
use mini_proxad.Filter.{FilterModule}
use mini_proxad.Filter.Loading.{Disk, load_module}
use mini_proxad.Filter.Watcher.{
  inotify_debounce_time, Notice, Arrival, Watch, Silence, settle, watch_until, is_script, on_notice,
  reload, slept, watch_item, watch,
}

-- Whether a burst has touched the script.
unfoldable pub touches : Bytes → List Notice → Bool
touches basename [] = false
touches basename (n ∷ ns) = is_script basename n || touches basename ns

touches-push :
    (basename : Bytes) (ns : List Notice) (n : Notice)
    → touches basename (ns ++ n ∷ []) ≡ (if is_script basename n then true else touches basename ns)
unfolding touches
touches-push basename [] n = ground arith
touches-push basename (m ∷ ns) n = ground (arith, touches-push basename ns n)

-- A burst that is over, with the file as it was then.
abbrev pub Burst : (U T Q R : Type 0) → Type 0
Burst U T Q R = List Notice × Disk U T Q R

module _ {U T Q R : Type 0} where
  -- The bursts that are over, and the items of the last one.
  unfoldable pub bursts : List Notice → List (Arrival U T Q R) → List (Burst U T Q R) × List Notice
  bursts open_burst [] = ([], open_burst)
  bursts open_burst (a ∷ arrivals) =
      let rest = bursts (a.notice ∷ []) arrivals in
      let more = bursts (open_burst ++ a.notice ∷ []) arrivals in
      if slept a then ((open_burst, a.disk) ∷ rest.0, rest.1) else more

  -- The script after a burst: read again if it was touched, and kept if it cannot be read.
  unfoldable pub installed :
      Bytes → Bytes → Burst U T Q R → FilterModule U T Q R → FilterModule U T Q R
  installed basename path (ns, disk) old =
      if touches basename ns
      then elim (load_module disk path) [ ok loaded ↦ loaded | _ ↦ old ]
      else old

  unfoldable pub install_all :
      Bytes → Bytes → List (Burst U T Q R) → FilterModule U T Q R → FilterModule U T Q R
  install_all basename path [] old = old
  install_all basename path (b ∷ bs) old =
      install_all basename path bs (installed basename path b old)

  abbrev pub watching : Bytes → FilterModule U T Q R → Bool → Watch U T Q R
  watching path inner recent = record {
    filter = record { script_path = path; inner = inner };
    recent = recent;
  }

  reload-installed :
      (basename path : Bytes) (ns : List Notice) (disk : Disk U T Q R)
      (inner : FilterModule U T Q R)
      → touches basename ns ≡ true
      → reload disk (watching path inner true)
        ≡ watching path (installed basename path (ns, disk) inner) false
  unfolding reload installed
  reload-installed basename path ns disk inner h = elim (Result-cases (load_module disk path)) [
    | inl (m, e) ↦ rw (h, e, reload, installed)
    | inr (inl (x, e)) ↦ rw (h, e, reload, installed)
    | inr (inr e) ↦ rw (h, e, reload, installed)
  ]

  installed-same :
      (basename path : Bytes) (ns : List Notice) (disk : Disk U T Q R)
      (inner : FilterModule U T Q R)
      → touches basename ns ≡ false
      → installed basename path (ns, disk) inner ≡ inner
  unfolding installed
  installed-same basename path ns disk inner h = rw h refl

  notice-touches :
      (basename path : Bytes) (inner : FilterModule U T Q R) (ns : List Notice) (n : Notice)
      → on_notice basename n (watching path inner (touches basename ns))
        ≡ watching path inner (touches basename (ns ++ n ∷ []))
  unfolding on_notice
  notice-touches basename path inner ns n = ground (arith, touches-push basename ns n)

  -- One item: it begins a new burst if the sleep was over before it.
  watch_item-burst :
      (basename path : Bytes) (inner : FilterModule U T Q R) (ns : List Notice)
      (a : Arrival U T Q R)
      → watch_item basename a (watching path inner (touches basename ns)) ≡ (
          if slept a
          then watching path
              (installed basename path (ns, a.disk) inner)
              (touches basename (a.notice ∷ []))
          else watching path inner (touches basename (ns ++ a.notice ∷ [])))
  unfolding watch_item touches
  watch_item-burst basename path inner ns a = elim (Bool-cases (slept a)) [
    | inl e ↦ elim (Bool-cases (touches basename ns)) [
      | inl t ↦
          rw (e, t, watch_item, reload-installed basename path ns a.disk inner t)
            (notice-touches basename path (installed basename path (ns, a.disk) inner) [] a.notice)
      | inr t ↦
          rw (e, t, watch_item, installed-same basename path ns a.disk inner t)
            (notice-touches basename path inner [] a.notice)
    ]
    | inr e ↦ elim (Bool-cases (touches basename ns)) [
      | inl t ↦ rw (e, watch_item, t) (rw (← t) (notice-touches basename path inner ns a.notice))
      | inr t ↦ rw (e, watch_item, t) (rw (← t) (notice-touches basename path inner ns a.notice))
    ]
  ]

  watch-bursts_from :
      (basename path : Bytes) (arrivals : List (Arrival U T Q R)) (inner : FilterModule U T Q R)
      (ns : List Notice)
      → let cut = bursts ns arrivals in
        watch basename arrivals (watching path inner (touches basename ns))
        ≡ watching path (install_all basename path cut.0 inner) (touches basename cut.1)
  unfolding watch bursts install_all
  watch-bursts_from basename path [] inner ns = refl
  watch-bursts_from basename path (a ∷ arrivals) inner ns = elim (Bool-cases (slept a)) [
    | inl e ↦
        ap (watch basename arrivals) (watch_item-burst basename path inner ns a)
        ∙ rw e (
            watch-bursts_from basename path arrivals (installed basename path (ns, a.disk) inner)
              (a.notice ∷ []))
    | inr e ↦
        ap (watch basename arrivals) (watch_item-burst basename path inner ns a)
        ∙ rw e (watch-bursts_from basename path arrivals inner (ns ++ a.notice ∷ []))
  ]

  install_all-append :
      (basename path : Bytes) (bs : List (Burst U T Q R)) (b : Burst U T Q R)
      (old : FilterModule U T Q R)
      → install_all basename path (bs ++ b ∷ []) old
        ≡ installed basename path b (install_all basename path bs old)
  unfolding install_all
  install_all-append basename path [] b old = refl
  install_all-append basename path (x ∷ bs) b old =
      install_all-append basename path bs b (installed basename path x old)

  -- The silence ends the last burst if it is long enough.
  settle-burst :
      (basename path : Bytes) (inner : FilterModule U T Q R) (ns : List Notice)
      (silence : Silence U T Q R)
      → settle silence (watching path inner (touches basename ns)) ≡ (
          if leb inotify_debounce_time silence.time
          then watching path (installed basename path (ns, silence.disk) inner) false
          else watching path inner (touches basename ns))
  unfolding settle
  settle-burst basename path inner ns silence =
      elim (Bool-cases (leb inotify_debounce_time silence.time)) [
        | inl e ↦ elim (Bool-cases (touches basename ns)) [
          | inl t ↦ rw (e, t, settle) (reload-installed basename path ns silence.disk inner t)
          | inr t ↦ rw (e, t, settle, installed-same basename path ns silence.disk inner t) refl
        ]
        | inr e ↦ elim (Bool-cases (touches basename ns)) [
          | inl t ↦ rw (e, t, settle) refl
          | inr t ↦ rw (e, t, settle) refl
        ]
      ]

  -- Whatever notices come, and whenever: the script in force is the one that the bursts that are over
  -- have left, each of which has read it again if it touched the file and if it could be read; and
  -- the watcher is about to read it again if the last burst has touched it. A burst is over when
  -- nothing at all comes for the debounce time. If nothing comes after the last item for that time or
  -- longer, the last burst too is over and nothing is about to be read; in a shorter silence nothing
  -- happens.
  pub watch-bursts :
      (basename path : Bytes) (inner : FilterModule U T Q R) (arrivals : List (Arrival U T Q R))
      (silence : Silence U T Q R)
      → let cut = bursts [] arrivals in
        (watch basename arrivals (watching path inner false)
          ≡ watching path (install_all basename path cut.0 inner) (touches basename cut.1))
        × (watch_until basename arrivals silence (watching path inner false) ≡ (
            if leb inotify_debounce_time silence.time
            then watching path
                (install_all basename path (cut.0 ++ (cut.1, silence.disk) ∷ []) inner)
                false
            else watching path (install_all basename path cut.0 inner) (touches basename cut.1)))
  unfolding watch_until touches
  watch-bursts basename path inner arrivals silence =
      let cut = bursts [] arrivals in
      let heard = watch-bursts_from basename path arrivals inner [] in
      (
        heard,
        ap (settle silence) heard
            ∙ settle-burst basename path (install_all basename path cut.0 inner) cut.1 silence
            ∙ rw (install_all-append basename path cut.0 (cut.1, silence.disk) inner) refl,
      )
