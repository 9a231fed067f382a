-- ===== src/Examples/Watching.antt =====
-- A script that is watched, through a few days of events.
use mini_proxad.Prelude.{
  ℕ, ◌≡◌, refl, none, some, true, false, List, [], ◌∷◌, codes, ◌++◌, leb, if◌then◌else◌,
}
use mini_proxad.Filter.{FilterModule, Filter}
use mini_proxad.Filter.Loading.{ModuleObject, Disk, load_module, c_string}
use mini_proxad.Filter.Watcher.{
  inotify_debounce_time, Silence, watch_until, Notice, event, Arrival, Watch, watch, WatchSystem,
  spawn_watcher,
}
use mini_proxad.Filter.Watcher.Bursts.{touches, bursts, install_all, watching, watch-bursts}
use mini_proxad.Filter.Objects.{eq_bytes}
use mini_proxad.Examples.World.{script}

abbrev toy_script : FilterModule ℕ ℕ ℕ ℕ
toy_script = script

abbrev no_functions : ModuleObject ℕ ℕ ℕ ℕ
no_functions = record {
  http_filter = some none;
  http_request = some none;
  http_open = some none;
  client_raw_filter = some none;
  server_raw_filter = some none;
  raw_open = some none;
}

-- A disk on which the script defines no function, and one from which nothing can be read.
abbrev pub good_disk : Disk ℕ ℕ ℕ ℕ
good_disk = record { path_text = some; read = some; from_code = λ code. some no_functions }

abbrev bad_disk : Disk ℕ ℕ ℕ ℕ
bad_disk = record good_disk { read = λ path. none }

abbrev changed : ℕ → Disk ℕ ℕ ℕ ℕ → Arrival ℕ ℕ ℕ ℕ
changed gap disk = record {
  gap = gap;
  lucky = true;
  disk = disk;
  notice = event (some (codes "filter.py"));
}

abbrev other_file : ℕ → Disk ℕ ℕ ℕ ℕ → Arrival ℕ ℕ ℕ ℕ
other_file gap disk = record (changed gap disk) { notice = event (some (codes "log")) }

-- A change that cannot be read, and one that can.
abbrev week : List (Arrival ℕ ℕ ℕ ℕ)
week =
    changed 5 good_disk
    ∷ other_file 2_500 bad_disk
    ∷ changed 10 good_disk
    ∷ other_file 2_000 good_disk
    ∷ []

-- A last change, and the silence after it.
abbrev silence : Silence ℕ ℕ ℕ ℕ
silence = record { time = 2_000; disk = good_disk }

abbrev month : List (Arrival ℕ ℕ ℕ ℕ)
month = week ++ changed 2_500 bad_disk ∷ []

watch-bursts_example :
    let cut = bursts [] month in
    (watch (codes "filter.py") month (watching (codes "d/filter.py") toy_script false)
      ≡ watching
          (codes "d/filter.py")
          (install_all (codes "filter.py") (codes "d/filter.py") cut.0 toy_script)
          (touches (codes "filter.py") cut.1))
    × (watch_until
          (codes "filter.py")
          month
          silence
          (watching (codes "d/filter.py") toy_script false)
        ≡ (if leb inotify_debounce_time silence.time
            then watching
                (codes "d/filter.py")
                (install_all
                  (codes "filter.py")
                  (codes "d/filter.py")
                  (cut.0 ++ (cut.1, silence.disk) ∷ [])
                  toy_script)
                false
            else watching
                (codes "d/filter.py")
                (install_all (codes "filter.py") (codes "d/filter.py") cut.0 toy_script)
                (touches (codes "filter.py") cut.1)))
watch-bursts_example =
    watch-bursts (codes "filter.py") (codes "d/filter.py") toy_script month silence

-- The second change has been loaded, and none is pending.
week_result :
    watch (codes "filter.py") week (watching (codes "d/filter.py") toy_script false)
    ≡ watching
        (codes "d/filter.py")
        (record {
          http_filter = none;
          http_request = none;
          http_open = none;
          raw_client = none;
          raw_server = none;
          raw_open = none;
        })
        false
unfolding watch mini_proxad.Filter.Watcher.watch_item mini_proxad.Filter.Watcher.on_notice
    mini_proxad.Filter.Watcher.is_script mini_proxad.Filter.Watcher.reload load_module c_string
    eq_bytes
week_result = refl
