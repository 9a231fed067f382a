-- ===== src/Filter/Watcher.antt =====
-- src/filter/mod.rs, `spawn_watcher`: the task that loads the script again after its file has
-- changed. Times are milliseconds. The environment gives the items of the inotify stream, each with
-- the time since the round of `select!` before it, and the file as it is when it is read again.
pub mod Bursts
use Prim.Native.String.{String}
use mini_proxad.Prelude.{
  ℕ, zero, suc, Option, none, some, Bool, true, false, List, [], ◌∷◌, ◌&&◌, ◌||◌, ltb, leb, ◌==◌,
  if◌then◌else◌, Bytes, Error, message, context, foreign, Result, ok, err, panicked, ◌>>=◌, ◌>>◌,
  ok_or,
}
use mini_proxad.Filter.{FilterModule, Filter}
use mini_proxad.Filter.Loading.{Disk, load_module}
use mini_proxad.Filter.Objects.{eq_bytes}

abbrev pub inotify_debounce_time : ℕ
inotify_debounce_time = 2_000

-- What `stream.next()` gives: an event with or without a name, an error, or the end.
pub data Notice : Type 0 where
  event : Option Bytes → Notice
  failed ended : Notice

-- `lucky` decides the round where the sleep and the stream are ready at the same time.
pub record Arrival (U T Q R : Type 0) : Type 0 where
  pub gap : ℕ
  pub lucky : Bool
  pub disk : Disk U T Q R
  pub notice : Notice

-- A time without an item, and the file as it is when it is read in it.
pub record Silence (U T Q R : Type 0) : Type 0 where
  pub time : ℕ
  pub disk : Disk U T Q R

pub record Watch (U T Q R : Type 0) : Type 0 where
  pub filter : Filter U T Q R
  pub recent : Bool

-- Whether a notice is about the script.
unfoldable pub is_script : Bytes → Notice → Bool
is_script basename (event (some name)) = eq_bytes name basename
is_script basename (event none) = false
is_script basename failed = false
is_script basename ended = false

module _ {U T Q R : Type 0} where
  -- The branch of the stream.
  unfoldable pub on_notice : Bytes → Notice → Watch U T Q R → Watch U T Q R
  on_notice basename n s = if is_script basename n then record s { recent = true } else s

  -- The branch of the sleep; a script that cannot be loaded leaves the old one. No load panics.
  unfoldable pub reload : Disk U T Q R → Watch U T Q R → Watch U T Q R
  reload disk s = elim (load_module disk s.filter.script_path) [
    | ok loaded ↦ record { filter = record (s.filter) { inner = loaded }; recent = false }
    | _ ↦ record s { recent = false }
  ]

  -- Whether a sleep that began with the round ends before the item comes. Every round begins a new
  -- one.
  abbrev pub slept : Arrival U T Q R → Bool
  slept a = ltb inotify_debounce_time a.gap || (a.gap == inotify_debounce_time && a.lucky)

  -- The rounds up to the next item of the stream, that one included.
  unfoldable pub watch_item : Bytes → Arrival U T Q R → Watch U T Q R → Watch U T Q R
  watch_item basename a s =
      on_notice basename a.notice (if s.recent && slept a then reload a.disk s else s)

  unfoldable pub watch : Bytes → List (Arrival U T Q R) → Watch U T Q R → Watch U T Q R
  watch basename [] s = s
  watch basename (a ∷ arrivals) s = watch basename arrivals (watch_item basename a s)

  -- What follows the last item: for so long nothing comes. The sleep ends then, if it is over.
  unfoldable pub settle : Silence U T Q R → Watch U T Q R → Watch U T Q R
  settle silence s =
      if s.recent && leb inotify_debounce_time silence.time then reload silence.disk s else s

  unfoldable pub watch_until :
      Bytes → List (Arrival U T Q R) → Silence U T Q R → Watch U T Q R → Watch U T Q R
  watch_until basename arrivals silence s = settle silence (watch basename arrivals s)

-- What the system gives to `spawn_watcher`: `Inotify::init`, `CString::to_str`, `Path::parent`,
-- `Path::file_name`, and the adding of a watch; `none` and `false` are errors.
pub record WatchSystem : Type 0 where
  pub init : Bool
  pub path_text : Bytes → Option Bytes
  pub parent : Bytes → Option Bytes
  pub file_name : Bytes → Option Bytes
  pub add : Bytes → Bool

abbrev pub or_error : Bool → Error → Result (Unit {0})
or_error true e = ok tt
or_error false e = err e

-- The name that the task compares with, once it has been spawned.
unfoldable pub spawn_watcher : WatchSystem → Bytes → Result Bytes
spawn_watcher sys script_path = do
  or_error sys.init (context "Failed to initialize inotify" foreign)
  path ← ok_or (sys.path_text script_path) foreign
  parent ← ok_or (sys.parent path) (message "Script path has no parent directory")
  basename ← ok_or (sys.file_name path) (message "Failed to get file name")
  or_error (sys.add parent) (context "Failed to watch directory" foreign)
  ok basename
