-- ===== src/Reloader.antt =====
-- tunnel/reloader.go: the watcher of the configuration file with its debounce timer, as a step
-- relation. Times are seconds; `fsnotify` and the symlinks are an argument.
pub mod Path
pub mod Debounce
pub mod Stopping
use mqtt_tunnel.Base.{
  ℕ, ◌+◌, ◌≤◌, ◌≡◌, Bool, true, false, not, ◌&&◌, ◌||◌, Option, none, some, List, [], ◌∷◌,
  if◌then◌else◌, Text, text_eq,
}
use mqtt_tunnel.Reloader.Path.{base}

-- A file system notification: the name, and whether its operations include Write and Create.
pub record Notice : Type 0 where
  pub name : Text
  pub is_write : Bool
  pub is_create : Bool

pub record Reloader : Type 0 where
  -- the real path, and the path as given
  pub config_path : Text
  pub original_path : Text
  pub debounce : ℕ
  -- when the timer fires, if it is armed
  pub timer : Option ℕ
  -- the watch goroutine runs; the context is cancelled; the watcher is closed
  pub watching : Bool
  pub cancelled : Bool
  pub watcher_closed : Bool

-- What `NewConfigReloader` asks of its environment: the new watcher, the resolved symlinks, and
-- whether the directory of a path can be watched.
pub record Watching : Type 0 where
  pub new_watcher : Bool
  pub eval_symlinks : Text → Option Text
  pub add_watch : Text → Bool

abbrev pub real_path : Watching → Text → Text
real_path e path = elim (e.eval_symlinks path) [ none ↦ path | some real ↦ real ]

-- `NewConfigReloader`; `none` is an error.
unfoldable pub new_config_reloader : Watching → Text → ℕ → Option Reloader
new_config_reloader e path debounce =
    if not e.new_watcher
    then none
    else if e.add_watch (real_path e path)
    then some (record {
      config_path = real_path e path;
      original_path = path;
      debounce = debounce;
      timer = none;
      watching = false;
      cancelled = false;
      watcher_closed = false;
    })
    else none

-- `Start`
abbrev pub start : Reloader → Reloader
start c = record c { watching = true }

-- `Stop`
abbrev pub stop : Reloader → Reloader
stop c = record c { cancelled = true; watcher_closed = true; timer = none }

-- `resetTimer`
unfoldable pub reset_timer : ℕ → Reloader → Reloader
reset_timer now c = record c { timer = some (now + c.debounce) }

-- Whether a notification is a change of the file itself.
unfoldable pub is_change : Reloader → Notice → Bool
unfolding base
is_change c n = text_eq (base n.name) (base c.config_path) && (n.is_write || n.is_create)

-- The case of `watch` for a notification.
unfoldable pub on_notice : ℕ → Notice → Reloader → Reloader
unfolding reset_timer is_change
on_notice now n c = if is_change c n then reset_timer now c else c

-- What happens, with the time where it matters.
pub data Happening : Type 0 where
  notified : Notice → Happening
  watch_error : Happening
  -- a channel of the watcher is closed, or the context is done: the goroutine returns
  watch_ends : Happening
  -- the timer's function runs
  reloads : Happening
  stops : Happening
  -- nothing; time goes by
  waits : ℕ → Happening

-- One step at a time `now`, to a later time. The goroutine takes a notification as long as it runs:
-- its `select` may prefer a waiting one to the end of the context. A timer fires when it is due, or
-- later, if it was not stopped; that its function starts is the same step.
pub data Step : ℕ → Reloader → Happening → ℕ → Reloader → Type 0 where
  notice :
      {now : ℕ} {c : Reloader} (n : Notice)
      → c.watching ≡ true
      → Step now c (notified n) now (on_notice now n c)
  error : {now : ℕ} {c : Reloader} → c.watching ≡ true → Step now c watch_error now c
  ending :
      {now : ℕ} {c : Reloader}
      → c.watching ≡ true
      → (c.cancelled || c.watcher_closed) ≡ true
      → Step now c watch_ends now (record c { watching = false })
  fire :
      {now due : ℕ} {c : Reloader}
      → c.timer ≡ some due
      → due ≤ now
      → Step now c reloads now (record c { timer = none })
  stopping : {now : ℕ} {c : Reloader} → Step now c stops now (stop c)
  wait : {now : ℕ} {c : Reloader} (k : ℕ) → Step now c (waits k) (now + k) c

-- A run from the start of the watcher at time 0, with its history, newest first.
pub data Run (c0 : Reloader) : ℕ → Reloader → List (ℕ × Happening) → Type 0 where
  begun : Run c0 0 (start c0) []
  goes :
      {now later : ℕ} {c d : Reloader} {h : Happening} {past : List (ℕ × Happening)}
      → Run c0 now c past
      → Step now c h later d
      → Run c0 later d ((now, h) ∷ past)
