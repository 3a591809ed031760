-- ===== src/Watch/Observer.antt =====
-- `WatchEventHandler` and `_start_observer` of src/zsec_shield/watcher.py. The observers themselves are the watchdog
-- package's: whether one starts is an argument.
use zsec_shield.Prelude.{
  ℕ, ◌≡◌, ◌≢◌, Bool, true, false, Option, none, some, String, ◌++◌, refl, codes, Result, ok, err,
  ok_injective, subst,
}
use zsec_shield.Host.{Host}
use zsec_shield.Watch.Queue.{
  Queue, created, modified, moved_from, moved_to, deleted, closed_after_write, submit,
}
use zsec_shield.Watch.State.{Text, Watcher, fallback_note, emit}

-- What the observer reports: a path and whether it is a directory, and for a move also where to.
pub data FileEvent : Type 0 where
  on_created on_modified on_deleted on_closed : String → Bool → FileEvent
  on_moved : String → String → Bool → FileEvent

-- The methods of `WatchEventHandler`, with the clock at `now`.
unfoldable pub handle : Host → ℕ → FileEvent → Queue → Queue
handle os now (on_created path is_directory) q = submit os now path created is_directory q
handle os now (on_modified path true) q = q
handle os now (on_modified path false) q = submit os now path modified false q
handle os now (on_moved path target is_directory) q =
    submit os now target moved_to is_directory (submit os now path moved_from is_directory q)
handle os now (on_deleted path is_directory) q = submit os now path deleted is_directory q
handle os now (on_closed path true) q = q
handle os now (on_closed path false) q = submit os now path closed_after_write false q

-- `config.backend` and `_active_backend`
pub data Requested : Type 0 where
  auto native polling : Requested

pub data Active : Type 0 where
  native_active polling_active : Active

-- How `_new_observer` ends: the text is the exception's type and message.
pub data Started : Type 0 where
  started : Started
  refused : Text → Started

pub data StartError : Type 0 where
  polling_failed native_failed fallback_failed : Text → StartError

-- The polling observer after the native one was refused.
unfoldable pub fall_back :
    Text → Started → Watcher → Result StartError (Active × Option Text × Watcher)
unfolding emit
fall_back reason started w =
    let text = codes "native backend unavailable: " ++ reason in
    ok (polling_active, some text, emit (fallback_note text) w)
fall_back reason (refused error) w = err (fallback_failed error)

-- `_start_observer`: the backend, the reason of a fallback, and the watcher
unfoldable pub start_observer :
    Requested → Started → Started → Watcher → Result StartError (Active × Option Text × Watcher)
start_observer polling native_try started w = ok (polling_active, none, w)
start_observer polling native_try (refused error) w = err (polling_failed error)
start_observer native started polling_try w = ok (native_active, none, w)
start_observer native (refused error) polling_try w = err (native_failed error)
start_observer auto started polling_try w = ok (native_active, none, w)
start_observer auto (refused error) polling_try w = fall_back error polling_try w

-- The backend is the native one, or it is the polling one that was asked for, or the fallback is on record: its
-- reason is kept and is the last record emitted.
abbrev pub IsDeclared : Requested → Watcher → Active → Option Text → Watcher → Type 0
IsDeclared requested w native_active reason after =
    (requested ≢ polling) × (reason ≡ none) × (after ≡ w)
IsDeclared requested w polling_active none after = (requested ≡ polling) × (after ≡ w)
IsDeclared requested w polling_active (some text) after =
    (requested ≡ auto) × (after ≡ emit (fallback_note text) w)

-- An observer that starts is the one that was asked for, or, for a request that leaves the choice open, a fallback to
-- polling that is recorded with its reason; a request for the native backend never falls back.
pub start_observer-IsDeclared :
    (requested : Requested) (native_try polling_try : Started) (w after : Watcher) (active : Active)
    (reason : Option Text)
    → start_observer requested native_try polling_try w ≡ ok (active, reason, after)
    → IsDeclared requested w active reason after
unfolding start_observer fall_back
start_observer-IsDeclared polling native_try started w after active reason h =
    subst (λ (t : Active × Option Text × Watcher). IsDeclared polling w t.0 t.1 t.2)
      (ok_injective h) (refl, refl)
start_observer-IsDeclared polling native_try (refused e) w after active reason h = cc
start_observer-IsDeclared native started polling_try w after active reason h =
    subst (λ (t : Active × Option Text × Watcher). IsDeclared native w t.0 t.1 t.2) (ok_injective h)
      (λ e. cc, refl, refl)
start_observer-IsDeclared native (refused e) polling_try w after active reason h = cc
start_observer-IsDeclared auto started polling_try w after active reason h =
    subst (λ (t : Active × Option Text × Watcher). IsDeclared auto w t.0 t.1 t.2) (ok_injective h)
      (λ e. cc, refl, refl)
start_observer-IsDeclared auto (refused e) started w after active reason h =
    subst (λ (t : Active × Option Text × Watcher). IsDeclared auto w t.0 t.1 t.2) (ok_injective h)
      (refl, refl)
start_observer-IsDeclared auto (refused e) (refused f) w after active reason h = cc
