-- ===== src/Tests/Observer.antt =====
-- A native backend that is refused.
use zsec_shield.Prelude.{◌≡◌, some, ◌++◌, refl, codes, ok}
use zsec_shield.Watch.State.{Text, Watcher, fallback_note, emit}
use zsec_shield.Watch.Observer.{
  auto, refused, started, polling_active, fall_back, start_observer, IsDeclared,
  start_observer-IsDeclared,
}
use zsec_shield.Tests.Watch.{idle}

abbrev reason : Text
reason = codes "native backend unavailable: " ++ codes "OSError: limit"

abbrev fallen : Watcher
fallen = emit (fallback_note reason) idle

fell_back :
    start_observer auto (refused (codes "OSError: limit")) started idle
    ≡ ok (polling_active, some reason, fallen)
unfolding start_observer fall_back
fell_back = refl

start_observer-IsDeclared_example : IsDeclared auto idle polling_active (some reason) fallen
start_observer-IsDeclared_example =
    start_observer-IsDeclared auto (refused (codes "OSError: limit")) started idle fallen
      polling_active (some reason) fell_back
