-- ===== src/Tests/Json.antt =====
-- An object with one key twice.
use zsec_shield.Prelude.{◌≡◌, ◌↔◌, some}
use zsec_shield.Json.{Json, int, object, end, field}
use zsec_shield.Json.Strict.{build, IsClean, build_exact}

abbrev twice : Json
twice = object (field "a" (int 1) (field "a" (int 2) end))

build_exact_example : IsClean twice ↔ ((w : Json) × (build twice ≡ some w))
build_exact_example = build_exact twice
