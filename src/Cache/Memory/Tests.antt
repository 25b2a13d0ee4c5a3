-- ===== src/Cache/Memory/Tests.antt =====
-- Hashes at concrete inputs.
use kratos_kit.Base.{ℕ, ◌≡◌, refl, String, some, List, [], ◌∷◌}
use kratos_kit.Base.Dict.{lookup, insert, erase}
use kratos_kit.Base.Time.{at, zero_time}
use kratos_kit.Cache.Memory.{Memory, new_memory}
use kratos_kit.Cache.Memory.Hashes.View
use kratos_kit.Cache.Memory.Hashes.Writes.{
  Command, get, set, del, run, last_set, run-last_set, IsPersistent, new_memory-IsPersistent,
}
use kratos_kit.Cache.Memory.Hashes.{h_set, h_get, h_del}

abbrev script : List Command
script =
    set 1 1 1 "u" "name" "ann"
    ∷ set 2 2 2 "u" "age" "30"
    ∷ set 3 3 3 "v" "name" "bob"
    ∷ del 4 4 "u" "name"
    ∷ get 5 "u" "age"
    ∷ set 6 6 6 "u" "age" "31"
    ∷ []

age : View.view 9 "u" "age" (run script new_memory) ≡ some "31"
unfolding run h_set h_del h_get lookup insert erase
age = refl

run-last_set_example :
    IsPersistent (run script new_memory)
    × ((t : ℕ) (j g : String)
        → View.view t j g (run script new_memory)
          ≡ last_set script j g (View.view t j g new_memory))
run-last_set_example = run-last_set script new_memory new_memory-IsPersistent

abbrev mixed : Memory
mixed = record {
  str_items = some (
      ("live", record { value = "1"; expired = at 50; created_at = 1; updated_at = 1 })
      ∷ ("gone", record { value = "2"; expired = at 5; created_at = 1; updated_at = 1 })
      ∷ []);
  map_items = some (
      ("h", record { value = ("f", "v") ∷ []; expired = zero_time; created_at = 1; updated_at = 1 })
      ∷ []);
}
