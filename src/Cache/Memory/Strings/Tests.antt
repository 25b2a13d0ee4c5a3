-- ===== src/Cache/Memory/Strings/Tests.antt =====
-- String keys at concrete inputs.
use kratos_kit.Base.{
  ℕ, String, ◌≡◌, refl, false, none, some, List, [], ◌∷◌, arith, ◌==◌, if◌then◌else◌,
}
use kratos_kit.Base.Dict.{lookup, insert, erase}
use kratos_kit.Base.Int.{pos, wrap, ◌+ℤ◌}
use kratos_kit.Base.Time.{at}
use kratos_kit.Cache.Store.{ok, err, parse_error, key_expired, not_found}
use kratos_kit.Cache.Memory.{StrItem, Memory, new_memory}
use kratos_kit.Cache.Memory.Strings
use kratos_kit.Cache.Memory.Strings.{Strconv}
use kratos_kit.Cache.Memory.Strings.View
use kratos_kit.Cache.Memory.Strings.Refinement.{
  Spec, Command, get, get_del, exists, set, incr, value, flag, number, failed, done, step,
  spec_step, Agrees,
}
use kratos_kit.Cache.Memory.Strings.Steps.{run, spec_run, run-refines}
use kratos_kit.Cache.Memory.Strings.Expiry.{expire_revives, get_expired-twice}

-- Enough of strconv for the run below.
abbrev digits : Strconv
digits = record {
  parse_int = λ s. if s == "41" then some (pos 41) else none;
  format_int = λ n. "42";
}

abbrev script : List Command
script =
    set 10 10 "a" "41" (pos 5)
    ∷ incr 12 12 "a"
    ∷ get 100 "a"
    ∷ set 101 101 "b" "x" (pos 3)
    ∷ incr 102 102 "b"
    ∷ get 200 "b"
    ∷ exists 201 "b"
    ∷ get_del 202 "a"
    ∷ get 203 "a"
    ∷ []

abbrev nothing : Spec
nothing k = none

replies :
    (run digits script new_memory).1
    ≡ done
      ∷ number (pos 42)
      ∷ value (some "42")
      ∷ done
      ∷ failed parse_error
      ∷ value none
      ∷ flag false
      ∷ value (some "42")
      ∷ value none
      ∷ []
unfolding run step Strings.get Strings.set Strings.exists Strings.get_del Strings.incr lookup insert
    erase wrap ◌+ℤ◌
replies = refl

new_memory-Agrees : Agrees 0 new_memory nothing
unfolding lookup
new_memory-Agrees = record { connected = λ q. ground arith; views = λ t k h. refl }

run-refines_example : (run digits script new_memory).1 ≡ spec_run digits script nothing
unfolding spec_step
run-refines_example = run-refines digits script new_memory nothing 0 new_memory-Agrees (omega arith)

abbrev stale : StrItem
stale = record { value = "old"; expired = at 5; created_at = 1; updated_at = 1 }

abbrev holding_stale : Memory
holding_stale = record { str_items = some (("k", stale) ∷ []); map_items = some [] }

expire_revives_example :
    (View.view 9 "k" holding_stale ≡ none)
    × ((Strings.expire 9 9 "k" (pos 10) holding_stale).1 ≡ ok tt)
    × ((Strings.get 15 "k" (Strings.expire 9 9 "k" (pos 10) holding_stale).0).1 ≡ ok "old")
unfolding lookup
expire_revives_example =
    expire_revives 9 9 15 9 "k" holding_stale stale (λ q. ground arith) refl refl (omega arith)

get_expired-twice_example :
    ((Strings.get 9 "k" holding_stale).1 ≡ err key_expired)
    × ((Strings.get 12 "k" (Strings.get 9 "k" holding_stale).0).1 ≡ err not_found)
    × ((t : ℕ) (j : String)
        → (j == "k") ≡ false
        → View.view t j (Strings.get 9 "k" holding_stale).0 ≡ View.view t j holding_stale)
unfolding lookup
get_expired-twice_example = get_expired-twice 9 12 "k" holding_stale stale refl refl
