-- ===== src/Locker/Tests.antt =====
-- Two goroutines and one key.
use kratos_kit.Base.{◌≡◌, refl, false, none, [], ◌∷◌}
use kratos_kit.Base.Dict.{lookup}
use kratos_kit.Locker.{Locker, new_locker, refuse, enter, try_take, give_back, drop_ref}
use kratos_kit.Locker.Steps.{idle, holding, begin, select, release, leave, Reach, here, next}
use kratos_kit.Locker.Exclusion.{initial, mutual_exclusion, idle_empty}

abbrev entered_locker : Locker
entered_locker = (enter "k" new_locker).0

abbrev held_locker : Locker
held_locker = (try_take 0 entered_locker).0

-- The first goroutine holds the lease.
held : Reach (initial 2) (record { locker = held_locker; phases = holding "k" 0 ∷ idle ∷ [] })
unfolding enter try_take refuse lookup
held =
    next (next here (begin new_locker [] (idle ∷ []) "k" refl))
      (select entered_locker [] (idle ∷ []) "k" 0)

abbrev left_locker : Locker
left_locker = drop_ref "k" 0 (give_back 0 held_locker)

left : Reach (initial 2) (record { locker = left_locker; phases = idle ∷ idle ∷ [] })
unfolding enter try_take refuse lookup
left =
    next (next held (release held_locker [] (idle ∷ []) "k" 0))
      (leave (give_back 0 held_locker) [] (idle ∷ []) "k" 0)

mutual_exclusion_example :
    ¬ Reach
      (initial 2)
      (record { locker = held_locker; phases = holding "k" 0 ∷ holding "k" 0 ∷ [] })
mutual_exclusion_example = mutual_exclusion 2 held_locker [] [] [] "k" 0 0

idle_empty_example : (lookup "k" left_locker.locks ≡ none) × ((left_locker.heap 0).taken ≡ false)
idle_empty_example =
    idle_empty 2 (record { locker = left_locker; phases = idle ∷ idle ∷ [] }) "k" 0 left
      (refl, (refl, tt))
