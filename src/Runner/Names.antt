-- ===== src/Runner/Names.antt =====
-- server/src/runner/task_common.h and task_config.h: the names of statuses and execution types,
-- written and read back.
use task_hub.Prelude.{ℕ, ◌≡◌, refl, map, [], ◌∷◌, arith, Text}
use task_hub.Runner.Task.{
  TaskStatus, status_name, status_of_name, TaskExecType, exec_type_name, exec_type_of_name,
  to_lower,
}

to_lower_idem : (c : ℕ) → to_lower (to_lower c) ≡ to_lower c
unfolding to_lower
to_lower_idem c = ground arith

map-to_lower_idem : (s : Text) → map to_lower (map to_lower s) ≡ map to_lower s
map-to_lower_idem [] = refl
map-to_lower_idem (c ∷ s) = ground (arith, to_lower_idem c, map-to_lower_idem s)

-- Every status is read back from its own name.
pub status_of_name-status_name : (s : TaskStatus) → status_of_name (status_name s) ≡ s
unfolding status_of_name status_name
status_of_name-status_name TaskStatus.pending = refl
status_of_name-status_name _ = refl

-- Every execution type is read back from its own name, also in lower case.
pub exec_type_of_name-exec_type_name :
    (t : TaskExecType)
    → (exec_type_of_name (exec_type_name t) ≡ t)
      × (exec_type_of_name (map to_lower (exec_type_name t)) ≡ t)
unfolding exec_type_of_name exec_type_name
exec_type_of_name-exec_type_name TaskExecType.local = (refl, refl)
exec_type_of_name-exec_type_name _ = (refl, refl)

-- The case of letters does not count when a status is read.
pub status_of_name-map-to_lower : (s : Text) → status_of_name (map to_lower s) ≡ status_of_name s
unfolding status_of_name
status_of_name-map-to_lower s = rw (map-to_lower_idem s)
