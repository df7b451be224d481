-- ===== src/Worker/Selector.antt =====
-- server/src/worker/worker_info.h and worker_selector.cpp. Times are in nanoseconds, and the clock
-- is read once for each call.
use task_hub.Prelude.{
  ℕ, Text, List, text, Text-Eq, ◌%◌, ◌+◌, ◌-◌, Bool, Option, false, find, ℤ, ◌∷◌, [], if◌then◌else◌,
  leb_ℤ, length, ltb, ltb_ℤ, none, true, is_empty, not, some, ◌=?◌, ◌||◌, eqb_ℤ, leb, ◌&&◌,
  get_elem?, put, text_lt,
}

pub record WorkerInfo : Type 0 where
  pub id : Text
  pub host : Text
  pub port : ℤ
  pub queues : List Text
  pub labels : List Text
  pub running_tasks : ℤ
  pub last_heartbeat : ℕ
  pub max_running_tasks : ℤ
  pub dispatch_cooldown_until : ℕ

unfoldable pub is_alive : ℕ → WorkerInfo → Bool
is_alive now w = ltb (now - w.last_heartbeat) 10000000000

unfoldable pub is_full : WorkerInfo → Bool
is_full w = leb_ℤ w.max_running_tasks w.running_tasks

unfoldable pub is_cooling_down : ℕ → WorkerInfo → Bool
is_cooling_down now w = ltb now w.dispatch_cooldown_until

unfoldable pub contains_text : Text → List Text → Bool
contains_text q [] = false
contains_text q (x ∷ xs) = let rest = contains_text q xs in if x =? q then true else rest

unfoldable pub queue_match : WorkerInfo → Text → Bool
queue_match w queue =
    if is_empty queue
    then true
    else if is_empty w.queues
    then queue =? text "default"
    else contains_text queue w.queues

-- The chain of `continue`s of `collect_candidates`.
unfoldable pub is_candidate : ℕ → Text → Bool → WorkerInfo → Bool
is_candidate now queue including_cooling w =
    if not (is_alive now w)
    then false
    else if not (queue_match w queue)
    then false
    else if is_full w
    then false
    else if not including_cooling && is_cooling_down now w
    then false
    else true

-- The workers of the map, in the order of its iteration, whatever that is.
abbrev pub Workers : Type 0
Workers = List (Text × WorkerInfo)

unfoldable pub collect_candidates : ℕ → Text → Bool → Workers → List WorkerInfo
collect_candidates now queue including_cooling [] = []
collect_candidates now queue including_cooling ((k, w) ∷ ws) =
    let rest = collect_candidates now queue including_cooling ws in
    if is_candidate now queue including_cooling w then w ∷ rest else rest

-- The candidates that do not cool down, or all of them where there are none.
unfoldable pub candidates_for : ℕ → Text → Workers → List WorkerInfo
candidates_for now queue ws =
    let preferred = collect_candidates now queue false ws in
    let fallback = collect_candidates now queue true ws in
    if is_empty preferred then fallback else preferred

unfoldable pub is_better : WorkerInfo → WorkerInfo → Bool
is_better w best =
    ltb_ℤ w.running_tasks best.running_tasks
    || (eqb_ℤ w.running_tasks best.running_tasks && text_lt w.id best.id)

-- The loop over the candidates, from the best so far.
unfoldable pub best_of : WorkerInfo → List WorkerInfo → WorkerInfo
best_of best [] = best
best_of best (w ∷ ws) = best_of (if is_better w best then w else best) ws

unfoldable pub best_candidate : List WorkerInfo → Option WorkerInfo
best_candidate [] = none
best_candidate (w ∷ ws) = some (best_of w ws)

unfoldable pub least_load_pick : ℕ → Workers → Text → Option WorkerInfo
least_load_pick now ws queue = best_candidate (candidates_for now queue ws)

-- `std::sort` by id.
unfoldable pub insert_by_id : WorkerInfo → List WorkerInfo → List WorkerInfo
insert_by_id w [] = w ∷ []
insert_by_id w (x ∷ xs) =
    let rest = insert_by_id w xs in if text_lt x.id w.id then x ∷ rest else w ∷ x ∷ xs

unfoldable pub sort_candidates : List WorkerInfo → List WorkerInfo
sort_candidates [] = []
sort_candidates (w ∷ ws) = insert_by_id w (sort_candidates ws)

-- `_queueIndex`: a queue that it has not seen starts at 0.
abbrev pub Cursors : Type 0
Cursors = List (Text × ℕ)

unfoldable pub cursor_at : Text → Cursors → ℕ
cursor_at queue cs = elim (find queue cs) [ none ↦ 0 | some c ↦ c ]

unfoldable pub round_robin_pick : ℕ → Workers → Text → Cursors → Option WorkerInfo × Cursors
round_robin_pick now ws queue cursors =
    let candidates = candidates_for now queue ws in
    let n = length candidates in
    if is_empty candidates
    then (none, cursors)
    else let c = cursor_at queue cursors in
      let idx = if leb n c then 0 else c in
      (get_elem? (sort_candidates candidates) idx, put queue ((idx + 1) % n) cursors)
