-- ===== src/Worker/Registry.antt =====
-- server/src/worker/server_worker_registry.cpp: the calls that change the table of workers, each
-- at the time of its clock reading, in nanoseconds.
use task_hub.Worker.LeastLoad.{least_load_pick-none}
use task_hub.Prelude.{
  ℕ, Text, List, [], ◌∷◌, ◌≡◌, refl, arith, Text-Eq, ◌+◌, ◌-◌, ◌*◌, ◌/◌, erase, map, Bool, find,
  if◌then◌else◌, put, ℤ, none, some, false, ◌↔◌, ltb, text_eq_iff, true, find-put, find-erase,
  find-put_self, ◌=?◌, ◌<◌, Memᴰ, Option-cases, Bool-cases, inl, inr,
}
use task_hub.Worker.Selector.{WorkerInfo, Workers, is_alive, is_full, queue_match, least_load_pick}

unfoldable pub upsert_worker : ℕ → WorkerInfo → Workers → Workers
upsert_worker now info ws = put info.id (record info { last_heartbeat = now }) ws

unfoldable pub remove_worker : Text → Workers → Workers
remove_worker id ws = erase id ws

unfoldable pub list_workers : Workers → List WorkerInfo
list_workers ws = map (λ (p : Text × WorkerInfo). p.1) ws

-- The result tells whether the worker is known.
unfoldable pub touch_heartbeat : ℕ → Text → ℤ → Workers → Bool × Workers
touch_heartbeat now id running ws = elim (find id ws) [
  | none ↦ (false, ws)
  | some w ↦ (true, put id (record w { last_heartbeat = now; running_tasks = running }) ws)
]

-- The cooldown is in milliseconds.
unfoldable pub mark_dispatch_failure : ℕ → Text → ℕ → Workers → Workers
mark_dispatch_failure now id cooldown ws = elim (find id ws) [
  | none ↦ ws
  | some w ↦ put id (record w { dispatch_cooldown_until = now + cooldown * 1000000 }) ws
]

-- `duration_cast` to milliseconds cuts off.
unfoldable pub is_dead_for : ℕ → ℕ → WorkerInfo → Bool
is_dead_for now prune_after w =
    if is_alive now w then false else ltb prune_after ((now - w.last_heartbeat) / 1000000)

unfoldable pub prune_dead_workers : ℕ → ℕ → Workers → Workers
prune_dead_workers now prune_after [] = []
prune_dead_workers now prune_after ((k, w) ∷ ws) =
    let rest = prune_dead_workers now prune_after ws in
    if is_dead_for now prune_after w then rest else (k, w) ∷ rest

-- No key twice, and each worker under its id.
abbrev pub IsTable : Workers → Type 0
IsTable [] = Unit {0}
IsTable ((k, w) ∷ ws) = (w.id ≡ k) × (find k ws ≡ none) × IsTable ws

prune-none :
    (now age : ℕ) (ws : Workers) (k : Text)
    → find k ws ≡ none
    → find k (prune_dead_workers now age ws) ≡ none
unfolding prune_dead_workers find
prune-none now age [] k h = refl
prune-none now age ((j, w) ∷ ws) k h = ground (arith, prune-none now age ws k)

-- In a table without a repeated key and with each worker under its id, the workers that a key finds
-- after a sweep are exactly those that it found before and that have not been silent for too long.
pub find-prune_dead_workers :
    (now age : ℕ) (ws : Workers) (id : Text) (w : WorkerInfo)
    → IsTable ws
    → (find id (prune_dead_workers now age ws) ≡ some w)
      ↔ ((find id ws ≡ some w) × (is_dead_for now age w ≡ false))
unfolding prune_dead_workers find
find-prune_dead_workers now age [] id w t = ground arith
find-prune_dead_workers now age ((j, x) ∷ ws) id w t = ground (
  arith,
  find-prune_dead_workers now age ws id w t.2,
  prune-none now age ws j t.1,
  text_eq_iff j id,
)

put-IsTable :
    (k : Text) (w : WorkerInfo) (ws : Workers) → w.id ≡ k → IsTable ws → IsTable (put k w ws)
unfolding put
put-IsTable k w [] e t = (e, unfold find in refl, tt)
put-IsTable k w ((j, x) ∷ ws) e t =
    ground (arith, put-IsTable k w ws e t.2, find-put k j w ws, text_eq_iff k j, text_eq_iff j k)

erase-IsTable : (k : Text) (ws : Workers) → IsTable ws → IsTable (erase k ws)
unfolding erase
erase-IsTable k [] t = tt
erase-IsTable k ((j, x) ∷ ws) t =
    ground (arith, erase-IsTable k ws t.2, find-erase k j ws, text_eq_iff k j, text_eq_iff j k)

prune-IsTable : (now age : ℕ) (ws : Workers) → IsTable ws → IsTable (prune_dead_workers now age ws)
unfolding prune_dead_workers
prune-IsTable now age [] t = tt
prune-IsTable now age ((j, x) ∷ ws) t =
    ground (arith, prune-IsTable now age ws t.2, prune-none now age ws j t.1)

pub find-IsTable :
    (k : Text) (ws : Workers) (w : WorkerInfo)
    → IsTable ws
    → find k ws ≡ some w
    → (w.id ≡ k) × Memᴰ (k, w) ws
unfolding find
find-IsTable k [] w t e = cc
find-IsTable k ((j, x) ∷ ws) w t e = elim (Bool-cases (j =? k)) [
  | inl q ↦ (ground (arith, text_eq_iff j k), Memᴰ.head (ground (arith, text_eq_iff j k)))
  | inr q ↦ let (a, m) = find-IsTable k ws w t.2 (ground arith) in (a, Memᴰ.tail m)
]

-- Every call keeps what holds of a good table: no key twice, and each worker under its own id.
pub calls_keep_IsTable :
    (now : ℕ) (ws : Workers)
    → IsTable ws
    → ((info : WorkerInfo) → IsTable (upsert_worker now info ws))
      × ((id : Text) → IsTable (remove_worker id ws))
      × ((id : Text) (running : ℤ) → IsTable (touch_heartbeat now id running ws).1)
      × ((id : Text) (cooldown : ℕ) → IsTable (mark_dispatch_failure now id cooldown ws))
      × ((age : ℕ) → IsTable (prune_dead_workers now age ws))
unfolding upsert_worker remove_worker touch_heartbeat mark_dispatch_failure
calls_keep_IsTable now ws t = (
  λ info. put-IsTable info.id (record info { last_heartbeat = now }) ws refl t,
  λ id. erase-IsTable id ws t,
  λ id running. elim (Option-cases (find id ws)) [
    | inl e ↦ rw (e, touch_heartbeat) t
    | inr (w, e) ↦ rw (e, touch_heartbeat) (put-IsTable id _ ws (find-IsTable id ws w t e).0 t)
  ],
  λ id cooldown. elim (Option-cases (find id ws)) [
    | inl e ↦ rw (e, mark_dispatch_failure) t
    | inr (w, e) ↦
        rw (e, mark_dispatch_failure) (put-IsTable id _ ws (find-IsTable id ws w t e).0 t)
  ],
  λ age. prune-IsTable now age ws t,
)

-- In a good table, after a worker with room that serves a queue has registered, and less than ten
-- seconds later, a least-load pick for the queue gives a worker.
pub upsert_worker-picked :
    (now later : ℕ) (info : WorkerInfo) (ws : Workers) (queue : Text)
    → IsTable ws
    → later < now + 10000000000
    → is_full info ≡ false
    → queue_match info queue ≡ true
    → (w : WorkerInfo) × (least_load_pick later (upsert_worker now info ws) queue ≡ some w)
unfolding is_alive queue_match is_full
upsert_worker-picked now later info ws queue t recent room serves =
    let stored = record info { last_heartbeat = now } in
    let known =
      (find-IsTable info.id (upsert_worker now info ws) stored
        ((calls_keep_IsTable now ws t).0 info)
        (unfold upsert_worker in find-put_self info.id stored ws)).1 in
    elim (Option-cases (least_load_pick later (upsert_worker now info ws) queue)) [
      | inr picked ↦ picked
      | inl e ↦
          elim ((least_load_pick-none later (upsert_worker now info ws) queue).0 e stored
            (info.id, known) (record { alive = ground arith; matches = serves; free = room })) [ ]
    ]
