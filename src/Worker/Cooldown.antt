-- ===== src/Worker/Cooldown.antt =====
-- server/src/worker: the choice of a worker after a dispatch that failed.
use mathlib.Core.List.Memᴰ
use task_hub.Worker.Registry.{IsTable, mark_dispatch_failure, calls_keep_IsTable, find-IsTable}
use task_hub.Worker.Selector.{WorkerInfo, Workers, is_cooling_down, least_load_pick}
use task_hub.Prelude.{
  ℕ, Text, ◌≡◌, ◌≢◌, ◌<◌, ◌+◌, ◌*◌, [], ◌∷◌, find, some, Memᴰ, inl, inr, arith, text_eq_iff,
  Text-Eq, Option-cases, find-put_self, find-put_ne, false, true,
}
use task_hub.Worker.LeastLoad.{Eligible, least_load_pick-some}

find-mem :
    (k : Text) (ws : Workers) (w : WorkerInfo)
    → IsTable ws
    → Memᴰ (k, w) ws
    → (find k ws ≡ some w) × (w.id ≡ k)
unfolding find
find-mem k [] w t m = elim m [ ]
find-mem k ((j, x) ∷ ws) w t m = elim (Memᴰ.cases_cons m) [
  | inl q ↦ ground (arith, text_eq_iff j k)
  | inr r ↦ ground (arith, find-mem k ws w t.2 r, text_eq_iff j k)
]

-- In a good table, after a dispatch to a worker has failed and while it cools down: the worker that
-- a least-load pick gives is another one, if the table has, under another id, a worker that is
-- eligible for the queue and does not cool down.
pub mark_dispatch_failure-elsewhere :
    (now later cooldown : ℕ) (id queue : Text) (ws : Workers) (u v : WorkerInfo)
    → IsTable ws
    → later < now + cooldown * 1000000
    → find v.id ws ≡ some v
    → v.id ≢ id
    → Eligible later queue v
    → is_cooling_down later v ≡ false
    → least_load_pick later (mark_dispatch_failure now id cooldown ws) queue ≡ some u
    → u.id ≢ id
unfolding mark_dispatch_failure is_cooling_down
mark_dispatch_failure-elsewhere now later cooldown id queue ws u v t soon found other el cool picked
      same =
    let marked = mark_dispatch_failure now id cooldown ws in
    let table = (calls_keep_IsTable now ws t).3 id cooldown in
    let ((k, m), eligible, best) = least_load_pick-some later marked queue u picked in
    let (at, own) = find-mem k marked u table m in
    elim (Option-cases (find id ws)) [
      | inl e ↦ ground (arith, e, at, own, same)
      | inr (w, e) ↦
          let w' : WorkerInfo = record w { dispatch_cooldown_until = now + cooldown * 1000000 } in
          let there =
            find-IsTable v.id marked v table
              (ground (arith, e, found, other, find-put_ne id v.id w' ws)) in
          let first = find-put_self id w' ws in
          let cools : is_cooling_down later u ≡ true = ground (arith, e, at, own, same, first) in
          ground (arith, (best v (v.id, there.1) el).0 cools)
    ]
