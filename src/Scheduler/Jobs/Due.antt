-- ===== src/Scheduler/Jobs/Due.antt =====
-- server/src/scheduler/cron_scheduler.cpp: which jobs a scan finds, and when one is due again.
use task_hub.Scheduler.Jobs.{CronJob, ScanResult, scan_from, scan_jobs}
use mathlib.Core.List.{append-nil, append_assoc}
use mathlib.Core.List.Memᴰ
use task_hub.Prelude.{
  ℕ, ◌≤◌, ◌≡◌, ◌↔◌, [], ◌∷◌, ◌++◌, Bool, false, true, not, some, List, suc, if◌then◌else◌, zero,
  ◌&&◌, get_elem?, leb, ltb, Memᴰ, arith, ◌+◌, inl, inr, Bool-cases, refl, ◌-◌, is_empty,
}

module _ {P : Type 0} where
  -- The indices, from a first one on, of the jobs that are enabled and due.
  unfoldable pub due : ℕ → ℕ → List (CronJob P) → List ℕ
  due now i [] = []
  due now i (j ∷ js) =
      let rest = due now (suc i) js in if j.enabled && leb j.next_time now then i ∷ rest else rest

  scan_from-due :
      (now i : ℕ) (js : List (CronJob P)) (init : Bool) (r : ScanResult)
      → (scan_from now i js init r).pending_indices ≡ r.pending_indices ++ due now i js
  unfolding scan_from due
  scan_from-due now i [] init r = ground (arith, append-nil r.pending_indices)
  scan_from-due now i (j ∷ js) init r = elim (Bool-cases j.enabled) [
    | inl e ↦
        let nearest =
          (if init && not (ltb j.next_time r.nearest_next) then r.nearest_next else j.next_time) in
        let found =
          (if leb j.next_time now then r.pending_indices ++ i ∷ [] else r.pending_indices) in
        ground (
          arith,
          scan_from-due now (suc i) js true
              (record r { pending_indices = found; nearest_next = nearest }),
          append_assoc r.pending_indices (i ∷ []) (due now (suc i) js),
        )
    | inr e ↦ ground (arith, scan_from-due now (suc i) js init r)
  ]

  abbrev IsDue : ℕ → CronJob P → Type 0
  IsDue now j = (j.enabled ≡ true) × (j.next_time ≤ now)

  IsDue-later :
      (now i n : ℕ) (x : CronJob P) (js : List (CronJob P))
      → (suc i ≤ n) × ((j : CronJob P) × (get_elem? js (n - suc i) ≡ some j) × IsDue now j)
      → (i ≤ n) × ((j : CronJob P) × (get_elem? (x ∷ js) (n - i) ≡ some j) × IsDue now j)
  IsDue-later now i n x js (l, (j, e, d)) =
      let z : n - i ≡ suc (n - suc i) = omega arith in (omega arith, (j, rw z e, d))

  due_sound :
      (now i n : ℕ) (js : List (CronJob P))
      → Memᴰ n (due now i js)
      → (i ≤ n) × ((j : CronJob P) × (get_elem? js (n - i) ≡ some j) × IsDue now j)
  unfolding due
  due_sound now i n [] m = elim m [ ]
  due_sound now i n (j ∷ js) m = elim (Bool-cases (j.enabled && leb j.next_time now)) [
    | inl e ↦ elim (Memᴰ.cases_cons (rw e at m)) [
      | inl q ↦ let z : n - i ≡ 0 = omega arith in (omega arith, (j, rw z refl, ground arith))
      | inr r ↦ IsDue-later now i n j js (due_sound now (suc i) n js r)
    ]
    | inr e ↦ IsDue-later now i n j js (due_sound now (suc i) n js (rw e at m))
  ]

  due-complete :
      (now i k : ℕ) (js : List (CronJob P)) (j : CronJob P)
      → get_elem? js k ≡ some j
      → IsDue now j
      → Memᴰ (i + k) (due now i js)
  unfolding due
  due-complete now i k [] j e d = cc
  due-complete now i zero (x ∷ js) j e d =
      let z : i + 0 ≡ i = omega arith in
      let c : (x.enabled && leb x.next_time now) ≡ true = ground arith in rw (z, c) (Memᴰ.head refl)
  due-complete now i (suc k) (x ∷ js) j e d =
      let z : i + suc k ≡ suc i + k = omega arith in
      let m = due-complete now (suc i) k js j e d in
      elim (Bool-cases (x.enabled && leb x.next_time now)) [
        | inl c ↦ rw (c, z) (Memᴰ.tail m)
        | inr c ↦ rw (c, z) m
      ]

  scan_from-nearest :
      (now i : ℕ) (js : List (CronJob P)) (init : Bool) (r : ScanResult)
      → (init ≡ true → (scan_from now i js init r).nearest_next ≤ r.nearest_next)
        × ((j : CronJob P)
            → Memᴰ j js
            → j.enabled ≡ true
            → (scan_from now i js init r).nearest_next ≤ j.next_time)
  unfolding scan_from
  scan_from-nearest now i [] init r = (λ e. omega arith, λ j m e. elim m [ ])
  scan_from-nearest now i (x ∷ js) init r = elim (Bool-cases x.enabled) [
    | inl e ↦
        let nearest =
          (if init && not (ltb x.next_time r.nearest_next) then r.nearest_next else x.next_time) in
        let found =
          (if leb x.next_time now then r.pending_indices ++ i ∷ [] else r.pending_indices) in
        let (first, all) =
          scan_from-nearest now (suc i) js true
            (record r { pending_indices = found; nearest_next = nearest }) in
        (
          λ q. ground (arith, first refl),
          λ j m f. elim (Memᴰ.cases_cons m) [
            | inl q ↦ ground (arith, first refl, q)
            | inr n ↦ ground (arith, all j n f)
          ],
        )
    | inr e ↦
        let (first, all) = scan_from-nearest now (suc i) js init r in
        (
          λ q. ground (arith, first q),
          λ j m f. elim (Memᴰ.cases_cons m) [
            | inl q ↦ ground (arith, q)
            | inr n ↦ ground (arith, all j n f)
          ],
        )
  ]

  -- A scan finds the index of every job that is enabled and whose time has come, and no other; and
  -- the time that it notes is not after that of any enabled job.
  pub scan_jobs-finds :
      (now : ℕ) (js : List (CronJob P))
      → ((k : ℕ)
          → Memᴰ k (scan_jobs now js).pending_indices ↔ (
              (j : CronJob P) × (get_elem? js k ≡ some j)
              × (j.enabled ≡ true)
              × (j.next_time ≤ now)))
        × ((j : CronJob P)
            → Memᴰ j js
            → j.enabled ≡ true
            → (scan_jobs now js).nearest_next ≤ j.next_time)
  unfolding scan_jobs
  scan_jobs-finds now js =
      let r : ScanResult = record {
        has_job = not (is_empty js);
        nearest_next = 0;
        pending_indices = [];
      } in
      let e = scan_from-due now 0 js false r in
      (
        λ k. (
          λ m.
              let z : k - 0 ≡ k = omega arith in
              let (l, (j, f, d)) = due_sound now 0 k js (rw e at m) in (j, rw z at f, d.0, d.1),
          λ (j, f, d, l).
              let z : 0 + k ≡ k = omega arith in
              rw e (rw z at (due-complete now 0 k js j f (d, l))),
        ),
        (scan_from-nearest now 0 js false r).1,
      )
