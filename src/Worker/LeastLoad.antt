-- ===== src/Worker/LeastLoad.antt =====
-- The least-load choice.
use mathlib.Core.List.Memᴰ
use task_hub.Prelude.{
  ℕ, Text, List, [], ◌∷◌, ◌≡◌, refl, arith, Text-Eq, if◌then◌else◌, ◌≢◌, inl, inr, Memᴰ, Bool,
  Bool-cases, false, true, ◌⊎◌, ◌↔◌, ap, none, some, ◌∙◌, text_lt_irrefl, text_lt_trans, ◌<ℤ◌,
  text_lt,
}
use task_hub.Worker.Selector.{
  WorkerInfo, Workers, best_of, candidates_for, collect_candidates, is_alive, is_better,
  is_candidate, is_cooling_down, queue_match, is_full, best_candidate, least_load_pick,
}

-- A worker that may be given work for a queue.
pub record Eligible (now : ℕ) (queue : Text) (w : WorkerInfo) : Type 0 where
  pub alive : is_alive now w ≡ true
  pub matches : queue_match w queue ≡ true
  pub free : is_full w ≡ false

abbrev pub IsKnown : WorkerInfo → Workers → Type 0
IsKnown w ws = (k : Text) × Memᴰ (k, w) ws

pub is_candidate-true :
    (now : ℕ) (queue : Text) (w : WorkerInfo)
    → (is_candidate now queue true w ≡ true) ↔ Eligible now queue w
unfolding is_candidate
is_candidate-true now queue w = ground arith

pub is_candidate-false :
    (now : ℕ) (queue : Text) (w : WorkerInfo)
    → (is_candidate now queue false w ≡ true)
      ↔ (Eligible now queue w × (is_cooling_down now w ≡ false))
unfolding is_candidate
is_candidate-false now queue w = ground arith

pub collect_candidates-mem :
    (now : ℕ) (queue : Text) (b : Bool) (ws : Workers) (w : WorkerInfo)
    → Memᴰ w (collect_candidates now queue b ws)
      ↔ (IsKnown w ws × (is_candidate now queue b w ≡ true))
unfolding collect_candidates
collect_candidates-mem now queue b [] w = (λ m. elim m [ ], λ ((k, m), e). elim m [ ])
collect_candidates-mem now queue b ((j, x) ∷ ws) w =
    let (f, g) = collect_candidates-mem now queue b ws w in
    elim (Bool-cases (is_candidate now queue b x)) [
      | inl c ↦ rw c (
        λ m. elim (Memᴰ.cases_cons m) [
          | inl e ↦ ((j, Memᴰ.head (ap (λ (y : WorkerInfo). (j, y)) e)), rw e c)
          | inr t ↦ let ((k, n), d) = f t in ((k, Memᴰ.tail n), d)
        ],
        λ ((k, m), d). elim (Memᴰ.cases_cons m) [
          | inl e ↦ Memᴰ.head (ap (λ (p : Text × WorkerInfo). p.1) e)
          | inr t ↦ Memᴰ.tail (g ((k, t), d))
        ],
      )
      | inr c ↦ rw c (
        λ m. let ((k, n), d) = f m in ((k, Memᴰ.tail n), d),
        λ ((k, m), d). elim (Memᴰ.cases_cons m) [
          | inl e ↦ ground (arith, ap (λ (p : Text × WorkerInfo). p.1) e)
          | inr t ↦ g ((k, t), d)
        ],
      )
    ]

is_better_irrefl : (w : WorkerInfo) → is_better w w ≡ false
unfolding is_better
is_better_irrefl w = ground (arith, text_lt_irrefl w.id)

is_better_trans :
    (u v w : WorkerInfo) → is_better u v ≡ true → is_better v w ≡ true → is_better u w ≡ true
unfolding is_better
is_better_trans u v w a b = ground (arith, text_lt_trans u.id v.id w.id)

best_of-keeps :
    (ws : List WorkerInfo) (b v : WorkerInfo)
    → is_better v b ≡ false
    → is_better v (best_of b ws) ≡ false
unfolding best_of
best_of-keeps [] b v h = h
best_of-keeps (w ∷ ws) b v h =
    best_of-keeps ws (if is_better w b then w else b) v (ground (arith, is_better_trans v w b))

best_of-mem : (ws : List WorkerInfo) (b : WorkerInfo) → Memᴰ (best_of b ws) (b ∷ ws)
unfolding best_of
best_of-mem [] b = Memᴰ.head refl
best_of-mem (w ∷ ws) b = elim (Bool-cases (is_better w b)) [
  | inl e ↦ rw e (Memᴰ.tail (best_of-mem ws w))
  | inr e ↦ rw e (elim (Memᴰ.cases_cons (best_of-mem ws b)) [
    | inl q ↦ Memᴰ.head q
    | inr m ↦ Memᴰ.tail (Memᴰ.tail m)
  ])
]

best_of-best :
    (v : WorkerInfo) (ws : List WorkerInfo) (b : WorkerInfo)
    → Memᴰ v (b ∷ ws)
    → is_better v (best_of b ws) ≡ false
unfolding best_of
best_of-best v [] b m = elim (Memᴰ.cases_cons m) [
  | inl e ↦ rw e (is_better_irrefl b)
  | inr n ↦ elim n [ ]
]
best_of-best v (w ∷ ws) b m =
    let kept = best_of-keeps ws (if is_better w b then w else b) v in
    elim (Memᴰ.cases_cons m) [
      | inl e ↦ kept (ground (arith, e, is_better_irrefl b, is_better_trans b w b))
      | inr n ↦ elim (Memᴰ.cases_cons n) [
        | inl e ↦ kept (ground (arith, e, is_better_irrefl w))
        | inr t ↦ best_of-best v ws (if is_better w b then w else b) (Memᴰ.tail t)
      ]
    ]

empty_or_cons :
    (xs : List WorkerInfo) → (xs ≡ []) ⊎ ((x : WorkerInfo) × (ys : List WorkerInfo) × (xs ≡ x ∷ ys))
empty_or_cons [] = inl refl
empty_or_cons (x ∷ ys) = inr (x, ys, refl)

best_candidate-best :
    (ws : List WorkerInfo) (w : WorkerInfo)
    → best_candidate ws ≡ some w
    → Memᴰ w ws × ((v : WorkerInfo) → Memᴰ v ws → is_better v w ≡ false)
unfolding best_candidate
best_candidate-best [] w e = cc
best_candidate-best (x ∷ ws) w e =
    let q : best_of x ws ≡ w = ground arith in
    rw (← q) (best_of-mem ws x, λ v m. best_of-best v ws x m)

-- The candidates: the eligible workers that do not cool down or, where all of these do, all.
pub candidates_cases :
    (now : ℕ) (queue : Text) (ws : Workers)
    → ((candidates_for now queue ws ≡ collect_candidates now queue true ws)
        × ((v : WorkerInfo) → IsKnown v ws → Eligible now queue v → is_cooling_down now v ≡ true))
      ⊎ ((candidates_for now queue ws ≡ collect_candidates now queue false ws)
          × (candidates_for now queue ws ≢ []))
unfolding candidates_for
candidates_cases now queue ws = elim (empty_or_cons (collect_candidates now queue false ws)) [
  | inl e ↦ inl (
    rw e refl,
    λ v k el. elim (Bool-cases (is_cooling_down now v)) [
      | inl c ↦ c
      | inr c ↦
          elim (rw e at (
            (collect_candidates-mem now queue false ws v).1
              (k, (is_candidate-false now queue v).1 (el, c)))) [ ]
    ],
  )
  | inr (x, ys, e) ↦ inr (rw e refl, λ q. ground arith)
]

-- A worker has more running tasks than another, or as many and an id that is not smaller.
abbrev pub HasNoLess : WorkerInfo → WorkerInfo → Type 0
HasNoLess v w =
    (w.running_tasks <ℤ v.running_tasks)
    ⊎ ((w.running_tasks ≡ v.running_tasks) × (text_lt v.id w.id ≡ false))

is_better-HasNoLess : (v w : WorkerInfo) → is_better v w ≡ false → HasNoLess v w
unfolding is_better
is_better-HasNoLess v w e = ground arith

-- The worker that is picked is known, and eligible at that time: alive, with the queue, and not
-- full. If it cools down, then so does every known worker that is eligible. A known and eligible
-- worker that cools down as it does, or does not, as it does not, has at least as many running tasks,
-- and if it has as many, no smaller id.
pub least_load_pick-some :
    (now : ℕ) (ws : Workers) (queue : Text) (w : WorkerInfo)
    → least_load_pick now ws queue ≡ some w
    → IsKnown w ws
      × Eligible now queue w
      × ((v : WorkerInfo)
          → IsKnown v ws
          → Eligible now queue v
          → (is_cooling_down now w ≡ true → is_cooling_down now v ≡ true)
            × (is_cooling_down now v ≡ is_cooling_down now w → HasNoLess v w))
unfolding least_load_pick
least_load_pick-some now ws queue w e =
    let (m, best) = best_candidate-best (candidates_for now queue ws) w e in
    elim (candidates_cases now queue ws) [
      | inl (q, all) ↦
          let (k, c) = (collect_candidates-mem now queue true ws w).0 (rw q at m) in
          (
            k,
            (is_candidate-true now queue w).0 c,
            λ v kv el. (
              λ a. all v kv el,
              λ s. is_better-HasNoLess v w (
                  best v (
                    rw q (
                      (collect_candidates-mem now queue true ws v).1
                        (kv, (is_candidate-true now queue v).1 el)))),
            ),
          )
      | inr (q, some_preferred) ↦
          let (k, c) = (collect_candidates-mem now queue false ws w).0 (rw q at m) in
          let (el', cool) = (is_candidate-false now queue w).0 c in
          (
            k,
            el',
            λ v kv el. (
              λ a. ground arith,
              λ s. is_better-HasNoLess v w (
                  best v (
                    rw q (
                      (collect_candidates-mem now queue false ws v).1
                        (kv, (is_candidate-false now queue v).1 (el, s ∙ cool))))),
            ),
          )
    ]

no_candidates :
    (now : ℕ) (queue : Text) (ws : Workers)
    → (candidates_for now queue ws ≡ [])
      ↔ ((v : WorkerInfo) → IsKnown v ws → ¬ Eligible now queue v)
no_candidates now queue ws = elim (candidates_cases now queue ws) [
  | inr (q, ne) ↦ (
    λ e. elim (ne e) [ ],
    λ h. elim (empty_or_cons (candidates_for now queue ws)) [
      | inl e ↦ e
      | inr (x, ys, e) ↦
          let (k, c) =
            (collect_candidates-mem now queue false ws x).0 (rw (← q, e) (Memᴰ.head refl)) in
          elim (h x k ((is_candidate-false now queue x).0 c).0) [ ]
    ],
  )
  | inl (q, all) ↦ (
    λ e v k el.
        elim (rw (← q, e) at
          ((collect_candidates-mem now queue true ws v).1
            (k, (is_candidate-true now queue v).1 el))) [ ],
    λ h. elim (empty_or_cons (candidates_for now queue ws)) [
      | inl e ↦ e
      | inr (x, ys, e) ↦
          let (k, c) =
            (collect_candidates-mem now queue true ws x).0 (rw (← q, e) (Memᴰ.head refl)) in
          elim (h x k ((is_candidate-true now queue x).0 c)) [ ]
    ],
  )
]

-- No worker is picked exactly when no known worker is alive, has the queue and is not full.
pub least_load_pick-none :
    (now : ℕ) (ws : Workers) (queue : Text)
    → (least_load_pick now ws queue ≡ none)
      ↔ ((v : WorkerInfo) → IsKnown v ws → ¬ Eligible now queue v)
unfolding least_load_pick best_candidate
least_load_pick-none now ws queue =
    let (f, g) = no_candidates now queue ws in
    (
      λ e. f (elim (empty_or_cons (candidates_for now queue ws)) [
        | inl q ↦ q
        | inr (x, ys, q) ↦ ground arith
      ]),
      λ h. rw (g h) refl,
    )
