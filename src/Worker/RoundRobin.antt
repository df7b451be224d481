-- ===== src/Worker/RoundRobin.antt =====
-- The round-robin choice.
use task_hub.Json.Sorted.{text_lt_asym}
use task_hub.Worker.Selector.{
  Workers, insert_by_id, round_robin_pick, sort_candidates, Cursors, WorkerInfo, cursor_at,
  candidates_for,
}
use mathlib.Core.List.Memᴰ
use native.Mathlib.Nat.{mod-lt, mod-eq_of_lt, mod-add-mod}
use task_hub.Prelude.{
  ℕ, Text, List, [], ◌∷◌, ◌≡◌, refl, arith, Text-Eq, ◌≢◌, inl, inr, ◌%◌, ◌+◌, ◌<◌, Memᴰ, length,
  suc, some, zero, ◌↔◌, get_elem?, Bool-cases, get_elem?-lt, is_empty, find-put_self, true, ap, ◌∙◌,
  text_lt, false, if◌then◌else◌, leb,
}

insert_by_id-mem :
    (w v : WorkerInfo) (xs : List WorkerInfo) → Memᴰ v (insert_by_id w xs) ↔ Memᴰ v (w ∷ xs)
unfolding insert_by_id
insert_by_id-mem w v [] = (λ m. m, λ m. m)
insert_by_id-mem w v (x ∷ xs) =
    let (f, g) = insert_by_id-mem w v xs in
    elim (Bool-cases (text_lt x.id w.id)) [
      | inr e ↦ rw e (λ m. m, λ m. m)
      | inl e ↦ rw e (
        λ m. elim (Memᴰ.cases_cons m) [
          | inl q ↦ Memᴰ.tail (Memᴰ.head q)
          | inr n ↦ elim (Memᴰ.cases_cons (f n)) [
            | inl q ↦ Memᴰ.head q
            | inr t ↦ Memᴰ.tail (Memᴰ.tail t)
          ]
        ],
        λ m. elim (Memᴰ.cases_cons m) [
          | inl q ↦ Memᴰ.tail (g (Memᴰ.head q))
          | inr n ↦ elim (Memᴰ.cases_cons n) [
            | inl q ↦ Memᴰ.head q
            | inr t ↦ Memᴰ.tail (g (Memᴰ.tail t))
          ]
        ],
      )
    ]

sort_candidates-mem :
    (v : WorkerInfo) (xs : List WorkerInfo) → Memᴰ v (sort_candidates xs) ↔ Memᴰ v xs
unfolding sort_candidates
sort_candidates-mem v [] = (λ m. m, λ m. m)
sort_candidates-mem v (x ∷ xs) =
    let (f, g) = sort_candidates-mem v xs in
    let (p, q) = insert_by_id-mem x v (sort_candidates xs) in
    (
      λ m. elim (Memᴰ.cases_cons (p m)) [ inl e ↦ Memᴰ.head e | inr t ↦ Memᴰ.tail (f t) ],
      λ m. elim (Memᴰ.cases_cons m) [ inl e ↦ q (Memᴰ.head e) | inr t ↦ q (Memᴰ.tail (g t)) ],
    )

length-insert_by_id :
    (w : WorkerInfo) (xs : List WorkerInfo) → length (insert_by_id w xs) ≡ suc (length xs)
unfolding insert_by_id
length-insert_by_id w [] = refl
length-insert_by_id w (x ∷ xs) = ground (arith, length-insert_by_id w xs)

pub length-sort_candidates : (xs : List WorkerInfo) → length (sort_candidates xs) ≡ length xs
unfolding sort_candidates
length-sort_candidates [] = refl
length-sort_candidates (x ∷ xs) =
    omega (arith, length-insert_by_id x (sort_candidates xs), length-sort_candidates xs)

-- Each worker has no larger id than the next one.
abbrev pub IsSorted : List WorkerInfo → Type 0
IsSorted [] = Unit {0}
IsSorted (w ∷ []) = Unit {0}
IsSorted (w ∷ v ∷ ws) = (text_lt v.id w.id ≡ false) × IsSorted (v ∷ ws)

insert_by_id-IsSorted :
    (w : WorkerInfo) (xs : List WorkerInfo) → IsSorted xs → IsSorted (insert_by_id w xs)
unfolding insert_by_id
insert_by_id-IsSorted w [] h = tt
insert_by_id-IsSorted w (x ∷ []) h = elim (Bool-cases (text_lt x.id w.id)) [
  | inl e ↦ rw e ((text_lt_asym x.id w.id e).0, tt)
  | inr e ↦ rw e (e, tt)
]
insert_by_id-IsSorted w (x ∷ y ∷ xs) h = elim (Bool-cases (text_lt x.id w.id)) [
  | inr e ↦ rw e (e, h)
  | inl e ↦
      let later = insert_by_id-IsSorted w (y ∷ xs) h.1 in
      elim (Bool-cases (text_lt y.id w.id)) [
        | inl f ↦ rw (e, f) (h.0, rw f at later)
        | inr f ↦ rw (e, f) ((text_lt_asym x.id w.id e).0, (f, h.1))
      ]
]

sort_candidates-IsSorted : (xs : List WorkerInfo) → IsSorted (sort_candidates xs)
unfolding sort_candidates
sort_candidates-IsSorted [] = tt
sort_candidates-IsSorted (x ∷ xs) =
    insert_by_id-IsSorted x (sort_candidates xs) (sort_candidates-IsSorted xs)

-- So many picks in a row from the same workers at the same time: what they give, and the cursors.
abbrev pub picks : ℕ → Workers → Text → ℕ → Cursors → Cursors
picks now ws queue zero cs = cs
picks now ws queue (suc n) cs = picks now ws queue n (round_robin_pick now ws queue cs).1

empty_candidates : (xs : List WorkerInfo) → is_empty xs ≡ true → xs ≡ []
empty_candidates [] e = refl
empty_candidates (x ∷ xs) e = cc

full_candidates : (xs : List WorkerInfo) → is_empty xs ≡ false → 0 < length xs
full_candidates [] e = cc
full_candidates (x ∷ xs) e = omega arith

-- Where a pick starts: at the cursor, or at the front where the cursor is past the end.
abbrev pub place : ℕ → ℕ → ℕ
place n c = if leb n c then 0 else c

-- A pick is of a candidate, unless there is none; and the cursor of the queue moves to the next.
pub round_robin_pick-turn :
    (now : ℕ) (ws : Workers) (queue : Text) (cs : Cursors)
    → candidates_for now queue ws ≢ []
    → let n = length (candidates_for now queue ws) in
      (w : WorkerInfo) × ((round_robin_pick now ws queue cs).0 ≡ some w)
      × (get_elem? (sort_candidates (candidates_for now queue ws)) (place n (cursor_at queue cs))
          ≡ some w)
      × (place n (cursor_at queue cs) < n)
      × (cursor_at queue (round_robin_pick now ws queue cs).1
          ≡ (place n (cursor_at queue cs) + 1) % n)
unfolding round_robin_pick cursor_at
round_robin_pick-turn now ws queue cs ne =
    let xs = candidates_for now queue ws in
    let idx = place (length xs) (cursor_at queue cs) in
    elim (Bool-cases (is_empty xs)) [
      | inl z ↦ ground (arith, empty_candidates xs z)
      | inr z ↦
          let low : idx < length xs = ground (arith, full_candidates xs z) in
          let (w, e, m) =
            get_elem?-lt (sort_candidates xs) idx (omega (arith, low, length-sort_candidates xs)) in
          (
            w,
            ground (arith, e),
            e,
            low,
            ground (arith, find-put_self queue ((idx + 1) % length xs) cs),
          )
    ]

round_robin_pick-sorted :
    (now : ℕ) (ws : Workers) (queue : Text) (k : ℕ) (cs : Cursors)
    → candidates_for now queue ws ≢ []
    → let n = length (candidates_for now queue ws) in
      (w : WorkerInfo) × ((round_robin_pick now ws queue (picks now ws queue k cs)).0 ≡ some w)
      × (get_elem?
            (sort_candidates (candidates_for now queue ws))
            ((place n (cursor_at queue cs) + k) % n)
          ≡ some w)
round_robin_pick-sorted now ws queue zero cs ne =
    let n = length (candidates_for now queue ws) in
    let (w, p, e, low, c) = round_robin_pick-turn now ws queue cs ne in
    let idx = place n (cursor_at queue cs) in
    let z : (idx + 0) % n ≡ idx = ap (λ (i : ℕ). i % n) (omega arith) ∙ mod-eq_of_lt low in
    (w, p, rw z e)
round_robin_pick-sorted now ws queue (suc k) cs ne =
    let n = length (candidates_for now queue ws) in
    let (w, p, e, low, c) = round_robin_pick-turn now ws queue cs ne in
    let idx = place n (cursor_at queue cs) in
    let cs' = (round_robin_pick now ws queue cs).1 in
    let (w', p', e') = round_robin_pick-sorted now ws queue k cs' ne in
    let next_low : (idx + 1) % n < n = mod-lt (idx + 1) (omega (arith, low)) in
    let same : place n (cursor_at queue cs') ≡ (idx + 1) % n = ground (arith, c, next_low) in
    let z : (place n (cursor_at queue cs') + k) % n ≡ (idx + suc k) % n =
      ap (λ (i : ℕ). (i + k) % n) same
      ∙ mod-add-mod (idx + 1) n k
      ∙ ap (λ (i : ℕ). i % n) (omega arith) in
    (w', p', rw (← z) e')

-- While the workers and the time stay the same, and there are candidates: the candidates, in the order
-- of their ids, form a list with as many places, and the pick after `k` others gives the worker `k`
-- places after the cursor in it, going round; a cursor that is past the end starts at the front.
pub round_robin_pick-nth :
    (now : ℕ) (ws : Workers) (queue : Text) (cs : Cursors)
    → candidates_for now queue ws ≢ []
    → (xs : List WorkerInfo) × IsSorted xs
      × (length xs ≡ length (candidates_for now queue ws))
      × ((v : WorkerInfo) → Memᴰ v xs ↔ Memᴰ v (candidates_for now queue ws))
      × ((k : ℕ)
          → (w : WorkerInfo) × ((round_robin_pick now ws queue (picks now ws queue k cs)).0
              ≡ some w)
            × (get_elem? xs ((place (length xs) (cursor_at queue cs) + k) % length xs) ≡ some w))
round_robin_pick-nth now ws queue cs ne =
    let ys = candidates_for now queue ws in
    let n = length-sort_candidates ys in
    (
      sort_candidates ys,
      sort_candidates-IsSorted ys,
      n,
      λ v. sort_candidates-mem v ys,
      λ k. let (w, p, e) = round_robin_pick-sorted now ws queue k cs ne in (w, p, rw n e),
    )
