-- ===== src/Scheduler/Cron/Lookup.antt =====
-- The vectors of marks that the parser and the search use.
use task_hub.Scheduler.Cron.{is_set, collect, mark, mark_all, zeros}
use mathlib.Core.List.Memᴰ
use task_hub.Prelude.{
  ℕ, List, [], ◌∷◌, ◌≡◌, refl, arith, ◌==◌, ◌-◌, ◌≤◌, ◌<◌, ◌||◌, ◌&&◌, suc, length, Bool, false,
  Memᴰ, ltb, zero, ◌+◌, true, ◌↔◌, ◌⊎◌, inl, inr, Bool-cases, ==→eq, if◌then◌else◌, ◌∙◌,
}

pub length-mark : (i : ℕ) (bs : List Bool) → length (mark i bs) ≡ length bs
unfolding mark
length-mark i [] = refl
length-mark zero (b ∷ bs) = refl
length-mark (suc i) (b ∷ bs) = omega (arith, length-mark i bs)

pub length-zeros : (n : ℕ) → length (zeros n) ≡ n
unfolding zeros
length-zeros zero = refl
length-zeros (suc n) = omega (arith, length-zeros n)

pub is_set-zeros : (i n : ℕ) → is_set i (zeros n) ≡ false
unfolding is_set zeros
is_set-zeros i zero = refl
is_set-zeros zero (suc n) = refl
is_set-zeros (suc i) (suc n) = is_set-zeros i n

is_set-mark :
    (i j : ℕ) (bs : List Bool)
    → is_set j (mark i bs) ≡ (is_set j bs || ((i == j) && ltb j (length bs)))
unfolding is_set mark
is_set-mark i j [] = ground arith
is_set-mark zero zero (b ∷ bs) = ground arith
is_set-mark zero (suc j) (b ∷ bs) = ground arith
is_set-mark (suc i) zero (b ∷ bs) = ground arith
is_set-mark (suc i) (suc j) (b ∷ bs) = ground (arith, is_set-mark i j bs)

pub length-mark_all :
    (low : ℕ) (vs : List ℕ) (bs : List Bool) → length (mark_all low vs bs) ≡ length bs
unfolding mark_all
length-mark_all low [] bs = refl
length-mark_all low (v ∷ vs) bs =
    omega (arith, length-mark_all low vs (mark (v - low) bs), length-mark (v - low) bs)

-- What is set after the values have been marked: what was, and the values.
pub is_set-mark_all :
    (low v : ℕ) (vs : List ℕ) (bs : List Bool)
    → low ≤ v
    → v < low + length bs
    → ((w : ℕ) → Memᴰ w vs → low ≤ w)
    → (is_set (v - low) (mark_all low vs bs) ≡ true) ↔ ((is_set (v - low) bs ≡ true) ⊎ Memᴰ v vs)
unfolding mark_all
is_set-mark_all low v [] bs h1 h2 h = (λ e. inl e, λ s. elim s [ inl e ↦ e | inr m ↦ elim m [ ] ])
is_set-mark_all low v (w ∷ vs) bs h1 h2 h =
    let (f, g) =
      is_set-mark_all low v vs (mark (w - low) bs) h1 (omega (arith, length-mark (w - low) bs))
        (λ x m. h x (Memᴰ.tail m)) in
    let one = is_set-mark (w - low) (v - low) bs in
    let w_low = h w (Memᴰ.head refl) in
    (
      λ e. elim (f e) [
        | inr m ↦ inr (Memᴰ.tail m)
        | inl s ↦ elim (Bool-cases (is_set (v - low) bs)) [
          | inl t ↦ inl t
          | inr t ↦ inr (Memᴰ.head (ground arith))
        ]
      ],
      λ s. elim s [
        | inl t ↦ g (inl (ground arith))
        | inr (Memᴰ.head q) ↦ g (inl (ground arith))
        | inr (Memᴰ.tail m) ↦ g (inr m)
      ],
    )

is_set-cons :
    (low v : ℕ) (b : Bool) (bs : List Bool)
    → low ≤ v
    → is_set (v - low) (b ∷ bs) ≡ (if v == low then b else is_set (v - suc low) bs)
is_set-cons low v b bs h = elim (Bool-cases (v == low)) [
  | inl e ↦ let z : v - low ≡ 0 = omega (arith, ==→eq v low e) in rw (z, e) (unfold is_set in refl)
  | inr e ↦ let z : v - low ≡ suc (v - suc low) = ground arith in rw (z, e) (unfold is_set in refl)
]

is_set-nil : (i : ℕ) → is_set i [] ≡ false
unfolding is_set
is_set-nil i = refl

-- What is collected: the marked values.
pub collect-mem :
    (low v : ℕ) (bs : List Bool)
    → Memᴰ v (collect low bs) ↔ ((low ≤ v) × (is_set (v - low) bs ≡ true))
unfolding collect
collect-mem low v [] = (λ m. elim m [ ], λ q. ground (arith, is_set-nil (v - low)))
collect-mem low v (true ∷ bs) =
    let (f, g) = collect-mem (suc low) v bs in
    (
      λ m. elim (Memᴰ.cases_cons m) [
        | inl e ↦ (omega arith, is_set-cons low v true bs (omega arith) ∙ ground arith)
        | inr t ↦
            let (a, b) = f t in
            (omega arith, is_set-cons low v true bs (omega arith) ∙ ground arith)
      ],
      λ q. elim (Bool-cases (v == low)) [
        | inl e ↦ Memᴰ.head (==→eq v low e)
        | inr e ↦ Memᴰ.tail (g (ground arith, ground (arith, is_set-cons low v true bs q.0)))
      ],
    )
collect-mem low v (false ∷ bs) =
    let (f, g) = collect-mem (suc low) v bs in
    (
      λ m.
          let (a, b) = f m in
          (omega arith, is_set-cons low v false bs (omega arith) ∙ ground arith),
      λ q. g (
        ground (arith, is_set-cons low v false bs q.0),
        ground (arith, is_set-cons low v false bs q.0),
      ),
    )

pub data Increasing : ℕ → List ℕ → Type 0 where
  nil : {low : ℕ} → Increasing low []
  cons : {low v : ℕ} {vs : List ℕ} → low ≤ v → Increasing (suc v) vs → Increasing low (v ∷ vs)

Increasing-weaken :
    {low low' : ℕ} {vs : List ℕ} → low' ≤ low → Increasing low vs → Increasing low' vs
Increasing-weaken h nil = nil
Increasing-weaken h (cons a r) = cons (omega arith) r

pub collect-Increasing : (low : ℕ) (bs : List Bool) → Increasing low (collect low bs)
unfolding collect
collect-Increasing low [] = nil
collect-Increasing low (true ∷ bs) = cons (omega arith) (collect-Increasing (suc low) bs)
collect-Increasing low (false ∷ bs) =
    Increasing-weaken (omega arith) (collect-Increasing (suc low) bs)

pub is_set-lt : (i : ℕ) (bs : List Bool) → is_set i bs ≡ true → i < length bs
unfolding is_set
is_set-lt i [] e = cc
is_set-lt zero (b ∷ bs) e = omega arith
is_set-lt (suc i) (b ∷ bs) e = omega (arith, is_set-lt i bs e)
