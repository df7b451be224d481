-- ===== src/Scheduler/Cron/Range.antt =====
-- The values that one token stands for.
use mathlib.Core.List.Memᴰ
use mathlib.Core.Logic.{◌≢◌}
use task_hub.Prelude.{
  ℕ, List, [], ◌∷◌, ◌≡◌, refl, arith, suc, zero, inl, inr, ◌+◌, ◌≤◌, ◌⊎◌, ◌*◌, Memᴰ, ◌↔◌,
  Bool-cases, ltb,
}
use task_hub.Scheduler.Cron.{Parsed, range_values, parsed, rejected, undefined}

-- On the way from `first` to `last` by steps.
abbrev pub IsStepped : ℕ → ℕ → ℕ → ℕ → Type 0
IsStepped first last step v = (v ≤ last) × (i : ℕ) × (v ≡ first + i * step)

IsStepped-here : (first last step : ℕ) → first ≤ last → IsStepped first last step first
IsStepped-here first last step h = (h, 0, omega arith)

IsStepped-later :
    (first last step v : ℕ) → IsStepped (first + step) last step v → IsStepped first last step v
IsStepped-later first last step v (h, i, e) = (h, suc i, grind arith)

IsStepped-cases :
    (first last step v : ℕ)
    → IsStepped first last step v
    → (v ≡ first) ⊎ IsStepped (first + step) last step v
IsStepped-cases first last step v (h, zero, e) = inl (omega arith)
IsStepped-cases first last step v (h, suc i, e) = inr (h, i, grind arith)

pub Parsed-cases :
    {A : Type 0} (p : Parsed A) → ((a : A) × (p ≡ parsed a)) ⊎ ((a : A) → p ≢ parsed a)
Parsed-cases (parsed a) = inl (a, refl)
Parsed-cases Parsed.rejected = inr (λ a e. cc)
Parsed-cases Parsed.undefined = inr (λ a e. cc)

pub Parsed-none :
    {A : Type 0} (p : Parsed A) → ((a : A) → p ≢ parsed a) → (p ≡ rejected) ⊎ (p ≡ undefined)
Parsed-none (parsed a) h = elim (h a refl) [ ]
Parsed-none Parsed.rejected h = inl refl
Parsed-none Parsed.undefined h = inr refl

-- The loop of `parseRange`: its values are those on the way.
pub range_values-mem :
    (fuel first last step : ℕ) (vs : List ℕ)
    → range_values fuel first last step ≡ parsed vs
    → (v : ℕ) → Memᴰ v vs ↔ IsStepped first last step v
unfolding range_values
range_values-mem zero first last step vs r v = cc
range_values-mem (suc fuel) first last step vs r v = elim (Bool-cases (ltb last first)) [
  | inl e ↦ let z : vs ≡ [] = ground arith in rw z (λ m. elim m [ ], λ (h, i, q). ground arith)
  | inr e ↦ elim (Parsed-cases (range_values fuel (first + step) last step)) [
    | inr bad ↦ elim (Parsed-none (range_values fuel (first + step) last step) bad) [
      | inl q ↦ ground arith
      | inr q ↦ ground arith
    ]
    | inl (ws, s) ↦
        let z : vs ≡ first ∷ ws = ground arith in
        let (f, g) = range_values-mem fuel (first + step) last step ws s v in
        rw z (
          λ m. elim (Memᴰ.cases_cons m) [
            | inl q ↦ rw q (IsStepped-here first last step (ground arith))
            | inr t ↦ IsStepped-later first last step v (f t)
          ],
          λ q. elim (IsStepped-cases first last step v q) [
            | inl e ↦ Memᴰ.head e
            | inr t ↦ Memᴰ.tail (g t)
          ],
        )
  ]
]

-- Where no sum overflows, the loop ends with values, within so many rounds.
pub range_values_total :
    (fuel first last step : ℕ)
    → 1 ≤ step
    → last + step ≤ 2147483647
    → last + 2 ≤ first + fuel
    → 1 ≤ fuel
    → (vs : List ℕ) × (range_values fuel first last step ≡ parsed vs)
unfolding range_values
range_values_total zero first last step h1 h2 h3 h4 = let no : ⊥ = omega arith in elim no [ ]
range_values_total (suc fuel) first last step h1 h2 h3 h4 = elim (Bool-cases (ltb last first)) [
  | inl e ↦ ([], ground arith)
  | inr e ↦
      let (vs, r) =
        range_values_total fuel (first + step) last step h1 h2 (omega arith) (ground arith) in
      (first ∷ vs, ground (arith, r))
]
