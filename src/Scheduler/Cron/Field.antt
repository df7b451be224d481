-- ===== src/Scheduler/Cron/Field.antt =====
-- The values that a field stands for.
use task_hub.Scheduler.Cron.Lookup.{
  Increasing, length-zeros, length-mark_all, collect-Increasing, is_set-mark_all, collect-mem,
  is_set-lt, is_set-zeros,
}
use task_hub.Scheduler.Cron.Range.{IsStepped, Parsed-cases, range_values-mem, Parsed-none}
use task_hub.Prelude.{
  ℕ, Text, List, [], ◌∷◌, ◌≡◌, refl, arith, inl, inr, ◌-◌, Option, ℤ, ◌≤◌, Memᴰ, ◌↔◌, ◌+◌, text,
  Bool-cases, text_eq, Option-cases, Bool, length, true, ◌⊎◌, subst, sym, ◌∙◌,
}
use task_hub.Scheduler.Cron.{
  parsed, base_and_step, bounds_of, checked, parse_range, range_values, break_at, mark_tokens,
  parse_field, tokens, is_set, zeros, collect, mark_all,
}

module _ (stoi : Text → Option ℤ) where
  -- A value of a token: on the way between the bounds, by the step.
  abbrev pub InToken : ℕ → ℕ → Text → ℕ → Type 0
  InToken low high token v =
      (base : Text) × (step : ℕ) × (first : ℕ) × (last : ℕ) × (base_and_step stoi token
        ≡ parsed (base, step))
      × (bounds_of stoi low high base ≡ parsed (first, last))
      × IsStepped first last step v

  checked_bounds :
      (low high : ℕ) (a b : ℤ) (first last : ℕ)
      → checked low high a b ≡ parsed (first, last)
      → (low ≤ first) × (last ≤ high)
  unfolding checked
  checked_bounds low high a b first last e = ground arith

  bounds_of_within :
      (low high : ℕ) (base : Text) (first last : ℕ)
      → bounds_of stoi low high base ≡ parsed (first, last)
      → (low ≤ first) × (last ≤ high)
  unfolding bounds_of
  bounds_of_within low high base first last e = elim (Bool-cases (text_eq base (text "*"))) [
    | inl star ↦ ground arith
    | inr plain ↦ elim (Option-cases (break_at b'-' base)) [
      | inl single ↦ elim (Option-cases (stoi base)) [
        | inl bad ↦ ground arith
        | inr (a, p) ↦ ground (arith, checked_bounds low high a a first last)
      ]
      | inr ((before, after), double) ↦ elim (Option-cases (stoi before)) [
        | inl bad ↦ ground arith
        | inr (a, p) ↦ elim (Option-cases (stoi after)) [
          | inl bad ↦ ground arith
          | inr (b, q) ↦ ground (arith, checked_bounds low high a b first last)
        ]
      ]
    ]
  ]

  InToken-within :
      (low high : ℕ) (token : Text) (v : ℕ) → InToken low high token v → (low ≤ v) × (v ≤ high)
  InToken-within low high token v (base, step, first, last, p, q, (h, i, e)) =
      let w = bounds_of_within low high base first last q in (grind (arith, w), omega (arith, w))

  -- The values of a token that parses.
  parse_range-mem :
      (low high : ℕ) (token : Text) (vs : List ℕ)
      → parse_range stoi low high token ≡ parsed vs
      → (v : ℕ) → Memᴰ v vs ↔ InToken low high token v
  unfolding parse_range
  parse_range-mem low high token vs r v = elim (Parsed-cases (base_and_step stoi token)) [
    | inr bad ↦ elim (Parsed-none (base_and_step stoi token) bad) [
      | inl q ↦ ground arith
      | inr q ↦ ground arith
    ]
    | inl ((base, step), p) ↦ elim (Parsed-cases (bounds_of stoi low high base)) [
      | inr bad ↦ elim (Parsed-none (bounds_of stoi low high base) bad) [
        | inl q ↦ ground arith
        | inr q ↦ ground arith
      ]
      | inl ((first, last), q) ↦
          let s : range_values (last + 2) first last step ≡ parsed vs = ground arith in
          let (f, g) = range_values-mem (last + 2) first last step vs s v in
          (
            λ m. (base, step, first, last, p, q, f m),
            λ (base', step', first', last', p', q', w).
                let a : (base ≡ base') × (step ≡ step') = ground arith in
                let b : (first ≡ first') × (last ≡ last') = ground (arith, a) in
                g (rw (a.1, b.0, b.1) w),
          )
    ]
  ]

  -- Some token of a list stands for the value.
  abbrev pub InTokens : ℕ → ℕ → List Text → ℕ → Type 0
  InTokens low high ts v = (t : Text) × Memᴰ t ts × InToken low high t v

  mark_tokens_lem :
      (low high : ℕ) (ts : List Text) (seen marked : List Bool)
      → mark_tokens stoi low high ts seen ≡ parsed marked
      → length seen ≡ high - low + 1
      → (length marked ≡ high - low + 1)
        × ((v : ℕ)
            → low ≤ v
            → v ≤ high
            → (is_set (v - low) marked ≡ true)
              ↔ ((is_set (v - low) seen ≡ true) ⊎ InTokens low high ts v))
  unfolding mark_tokens
  mark_tokens_lem low high [] seen marked r len = (
    ground arith,
    λ v a b. (
      λ s. inl (ground arith),
      λ s. elim s [ inl t ↦ ground arith | inr (t, m, q) ↦ elim m [ ] ],
    ),
  )
  mark_tokens_lem low high (t ∷ ts) seen marked r len =
      elim (Parsed-cases (parse_range stoi low high t)) [
        | inr bad ↦ elim (Parsed-none (parse_range stoi low high t) bad) [
          | inl q ↦ ground arith
          | inr q ↦ ground arith
        ]
        | inl (vs, p) ↦
            let mem = parse_range-mem low high t vs p in
            let above : (w : ℕ) → Memᴰ w vs → low ≤ w =
              λ w m. (InToken-within low high t w ((mem w).0 m)).0 in
            let (l, f) =
              mark_tokens_lem low high ts (mark_all low vs seen) marked (ground arith)
                (length-mark_all low vs seen ∙ len) in
            (
              l,
              λ v a b.
                  let one = is_set-mark_all low v vs seen a (omega arith) above in
                  (
                    λ s. elim ((f v a b).0 s) [
                      | inr (u, m, q) ↦ inr (u, Memᴰ.tail m, q)
                      | inl s' ↦ elim (one.0 s') [
                        | inl s'' ↦ inl s''
                        | inr m ↦ inr (t, Memᴰ.head refl, (mem v).0 m)
                      ]
                    ],
                    λ s. (f v a b).1 (elim s [
                      | inl s' ↦ inl (one.1 (inl s'))
                      | inr (u, Memᴰ.head e, q) ↦ inl (one.1 (inr ((mem v).1 (rw (← e) q))))
                      | inr (u, Memᴰ.tail m, q) ↦ inr (u, m, q)
                    ]),
                  ),
            )
      ]

  -- With limits in order, a field that parses gives the values of its tokens, and no other; they
  -- are within the limits, in increasing
  -- order without a repetition, and there is at least one.
  pub parse_field-mem :
      (low high : ℕ) (field : Text) (vs : List ℕ)
      → low ≤ high
      → parse_field stoi low high field ≡ parsed vs
      → ((v : ℕ) → Memᴰ v vs ↔ InTokens low high (tokens [] field) v)
        × ((v : ℕ) → Memᴰ v vs → (low ≤ v) × (v ≤ high))
        × Increasing low vs
        × (1 ≤ length vs)
  unfolding parse_field
  parse_field-mem low high field vs ordered r =
      elim (Parsed-cases (mark_tokens stoi low high (tokens [] field) (zeros (high - low + 1)))) [
        | inr bad ↦
            elim (Parsed-none (mark_tokens stoi low high (tokens [] field) (zeros (high - low + 1)))
              bad) [ inl q ↦ ground arith | inr q ↦ ground arith ]
        | inl (marked, p) ↦
            let q : vs ≡ collect low marked = ground arith in
            let (l, f) =
              mark_tokens_lem low high (tokens [] field) (zeros (high - low + 1)) marked p
                (length-zeros (high - low + 1)) in
            let found : (v : ℕ)
                → Memᴰ v vs
                → (low ≤ v) × (v ≤ high) × (is_set (v - low) marked ≡ true) =
              λ v m.
                let (a, b) = (collect-mem low v marked).0 (rw q at m) in
                (a, omega (arith, is_set-lt (v - low) marked b), b) in
            (
              λ v. (
                λ m.
                    let (a, b, c) = found v m in
                    elim ((f v a b).0 c) [
                      | inl s ↦ ground (arith, is_set-zeros (v - low) (high - low + 1))
                      | inr t ↦ t
                    ],
                λ (t, m, k).
                    let (a, b) = InToken-within low high t v k in
                    rw q ((collect-mem low v marked).1 (a, (f v a b).1 (inr (t, m, k)))),
              ),
              λ v m. let (a, b, c) = found v m in (a, b),
              subst (Increasing low) (sym q) (collect-Increasing low marked),
              ground arith,
            )
      ]
