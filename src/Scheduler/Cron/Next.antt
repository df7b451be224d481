-- ===== src/Scheduler/Cron/Next.antt =====
-- The search for the next minute that an expression matches.
use task_hub.Scheduler.Cron.{
  lookup, CronExpr, Tm, candidate_matches, check_from, is_set, zeros, next_minute,
}
use task_hub.Prelude.{
  ℕ, List, ◌≡◌, arith, suc, zero, inl, inr, Memᴰ, true, ◌+◌, ◌<◌, some, ◌↔◌, ◌≤◌, ◌*◌, none,
  Bool-cases, ==→eq, ◌==◌, ◌-◌, ◌/◌,
}
use task_hub.Scheduler.Cron.Lookup.{is_set-mark_all, is_set-zeros, length-zeros}

-- The values are below a bound.
abbrev pub AllBelow : ℕ → List ℕ → Type 0
AllBelow n vs = (v : ℕ) → Memᴰ v vs → v < n

-- The ranges that `std::tm` documents.
abbrev pub IsCalendar : Tm → Type 0
IsCalendar tm =
    (tm.tm_min < 60) × (tm.tm_hour < 24) × (tm.tm_mday < 32) × (tm.tm_mon < 12) × (tm.tm_wday < 7)

-- The five fields all hold the parts of the time.
abbrev pub Matches : CronExpr → Tm → Type 0
Matches e tm =
    Memᴰ (tm.tm_mon + 1) e.months
    × Memᴰ tm.tm_mday e.days
    × Memᴰ tm.tm_wday e.weekdays
    × Memᴰ tm.tm_hour e.hours
    × Memᴰ tm.tm_min e.minutes

lookup-mem : (size v : ℕ) (vs : List ℕ) → v < size → (is_set v (lookup size vs) ≡ true) ↔ Memᴰ v vs
unfolding lookup
lookup-mem size v vs h =
    let (f, g) =
      is_set-mark_all 0 v vs (zeros size) (omega arith) (omega (arith, length-zeros size))
        (λ w m. omega arith) in
    let z : v - 0 ≡ v = omega arith in
    (
      λ e. elim (f (rw z e)) [ inl s ↦ ground (arith, is_set-zeros (v - 0) size) | inr m ↦ m ],
      λ m. rw z at (g (inr m)),
    )

candidate_matches_iff :
    (e : CronExpr) (tm : Tm) → IsCalendar tm → (candidate_matches e tm ≡ true) ↔ Matches e tm
unfolding candidate_matches
candidate_matches_iff e tm c =
    let a = lookup-mem 13 (tm.tm_mon + 1) e.months (omega arith) in
    let b = lookup-mem 32 tm.tm_mday e.days (omega arith) in
    let d = lookup-mem 7 tm.tm_wday e.weekdays (omega arith) in
    let f = lookup-mem 24 tm.tm_hour e.hours (omega arith) in
    let g = lookup-mem 60 tm.tm_min e.minutes (omega arith) in
    (
      λ t. (
        a.0 (ground arith),
        b.0 (ground arith),
        d.0 (ground arith),
        f.0 (ground arith),
        g.0 (ground arith),
      ),
      λ m. ground (arith, a.1 m.0, b.1 m.1, d.1 m.2, f.1 m.3, g.1 m.4),
    )

module _ (localtime : ℕ → Tm) where
  -- The outcome of a search over so many minutes: the first that matches, or none of them does.
  check_from_lem :
      (e : CronExpr) (checks minute : ℕ)
      → ((t : ℕ) → IsCalendar (localtime t))
      → ((m : ℕ)
          → check_from localtime e checks minute ≡ some m
          → (minute ≤ m)
            × (m < minute + checks)
            × Matches e (localtime (m * 60))
            × ((u : ℕ) → minute ≤ u → u < m → ¬ Matches e (localtime (u * 60))))
        × (check_from localtime e checks minute ≡ none
            → (u : ℕ) → minute ≤ u
            → u < minute + checks
            → ¬ Matches e (localtime (u * 60)))
  unfolding check_from
  check_from_lem e zero minute cal = (λ m r. cc, λ r u a b. let no : ⊥ = omega arith in elim no [ ])
  check_from_lem e (suc checks) minute cal =
      let iff = candidate_matches_iff e (localtime (minute * 60)) (cal (minute * 60)) in
      let (f, g) = check_from_lem e checks (suc minute) cal in
      elim (Bool-cases (candidate_matches e (localtime (minute * 60)))) [
        | inl t ↦ (
          λ m r.
              let q : minute ≡ m = ground arith in
              (
                omega arith,
                omega arith,
                rw (← q) (iff.0 t),
                λ u a b. let no : ⊥ = omega arith in elim no [ ],
              ),
          λ r. ground arith,
        )
        | inr t ↦ (
          λ m r.
              let (a, b, c, d) = f m (ground arith) in
              (
                omega arith,
                omega arith,
                c,
                λ u x y z. elim (Bool-cases (u == minute)) [
                  | inl q ↦ ground (arith, iff.1 (rw (==→eq u minute q) at z))
                  | inr q ↦ d u (ground arith) y z
                ],
              ),
          λ r u x y z. elim (Bool-cases (u == minute)) [
            | inl q ↦ ground (arith, iff.1 (rw (==→eq u minute q) at z))
            | inr q ↦ g (ground arith) u (ground arith) (omega arith) z
          ],
        )
      ]

  -- For a clock that stays in the documented ranges: a minute that is found is after the current
  -- one and within 365 days, the expression matches it, and no minute in between; and where none is
  -- found, no minute of the 365 days matches.
  pub next_minute_first :
      (e : CronExpr) (now : ℕ)
      → ((t : ℕ) → IsCalendar (localtime t))
      → ((m : ℕ)
          → next_minute localtime e now ≡ some m
          → (now / 60000000000 < m)
            × (m ≤ now / 60000000000 + 525600)
            × Matches e (localtime (m * 60))
            × ((u : ℕ) → now / 60000000000 < u → u < m → ¬ Matches e (localtime (u * 60))))
        × (next_minute localtime e now ≡ none
            → (u : ℕ) → now / 60000000000 < u
            → u ≤ now / 60000000000 + 525600
            → ¬ Matches e (localtime (u * 60)))
  unfolding next_minute
  next_minute_first e now cal =
      let (f, g) = check_from_lem e (365 * 24 * 60) (now / 60000000000 + 1) cal in
      (
        λ m r.
            let (a, b, c, d) = f m r in (omega arith, omega arith, c, λ u x y. d u (omega arith) y),
        λ r u x y. g r u (omega arith) (omega arith),
      )
