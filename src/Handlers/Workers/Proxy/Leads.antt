-- ===== src/Handlers/Workers/Proxy/Leads.antt =====
-- server/src/handlers/worker_handler.cpp: where the search for a nested run ends.
use task_hub.Db.Rows.{TaskRunRow}
use task_hub.Execution.Context.{TextCalls}
use task_hub.Handlers.Workers.Proxy.{
  Server, Target, local, remote, refused, broken, Found, here, at_worker, not_there, failed,
  out_of_fuel, resolve, resolve_proxy_target, target_of_row, split_path, find_worker, fuel_for,
}
use task_hub.Json.{Json, JsonCalls, member}
use task_hub.Worker.Registry.{list_workers}
use task_hub.Worker.Selector.{WorkerInfo, is_alive}
use task_hub.Prelude.{
  ℕ, zero, suc, Text, text, Text-Eq, true, some, [], ◌∷◌, length, is_empty, ◌≡◌, ◌≢◌, ◌<◌, ◌≤◌,
  arith, refl, inl, inr, ◌⊎◌, Option-cases, Bool-cases, subst, ap, none, false,
}

module _ (t : TextCalls) (c : JsonCalls) (s : Server) where
  -- A node of a run has started another run, here or on the worker of its row.
  pub record Starts (run node next : Text) (row : TaskRunRow) : Type 0 where
    pub recorded : s.task_run run node ≡ some row
    pub meta : Json
    pub readable : t.parse row.metadata_json ≡ some meta
    pub value : Json
    pub has_run : member (text "run_id") meta ≡ some value
    pub is_text : c.get_text value ≡ some next

  -- The runs that a path leads to by nodes of this server, and what is left of the path.
  pub data Leads (run path : Text) : Text → Text → Type 0 where
    start : Leads run path run path
    node :
        {r p next : Text} (row : TaskRunRow)
        → Leads run path r p
        → p ≢ []
        → Starts r (split_path p).0 next row
        → row.worker_id ≡ []
        → Leads run path next (split_path p).1

  -- Why the search does not go on from a run: its node has no row, or the row no metadata that are
  -- JSON, or these no run id, or the row's worker is not known or not alive.
  abbrev pub IsLost : Text → Text → Type 0
  IsLost run head =
      (s.task_run run head ≡ none)
      ⊎ ((row : TaskRunRow) × (s.task_run run head ≡ some row)
          × ((t.parse row.metadata_json ≡ none)
              ⊎ ((meta : Json) × (t.parse row.metadata_json ≡ some meta)
                  × (member (text "run_id") meta ≡ none))
              ⊎ ((row.worker_id ≢ [])
                  × ((w : WorkerInfo)
                      → find_worker row.worker_id (list_workers s.workers) ≡ some w
                      → is_alive s.now w ≡ false))))

  -- The run id of a row's metadata is not a text.
  abbrev pub IsThrown : Text → Text → Type 0
  IsThrown run head =
      (row : TaskRunRow) × (meta : Json) × (v : Json) × (s.task_run run head ≡ some row)
      × (t.parse row.metadata_json ≡ some meta)
      × (member (text "run_id") meta ≡ some v)
      × (c.get_text v ≡ none)

  -- What the end of a search tells.
  abbrev pub IsRight : Text → Text → Found → Type 0
  IsRight run path (here r) = Leads run path r []
  IsRight run path (at_worker w left next) =
      (r : Text) × (p : Text) × (row : TaskRunRow) × Leads run path r p
      × Starts r (split_path p).0 next row
      × (left ≡ (split_path p).1)
      × (find_worker row.worker_id (list_workers s.workers) ≡ some w)
      × (is_alive s.now w ≡ true)
  IsRight run path (not_there e) =
      (r : Text) × (p : Text) × Leads run path r p × (p ≢ []) × IsLost r (split_path p).0
  IsRight run path failed =
      (r : Text) × (p : Text) × Leads run path r p × (p ≢ []) × IsThrown r (split_path p).0
  IsRight run path out_of_fuel = ⊥

  split_path-shorter : (x : ℕ) (p : Text) → length (split_path (x ∷ p)).1 ≤ length p
  unfolding split_path
  split_path-shorter x [] = ground arith
  split_path-shorter x (y ∷ p) = ground (arith, split_path-shorter y p)

  -- What a step of the search tells of the row that it has found.
  abbrev IsStep : Text → Text → Target → Type 0
  IsStep run path (local left next) =
      ((path ≡ []) × (left ≡ []) × (next ≡ run))
      ⊎ ((path ≢ [])
          × ((row : TaskRunRow) × Starts run (split_path path).0 next row
              × (row.worker_id ≡ [])
              × (left ≡ (split_path path).1)))
  IsStep run path (remote w left next) =
      (row : TaskRunRow) × Starts run (split_path path).0 next row
      × (left ≡ (split_path path).1)
      × (find_worker row.worker_id (list_workers s.workers) ≡ some w)
      × (is_alive s.now w ≡ true)
  IsStep run path (refused e) = (path ≢ []) × IsLost run (split_path path).0
  IsStep run path broken = (path ≢ []) × IsThrown run (split_path path).0

  empty_text : (x : Text) → is_empty x ≡ true → x ≡ []
  empty_text [] e = refl
  empty_text (c ∷ x) e = cc

  target_of_row-IsStep :
      (run path : Text) (row : TaskRunRow)
      → path ≢ []
      → s.task_run run (split_path path).0 ≡ some row
      → IsStep run path (target_of_row t c s (split_path path).0 (split_path path).1 row)
  unfolding target_of_row
  target_of_row-IsStep run path row full found =
      let head = (split_path path).0 in
      let tail = (split_path path).1 in
      elim (Option-cases (t.parse row.metadata_json)) [
        | inl e ↦ rw (e, target_of_row) (full, inr (row, found, inl e))
        | inr (meta, e) ↦ elim (Option-cases (member (text "run_id") meta)) [
          | inl m ↦ rw (e, m, target_of_row) (full, inr (row, found, inr (inl (meta, e, m))))
          | inr (v, m) ↦ elim (Option-cases (c.get_text v)) [
            | inl g ↦ rw (e, m, g, target_of_row) (full, (row, meta, v, found, e, m, g))
            | inr (next, g) ↦
                let starts : Starts run head next row = record {
                  recorded = found;
                  meta = meta;
                  readable = e;
                  value = v;
                  has_run = m;
                  is_text = g;
                } in
                elim (Bool-cases (is_empty row.worker_id)) [
                  | inl b ↦
                      rw (e, m, g, b, target_of_row)
                        (inr (full, (row, starts, empty_text row.worker_id b, refl)))
                  | inr b ↦
                      elim (Option-cases (find_worker row.worker_id (list_workers s.workers))) [
                        | inl f ↦
                            rw (e, m, g, b, f, target_of_row)
                              (
                                full,
                                inr (
                                  row,
                                  found,
                                  inr (
                                      inr
                                        (λ q. ground (arith, b, q), λ w f'. ground (arith, f, f'))),
                                ),
                              )
                        | inr (w, f) ↦ elim (Bool-cases (is_alive s.now w)) [
                          | inl a ↦ rw (e, m, g, b, f, a, target_of_row) (row, starts, refl, f, a)
                          | inr a ↦
                              rw (e, m, g, b, f, a, target_of_row)
                                (
                                  full,
                                  inr (
                                    row,
                                    found,
                                    inr (
                                        inr (
                                          λ q. ground (arith, b, q),
                                          λ w' f'. ground (arith, f, f', a),
                                        )),
                                  ),
                                )
                        ]
                      ]
                ]
          ]
        ]
      ]

  resolve_proxy_target-IsStep :
      (run path : Text) → IsStep run path (resolve_proxy_target t c s run path)
  unfolding resolve_proxy_target
  resolve_proxy_target-IsStep run [] = inl (refl, refl, refl)
  resolve_proxy_target-IsStep run (x ∷ p) =
      elim (Option-cases (s.task_run run (split_path (x ∷ p)).0)) [
        | inl e ↦ rw (e, resolve_proxy_target) (λ q. ground arith, inl e)
        | inr (row, e) ↦
            rw (e, resolve_proxy_target)
              (target_of_row-IsStep run (x ∷ p) row (λ q. ground arith) e)
      ]

  Target-cases :
      (g : Target)
      → ((next : Text) × (g ≡ local [] next))
        ⊎ (((x : ℕ) × (xs : Text) × (next : Text) × (g ≡ local (x ∷ xs) next))
            ⊎ (((w : WorkerInfo) × (left : Text) × (next : Text) × (g ≡ remote w left next))
                ⊎ (((e : Text) × (g ≡ refused e)) ⊎ (g ≡ broken))))
  Target-cases (local [] next) = inl (next, refl)
  Target-cases (local (x ∷ xs) next) = inr (inl (x, xs, next, refl))
  Target-cases (remote w left next) = inr (inr (inl (w, left, next, refl)))
  Target-cases (refused e) = inr (inr (inr (inl (e, refl))))
  Target-cases broken = inr (inr (inr (inr refl)))

  -- A step to this server's own run takes a node off the path, if there is one.
  step_leads :
      (run path r p left next : Text)
      → Leads run path r p
      → IsStep r p (local left next)
      → Leads run path next left
  step_leads run path r p left next lead (inl (e, l, n)) =
      rw (l, n) (subst (λ (q : Text). Leads run path r q) e lead)
  step_leads run path r p left next lead (inr (full, (row, starts, own, l))) =
      rw l (node row lead full starts own)

  step_shorter :
      (r p : Text) (x : ℕ) (xs next : Text)
      → IsStep r p (local (x ∷ xs) next)
      → length (x ∷ xs) < length p
  step_shorter r [] x xs next (inl (e, l, n)) = ground (arith, l)
  step_shorter r (y ∷ p) x xs next (inl (e, l, n)) = ground (arith, l)
  step_shorter r [] x xs next (inr (full, (row, starts, own, l))) = elim (full refl) [ ]
  step_shorter r (y ∷ p) x xs next (inr (full, (row, starts, own, l))) =
      omega (arith, ap (length {A = ℕ}) l, split_path-shorter y p)

  resolve-from :
      (fuel : ℕ) (run path r p : Text)
      → Leads run path r p
      → length p < fuel
      → IsRight run path (resolve t c s fuel r p)
  unfolding resolve
  resolve-from zero run path r p lead enough = let no : ⊥ = omega arith in elim no [ ]
  resolve-from (suc fuel) run path r p lead enough =
      let step = resolve_proxy_target-IsStep r p in
      elim (Target-cases (resolve_proxy_target t c s r p)) [
        | inl (next, e) ↦
            rw (e, resolve)
              (step_leads run path r p [] next lead (subst (λ (g : Target). IsStep r p g) e step))
        | inr (inl (x, xs, next, e)) ↦
            let own : IsStep r p (local (x ∷ xs) next) =
              subst (λ (g : Target). IsStep r p g) e step in
            let shorter = step_shorter r p x xs next own in
            rw (e, resolve)
              (resolve-from fuel run path next (x ∷ xs)
                (step_leads run path r p (x ∷ xs) next lead own) (omega (arith, shorter, enough)))
        | inr (inr (inl (w, left, next, e))) ↦
            let found : IsStep r p (remote w left next) =
              subst (λ (g : Target). IsStep r p g) e step in
            rw (e, resolve) (r, p, found.0, lead, found.1, found.2, found.3, found.4)
        | inr (inr (inr (inl (message, e)))) ↦
            let (full, lost) = subst (λ (g : Target). IsStep r p g) e step in
            rw (e, resolve) (r, p, lead, full, lost)
        | inr (inr (inr (inr e))) ↦
            let (full, lost) = subst (λ (g : Target). IsStep r p g) e step in
            rw (e, resolve) (r, p, lead, full, lost)
      ]

  -- Every search for a nested run ends: at a run of this server to which nodes of this server lead by
  -- the whole path; at a worker, known and alive, that has the first node of the path whose row names
  -- a worker, with the rest of the path; or with an error, at a run to which nodes of this server lead,
  -- whose next node has no row, no JSON in it, no run id there or one that is no text, or a worker that
  -- is not known or not alive.
  pub resolve-IsRight :
      (run path : Text) → IsRight run path (resolve t c s (fuel_for path) run path)
  resolve-IsRight run path = resolve-from (fuel_for path) run path run path start (omega arith)
