-- ===== src/Template/Renderer/Pieces.antt =====
-- A text is rendered piece by piece.
use task_hub.Json.{Json}
use task_hub.Template.Types.{ParamMap}
use task_hub.Template.Renderer.{
  ◌>>=◌, Printers, break_at_pair, Rendered, render_from, done, value_of_key, trim_back, trim_front,
  param_to_string, failed, render_string,
}
use mathlib.Core.List.{append_assoc}
use task_hub.Prelude.{
  ℕ, Text, List, [], ◌∷◌, ◌++◌, ◌≡◌, refl, arith, All, ◌==◌, length, suc, zero, false, none, some,
  ◌<◌, All-append, ◌∙◌, ap, length-append,
}

pub data Piece : Type 0 where
  literal : Text → Piece
  hole : Text → Piece

-- No character of the text is the given one.
abbrev pub Lacks : ℕ → Text → Type 0
Lacks c = All (λ x. (x == c) ≡ false)

-- Literals are free of `{`, and the names in holes of `}`.
abbrev pub IsPlain : Piece → Type 0
IsPlain (literal t) = Lacks b'{' t
IsPlain (hole name) = Lacks b'}' name

abbrev pub print_pieces : List Piece → Text
print_pieces [] = []
print_pieces (literal t ∷ ps) = t ++ print_pieces ps
print_pieces (hole name ∷ ps) = b'{' ∷ b'{' ∷ (name ++ (b'}' ∷ b'}' ∷ print_pieces ps))

break_at_pair-Lacks : (c : ℕ) (t : Text) → Lacks c t → break_at_pair c t ≡ none
unfolding break_at_pair
break_at_pair-Lacks c [] h = refl
break_at_pair-Lacks c (x ∷ []) h = refl
break_at_pair-Lacks c (x ∷ y ∷ t) h = ground (arith, break_at_pair-Lacks c (y ∷ t) h.1)

break_at_pair-found :
    (c : ℕ) (t s : Text) → Lacks c t → break_at_pair c (t ++ (c ∷ c ∷ s)) ≡ some (t, s)
unfolding break_at_pair
break_at_pair-found c [] s h = ground arith
break_at_pair-found c (x ∷ []) s h = ground (arith, break_at_pair-found c [] s tt)
break_at_pair-found c (x ∷ y ∷ t) s h = ground (arith, break_at_pair-found c (y ∷ t) s h.1)

bind_append :
    (m : Rendered Text) (t u : Text)
    → (m >>= λ r. done ((t ++ u) ++ r)) ≡ ((m >>= λ r. done (u ++ r)) >>= λ r. done (t ++ r))
bind_append (done r) t u = ap done (append_assoc t u r)
bind_append (failed e) t u = refl

bind_done : (m : Rendered Text) → (m >>= λ r. done r) ≡ m
bind_done (done r) = refl
bind_done (failed e) = refl

bind_hole :
    (print : Printers) (x : Rendered Json) (m : Rendered Text) (t : Text)
    → (x >>= λ v. (m >>= λ r. done r) >>= λ r. done (t ++ (param_to_string print v ++ r)))
      ≡ ((x >>= λ v. m >>= λ r. done (param_to_string print v ++ r)) >>= λ r. done (t ++ r))
bind_hole print (done v) (done r) t = refl
bind_hole print (done v) (failed e) t = refl
bind_hole print (failed e) m t = refl

module _ (print : Printers) (resolved : ParamMap) where
  -- What the pieces stand for.
  abbrev pub render_pieces : List Piece → Rendered Text
  render_pieces [] = done []
  render_pieces (literal t ∷ ps) = do rest ← render_pieces ps; done (t ++ rest)
  render_pieces (hole name ∷ ps) = do
    v ← value_of_key resolved (trim_back (trim_front name))
    rest ← render_pieces ps
    done (param_to_string print v ++ rest)

  render_from-pieces :
      (fuel : ℕ) (t : Text) (ps : List Piece)
      → Lacks b'{' t
      → All IsPlain ps
      → length (t ++ print_pieces ps) < fuel
      → render_from print resolved fuel (t ++ print_pieces ps)
        ≡ (render_pieces ps >>= λ rest. done (t ++ rest))
  unfolding render_from
  render_from-pieces zero t ps h w l = absurd (omega arith)
  render_from-pieces (suc fuel) t [] h w l =
      let e = break_at_pair-Lacks b'{' (t ++ []) (All-append _ t [] h tt) in
      rw (e, render_from) refl
  render_from-pieces (suc fuel) t (literal u ∷ ps) h w l =
      rw (← append_assoc t u (print_pieces ps)) (
        render_from-pieces (suc fuel) (t ++ u) ps (All-append _ t u h w.0) w.1
          (rw (append_assoc t u (print_pieces ps)) l)
        ∙ bind_append (render_pieces ps) t u)
  render_from-pieces (suc fuel) t (hole name ∷ ps) h w l =
      let found = break_at_pair-found b'{' t (name ++ (b'}' ∷ b'}' ∷ print_pieces ps)) h in
      let closed = break_at_pair-found b'}' name (print_pieces ps) w.0 in
      let ih = render_from-pieces fuel [] ps tt w.1 (
        omega (
          arith,
          length-append t (print_pieces (hole name ∷ ps)),
          length-append name (b'}' ∷ b'}' ∷ print_pieces ps),
        )) in
      rw (found, render_from)
        (rw (closed, ih)
          (bind_hole print (value_of_key resolved (trim_back (trim_front name))) (render_pieces ps)
            t))

  -- A text of literals without `{` and of holes whose names have no `}` is rendered piece by piece:
  -- a literal as it is, and a hole by the text of the value that its name, without the spaces
  -- around it, stands for. The first hole whose name stands for none fails the whole.
  pub render_string-print_pieces :
      (ps : List Piece)
      → All IsPlain ps
      → render_string print resolved (print_pieces ps) ≡ render_pieces ps
  unfolding render_string
  render_string-print_pieces ps w =
      render_from-pieces (suc (length (print_pieces ps))) [] ps tt w (omega arith)
      ∙ bind_done (render_pieces ps)
