-- ===== src/Execution/Remote/Lines.antt =====
-- server/src/execution/remote_strategy.cpp: the lines of an output put back together.
use task_hub.Execution.Remote.{lines_from}
use task_hub.Prelude.{Text, List, [], ◌∷◌, ◌++◌, ◌≡◌, refl, arith, ◌⊎◌, inl, inr, ==→eq}
use mathlib.Core.List.{append_assoc, append-nil}

-- Every line with its end.
unfoldable pub unlines : List Text → Text
unlines [] = []
unlines (l ∷ ls) = l ++ b'\n' ∷ unlines ls

-- The lines that are pushed of an output are the whole of it: put together, each with its end, they
-- give the text back, or the text with the end of its last line.
pub lines_from-unlines :
    (s : Text) (line : Text)
    → (unlines (lines_from line s) ≡ line ++ s)
      ⊎ (unlines (lines_from line s) ≡ line ++ (s ++ b'\n' ∷ []))
unfolding lines_from unlines
lines_from-unlines [] [] = inl refl
lines_from-unlines [] (d ∷ line) = inr (ground (arith, append-nil (d ∷ line)))
lines_from-unlines (c ∷ cs) line = ground (
  arith,
  ==→eq c 10,
  lines_from-unlines cs [],
  lines_from-unlines cs (line ++ c ∷ []),
  append_assoc line (c ∷ []) cs,
  append_assoc line (c ∷ []) (cs ++ 10 ∷ []),
)
