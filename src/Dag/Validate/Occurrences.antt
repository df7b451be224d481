-- ===== src/Dag/Validate/Occurrences.antt =====
-- Counting how often a text occurs in a list: the bookkeeping behind Kahn's algorithm.
use task_hub.Prelude.{
  ℕ, ◌+◌, ◌≤◌, Text, List, [], ◌∷◌, ◌++◌, length, ◌=?◌, =?→eq, =?_refl, Text-Eq, text_eq_iff, ◌≡◌,
  refl, sym, if◌then◌else◌, true, false, arith, Memᴰ, Bool-cases, inl, inr, ◌&&◌, ◌==◌, bit,
}
use task_hub.Dag.Builder.{contains, insert}

unfoldable pub occ : Text → List Text → ℕ
occ x [] = 0
occ x (y ∷ ys) = bit (y =? x) + occ x ys

pub occ-append : (x : Text) (xs ys : List Text) → occ x (xs ++ ys) ≡ occ x xs + occ x ys
unfolding occ
occ-append x [] ys = omega arith
occ-append x (y ∷ xs) ys = omega (arith, occ-append x xs ys)

pub occ-snoc : (x y : Text) (xs : List Text) → occ x (xs ++ y ∷ []) ≡ occ x xs + bit (y =? x)
unfolding occ
occ-snoc x y xs = omega (arith, occ-append x xs (y ∷ []))

pub occ-cons : (x y : Text) (xs : List Text) → occ x (y ∷ xs) ≡ bit (y =? x) + occ x xs
unfolding occ
occ-cons x y xs = refl

pub occ-nil : (x : Text) → occ x [] ≡ 0
unfolding occ
occ-nil x = refl

pub occ-mem : (x : Text) (xs : List Text) → Memᴰ x xs → 1 ≤ occ x xs
unfolding occ
occ-mem x [] m = elim m [ ]
occ-mem x (y ∷ ys) (Memᴰ.head e) = rw e (rw (=?_refl y) (omega arith))
occ-mem x (y ∷ ys) (Memᴰ.tail m) = omega (arith, occ-mem x ys m)

pub mem-occ : (x : Text) (xs : List Text) → 1 ≤ occ x xs → Memᴰ x xs
unfolding occ
mem-occ x [] h = absurd (omega arith)
mem-occ x (y ∷ ys) h = elim (Bool-cases (y =? x)) [
  | inl e ↦ Memᴰ.head (sym (=?→eq y x e))
  | inr e ↦ Memᴰ.tail (mem-occ x ys (ground arith))
]

pub contains-occ : (x : Text) (xs : List Text) → contains x xs ≡ false → occ x xs ≡ 0
unfolding contains occ
contains-occ x [] h = refl
contains-occ x (y ∷ ys) h = ground (arith, contains-occ x ys)

pub occ-contains : (x : Text) (xs : List Text) → contains x xs ≡ true → 1 ≤ occ x xs
unfolding contains occ
occ-contains x [] h = cc
occ-contains x (y ∷ ys) h = ground (arith, occ-contains x ys)

pub occ-insert :
    (n x : Text) (ys : List Text)
    → occ n (insert x ys) ≡ (if (x =? n) && (occ n ys == 0) then 1 else occ n ys)
unfolding insert
occ-insert n x ys =
    ground (arith, contains-occ x ys, occ-contains x ys, occ-snoc n x ys, text_eq_iff x n)

-- One occurrence taken out.
remove : Text → List Text → List Text
remove x [] = []
remove x (y ∷ ys) = if y =? x then ys else y ∷ remove x ys

occ-remove :
    (n x : Text) (ys : List Text) → 1 ≤ occ x ys → occ n (remove x ys) + bit (x =? n) ≡ occ n ys
unfolding remove occ
occ-remove n x [] h = absurd (omega arith)
occ-remove n x (y ∷ ys) h =
    ground (arith, occ-remove n x ys, text_eq_iff x n, text_eq_iff y x, text_eq_iff y n)

length-remove : (x : Text) (ys : List Text) → 1 ≤ occ x ys → length (remove x ys) + 1 ≡ length ys
unfolding remove occ
length-remove x [] h = absurd (omega arith)
length-remove x (y ∷ ys) h = ground (arith, length-remove x ys)

-- A list that occurs in another, with multiplicity, is no longer; and if it is as long, it is all.
pub length-le_of_occ : (V K : List Text) → ((n : Text) → occ n V ≤ occ n K) → length V ≤ length K
unfolding occ
length-le_of_occ [] K h = omega arith
length-le_of_occ (x ∷ V) K h =
    let inK : 1 ≤ occ x K = ground (arith, h x, =?_refl x) in
    omega (
      arith,
      length-remove x K inK,
      length-le_of_occ V (remove x K) (λ n. ground (arith, h n, occ-remove n x K inK)),
    )

pub occ-eq_of_length :
    (V K : List Text)
    → ((n : Text) → occ n V ≤ occ n K)
    → length V ≡ length K
    → (n : Text) → occ n V ≡ occ n K
unfolding occ
occ-eq_of_length [] [] h e n = refl
occ-eq_of_length [] (y ∷ K) h e n = absurd (omega arith)
occ-eq_of_length (x ∷ V) K h e n =
    let inK : 1 ≤ occ x K = ground (arith, h x, =?_refl x) in
    ground (
      arith,
      length-remove x K inK,
      occ-remove n x K inK,
      occ-eq_of_length V (remove x K) (λ k. ground (arith, h k, occ-remove k x K inK))
          (omega (arith, length-remove x K inK)) n,
    )
