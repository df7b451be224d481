-- ===== src/Prelude/Keys.antt =====
-- Keys with a decided equality, texts as lists of bytes, and the maps that the program keeps.
-- An unordered map is an association list whose order nothing here relies on.
use Prim.Native.Char.{code}
use Prim.Native.String.{String}
use Prim.Native.Nat.{ℕ}
use mathlib.Core.Path.{◌≡◌, refl}
use mathlib.Core.Logic.{◌↔◌, ◌≢◌}
use mathlib.Core.Bool.{Bool, true, false, ◌&&◌}
use mathlib.Core.List.{List, [], ◌∷◌}
use mathlib.Core.Option.{Option, none, some}
use native.Mathlib.Omega.{arith}
use task_hub.Prelude.Tests.{◌==◌, if◌then◌else◌, ltb}

-- A std::string, byte by byte.
abbrev pub Text : Type 0
Text = List ℕ

abbrev pub text : String → Text
text String.[] = []
text (String.◌∷◌ c s) = code c ∷ text s

pub record Eq {ℓ} (K : Type ℓ) : Type ℓ where
  pub beq : K → K → Bool
  pub beq_iff : (a b : K) → (beq a b ≡ true) ↔ (a ≡ b)

infix 50 ◌=?◌
abbrev pub ◌=?◌ {ℓ} : {K : Type ℓ} ⦃e : Eq K⦄ → K → K → Bool
◌=?◌ ⦃e⦄ = e.beq

unfoldable pub text_eq : Text → Text → Bool
text_eq [] [] = true
text_eq [] (y ∷ ys) = false
text_eq (x ∷ xs) [] = false
text_eq (x ∷ xs) (y ∷ ys) = (x == y) && text_eq xs ys

pub text_eq_iff : (a b : Text) → (text_eq a b ≡ true) ↔ (a ≡ b)
unfolding text_eq
text_eq_iff [] [] = (λ _. refl, λ _. refl)
text_eq_iff [] (y ∷ ys) = (λ h. cc, λ h. cc)
text_eq_iff (x ∷ xs) [] = (λ h. cc, λ h. cc)
text_eq_iff (x ∷ xs) (y ∷ ys) = ground (arith, text_eq_iff xs ys)

-- `std::string::operator<`.
unfoldable pub text_lt : Text → Text → Bool
text_lt [] [] = false
text_lt [] (y ∷ ys) = true
text_lt (x ∷ xs) [] = false
text_lt (x ∷ xs) (y ∷ ys) = let rest = text_lt xs ys in if x == y then rest else ltb x y

pub text_lt_irrefl : (x : Text) → text_lt x x ≡ false
unfolding text_lt
text_lt_irrefl [] = refl
text_lt_irrefl (c ∷ cs) = ground (arith, text_lt_irrefl cs)

pub text_lt_trans : (x y z : Text) → text_lt x y ≡ true → text_lt y z ≡ true → text_lt x z ≡ true
unfolding text_lt
text_lt_trans [] [] z a b = cc
text_lt_trans [] (d ∷ ds) [] a b = cc
text_lt_trans [] (d ∷ ds) (e ∷ es) a b = refl
text_lt_trans (c ∷ cs) [] z a b = cc
text_lt_trans (c ∷ cs) (d ∷ ds) [] a b = cc
text_lt_trans (c ∷ cs) (d ∷ ds) (e ∷ es) a b = ground (arith, text_lt_trans cs ds es)

instance abbrev pub Text-Eq : Eq Text
Text-Eq = record { beq = text_eq; beq_iff = text_eq_iff }

module _ {ℓ} {K : Type ℓ} ⦃e : Eq K⦄ where
  pub =?_refl : (a : K) → (a =? a) ≡ true
  =?_refl a = (e.beq_iff a a).1 refl

  pub =?→eq : (a b : K) → (a =? b) ≡ true → a ≡ b
  =?→eq a b = (e.beq_iff a b).0

  pub =?_ne : (a b : K) → a ≢ b → (a =? b) ≡ false
  =?_ne a b h = ground (arith, e.beq_iff a b)

-- unordered_map / map: find, operator[]= and insert_or_assign, emplace, erase.
module _ {ℓ κ} {K : Type ℓ} {V : Type κ} ⦃e : Eq K⦄ where
  unfoldable pub find : K → List (K × V) → Option V
  find k [] = none
  find k ((j, v) ∷ m) = if j =? k then some v else find k m

  unfoldable pub put : K → V → List (K × V) → List (K × V)
  put k v [] = (k, v) ∷ []
  put k v ((j, w) ∷ m) = if j =? k then (k, v) ∷ m else (j, w) ∷ put k v m

  unfoldable pub erase : K → List (K × V) → List (K × V)
  erase k [] = []
  erase k ((j, w) ∷ m) = if j =? k then erase k m else (j, w) ∷ erase k m

  unfoldable pub emplace : K → V → List (K × V) → List (K × V)
  emplace k v m = elim (find k m) [ none ↦ put k v m | some w ↦ m ]

  pub find-put :
      (k j : K) (v : V) (m : List (K × V))
      → find j (put k v m) ≡ (if k =? j then some v else find j m)
  unfolding find put
  find-put k j v [] = refl
  find-put k j v ((i, w) ∷ m) =
      ground (arith, e.beq_iff k j, e.beq_iff i k, e.beq_iff i j, find-put k j v m)

  pub find-erase :
      (k j : K) (m : List (K × V)) → find j (erase k m) ≡ (if k =? j then none else find j m)
  unfolding find erase
  find-erase k j [] = ground arith
  find-erase k j ((i, w) ∷ m) =
      ground (arith, e.beq_iff k j, e.beq_iff i k, e.beq_iff i j, find-erase k j m)

  pub find-put_self : (k : K) (v : V) (m : List (K × V)) → find k (put k v m) ≡ some v
  find-put_self k v m = ground (arith, find-put k k v m, =?_refl k)

  pub find-put_ne : (k j : K) (v : V) (m : List (K × V)) → k ≢ j → find j (put k v m) ≡ find j m
  find-put_ne k j v m h = ground (arith, find-put k j v m, =?_ne k j h)
