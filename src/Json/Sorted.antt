-- ===== src/Json/Sorted.antt =====
-- Members in the order of their keys.
use task_hub.Json.{Fields, find_field, set_field, Json, field, end}
use task_hub.Prelude.{
  Text, Text-Eq, text_eq_iff, text_eq, text_lt, [], ◌∷◌, ◌≡◌, refl, arith, =?→eq, false, true, none,
  text_lt_trans, Bool-cases, text_lt_irrefl, ◌=?◌, inl, inr,
}

-- The first key, if there is one, comes after the given one.
abbrev pub StartsAfter : Text → Fields → Type 0
StartsAfter k end = Unit {0}
StartsAfter k (field j v fs) = text_lt k j ≡ true

abbrev pub IsSorted : Fields → Type 0
IsSorted end = Unit {0}
IsSorted (field k v fs) = StartsAfter k fs × IsSorted fs

pub text_lt_asym : (x y : Text) → text_lt x y ≡ true → (text_lt y x ≡ false) × (text_eq x y ≡ false)
text_lt_asym x y h = ground (arith, text_lt_trans x y x, text_lt_irrefl x, text_eq_iff x y)

text_lt_total : (x y : Text) → text_eq x y ≡ false → text_lt x y ≡ false → text_lt y x ≡ true
unfolding text_lt text_eq
text_lt_total [] [] e h = cc
text_lt_total [] (y ∷ ys) e h = cc
text_lt_total (x ∷ xs) [] e h = refl
text_lt_total (x ∷ xs) (y ∷ ys) e h = ground (arith, text_lt_total xs ys)

pub StartsAfter-trans :
    (j k : Text) (fs : Fields) → text_lt j k ≡ true → StartsAfter k fs → StartsAfter j fs
StartsAfter-trans j k end h a = tt
StartsAfter-trans j k (field i v fs) h a = text_lt_trans j k i h a

pub find_field-StartsAfter :
    (k : Text) (fs : Fields) → StartsAfter k fs → IsSorted fs → find_field k fs ≡ none
unfolding find_field
find_field-StartsAfter k end a s = refl
find_field-StartsAfter k (field j v fs) a s = ground (
  arith,
  text_lt_asym k j a,
  text_eq_iff j k,
  text_lt_irrefl k,
  find_field-StartsAfter k fs (StartsAfter-trans k j fs a s.0) s.1,
)

set_field-StartsAfter :
    (j k : Text) (v : Json) (fs : Fields)
    → text_lt j k ≡ true
    → StartsAfter j fs
    → StartsAfter j (set_field k v fs)
unfolding set_field
set_field-StartsAfter j k v end h a = h
set_field-StartsAfter j k v (field i w fs) h a = elim (Bool-cases (i =? k)) [
  | inl e ↦ rw e h
  | inr e ↦ elim (Bool-cases (text_lt k i)) [ inl l ↦ rw (e, l) h | inr l ↦ rw (e, l) a ]
]

pub set_field-IsSorted :
    (k : Text) (v : Json) (fs : Fields) → IsSorted fs → IsSorted (set_field k v fs)
unfolding set_field
set_field-IsSorted k v end s = (tt, tt)
set_field-IsSorted k v (field i w fs) s = elim (Bool-cases (i =? k)) [
  | inl e ↦ rw e (rw (← =?→eq i k e) s)
  | inr e ↦ elim (Bool-cases (text_lt k i)) [
    | inl l ↦ rw (e, l) (l, s)
    | inr l ↦
        let after : text_lt i k ≡ true =
          ground (arith, text_lt_total k i, text_eq_iff i k, text_eq_iff k i) in
        rw (e, l) (set_field-StartsAfter i k v fs after s.0, set_field-IsSorted k v fs s.1)
  ]
]
