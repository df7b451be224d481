-- ===== src/Json.antt =====
-- JSON values as the server passes them about: what the calls of the JSON library take and give.
pub mod Sorted
use task_hub.Prelude.{
  ℕ, Text, Text-Eq, text_eq_iff, ℤ, Bool, true, false, Option, none, some, ◌=?◌, if◌then◌else◌,
  text_lt, ◌≡◌, refl, arith, List, [], ◌∷◌, pos_part, neg_part, ◌≤◌,
}

-- An object keeps its members as a std::map does, in the order of their keys. A floating-point
-- number is its 64-bit pattern.
mutual
  pub data Json : Type 0 where
    null : Json
    boolean : Bool → Json
    integer : ℤ → Json
    unsigned : ℕ → Json
    float : ℕ → Json
    string : Text → Json
    array : Items → Json
    object : Fields → Json

  pub data Items : Type 0 where
    nil : Items
    cons : Json → Items → Items

  pub data Fields : Type 0 where
    end : Fields
    field : Text → Json → Fields → Fields

-- `j[key] = v` on an object, and `find`.
unfoldable pub set_field : Text → Json → Fields → Fields
set_field k v end = field k v end
set_field k v (field j w fs) =
    let rest = set_field k v fs in
    if j =? k
    then field k v fs
    else if text_lt k j
    then field k v (field j w fs)
    else field j w rest

unfoldable pub find_field : Text → Fields → Option Json
find_field k end = none
find_field k (field j w fs) = let rest = find_field k fs in if j =? k then some w else rest

pub find_field-set_field :
    (k j : Text) (v : Json) (fs : Fields)
    → find_field j (set_field k v fs) ≡ (if k =? j then some v else find_field j fs)
unfolding find_field set_field
find_field-set_field k j v end = refl
find_field-set_field k j v (field i w fs) =
    ground (arith, text_eq_iff k j, text_eq_iff i k, text_eq_iff i j, find_field-set_field k j v fs)

-- `find` on any value: only an object has members.
abbrev pub member : Text → Json → Option Json
member k (object fs) = find_field k fs
member k _ = none

abbrev pub is_object : Json → Bool
is_object (object fs) = true
is_object _ = false

abbrev pub is_array : Json → Bool
is_array (array xs) = true
is_array _ = false

abbrev pub is_string : Json → Bool
is_string (string s) = true
is_string _ = false

abbrev pub is_null : Json → Bool
is_null null = true
is_null _ = false

abbrev pub is_boolean : Json → Bool
is_boolean (boolean b) = true
is_boolean _ = false

-- True of unsigned numbers, too.
abbrev pub is_number_integer : Json → Bool
is_number_integer (integer i) = true
is_number_integer (unsigned n) = true
is_number_integer _ = false

abbrev pub is_number : Json → Bool
is_number (integer i) = true
is_number (unsigned n) = true
is_number (float f) = true
is_number _ = false

abbrev pub items_of : List Json → Items
items_of [] = nil
items_of (x ∷ xs) = cons x (items_of xs)

-- The conversions of the library. `none` is an exception.
pub record JsonCalls : Type 0 where
  pub dump : Json → Text
  pub get_text : Json → Option Text
  pub get_bool : Json → Option Bool
  pub get_int : Json → Option ℤ
  pub get_long : Json → Option ℤ

-- The ranges of `int` and of `long long`.
abbrev pub IsInt32 : ℤ → Type 0
IsInt32 i = (pos_part i ≤ 2147483647) × (neg_part i ≤ 2147483648)

abbrev pub IsInt64 : ℤ → Type 0
IsInt64 i = (pos_part i ≤ 9223372036854775807) × (neg_part i ≤ 9223372036854775808)

-- What the server relies on: a value reads back as the type that it was written from.
pub record ReadsBack (c : JsonCalls) : Type 0 where
  pub reads_text : (s : Text) → c.get_text (string s) ≡ some s
  pub reads_bool : (b : Bool) → c.get_bool (boolean b) ≡ some b
  pub reads_int : (i : ℤ) → IsInt32 i → c.get_int (integer i) ≡ some i
  pub reads_long : (i : ℤ) → IsInt64 i → c.get_long (integer i) ≡ some i

-- `j.value(key, default)`, which throws on anything but an object.
abbrev pub value_with {ℓ} : {A : Type ℓ} → (Json → Option A) → Text → A → Json → Option A
value_with read k default (object fs) = elim (find_field k fs) [
  | none ↦ some default
  | some v ↦ read v
]
value_with read k default _ = none

-- An object to which members are assigned, one after the other.
unfoldable pub assign_fields : List (Text × Json) → Fields → Fields
assign_fields [] fs = fs
assign_fields ((k, v) ∷ kvs) fs = assign_fields kvs (set_field k v fs)

abbrev pub object_of : List (Text × Json) → Json
object_of kvs = object (assign_fields kvs end)
