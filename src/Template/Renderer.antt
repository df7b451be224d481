-- ===== src/Template/Renderer.antt =====
-- server/src/template/template_renderer.cpp. The loops over a text work on what is left of it. The
-- texts of numbers, objects and arrays are parameters.
pub mod Pieces
pub mod Constants
use task_hub.Prelude.{
  ℕ, Text, Text-Eq, text, List, [], ◌∷◌, ◌++◌, ◌=?◌, ◌==◌, Option, none, some, ◌||◌, ◌&&◌, Bool,
  find, if◌then◌else◌, suc, false, is_empty, leb, length, true, zero, ltb, pos, ◌-ℤ◌, ℤ,
}
use task_hub.Json.{
  Json, Items, Fields, field, boolean, object, end, find_field, array, set_field, cons, nil,
  integer, unsigned, float,
}
use task_hub.Template.Types.{ParamMap}

-- A value, or the text of `err`, which is never empty.
pub data Rendered (A : Type 0) : Type 0 where
  done : A → Rendered A
  failed : Text → Rendered A

infixl 5 ◌>>=◌
abbrev pub ◌>>=◌ : {A B : Type 0} → Rendered A → (A → Rendered B) → Rendered B
done a >>= f = f a
failed e >>= f = failed e

-- What comes before and after the first place where the character stands twice in a row.
unfoldable pub break_at_pair : ℕ → Text → Option (Text × Text)
break_at_pair c [] = none
break_at_pair c (x ∷ []) = none
break_at_pair c (x ∷ y ∷ s) =
    let later = break_at_pair c (y ∷ s) in
    if (x == c) && (y == c)
    then some ([], s)
    else elim later [ none ↦ none | some (before, after) ↦ some (x ∷ before, after) ]

-- `std::isspace` in the C locale.
unfoldable pub is_space : ℕ → Bool
is_space c = (c == 32) || (leb 9 c && leb c 13)

unfoldable pub trim_front : Text → Text
trim_front [] = []
trim_front (c ∷ s) = let rest = trim_front s in if is_space c then rest else c ∷ s

unfoldable pub trim_back : Text → Text
trim_back [] = []
trim_back (c ∷ s) = let rest = trim_back s in if is_empty rest && is_space c then [] else c ∷ rest

-- The parts between dots, after what has been read of the first.
unfoldable pub split_dots : Text → Text → List Text
split_dots cur [] = cur ∷ []
split_dots cur (c ∷ s) =
    let next = split_dots [] s in
    let longer = split_dots (cur ++ c ∷ []) s in if c == b'.' then cur ∷ next else longer

unfoldable pub has_dot : Text → Bool
has_dot [] = false
has_dot (c ∷ s) = let rest = has_dot s in if c == b'.' then true else rest

-- The walk down from a value; `previous` is the part before.
unfoldable pub walk_path : Text → List Text → Json → Rendered Json
walk_path previous [] cur = done cur
walk_path previous (k ∷ ks) cur = elim cur [
  | object fs ↦ elim (find_field k fs) [
    | none ↦ failed (text "missing param field: " ++ k)
    | some v ↦ walk_path k ks v
  ]
  | _ ↦ failed (text "param is not object: " ++ previous)
]

unfoldable pub walk_parts : ParamMap → List Text → Rendered Json
walk_parts resolved [] = failed (text "empty param path")
walk_parts resolved (k ∷ ks) = elim (find k resolved) [
  | none ↦ failed (text "missing param: " ++ k)
  | some v ↦ walk_path k ks v
]

unfoldable pub resolve_param_path : ParamMap → Text → Rendered Json
resolve_param_path resolved path = walk_parts resolved (split_dots [] path)

-- The value of a placeholder.
unfoldable pub value_of_key : ParamMap → Text → Rendered Json
value_of_key resolved key =
    if has_dot key then resolve_param_path resolved key else elim (find key resolved) [
      | none ↦ failed (text "missing param: " ++ key)
      | some v ↦ done v
    ]

-- `std::to_string` of a number, and the library's text of any other value.
pub record Printers : Type 0 where
  pub of_long : ℤ → Text
  pub of_float : ℕ → Text
  pub dump : Json → Text

-- An unsigned number as a `long long`.
unfoldable pub to_long : ℕ → ℤ
to_long n = if ltb n 9223372036854775808 then pos n else (pos n -ℤ pos 18446744073709551616)

module _ (print : Printers) where
  unfoldable pub param_to_string : Json → Text
  param_to_string (Json.string s) = s
  param_to_string (boolean true) = text "true"
  param_to_string (boolean false) = text "false"
  param_to_string (integer i) = print.of_long i
  param_to_string (unsigned n) = print.of_long (to_long n)
  param_to_string (float bits) = print.of_float bits
  param_to_string v = print.dump v

-- `isParamInject_`: the path of an object whose one member is `$param`, with a text.
unfoldable pub param_inject : Fields → Option Text
param_inject (field k (Json.string path) end) = if k =? text "$param" then some path else none
param_inject _ = none

module _ (print : Printers) (resolved : ParamMap) where
  -- One pass of the loop takes at least four characters, so that the length is fuel enough.
  unfoldable pub render_from : ℕ → Text → Rendered Text
  render_from zero s = done []
  render_from (suc fuel) s = elim (break_at_pair b'{' s) [
    | none ↦ done s
    | some (before, opened) ↦ elim (break_at_pair b'}' opened) [
      | none ↦ done s
      | some (name, after) ↦ do
        v ← value_of_key resolved (trim_back (trim_front name))
        rest ← render_from fuel after
        done (before ++ (param_to_string print v ++ rest))
    ]
  ]

  unfoldable pub render_string : Text → Rendered Text
  render_string s = render_from (suc (length s)) s

  unfoldable mutual
    pub render_node : Json → Rendered Json
    render_node (object fs) = elim (param_inject fs) [
      | some path ↦ resolve_param_path resolved path
      | none ↦ do fs' ← render_fields fs end; done (object fs')
    ]
    render_node (array xs) = do xs' ← render_items xs; done (array xs')
    render_node (Json.string s) = do s' ← render_string s; done (Json.string s')
    render_node v = done v

    -- `obj[kv.key()] = …` for each member, onto the members that are there.
    pub render_fields : Fields → Fields → Rendered Fields
    render_fields end out = done out
    render_fields (field k v fs) out = do v' ← render_node v; render_fields fs (set_field k v' out)

    pub render_items : Items → Rendered Items
    render_items nil = done nil
    render_items (cons v vs) = do v' ← render_node v; vs' ← render_items vs; done (cons v' vs')
