-- ===== src/Template/Renderer/Constants.antt =====
-- A template without placeholders is rendered as it is.
use task_hub.Json.Sorted.{StartsAfter, text_lt_asym}
use task_hub.Template.Types.{ParamMap}
use task_hub.Template.Renderer.{
  ◌>>=◌, param_inject, break_at_pair, Printers, render_node, render_string, done, render_from,
  render_fields, render_items,
}
use task_hub.Prelude.{Text, ◌≡◌, refl, arith, text_lt, true, none, ap, sym, ◌∙◌, text_lt_trans}
use task_hub.Json.{Json, Items, Fields, field, object, set_field, end, array, cons, nil, null}

-- No text has two opening braces in a row, no object is an injection, and the members of an object
-- are in the order of their keys.
unfoldable mutual
  pub IsConstant : Json → Type 0
  IsConstant (object fs) = (param_inject fs ≡ none) × AreConstant fs
  IsConstant (array xs) = AllConstant xs
  IsConstant (Json.string s) = break_at_pair b'{' s ≡ none
  IsConstant _ = Unit {0}

  pub AreConstant : Fields → Type 0
  AreConstant end = Unit {0}
  AreConstant (field k v fs) = StartsAfter k fs × IsConstant v × AreConstant fs

  pub AllConstant : Items → Type 0
  AllConstant nil = Unit {0}
  AllConstant (cons x xs) = IsConstant x × AllConstant xs

append_fields : Fields → Fields → Fields
append_fields end gs = gs
append_fields (field k v fs) gs = field k v (append_fields fs gs)

-- All keys come before the given one.
abbrev AllBefore : Text → Fields → Type 0
AllBefore k end = Unit {0}
AllBefore k (field j v fs) = (text_lt j k ≡ true) × AllBefore k fs

set_field-last :
    (k : Text) (v : Json) (out : Fields)
    → AllBefore k out
    → set_field k v out ≡ append_fields out (field k v end)
unfolding set_field append_fields
set_field-last k v end h = refl
set_field-last k v (field j w fs) h = ground (arith, text_lt_asym j k, set_field-last k v fs h.1)

append_fields-end : (fs : Fields) → append_fields fs end ≡ fs
unfolding append_fields
append_fields-end end = refl
append_fields-end (field k v fs) = ap (field k v) (append_fields-end fs)

append_fields_snoc :
    (out fs : Fields) (k : Text) (v : Json)
    → append_fields (append_fields out (field k v end)) fs ≡ append_fields out (field k v fs)
unfolding append_fields
append_fields_snoc end fs k v = refl
append_fields_snoc (field j w out) fs k v = ap (field j w) (append_fields_snoc out fs k v)

AllBefore-later :
    (j k : Text) (out : Fields) → text_lt j k ≡ true → AllBefore j out → AllBefore k out
AllBefore-later j k end h b = tt
AllBefore-later j k (field i w out) h b = (text_lt_trans i j k b.0 h, AllBefore-later j k out h b.1)

AllBefore-snoc :
    (k j : Text) (v : Json) (out : Fields)
    → AllBefore k out
    → text_lt j k ≡ true
    → AllBefore k (append_fields out (field j v end))
unfolding append_fields
AllBefore-snoc k j v end b h = (h, tt)
AllBefore-snoc k j v (field i w out) b h = (b.0, AllBefore-snoc k j v out b.1 h)

abbrev Precedes : Fields → Fields → Type 0
Precedes out end = Unit {0}
Precedes out (field k v fs) = AllBefore k out

Precedes-snoc :
    (k : Text) (v : Json) (out fs : Fields)
    → AllBefore k out
    → StartsAfter k fs
    → Precedes (append_fields out (field k v end)) fs
Precedes-snoc k v out end b h = tt
Precedes-snoc k v out (field j w fs) b h = AllBefore-snoc j k v out (AllBefore-later k j out h b) h

Precedes-end : (fs : Fields) → Precedes end fs
Precedes-end end = tt
Precedes-end (field k v fs) = tt

module _ (print : Printers) (resolved : ParamMap) where
  render_string-constant :
      (s : Text) → break_at_pair b'{' s ≡ none → render_string print resolved s ≡ done s
  unfolding render_string render_from
  render_string-constant s h = ground (arith, h)

  render_node-object :
      (fs : Fields)
      → param_inject fs ≡ none
      → render_node print resolved (object fs)
        ≡ (render_fields print resolved fs end >>= λ fs'. done (object fs'))
  unfolding render_node
  render_node-object fs h = ground (arith, h)

  mutual
    unfolding render_node IsConstant append_fields

    node : (j : Json) → IsConstant j → render_node print resolved j ≡ done j
    node (object fs) h = render_node-object fs h.0 ∙ (rw (fields fs end h.1 (Precedes-end fs)) refl)
    node (array xs) h = rw (items xs h) refl
    node (Json.string s) h = rw (render_string-constant s h) refl
    node null h = refl
    node _ h = refl

    fields :
        (fs out : Fields)
        → AreConstant fs
        → Precedes out fs
        → render_fields print resolved fs out ≡ done (append_fields out fs)
    fields end out h p = ap done (sym (append_fields-end out))
    fields (field k v fs) out h p =
        rw (node v h.1, set_field-last k v out p)
          (fields fs (append_fields out (field k v end)) h.2 (Precedes-snoc k v out fs p h.0)
            ∙ ap done (append_fields_snoc out fs k v))

    items : (xs : Items) → AllConstant xs → render_items print resolved xs ≡ done xs
    items nil h = refl
    items (cons x xs) h = rw (node x h.0, items xs h.1) refl

  -- A template in which no text has two opening braces in a row and no object is an injection, with
  -- its members in order, is rendered as it is, whatever the parameters.
  pub render_node-constant : (j : Json) → IsConstant j → render_node print resolved j ≡ done j
  render_node-constant j h = node j h
