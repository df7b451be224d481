-- ===== src/Handlers/Http.antt =====
-- server/src/core/http_response.h and server/src/utils/http_params.h: requests and answers. A
-- request is what the HTTP library makes of it: its parameters are in the order of a multimap.
use task_hub.Execution.Context.{TextCalls}
use task_hub.Json.{Json, JsonCalls, integer, null, object_of, string}
use task_hub.Prelude.{
  ℤ, pos, Text, text, Text-Eq, Bool, true, false, none, some, List, [], ◌∷◌, find, if◌then◌else◌,
  ltb_ℤ, text_lt,
}

pub record Request : Type 0 where
  pub path : Text
  pub content_type : Text
  pub body : Text
  pub params : List (Text × Text)
  pub matches : List Text  -- what the pattern of the route has captured

pub record Response : Type 0 where
  pub status : ℤ
  pub content : Text

-- A handler answers, or an exception leaves it.
pub data Answer : Type 0 where
  answered : Response → Answer
  thrown : Answer

abbrev pub has_param : Text → Request → Bool
has_param k req = elim (find k req.params) [ none ↦ false | some v ↦ true ]

-- The first value, or an empty text.
abbrev pub param_value : Text → Request → Text
param_value k req = elim (find k req.params) [ none ↦ [] | some v ↦ v ]

-- `multimap::emplace`: after the values of the same key.
unfoldable pub emplace_param : Text → Text → List (Text × Text) → List (Text × Text)
emplace_param k v [] = (k, v) ∷ []
emplace_param k v ((j, w) ∷ ps) =
    let rest = emplace_param k v ps in if text_lt k j then (k, v) ∷ (j, w) ∷ ps else (j, w) ∷ rest

-- `std::clamp`.
abbrev pub clamp : ℤ → ℤ → ℤ → ℤ
clamp low high i = if ltb_ℤ i low then low else if ltb_ℤ high i then high else i

module _ (t : TextCalls) where
  unfoldable pub get_int : Text → ℤ → Request → ℤ
  get_int k default req = elim (find k req.params) [
    | none ↦ default
    | some s ↦ elim (t.stoi s) [ none ↦ default | some i ↦ i ]
  ]

module _ (c : JsonCalls) where
  -- `resp::json`: the body has a code, a message and the data, which may be null.
  unfoldable pub respond : ℤ → Json → Text → ℤ → Response
  respond code content message status = record {
    status = status;
    content = c.dump (
        object_of (
          (text "code", integer code)
          ∷ (text "message", string message)
          ∷ (text "data", content)
          ∷ []));
  }

  abbrev pub respond_ok : Json → Response
  respond_ok content = respond (pos 0) content (text "ok") (pos 200)

  abbrev pub respond_error : ℤ → Text → ℤ → Response
  respond_error code message status = respond code null message status

  abbrev pub bad_request : Text → ℤ → Response
  bad_request message code = respond code null message (pos 400)

  abbrev pub not_found : Text → ℤ → Response
  not_found message code = respond code null message (pos 404)
