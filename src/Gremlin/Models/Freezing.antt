-- ===== src/Gremlin/Models/Freezing.antt =====
-- `_freeze_value` and `SemanticEntity.freeze_containers` of entities.py. The text of a key that is none is an
-- argument, and so is pydantic's validation of the fields, which `freeze_containers` follows.
pub mod Laws
pub mod Fields
use semconv_graph.Base.{String, Bool, true, false, [], ◌∷◌, ◌==◌, string_eq, Result, ok, err, ◌>>=◌}
use semconv_graph.Base.Dict.{insert}
use semconv_graph.Gremlin.Values.{
  Key, name, token, Value, text, scalar, mapping, sequence, tuple, Items, nil, cons, Entries, end,
  entry, Attributes,
}
use semconv_graph.Gremlin.Models.{EntityModel, as_entries}

-- `str(key)`
abbrev pub key_text : String → Key → String
key_text token_text (name n) = n
key_text token_text token = token_text

unfoldable mutual
  pub freeze_value : String → Value → Value
  freeze_value token_text (text s) = text s
  freeze_value token_text (scalar s) = scalar s
  freeze_value token_text (mapping entries) =
      mapping (as_entries (freeze_entries token_text entries []))
  freeze_value token_text (sequence items) = tuple (freeze_items token_text items)
  freeze_value token_text (tuple items) = tuple (freeze_items token_text items)

  pub freeze_items : String → Items → Items
  freeze_items token_text nil = nil
  freeze_items token_text (cons item items) =
      cons (freeze_value token_text item) (freeze_items token_text items)

  -- The dict comprehension, from a dict on.
  pub freeze_entries : String → Entries → Attributes → Attributes
  freeze_entries token_text end frozen = frozen
  freeze_entries token_text (entry key item rest) frozen =
      freeze_entries token_text rest
        (insert (key_text token_text key) (freeze_value token_text item) frozen)

-- `freeze_containers`, over the values that the fields have.
unfoldable pub freeze_containers : String → Attributes → Attributes
freeze_containers token_text [] = []
freeze_containers token_text ((alias, value) ∷ values) =
    (alias, freeze_value token_text value) ∷ freeze_containers token_text values

-- `model.model_validate(values)`: the validation of the fields, then `freeze_containers`.
unfoldable pub model_validate :
    String
    → (EntityModel → Attributes → Result String Attributes)
    → EntityModel
    → Attributes
    → Result String Attributes
model_validate token_text validate_fields model values =
    validate_fields model values >>= λ valid. ok (freeze_containers token_text valid)
