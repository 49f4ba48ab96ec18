-- ===== src/Types/Json.antt =====
-- The JSON values that `json.Marshal` of encoding/json writes for the structs of pkg/types: a field
-- for each tag, but none for an empty value whose tag says omitempty.
use go_exasol.Base.Int.{ℤ, pos}
use go_exasol.Base.{zero, Bool, List, [], ◌∷◌, Option, none, some, Bytes}

mutual
  -- `value` is a value that the caller passed, as it is.
  pub data Json (V : Type 0) : Type 0 where
    null : Json V
    boolean : Bool → Json V
    number : ℤ → Json V
    text : Bytes → Json V
    value : V → Json V
    array : Items V → Json V
    object : Fields V → Json V

  pub data Items (V : Type 0) : Type 0 where
    array_end : Items V
    item : Json V → Items V → Items V

  pub data Fields (V : Type 0) : Type 0 where
    object_end : Fields V
    field : Bytes → Json V → Fields V → Fields V

module _ {V : Type 0} where
  -- The fields of a struct, some of them omitted.
  unfoldable pub fields_of : List (Bytes × Option (Json V)) → Fields V
  fields_of [] = Fields.object_end
  fields_of ((name, none) ∷ rest) = fields_of rest
  fields_of ((name, some j) ∷ rest) = Fields.field name j (fields_of rest)

  -- Under omitempty: a string, an int, a slice, and a pointer.
  abbrev pub filled_text : Bytes → Option (Json V)
  filled_text [] = none
  filled_text (c ∷ s) = some (Json.text (c ∷ s))

  abbrev pub filled_number : ℤ → Option (Json V)
  filled_number (pos zero) = none
  filled_number z = some (Json.number z)

  abbrev pub pointed : {A : Type 0} → (A → Json V) → Option A → Option (Json V)
  pointed encode none = none
  pointed encode (some a) = some (encode a)

  unfoldable pub items_of : {A : Type 0} → (A → Json V) → List A → Items V
  items_of encode [] = Items.array_end
  items_of encode (a ∷ rest) = Items.item (encode a) (items_of encode rest)

  abbrev pub array_of : {A : Type 0} → (A → Json V) → List A → Json V
  array_of encode list = Json.array (items_of encode list)

  abbrev pub filled_array : {A : Type 0} → (A → Json V) → List A → Option (Json V)
  filled_array encode [] = none
  filled_array encode (a ∷ rest) = some (array_of encode (a ∷ rest))

  -- A nil slice, or an array.
  abbrev pub slice : {A : Type 0} → (A → Json V) → Option (List A) → Json V
  slice encode none = Json.null
  slice encode (some list) = array_of encode list
