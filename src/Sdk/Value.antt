-- ===== src/Sdk/Value.antt =====
-- Values of the program's `unknown`: what `JSON.parse` and the YAML parser return.
use openpalm.Base.{
  ℕ, Bool, false, ◌∷◌, [], List, Option, none, some, Text, text_eq, ◌==◌, if◌then◌else◌,
}

mutual
  pub data Value : Type 0 where
    undefined : Value
    null : Value
    bool : Bool → Value
    number : ℕ → Value
    string : Text → Value
    array : Items → Value
    object : Fields → Value

  pub data Items : Type 0 where
    nil : Items
    cons : Value → Items → Items

  pub data Fields : Type 0 where
    end : Fields
    field : Text → Value → Fields → Fields

-- The elements of an array.
abbrev pub items : Items → List Value
items nil = []
items (cons v vs) = v ∷ items vs

-- The own property of a name, `undefined` where there is none.
unfoldable pub property : Text → Fields → Value
property key end = undefined
property key (field k v fs) = if k == key then v else property key fs

-- `o.key` on a value that may be no object at all: `undefined`, as `?.` gives.
abbrev pub as_record : Value → Option Fields
as_record (object fs) = some fs
as_record _ = none

abbrev pub is_true : Value → Bool
is_true (bool b) = b
is_true _ = false

-- `v === "..."`
abbrev pub is_text : Text → Value → Bool
is_text t (string s) = s == t
is_text t _ = false
