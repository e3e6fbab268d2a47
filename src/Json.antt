-- ===== src/Json.antt =====
-- The JSON values that a request or a response is made of (xpyd/routes/completions.py, xpyd/utils.py
-- and xpyd/errors.py). A number is an integer: no modelled code computes with a fraction.
use micro_pdproxy.Base.{
  String, Bool, true, false, List, [], ◌∷◌, if◌then◌else◌, ◌==◌, Result, ok, raise, type_error,
  attribute_error, get_or_else,
}
use micro_pdproxy.Base.Dict
use micro_pdproxy.Base.Dict.{Dict}
use micro_pdproxy.Base.Int.{ℤ, pos, eqb_ℤ}

mutual
  pub data Json : Type 0 where
    null : Json
    boolean : Bool → Json
    int : ℤ → Json
    text : String → Json
    array : Items → Json
    object : Fields → Json

  pub data Items : Type 0 where
    nil : Items
    cons : Json → Items → Items

  pub data Fields : Type 0 where
    end : Fields
    field : String → Json → Fields → Fields

-- The values of an array as a list, and back.
abbrev pub items : Items → List Json
items nil = []
items (cons x xs) = x ∷ items xs

abbrev pub to_items : List Json → Items
to_items [] = nil
to_items (x ∷ xs) = cons x (to_items xs)

-- The fields of an object as a dictionary, and back.
abbrev pub fields : Fields → Dict Json
fields end = []
fields (field k v fs) = (k, v) ∷ fields fs

abbrev pub to_fields : Dict Json → Fields
to_fields [] = end
to_fields ((k, v) ∷ d) = field k v (to_fields d)

abbrev pub dict : Dict Json → Json
dict d = object (to_fields d)

abbrev pub list : List Json → Json
list xs = array (to_items xs)

-- `bool(value)`
abbrev pub truthy : Json → Bool
truthy null = false
truthy (boolean b) = b
truthy (int n) = if eqb_ℤ n (pos 0) then false else true
truthy (text s) = if s == "" then false else true
truthy (array nil) = false
truthy (array (cons x xs)) = true
truthy (object end) = false
truthy (object (field k v fs)) = true

-- `isinstance(value, int)`, of which the Booleans are instances
abbrev pub is_int : Json → Bool
is_int (int n) = true
is_int (boolean b) = true
is_int _ = false

abbrev pub is_text : Json → Bool
is_text (text s) = true
is_text _ = false

abbrev pub is_array : Json → Bool
is_array (array xs) = true
is_array _ = false

abbrev pub is_object : Json → Bool
is_object (object fs) = true
is_object _ = false

-- The number that a value is in a sum or a comparison; TypeError for one that is none.
abbrev pub as_int : Json → Result ℤ
as_int (int n) = ok n
as_int (boolean true) = ok (pos 1)
as_int (boolean false) = ok (pos 0)
as_int _ = raise type_error

-- The dictionary of a value whose methods are called; AttributeError for one that is none.
abbrev pub as_dict : Json → Result (Dict Json)
as_dict (object fs) = ok (fields fs)
as_dict _ = raise attribute_error

-- d.get(key, default)
abbrev pub get_default : Dict Json → String → Json → Json
get_default d key value = get_or_else (Dict.get d key) value

-- d.update(other)
abbrev pub update : Dict Json → Dict Json → Dict Json
update d [] = d
update d ((k, v) ∷ other) = update (Dict.set d k v) other

-- d.pop(key, None) for each of the keys
abbrev pub delete_all : List String → Dict Json → Dict Json
delete_all [] d = d
delete_all (k ∷ ks) d = delete_all ks (Dict.delete d k)
