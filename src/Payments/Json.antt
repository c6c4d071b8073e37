-- ===== src/Payments/Json.antt =====
-- The values that `json.loads` returns, and what payments/gateways/paymob.py and payments/views.py
-- ask of them.

use cavallo_app.Prelude.{
  ◌+◌, ◌∷◌, negsuc, int_eq, text_eq, str_nat, not, [], true, text, some, pos, none, if◌then◌else◌,
  false, ℤ, Text, Option, Bool,
}

-- A float: its `str`, and whether it is zero.
pub record Float : Type 0 where
  pub printed : Text
  pub is_zero : Bool

mutual
  pub data Json : Type 0 where
    null : Json
    boolean : Bool → Json
    integer : ℤ → Json
    real : Float → Json
    string : Text → Json
    array : Items → Json
    object : Fields → Json

  pub data Items : Type 0 where
    no_items : Items
    item : Json → Items → Items

  -- a dict: its keys are distinct
  pub data Fields : Type 0 where
    no_fields : Fields
    field : Text → Json → Fields → Fields

-- What the code takes from Python: `str.lower`, `str.strip`, `str.isdigit`, `int` of a text with `none`
-- for its ValueError, and `str` of a list or a dict.
pub record Python : Type 0 where
  pub lower : Text → Text
  pub strip : Text → Text
  pub is_digit : Text → Bool
  pub int_of : Text → Option ℤ
  pub repr : Json → Text

-- `key in fields` and `fields[key]`
unfoldable pub get_item : Text → Fields → Option Json
get_item key no_fields = none
get_item key (field k v rest) =
    let later = get_item key rest in if text_eq k key then some v else later

-- `fields.get(key)`
abbrev pub get : Text → Fields → Json
get key fields = elim (get_item key fields) [ none ↦ null | some v ↦ v ]

-- `value in (None, "")`
abbrev pub is_blank : Json → Bool
is_blank null = true
is_blank (string s) = text_eq s []
is_blank _ = false

abbrev pub is_null : Json → Bool
is_null null = true
is_null _ = false

-- `bool(value)`
abbrev pub is_truthy : Json → Bool
is_truthy null = false
is_truthy (boolean b) = b
is_truthy (integer n) = not (int_eq n (pos 0))
is_truthy (real x) = not x.is_zero
is_truthy (string s) = not (text_eq s [])
is_truthy (array no_items) = false
is_truthy (array (item _ _)) = true
is_truthy (object no_fields) = false
is_truthy (object (field _ _ _)) = true

-- `str` of an integer; 45 is the minus sign
abbrev pub str_int : ℤ → Text
str_int (pos n) = str_nat n
str_int (negsuc n) = 45 ∷ str_nat (n + 1)

-- `str(value)`
abbrev pub str : Python → Json → Text
str py null = text "None"
str py (boolean b) = if b then text "True" else text "False"
str py (integer n) = str_int n
str py (real x) = x.printed
str py (string s) = s
str py value = py.repr value

-- the dict that a value is
abbrev pub as_dict : Json → Option Fields
as_dict (object fields) = some fields
as_dict _ = none

-- `value if isinstance(value, dict) else {}`
abbrev pub dict_or_empty : Json → Fields
dict_or_empty (object fields) = fields
dict_or_empty _ = no_fields

-- `value` if it is an int and no bool, or else None
abbrev pub int_or_none : Json → Option ℤ
int_or_none (integer n) = some n
int_or_none _ = none

-- `str(value or "")`
abbrev pub str_or_empty : Python → Json → Text
str_or_empty py value = if is_truthy value then str py value else []

-- `"" if value is None else str(value)`
abbrev pub str_or_none : Python → Json → Text
str_or_none py value = if is_null value then [] else str py value
