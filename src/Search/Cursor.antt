-- ===== src/Search/Cursor.antt =====
-- search/cursor.py: the position of a page, and its form on the wire.
use cavallo_app.Prelude.{
  ltb, ◌||◌, none, [], ◌∷◌, weight, text_eq, some, not, negsuc, length, ◌==◌, ◌&&◌, ℤ, true, text,
  pos, leb, if◌then◌else◌, false, ℕ, Text, Option, List, Bool,
}
use cavallo_app.Payments.Json.{
  get, Float, Json, Fields, integer, real, string, array, object, no_fields, field,
}

pub data Mode : Type 0 where
  relevance recency : Mode

pub data ResultType : Type 0 where
  business product : ResultType

-- `CONTENT_TYPE_RANK`
abbrev pub type_rank : ResultType → ℕ
type_rank ResultType.business = 0
type_rank ResultType.product = 1

-- `secondary` is the place of the rank among the floats, in the database's order, or the time
pub record SearchCursor : Type 0 where
  pub mode : Mode
  pub is_featured : Bool
  pub secondary : ℕ
  pub content_type : ResultType
  pub object_id : ℕ

abbrev pub max_cursor_length : ℕ
max_cursor_length = 512

-- What Python's call gives: its value, a ValueError, or another exception.
pub data Parsed {ℓ} (A : Type ℓ) : Type ℓ where
  value : A → Parsed A
  value_error : Parsed A
  uncaught : Parsed A

-- What the code takes from Python: `json.dumps` and `urlsafe_b64encode` without the padding, its
-- inverse with `none` for a ValueError, the JSON of a float, `float`, `isoformat`, and
-- `fromisoformat`, whose ValueErrors are those of a time without a zone as well.
pub record Wire : Type 0 where
  pub dumps : Json → Text
  pub loads : Text → Option Json
  pub real_of : ℕ → Float
  pub float_of : Json → Parsed ℕ
  pub isoformat : ℕ → Text
  pub fromisoformat : Text → Parsed ℕ

abbrev pub wire_mode : Mode → Text
wire_mode Mode.relevance = text "r"
wire_mode Mode.recency = text "c"

abbrev pub type_name : ResultType → Text
type_name ResultType.business = text "business"
type_name ResultType.product = text "product"

abbrev pub secondary_json : Wire → Mode → ℕ → Json
secondary_json w Mode.relevance n = real (w.real_of n)
secondary_json w Mode.recency n = string (w.isoformat n)

-- the payload of `encode_cursor`, in the order of its sorted keys
abbrev pub cursor_payload : Wire → SearchCursor → Fields
cursor_payload w c = field (text "ft") (integer (pos (weight c.is_featured))) (
    field (text "id") (integer (pos c.object_id)) (
      field (text "m") (string (wire_mode c.mode)) (
        field (text "sec") (secondary_json w c.mode c.secondary) (
          field (text "t") (string (type_name c.content_type))
            (field (text "v") (integer (pos 1)) no_fields)))))

unfoldable pub encode_cursor : Wire → SearchCursor → Text
encode_cursor w c = w.dumps (object (cursor_payload w c))

-- a character of `[A-Za-z0-9_-]`
abbrev pub is_token_char : ℕ → Bool
is_token_char c =
    (leb 48 c && leb c 57)
    || (leb 65 c && leb c 90)
    || (leb 97 c && leb c 122)
    || c == 95
    || c == 45

-- what may follow the first character: a `$` also matches in front of a last line feed
abbrev pub token_rest : Text → Bool
token_rest [] = true
token_rest (c ∷ cs) =
    let rest = token_rest cs in (is_token_char c && rest) || (c == 10 && length cs == 0)

-- `_TOKEN_PATTERN`
abbrev pub token_pattern : Text → Bool
token_pattern [] = false
token_pattern (c ∷ cs) = is_token_char c && token_rest cs

abbrev pub cursor_keys : List Text
cursor_keys = text "ft" ∷ text "id" ∷ text "m" ∷ text "sec" ∷ text "t" ∷ text "v" ∷ []

abbrev pub is_one_of : Text → List Text → Bool
is_one_of key [] = false
is_one_of key (k ∷ ks) = text_eq k key || is_one_of key ks

-- the keys of the dict are among these
abbrev pub only_keys : List Text → Fields → Bool
only_keys ks no_fields = true
only_keys ks (field k v rest) = is_one_of k ks && only_keys ks rest

abbrev pub has_key : Text → Fields → Bool
has_key key no_fields = false
has_key key (field k v rest) = text_eq k key || has_key key rest

abbrev pub has_keys : List Text → Fields → Bool
has_keys [] dict = true
has_keys (k ∷ ks) dict = has_key k dict && has_keys ks dict

-- `type(v) is int and v == n`
abbrev pub is_int : ℕ → Json → Bool
is_int n (integer (pos k)) = k == n
is_int n _ = false

-- `_WIRE_MODE[payload["m"]]`; a list or a dict has no hash
abbrev pub mode_of : Json → Parsed Mode
mode_of (string s) =
    if text_eq s (text "r")
    then Parsed.value Mode.relevance
    else if text_eq s (text "c")
    then Parsed.value Mode.recency
    else Parsed.value_error
mode_of (array _) = Parsed.uncaught
mode_of (object _) = Parsed.uncaught
mode_of _ = Parsed.value_error

abbrev pub same_mode : Mode → Mode → Bool
same_mode Mode.relevance Mode.relevance = true
same_mode Mode.recency Mode.recency = true
same_mode _ _ = false

abbrev pub flag_of : Json → Option Bool
flag_of v = if is_int 0 v then some false else if is_int 1 v then some true else none

abbrev pub type_of : Json → Option ResultType
type_of (string s) =
    if text_eq s (text "business")
    then some ResultType.business
    else if text_eq s (text "product")
    then some ResultType.product
    else none
type_of _ = none

abbrev pub id_of : Json → Option ℤ
id_of (integer n) = some n
id_of _ = none

-- the check of the type of `sec`, and its value
abbrev pub secondary_of : Wire → Mode → Json → Parsed ℕ
secondary_of w Mode.relevance (integer n) = w.float_of (integer n)
secondary_of w Mode.relevance (real x) = w.float_of (real x)
secondary_of w Mode.recency (string s) = w.fromisoformat s
secondary_of w _ _ = Parsed.value_error

-- `SearchCursor.__post_init__`: the id is positive
abbrev pub post_init : Mode → Bool → ResultType → ℤ → ℕ → Parsed SearchCursor
post_init mode ft t (negsuc n) secondary = Parsed.value_error
post_init mode ft t (pos n) secondary =
    if n == 0
    then Parsed.value_error
    else Parsed.value record {
      mode = mode;
      is_featured = ft;
      secondary = secondary;
      content_type = t;
      object_id = n;
    }

abbrev pub build_cursor :
    Wire → Mode → Option Bool → Option ResultType → Option ℤ → Json → Parsed SearchCursor
build_cursor w mode (some ft) (some t) (some id) sec = elim (secondary_of w mode sec) [
  | Parsed.value secondary ↦ post_init mode ft t id secondary
  | Parsed.value_error ↦ Parsed.value_error
  | Parsed.uncaught ↦ Parsed.uncaught
]
build_cursor w mode _ _ _ sec = Parsed.value_error

-- `decode_cursor` from the payload on
unfoldable pub decode_payload : Wire → Mode → Json → Parsed SearchCursor
decode_payload w expected (object dict) =
    if not (only_keys cursor_keys dict && has_keys cursor_keys dict)
      || not (is_int 1 (get (text "v") dict))
    then Parsed.value_error
    else elim (mode_of (get (text "m") dict)) [
      | Parsed.value_error ↦ Parsed.value_error
      | Parsed.uncaught ↦ Parsed.uncaught
      | Parsed.value mode ↦
          if same_mode mode expected
          then build_cursor w mode (flag_of (get (text "ft") dict)) (type_of (get (text "t") dict))
              (id_of (get (text "id") dict)) (get (text "sec") dict)
          else Parsed.value_error
    ]
decode_payload w expected _ = Parsed.value_error

-- `decode_cursor`; a ValueError is its InvalidCursorError
unfoldable pub decode_cursor : Wire → Text → Mode → Parsed SearchCursor
unfolding decode_payload
decode_cursor w token expected =
    if length token == 0 || ltb max_cursor_length (length token) || not (token_pattern token)
    then Parsed.value_error
    else elim (w.loads token) [
      | none ↦ Parsed.value_error
      | some json ↦ decode_payload w expected json
    ]
