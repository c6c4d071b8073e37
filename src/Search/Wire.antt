-- ===== src/Search/Wire.antt =====
-- search/cursor.py: a cursor that is written and read back.
use cavallo_app.Prelude.{
  [], ◌∷◌, ◌==◌, refl, false, arith, Text, weight, pos, some, true, if◌then◌else◌, ◌≡◌, ◌≤◌, ℕ,
  length, Bool,
}
use cavallo_app.Payments.Json.{get_item, integer, real, string, object}
use cavallo_app.Search.Cursor.{
  wire_mode, secondary_of, mode_of, secondary_json, type_name, type_of, cursor_payload, flag_of,
  same_mode, token_pattern, Parsed, max_cursor_length, encode_cursor, decode_payload, Mode,
  ResultType, Wire, SearchCursor, decode_cursor,
}

-- What the wire does with one cursor: its token fits and reads as its cursor_payload, and the float or the
-- time of the payload reads as the one it was written from.
pub record Carries (w : Wire) (c : SearchCursor) : Type 0 where
  pub short : length (encode_cursor w c) ≤ max_cursor_length
  pub letters : token_pattern (encode_cursor w c) ≡ true
  pub reads : w.loads (encode_cursor w c) ≡ some (object (cursor_payload w c))
  pub float : w.float_of (real (w.real_of c.secondary)) ≡ Parsed.value c.secondary
  pub time : w.fromisoformat (w.isoformat c.secondary) ≡ Parsed.value c.secondary

flag_of-weight : (b : Bool) → flag_of (integer (pos (weight b))) ≡ some b
flag_of-weight true = refl
flag_of-weight false = refl

type_of-name : (t : ResultType) → type_of (string (type_name t)) ≡ some t
type_of-name ResultType.business = refl
type_of-name ResultType.product = refl

mode_of-wire : (m : Mode) → mode_of (string (wire_mode m)) ≡ Parsed.value m
mode_of-wire Mode.relevance = refl
mode_of-wire Mode.recency = refl

secondary_of-json :
    (w : Wire) (mode : Mode) (n : ℕ)
    → w.float_of (real (w.real_of n)) ≡ Parsed.value n
    → w.fromisoformat (w.isoformat n) ≡ Parsed.value n
    → secondary_of w mode (secondary_json w mode n) ≡ Parsed.value n
secondary_of-json w Mode.relevance n float time = float
secondary_of-json w Mode.recency n float time = time

length-token_pattern : (t : Text) → token_pattern t ≡ true → (length t == 0) ≡ false
length-token_pattern [] h = absurd (ground (arith, h))
length-token_pattern (c ∷ cs) h = ground arith

decode_payload-cursor_payload :
    (w : Wire) (c : SearchCursor) (expected : Mode)
    → 1 ≤ c.object_id
    → Carries w c
    → decode_payload w expected (object (cursor_payload w c))
      ≡ (if same_mode c.mode expected then Parsed.value c else Parsed.value_error)
unfolding decode_payload get_item
decode_payload-cursor_payload w c expected low carries =
    let secondary = secondary_of-json w c.mode c.secondary carries.float carries.time in
    ground (
      arith,
      low,
      flag_of-weight c.is_featured,
      type_of-name c.content_type,
      mode_of-wire c.mode,
      secondary,
    )

-- A cursor of a positive id, whose token the wire carries, is read back from its token in its own
-- mode, and refused in the other.
pub decode-encode :
    (w : Wire) (c : SearchCursor) (expected : Mode)
    → 1 ≤ c.object_id
    → Carries w c
    → decode_cursor w (encode_cursor w c) expected
      ≡ (if same_mode c.mode expected then Parsed.value c else Parsed.value_error)
unfolding decode_cursor
decode-encode w c expected low carries = ground (
  arith,
  carries.short,
  carries.letters,
  carries.reads,
  length-token_pattern (encode_cursor w c) carries.letters,
  decode_payload-cursor_payload w c expected low carries,
)
