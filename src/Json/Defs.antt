-- ===== src/Json/Defs.antt =====
-- encoding/json, as far as the program uses it: a document is the value that its text spells.
-- json.Unmarshal into the structs of internal/handler/event.go, internal/client/reservation.go and
-- internal/config/secrets.go goes key by key through the functions below.
use reservation_worker.Base.{
  ℕ, ◌-◌, String, Bool, ◌&&◌, Option, none, some, List, [], ◌∷◌, map, ℤ, half64, Error, foreign,
  Result, ok, err, leb, if◌then◌else◌, codes, eq_codes, pos_part, neg_part,
}
use reservation_worker.Base.ResultDo.{◌>>=◌}

-- `int` is a number that is spelled without a fraction and an exponent, `frac` any other number.
mutual
  pub data Json : Type 0 where
    null : Json
    bool : Bool → Json
    int : ℤ → Json
    frac : String → Json
    str : String → Json
    arr : Items → Json
    obj : Fields → Json

  pub data Items : Type 0 where
    nil : Items
    cons : Json → Items → Items

  pub data Fields : Type 0 where
    end : Fields
    field : String → Json → Fields → Fields

abbrev pub type_error : Error
type_error = foreign "json: cannot unmarshal into Go value"

-- The folding under which encoding/json compares keys: upper case, and the two letters outside
-- ASCII, U+017F and U+212A, that fold to `S` and `K`.
unfoldable pub fold_rune : ℕ → ℕ
fold_rune c =
    if leb b'a' c && leb c b'z'
    then c - 32
    else if leb 0x17f c && leb c 0x17f
    then b'S'
    else if leb 0x212a c && leb c 0x212a
    then b'K'
    else c

-- Whether a key of the document names a field with this tag.
unfoldable pub names : String → String → Bool
unfolding fold_rune
names key tag = eq_codes (map fold_rune (codes key)) (map fold_rune (codes tag))

-- A string field: null leaves it as it is.
unfoldable pub string_value : String → Json → Result String
string_value old (str s) = ok s
string_value old null = ok old
string_value old _ = err type_error

-- A field of type int or int64: a number with a fraction, or one that does not fit, is an error.
unfoldable pub int_value : ℤ → Json → Result ℤ
int_value old (int z) =
    if leb (pos_part z) (half64 - 1) && leb (neg_part z) half64 then ok z else err type_error
int_value old null = ok old
int_value old _ = err type_error

-- The elements of a []string field: null leaves a new element empty.
unfoldable pub string_items : Items → Result (List String)
unfolding string_value
string_items nil = ok []
string_items (cons v vs) = do s ← string_value "" v; rest ← string_items vs; ok (s ∷ rest)

unfoldable pub strings_value : Json → Result (List String)
unfolding string_items
strings_value (arr vs) = string_items vs
strings_value null = ok []
strings_value _ = err type_error

-- time.Time reads a text that `is_time` accepts; null leaves the time as it is.
unfoldable pub time_value : (String → Bool) → Option String → Json → Result (Option String)
time_value is_time old (str s) = if is_time s then ok (some s) else err (foreign "parsing time")
time_value is_time old null = ok old
time_value is_time old _ = err type_error

-- The keys of an object in their order. `set_field` has what each tag of the struct does, and keeps
-- the struct at a key that no tag names.
module _ {A : Type 0} (set_field : String → Json → A → Result A) where
  unfoldable pub set_fields : Fields → A → Result A
  set_fields end a = ok a
  set_fields (field key v rest) a = do b ← set_field key v a; set_fields rest b

  -- json.Unmarshal of a document into a struct that holds `a`. `none` is a text that is no JSON
  -- document, such as an empty one. null leaves the struct as it is.
  unfoldable pub unmarshal : Option Json → A → Result A
  unfolding set_fields
  unmarshal none a = err (foreign "unexpected end of JSON input")
  unmarshal (some (obj fs)) a = set_fields fs a
  unmarshal (some null) a = ok a
  unmarshal (some _) a = err type_error
