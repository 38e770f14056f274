-- ===== src/Json/Laws.antt =====
-- Documents that are built from values, for the details of internal/handler/event.go.
use reservation_worker.Base.{
  ◌≡◌, refl, String, List, [], ◌∷◌, arith, Result, ok, err, ℤ, pos, negsuc, Fits, half64,
}
use reservation_worker.Base.ResultDo.{◌>>=◌}
use reservation_worker.Json.Defs.{
  Json, Items, nil, cons, Fields, end, field, str, arr, int, string_items, strings_value, int_value,
  set_fields,
}

-- The array of some texts.
abbrev pub array_of : List String → Items
array_of [] = nil
array_of (s ∷ ss) = cons (str s) (array_of ss)

pub string_items-array_of : (ss : List String) → string_items (array_of ss) ≡ ok ss
unfolding string_items
string_items-array_of [] = refl
string_items-array_of (s ∷ ss) = ground (arith, string_items-array_of ss)

abbrev pub append_fields : Fields → Fields → Fields
append_fields end gs = gs
append_fields (field k v fs) gs = field k v (append_fields fs gs)

pub strings_value-array_of : (ss : List String) → strings_value (arr (array_of ss)) ≡ ok ss
unfolding strings_value
strings_value-array_of ss = string_items-array_of ss

pub int_value-Fits : (old z : ℤ) → Fits half64 z → int_value old (int z) ≡ ok z
unfolding int_value
int_value-Fits old (pos n) h = ground arith
int_value-Fits old (negsuc n) h = ground arith

-- A key that a struct does not set is passed over, wherever it stands in the object.
pub set_fields-ignored :
    {A : Type 0} (set_field : String → Json → A → Result A) (key : String) (v : Json)
    → ((a : A) → set_field key v a ≡ ok a)
    → (before after : Fields) (a : A)
    → set_fields set_field (append_fields before (field key v after)) a
      ≡ set_fields set_field (append_fields before after) a
unfolding set_fields
set_fields-ignored set_field key v ignored end after a = rw (ignored a)
set_fields-ignored {A} set_field key v ignored (field k w before) after a =
    go (set_field k w a) (set_fields-ignored set_field key v ignored before after)
  where
    go :
        (r : Result A)
        → ((b : A)
            → set_fields set_field (append_fields before (field key v after)) b
              ≡ set_fields set_field (append_fields before after) b)
        → (r >>= λ b. set_fields set_field (append_fields before (field key v after)) b)
          ≡ (r >>= λ b. set_fields set_field (append_fields before after) b)
    go (ok b) rest = rest b
    go (err e) rest = refl
