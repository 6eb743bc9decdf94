-- ===== src/Content/Values.antt =====
-- The JSON values of declarations and payloads, and their comparison in Python.
use new_mud_codex.Shared.{
  ℕ, Bool, true, false, ◌&&◌, Option, none, some, ◌==◌, ℕ_equality, if◌then◌else◌, ◌+◌, List, [],
  ◌∷◌,
}
use new_mud_codex.Shared.Text.{Text, Text_equality}

-- A number is an integer; `negative n` is -(n + 1).
mutual
  pub data Value : Type 0 where
    null : Value
    bool : Bool → Value
    int negative : ℕ → Value
    str : Text → Value
    array : Items → Value
    object : Fields → Value

  pub data Items : Type 0 where
    nil : Items
    cons : Value → Items → Items

  pub data Fields : Type 0 where
    end : Fields
    field : Text → Value → Fields → Fields

-- `d.get(key)`
abbrev pub get_field : Text → Fields → Option Value
get_field k end = none
get_field k (field j v fs) = let rest = get_field k fs in if j == k then some v else rest

-- `len(d)`
abbrev pub count_fields : Fields → ℕ
count_fields end = 0
count_fields (field k v fs) = count_fields fs + 1

abbrev pub list_items : Items → List Value
list_items nil = []
list_items (cons v vs) = v ∷ list_items vs

abbrev pub from_list : List Value → Items
from_list [] = nil
from_list (v ∷ vs) = cons v (from_list vs)

-- A Boolean is the number 0 or 1.
abbrev number : Value → Option (Bool × ℕ)
number (int n) = some (true, n)
number (negative n) = some (false, n)
number (bool b) = some (true, if b then 1 else 0)
number _ = none

abbrev bool_eq : Bool → Bool → Bool
bool_eq true true = true
bool_eq false false = true
bool_eq _ _ = false

abbrev same_number : Option (Bool × ℕ) → Option (Bool × ℕ) → Bool
same_number (some (s, n)) (some (t, k)) = bool_eq s t && n == k
same_number _ _ = false

-- `a == b`: the order of the keys of an object does not matter
unfoldable mutual
  pub value_eq : Value → Value → Bool
  value_eq null null = true
  value_eq (str s) (str t) = s == t
  value_eq (array xs) (array ys) = items_eq xs ys
  value_eq (object fs) (object gs) = count_fields fs == count_fields gs && fields_in fs gs
  value_eq a b = same_number (number a) (number b)

  pub items_eq : Items → Items → Bool
  items_eq nil nil = true
  items_eq (cons v vs) (cons w ws) = value_eq v w && items_eq vs ws
  items_eq _ _ = false

  pub fields_in : Fields → Fields → Bool
  fields_in end gs = true
  fields_in (field k v fs) gs =
      elim (get_field k gs) [ none ↦ false | some w ↦ value_eq v w ] && fields_in fs gs
