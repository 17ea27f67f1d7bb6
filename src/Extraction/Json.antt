-- ===== src/Extraction/Json.antt =====
-- JSON values as `json.loads` returns them, and the library functions that the parser calls on them.
use cat_graphrag.Prelude.{
  ℕ, suc, List, [], ◌∷◌, Bool, true, false, Option, none, some, if◌then◌else◌,
}
use cat_graphrag.Prelude.Keys.{Str, str_eq}

-- The keys of an object are distinct, as in any `dict`.
mutual
  pub data Json : Type 0 where
    null : Json
    boolean : Bool → Json
    number : Str → Json
    string : Str → Json
    array : Items → Json
    object : Fields → Json

  pub data Items : Type 0 where
    nil : Items
    cons : Json → Items → Items

  pub data Fields : Type 0 where
    end : Fields
    field : Str → Json → Fields → Fields

-- The elements of a JSON list.
unfoldable pub elements : Items → List Json
elements nil = []
elements (cons x xs) = x ∷ elements xs

-- item.get(key)
unfoldable pub get : Str → Fields → Option Json
get key end = none
get key (field k v fs) = if str_eq k key then some v else get key fs

-- len(value) of a dict
unfoldable pub size : Fields → ℕ
size end = 0
size (field k v fs) = suc (size fs)

-- Python's functions on texts and JSON: `loads` is `none` where `json.loads` raises JSONDecodeError,
-- `literal` is `str(value)` of a value that is no text, and `nonzero` the truth value of a number.
-- Texts on which `json.loads` raises another error, which the source does not catch, are left out.
pub record Runtime : Type 0 where
  pub loads : Str → Option Json
  pub literal : Json → Str
  pub nonzero : Str → Bool
  pub is_space : ℕ → Bool
  pub upper : Str → Str
  pub casefold : Str → Str

module _ (python : Runtime) where
  -- str(value)
  unfoldable pub str_of : Json → Str
  str_of (string s) = s
  str_of null = python.literal null
  str_of (boolean b) = python.literal (boolean b)
  str_of (number n) = python.literal (number n)
  str_of (array xs) = python.literal (array xs)
  str_of (object fs) = python.literal (object fs)

  -- The truth value of a JSON value.
  unfoldable pub is_true : Json → Bool
  is_true null = false
  is_true (boolean b) = b
  is_true (number n) = python.nonzero n
  is_true (string []) = false
  is_true (string (_ ∷ _)) = true
  is_true (array nil) = false
  is_true (array (cons _ _)) = true
  is_true (object end) = false
  is_true (object (field _ _ _)) = true

  abbrev pub of_present : Option Json → Str
  of_present none = []
  of_present (some v) = str_of v

  abbrev pub of_true : Option Json → Str
  of_true none = []
  of_true (some v) = if is_true v then str_of v else []

  -- str(item.get(key, ""))
  unfoldable pub text_at : Str → Fields → Str
  unfolding get str_of
  text_at key item = of_present (get key item)

  -- str(item.get(key) or "")
  unfoldable pub text_or_empty : Str → Fields → Str
  unfolding get str_of is_true
  text_or_empty key item = of_true (get key item)
