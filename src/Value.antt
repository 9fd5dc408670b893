-- ===== src/Value.antt =====
-- Python values, as the JSON reader produces them and as unchecked dataclass fields hold them.
use drive_sanitization_manag.Prelude.{
  all, member, ℕ, suc, String, ◌≡◌, refl, Bool, true, false, ◌&&◌, ◌||◌, Option, none, some, List,
  [], ◌∷◌, ◌==◌, ◌==ℕ◌, if◌then◌else◌,
}

-- `negsuc n` is -(n + 1). Python's integers are unbounded.
pub data ℤ : Type 0 where
  pos : ℕ → ℤ
  negsuc : ℕ → ℤ

abbrev pub int_eq : ℤ → ℤ → Bool
int_eq (pos a) (pos b) = a ==ℕ b
int_eq (negsuc a) (negsuc b) = a ==ℕ b
int_eq _ _ = false

-- `opaque` stands for every other object (a float, a tuple), by its identity.
mutual
  pub data Value : Type 0 where
    null : Value
    bool : Bool → Value
    int : ℤ → Value
    text : String → Value
    arr : Items → Value
    obj : Fields → Value
    opaque : ℕ → Value

  pub data Items : Type 0 where
    nil : Items
    cons : Value → Items → Items

  pub data Fields : Type 0 where
    end : Fields
    field : String → Value → Fields → Fields

-- `d.get(k)`, with `none` for a missing key.
abbrev pub lookup_field : String → Fields → Option Value
lookup_field k end = none
lookup_field k (field j v fs) = if j == k then some v else lookup_field k fs

abbrev pub has_key : String → Fields → Bool
has_key k end = false
has_key k (field j v fs) = j == k || has_key k fs

abbrev pub keys : Fields → List String
keys end = []
keys (field j v fs) = j ∷ keys fs

-- `d[k] = v`: in place where the key is there, else at the end.
abbrev pub set_field : String → Value → Fields → Fields
set_field k v end = field k v end
set_field k v (field j w fs) = if j == k then field j v fs else field j w (set_field k v fs)

-- `d.setdefault(k, v)`
abbrev pub set_default : String → Value → Fields → Fields
set_default k v fs = if has_key k fs then fs else set_field k v fs

-- `set(d) == {...}`
abbrev pub has_keys : List String → Fields → Bool
has_keys expected fs = all (λ k. has_key k fs) expected && all (λ k. member k expected) (keys fs)

abbrev pub text_of : Option Value → Option String
text_of (some (text s)) = some s
text_of _ = none

abbrev pub int_of : Option Value → Option ℤ
int_of (some (int n)) = some n
int_of _ = none

abbrev pub bool_of : Option Value → Option Bool
bool_of (some (bool b)) = some b
bool_of _ = none

abbrev pub optional_text_of : Option Value → Option (Option String)
optional_text_of (some null) = some none
optional_text_of (some (text s)) = some (some s)
optional_text_of _ = none

abbrev pub count_fields : Fields → ℕ
count_fields end = 0
count_fields (field k v fs) = suc (count_fields fs)

abbrev pub list_items : Items → List Value
list_items nil = []
list_items (cons v vs) = v ∷ list_items vs

abbrev pub to_items : List Value → Items
to_items [] = nil
to_items (v ∷ vs) = cons v (to_items vs)

abbrev pub to_fields : List (String × Value) → Fields
to_fields [] = end
to_fields ((k, v) ∷ kvs) = field k v (to_fields kvs)

abbrev pub bit : Bool → ℤ
bit true = pos 1
bit false = pos 0

abbrev pub is_null : Value → Bool
is_null null = true
is_null _ = false

-- Python's `==`. A Boolean equals the integer that it stands for, and the order of a dict's keys
-- does not count.
unfoldable mutual
  pub py_eq : Value → Value → Bool
  py_eq null w = is_null w
  py_eq (bool a) w = elim w [
    | bool b ↦ int_eq (bit a) (bit b)
    | int n ↦ int_eq (bit a) n
    | _ ↦ false
  ]
  py_eq (int a) w = elim w [ bool b ↦ int_eq a (bit b) | int n ↦ int_eq a n | _ ↦ false ]
  py_eq (text s) w = elim w [ text t ↦ s == t | _ ↦ false ]
  py_eq (arr xs) w = elim w [ arr ys ↦ items_eq xs ys | _ ↦ false ]
  py_eq (obj fs) w = elim w [
    | obj gs ↦ count_fields fs ==ℕ count_fields gs && fields_in fs gs
    | _ ↦ false
  ]
  py_eq (opaque n) w = elim w [ opaque m ↦ n ==ℕ m | _ ↦ false ]

  pub items_eq : Items → Items → Bool
  items_eq nil ys = elim ys [ nil ↦ true | _ ↦ false ]
  items_eq (cons x xs) ys = elim ys [ cons y zs ↦ py_eq x y && items_eq xs zs | _ ↦ false ]

  pub fields_in : Fields → Fields → Bool
  fields_in end gs = true
  fields_in (field k v fs) gs =
      elim (lookup_field k gs) [ some w ↦ py_eq v w | none ↦ false ] && fields_in fs gs

pub text-py_eq : (s t : String) → py_eq (text s) (text t) ≡ (s == t)
unfolding py_eq
text-py_eq s t = refl
