-- ===== src/Json/Equality.antt =====
-- The equality test of `serde_json::Value`, and that it decides equality up to the sign of a zero. A
-- number is the text that `serde_json` prints: two finite `f64` are equal as numbers where their texts
-- are the same, or both are zeros, of which one prints as `-0.0`.
use praefectus.Prelude.{
  Bool, true, false, ◌&&◌, ◌≡◌, refl, arith, str_eq, str_eq_iff, ap, &&_split, String,
  if◌then◌else◌,
}
use praefectus.Json.{
  Value, Values, Fields, null, boolean, number, string, array, object, nil, cons, end, field,
}

abbrev bool_eq : Bool → Bool → Bool
bool_eq true b = b
bool_eq false true = false
bool_eq false false = true

-- A number without the sign of a zero.
abbrev zero_text : String → String
zero_text s = if str_eq s "-0.0" then "0.0" else s

mutual
  pub unsigned : Value → Value
  unsigned (number s) = number (zero_text s)
  unsigned (array xs) = array (unsigned_values xs)
  unsigned (object fs) = object (unsigned_fields fs)
  unsigned v = v

  unsigned_values : Values → Values
  unsigned_values nil = nil
  unsigned_values (cons v vs) = cons (unsigned v) (unsigned_values vs)

  unsigned_fields : Fields → Fields
  unsigned_fields end = end
  unsigned_fields (field k v fs) = field k (unsigned v) (unsigned_fields fs)

unfoldable mutual
  pub value_eq : Value → Value → Bool
  value_eq null null = true
  value_eq (boolean a) (boolean b) = bool_eq a b
  value_eq (number s) (number t) = str_eq (zero_text s) (zero_text t)
  value_eq (string s) (string t) = str_eq s t
  value_eq (array xs) (array ys) = values_eq xs ys
  value_eq (object fs) (object gs) = fields_eq fs gs
  value_eq _ _ = false

  pub values_eq : Values → Values → Bool
  values_eq nil nil = true
  values_eq (cons x xs) (cons y ys) = value_eq x y && values_eq xs ys
  values_eq _ _ = false

  pub fields_eq : Fields → Fields → Bool
  fields_eq end end = true
  fields_eq (field k v fs) (field j w gs) = str_eq k j && (value_eq v w && fields_eq fs gs)
  fields_eq _ _ = false

mutual
  unfolding value_eq unsigned

  eq_of_value_eq : (v w : Value) → value_eq v w ≡ true → unsigned v ≡ unsigned w
  eq_of_value_eq null null h = refl
  eq_of_value_eq (boolean a) (boolean b) h = ground arith
  eq_of_value_eq (number s) (number t) h = ap number ((str_eq_iff (zero_text s) (zero_text t)).0 h)
  eq_of_value_eq (string s) (string t) h = ap string ((str_eq_iff s t).0 h)
  eq_of_value_eq (array xs) (array ys) h = ap array (eq_of_values_eq xs ys h)
  eq_of_value_eq (object fs) (object gs) h = ap object (eq_of_fields_eq fs gs h)
  eq_of_value_eq _ _ h = ground arith

  eq_of_values_eq : (v w : Values) → values_eq v w ≡ true → unsigned_values v ≡ unsigned_values w
  eq_of_values_eq nil nil h = refl
  eq_of_values_eq (cons x xs) (cons y ys) h =
      let (p, q) = &&_split (value_eq x y) (values_eq xs ys) h in
      cc (eq_of_value_eq x y p, eq_of_values_eq xs ys q)
  eq_of_values_eq _ _ h = ground arith

  eq_of_fields_eq : (v w : Fields) → fields_eq v w ≡ true → unsigned_fields v ≡ unsigned_fields w
  eq_of_fields_eq end end h = refl
  eq_of_fields_eq (field k v fs) (field j w gs) h =
      let (p, r) = &&_split (str_eq k j) (value_eq v w && fields_eq fs gs) h in
      let (q, s) = &&_split (value_eq v w) (fields_eq fs gs) r in
      cc ((str_eq_iff k j).0 p, eq_of_value_eq v w q, eq_of_fields_eq fs gs s)
  eq_of_fields_eq _ _ h = ground arith

mutual
  unfolding value_eq

  value_eq_self : (v : Value) → value_eq v v ≡ true
  value_eq_self null = refl
  value_eq_self (boolean a) = ground arith
  value_eq_self (number s) = (str_eq_iff (zero_text s) (zero_text s)).1 refl
  value_eq_self (string s) = (str_eq_iff s s).1 refl
  value_eq_self (array xs) = values_eq_self xs
  value_eq_self (object fs) = fields_eq_self fs

  values_eq_self : (v : Values) → values_eq v v ≡ true
  values_eq_self nil = refl
  values_eq_self (cons x xs) = ground (arith, value_eq_self x, values_eq_self xs)

  fields_eq_self : (v : Fields) → fields_eq v v ≡ true
  fields_eq_self end = refl
  fields_eq_self (field k v fs) = ground (arith, str_eq_iff k k, value_eq_self v, fields_eq_self fs)

-- Values that pass the test are the same but for the signs of their zeros.
pub value_eq→≡ : (v w : Value) → value_eq v w ≡ true → unsigned v ≡ unsigned w
value_eq→≡ v w h = eq_of_value_eq v w h

pub value_eq_refl : (v : Value) → value_eq v v ≡ true
value_eq_refl v = value_eq_self v
