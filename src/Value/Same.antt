-- ===== src/Value/Same.antt =====
-- Python's `==` on the values of dictionaries. `True` is 1 and `False` is 0, an integer equals the
-- float of its value, and dictionaries are compared without regard to their order. Inside of
-- lists and dictionaries a NaN is taken for equal to itself, as it is where both hold one object:
-- Python compares their elements by identity first.
use agentic_ai_platform.Prelude.{
  ℕ, suc, ◌+◌, ◌-◌, ◌*◌, ◌/◌, ◌%◌, ◌^◌, ◌≡◌, refl, Bool, true, false, not, ◌&&◌, ◌||◌, Option, none,
  some, String, ◌==◌, nat_eq, nat_beq_iff, string_eq, leb, if◌then◌else◌,
}
use text.Mathlib.TextEquality.{eq_iff}
use agentic_ai_platform.Value.{
  Value, null, bool, int, negative, float, str, uuid, time, list, object, Fields, field, end, Items,
  cons, nil,
}

-- The bits of a float below its sign, and its exponent.
abbrev magnitude : ℕ → ℕ
magnitude bits = bits % 9223372036854775808

abbrev exponent : ℕ → ℕ
exponent bits = magnitude bits / 4503599627370496

-- Is a float of positive sign the number `n`: m * 2 ^ (e - 1075) with its hidden bit.
float_is : ℕ → ℕ → Bool
float_is bits n =
    let frac = bits % 4503599627370496 in
    let e = exponent bits in
    if e == 2047
    then false
    else if e == 0
    then frac == 0 && n == 0
    else if leb 1075 e
    then n == (4503599627370496 + frac) * 2 ^ (e - 1075)
    else 4503599627370496 + frac == n * 2 ^ (1075 - e)

is_negative_float : ℕ → Bool
is_negative_float bits = leb 9223372036854775808 bits

-- The float with these bits is the integer `n`; both zeros are 0.
float_is_int : ℕ → ℕ → Bool
unfolding float_is is_negative_float
float_is_int bits n =
    if is_negative_float bits then magnitude bits == 0 && n == 0 else float_is bits n

-- The float with these bits is -(n + 1).
float_is_negative : ℕ → ℕ → Bool
unfolding float_is is_negative_float
float_is_negative bits n = is_negative_float bits && float_is (magnitude bits) (suc n)

-- Two floats: the same bits, or both zero.
float_eq : ℕ → ℕ → Bool
float_eq a b = a == b || (magnitude a == 0 && magnitude b == 0)

abbrev bit : Bool → ℕ
bit true = 1
bit false = 0

-- The value under a key, and the dictionary without it.
unfoldable pub take_key : String → Fields → Option (Value × Fields)
take_key k end = none
take_key k (field j w d) =
    let rest = take_key k d in
    if k == j
    then some (w, d)
    else elim rest [ none ↦ none | some (v, d') ↦ some (v, field j w d') ]

-- Go on with the value that was found and the rest.
unfoldable pub with_found : Option (Value × Fields) → (Value → Fields → Bool) → Bool
with_found none f = false
with_found (some (v, d)) f = f v d

unfoldable mutual
  unfolding float_is_int float_is_negative float_eq take_key

  -- a == b
  pub value_eq : Value → Value → Bool
  value_eq null null = true
  value_eq (bool a) (bool b) = bit a == bit b
  value_eq (bool a) (int n) = bit a == n
  value_eq (bool a) (float x) = float_is_int x (bit a)
  value_eq (int n) (bool b) = n == bit b
  value_eq (int n) (int m) = n == m
  value_eq (int n) (float x) = float_is_int x n
  value_eq (negative n) (negative m) = n == m
  value_eq (negative n) (float x) = float_is_negative x n
  value_eq (float x) (bool b) = float_is_int x (bit b)
  value_eq (float x) (int n) = float_is_int x n
  value_eq (float x) (negative n) = float_is_negative x n
  value_eq (float x) (float y) = float_eq x y
  value_eq (str s) (str t) = s == t
  value_eq (uuid a) (uuid b) = a == b
  value_eq (time a) (time b) = a == b
  value_eq (list xs) (list ys) = items_eq xs ys
  value_eq (object a) (object b) = fields_eq a b
  value_eq _ _ = false

  pub fields_eq : Fields → Fields → Bool
  fields_eq end end = true
  fields_eq end (field k v d) = false
  fields_eq (field k v d) e = with_found (take_key k e) (λ w e'. value_eq v w && fields_eq d e')

  pub items_eq : Items → Items → Bool
  items_eq nil nil = true
  items_eq (cons v xs) (cons w ys) = value_eq v w && items_eq xs ys
  items_eq _ _ = false

take_key_self : (k : String) (v : Value) (d : Fields) → take_key k (field k v d) ≡ some (v, d)
unfolding take_key
take_key_self k v d = rw ((eq_iff k k).1 refl) refl

-- A float that is no number.
unfoldable pub is_nan : Value → Bool
is_nan (float x) = exponent x == 2047 && not (x % 4503599627370496 == 0)
is_nan _ = false

-- a == b of two values that are not inside of others: a NaN equals nothing.
unfoldable pub equal : Value → Value → Bool
equal a b = not (is_nan a) && value_eq a b

mutual
  unfolding value_eq float_eq with_found

  -- Every value equals itself.
  pub value_eq_refl : (v : Value) → value_eq v v ≡ true
  value_eq_refl null = refl
  value_eq_refl (bool true) = refl
  value_eq_refl (bool false) = refl
  value_eq_refl (int n) = (nat_beq_iff n n).1 refl
  value_eq_refl (negative n) = (nat_beq_iff n n).1 refl
  value_eq_refl (float x) = rw ((nat_beq_iff x x).1 refl) refl
  value_eq_refl (str s) = (eq_iff s s).1 refl
  value_eq_refl (uuid n) = (nat_beq_iff n n).1 refl
  value_eq_refl (time n) = (nat_beq_iff n n).1 refl
  value_eq_refl (list xs) = items_eq_refl xs
  value_eq_refl (object d) = fields_eq_refl d

  pub fields_eq_refl : (d : Fields) → fields_eq d d ≡ true
  fields_eq_refl end = refl
  fields_eq_refl (field k v d) = rw (take_key_self k v d) (rw (value_eq_refl v) (fields_eq_refl d))

  pub items_eq_refl : (xs : Items) → items_eq xs xs ≡ true
  items_eq_refl nil = refl
  items_eq_refl (cons v xs) = rw (value_eq_refl v) (items_eq_refl xs)

pub equal_refl : (v : Value) → is_nan v ≡ false → equal v v ≡ true
unfolding equal
equal_refl v h = rw (h, value_eq_refl v) refl
