-- ===== src/Value.antt =====
-- The values that the program keeps in dictionaries of type `dict[str, Any]`: inputs, results,
-- details of trace rows. A text that is the canonical form of a UUID is `uuid`, any other is `str`.
-- The text of a time, `t.isoformat()`, is `time`. A float is its 64-bit pattern: the orchestrator stores floats and does not compute with them.
pub mod Same
use agentic_ai_platform.Prelude.{
  ℕ, zero, ◌≡◌, refl, Bool, true, false, not, String, arith, ◌==◌, nat_eq, string_eq, if◌then◌else◌,
  ◌&&◌, List, [], ◌∷◌,
}
use text.Mathlib.TextEquality.{eq_iff}

mutual
  pub data Value : Type 0 where
    null : Value
    bool : Bool → Value
    -- `int n` is n, and `negative n` is -(n + 1)
    int : ℕ → Value
    negative : ℕ → Value
    float : ℕ → Value
    str : String → Value
    uuid : ℕ → Value
    time : ℕ → Value
    list : Items → Value
    object : Fields → Value

  pub data Fields : Type 0 where
    field : String → Value → Fields → Fields
    end : Fields

  pub data Items : Type 0 where
    cons : Value → Items → Items
    nil : Items

-- A dictionary written out.
abbrev pub dict : List (String × Value) → Fields
dict [] = end
dict ((k, v) ∷ rest) = field k v (dict rest)

-- A list written out.
abbrev pub items : List Value → Items
items [] = nil
items (v ∷ rest) = cons v (items rest)

abbrev pub to_list : Items → List Value
to_list nil = []
to_list (cons v rest) = v ∷ to_list rest

-- d.get(k), which does not tell a missing key from one that holds `None`
unfoldable pub get : String → Fields → Value
get k end = null
get k (field j v d) = let rest = get k d in if j == k then v else rest

-- `k in d`
unfoldable pub contains : String → Fields → Bool
contains k end = false
contains k (field j v d) = let rest = contains k d in if j == k then true else rest

-- d.get(k, default)
unfoldable pub get_or : String → Value → Fields → Value
unfolding get contains
get_or k default d = if contains k d then get k d else default

-- d[k] = v
unfoldable pub put : String → Value → Fields → Fields
put k v end = field k v end
put k v (field j w d) = let rest = put k v d in if j == k then field j v d else field j w rest

-- d.pop(k, None)
unfoldable pub remove : String → Fields → Fields
remove k end = end
remove k (field j w d) = let rest = remove k d in if j == k then rest else field j w rest

-- {**base, **more}
unfoldable pub merge : Fields → Fields → Fields
unfolding put
merge base end = base
merge base (field k v more) = merge (put k v base) more

-- bool(v)
unfoldable pub truthy : Value → Bool
truthy null = false
truthy (bool b) = b
truthy (int zero) = false
truthy (float bits) = not (bits == 0) && not (bits == 9223372036854775808)
truthy (str s) = not (s == "")
truthy (list nil) = false
truthy (object end) = false
truthy _ = true

pub get-put :
    (k j : String) (v : Value) (d : Fields) → get j (put k v d) ≡ (if k == j then v else get j d)
unfolding get put
get-put k j v end = refl
get-put k j v (field i w d) = ground (arith, eq_iff k j, eq_iff i k, eq_iff i j, get-put k j v d)

pub get-remove :
    (k j : String) (d : Fields) → get j (remove k d) ≡ (if k == j then null else get j d)
unfolding get remove
get-remove k j end = ground arith
get-remove k j (field i w d) = ground (arith, eq_iff k j, eq_iff i k, eq_iff i j, get-remove k j d)

pub get-put_self : (k : String) (v : Value) (d : Fields) → get k (put k v d) ≡ v
get-put_self k v d = ground (arith, get-put k k v d, eq_iff k k)

pub remove-put : (k : String) (v : Value) (d : Fields) → remove k (put k v d) ≡ remove k d
unfolding remove put
remove-put k v end = ground (arith, eq_iff k k)
remove-put k v (field j w d) = ground (arith, eq_iff j k, remove-put k v d)

pub remove-remove : (k : String) (d : Fields) → remove k (remove k d) ≡ remove k d
unfolding remove
remove-remove k end = refl
remove-remove k (field j w d) = ground (arith, eq_iff j k, remove-remove k d)
