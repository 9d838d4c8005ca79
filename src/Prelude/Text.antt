-- ===== src/Prelude/Text.antt =====
-- Texts by the code points of their characters: their order, their length, and `strip`.
use Prim.Native.Nat.{ℕ, zero, suc}
use Prim.Native.Char.{code}
use Prim.Native.String.{String}
use mathlib.Core.Bool.{Bool, true, false, not, ◌&&◌, ◌||◌}
use agentic_ai_platform.Prelude.Tests.{ltb, leb, nat_beq, if◌then◌else◌}

-- a <= b
unfoldable pub text_leb : String → String → Bool
text_leb String.[] t = true
text_leb (String.◌∷◌ c s) String.[] = false
text_leb (String.◌∷◌ c s) (String.◌∷◌ d t) =
    let rest = text_leb s t in
    if ltb (code c) (code d) then true else nat_beq (code c) (code d) && rest

-- len(s)
unfoldable pub text_length : String → ℕ
text_length String.[] = 0
text_length (String.◌∷◌ c s) = suc (text_length s)

-- `c.isspace()`
is_space : ℕ → Bool
is_space k =
    leb 9 k && leb k 13
    || leb 28 k && leb k 32
    || nat_beq k 133
    || nat_beq k 160
    || nat_beq k 5760
    || leb 8192 k && leb k 8202
    || nat_beq k 8232
    || nat_beq k 8233
    || nat_beq k 8239
    || nat_beq k 8287
    || nat_beq k 12288

-- `bool(s.strip())`
unfoldable pub non_blank : String → Bool
unfolding is_space
non_blank String.[] = false
non_blank (String.◌∷◌ c s) = not (is_space (code c)) || non_blank s

-- s[:n]
unfoldable pub text_take : ℕ → String → String
text_take zero s = ""
text_take (suc n) String.[] = ""
text_take (suc n) (String.◌∷◌ c s) = String.◌∷◌ c (text_take n s)

-- t.startswith(s)
unfoldable pub starts_with : String → String → Bool
starts_with String.[] t = true
starts_with (String.◌∷◌ c s) String.[] = false
starts_with (String.◌∷◌ c s) (String.◌∷◌ d t) = nat_beq (code c) (code d) && starts_with s t

-- `s in t`
unfoldable pub contains_text : String → String → Bool
unfolding starts_with
contains_text s String.[] = starts_with s String.[]
contains_text s (String.◌∷◌ d t) = starts_with s (String.◌∷◌ d t) || contains_text s t

-- t[len(s):]
unfoldable pub text_drop : ℕ → String → String
text_drop zero t = t
text_drop (suc n) String.[] = ""
text_drop (suc n) (String.◌∷◌ d t) = text_drop n t

-- t.removeprefix(s)
unfoldable pub remove_prefix : String → String → String
unfolding starts_with text_length text_drop
remove_prefix s t = if starts_with s t then text_drop (text_length s) t else t
