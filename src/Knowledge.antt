-- ===== src/Knowledge.antt =====
-- services/knowledge-service/knowledge_service/ingestion.py: `chunk_text`. A text is the list of its
-- characters. What strips it and puts one space for each run of white space is a parameter.
pub mod Chunks
use agentic_ai_platform.Prelude.{
  ℕ, zero, suc, ◌+◌, ◌-◌, Bool, true, false, Option, none, some, List, [], ◌∷◌, ltb, leb, min, take,
  length, is_empty, if◌then◌else◌,
}
use Prim.Native.Char.{Char}

abbrev pub Text : Type 0
Text = List Char

-- s[n:]
unfoldable pub drop : ℕ → Text → Text
drop zero s = s
drop (suc n) [] = []
drop (suc n) (c ∷ s) = drop n s

-- s[start:end]
unfoldable pub slice : (start stop : ℕ) → Text → Text
slice start stop s = take (stop - start) (drop start s)

unfoldable pub with_chunk : Text → Option (List Text) → Option (List Text)
with_chunk c none = none
with_chunk c (some cs) = some (c ∷ cs)

-- `while start < len(normalized)` on fuel. `max(0, end - overlap)` is the subtraction of ℕ.
unfoldable pub windows : (fuel chunk_size overlap : ℕ) (normalized : Text) → ℕ → Option (List Text)
windows zero chunk_size overlap normalized start = none
windows (suc fuel) chunk_size overlap normalized start =
    let stop = min (length normalized) (start + chunk_size) in
    let chunk = slice start stop normalized in
    let rest = windows fuel chunk_size overlap normalized (stop - overlap) in
    if ltb start (length normalized)
    then if leb (length normalized) stop then some (chunk ∷ []) else with_chunk chunk rest
    else some []

-- `chunk_text` of a text whose white space is normalized, on one turn more than its length.
unfoldable pub chunk_normalized : (chunk_size overlap : ℕ) → Text → Option (List Text)
chunk_normalized chunk_size overlap normalized =
    if is_empty normalized
    then some []
    else if leb (length normalized) chunk_size
    then some (normalized ∷ [])
    else windows (suc (length normalized)) chunk_size overlap normalized 0

module _ (normalize : Text → Text) where
  unfoldable pub chunk_text : (chunk_size overlap : ℕ) → Text → Option (List Text)
  chunk_text chunk_size overlap text = chunk_normalized chunk_size overlap (normalize text)
