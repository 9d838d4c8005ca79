-- ===== src/Tests/Ingestion.antt =====
-- A text of five characters in chunks of three that overlap by one.
use agentic_ai_platform.Prelude.{◌≡◌, ◌≤◌, refl, some, List, [], ◌∷◌, All, length, arith}
use agentic_ai_platform.Knowledge.{
  Text, drop, slice, with_chunk, windows, chunk_normalized, chunk_text,
}
use agentic_ai_platform.Knowledge.Chunks.{rejoin, chunk_text_covers}

abbrev kept : Text → Text
kept s = s

abbrev five : Text
five = "a" ∷ "b" ∷ "c" ∷ "d" ∷ "e" ∷ []

chunks_of_five :
    (cs : List Text) × (chunk_text kept 3 1 five ≡ some cs)
    × All (λ c. length c ≤ 3) cs
    × (rejoin 1 cs ≡ five)
chunks_of_five = chunk_text_covers kept 3 1 five (omega arith)

chunked_five :
    chunk_text kept 3 1 five ≡ some (("a" ∷ "b" ∷ "c" ∷ []) ∷ ("c" ∷ "d" ∷ "e" ∷ []) ∷ [])
unfolding chunk_text chunk_normalized windows slice drop with_chunk
chunked_five = refl
