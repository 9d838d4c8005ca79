-- ===== src/Knowledge/Chunks.antt =====
-- The chunks of a text: they come to an end, are short, and hold all of the text in order.
use agentic_ai_platform.Prelude.{
  ℕ, zero, suc, ◌+◌, ◌-◌, ◌≤◌, ◌<◌, ◌≡◌, refl, sym, subst, ◌∙◌, ap, true, false, Bool-cases, inl,
  inr, Option, some, List, [], ◌∷◌, ◌++◌, ltb, leb, min, All, take, length, length-take, arith,
  leb→le,
}
use agentic_ai_platform.Knowledge.{
  Text, drop, slice, with_chunk, windows, chunk_normalized, chunk_text,
}

-- The chunks put together again: what each repeats of the one before is dropped.
abbrev pub rejoin_rest : ℕ → List Text → Text
rejoin_rest overlap [] = []
rejoin_rest overlap (c ∷ cs) = drop overlap c ++ rejoin_rest overlap cs

abbrev pub rejoin : ℕ → List Text → Text
rejoin overlap [] = []
rejoin overlap (c ∷ cs) = c ++ rejoin_rest overlap cs

take-drop : (n : ℕ) (s : Text) → take n s ++ drop n s ≡ s
unfolding drop
take-drop zero s = refl
take-drop (suc n) [] = refl
take-drop (suc n) (c ∷ s) = ap (λ t. c ∷ t) (take-drop n s)

drop_none : (n : ℕ) → drop n [] ≡ []
unfolding drop
drop_none zero = refl
drop_none (suc n) = refl

drop_at : (a b : ℕ) (s : Text) → a ≡ b → drop a s ≡ drop b s
drop_at a b s h = ap (λ k. drop k s) h

take_at : (a b : ℕ) (s : Text) → a ≡ b → take a s ≡ take b s
take_at a b s h = ap (λ k. take k s) h

abbrev empty : Text
empty = []

take_none : (n : ℕ) → take n empty ≡ empty
take_none zero = refl
take_none (suc n) = refl

drop-drop : (n m : ℕ) (s : Text) → drop n (drop m s) ≡ drop (m + n) s
unfolding drop
drop-drop n zero s = drop_at n (zero + n) s (omega arith)
drop-drop n (suc m) [] = drop_none n ∙ sym (drop_none (suc m + n))
drop-drop n (suc m) (c ∷ s) =
    drop-drop n m s ∙ drop_at (suc (m + n)) (suc m + n) (c ∷ s) (omega arith)

drop-take : (n m : ℕ) (s : Text) → drop n (take m s) ≡ take (m - n) (drop n s)
unfolding drop
drop-take zero m s = take_at m (m - zero) s (omega arith)
drop-take (suc n) zero s =
    drop_none (suc n) ∙ take_at zero (zero - suc n) (drop (suc n) s) (omega arith)
drop-take (suc n) (suc m) [] = sym (take_none (suc m - suc n))
drop-take (suc n) (suc m) (c ∷ s) =
    drop-take n m s ∙ take_at (m - n) (suc m - suc n) (drop n s) (omega arith)

take_whole : (n : ℕ) (s : Text) → length s ≤ n → take n s ≡ s
take_whole zero [] h = refl
take_whole zero (c ∷ s) h = ground (arith, h)
take_whole (suc n) [] h = refl
take_whole (suc n) (c ∷ s) h = ap (λ t. c ∷ t) (take_whole n s (omega (arith, h)))

length-drop : (n : ℕ) (s : Text) → length (drop n s) ≡ length s - n
unfolding drop
length-drop zero s = omega arith
length-drop (suc n) [] = omega arith
length-drop (suc n) (c ∷ s) = omega (arith, length-drop n s)

-- What the loop gives from a place in the text: short chunks, which hold all of the rest.
abbrev Covers : (size overlap : ℕ) → Text → ℕ → Option (List Text) → Type 0
Covers size overlap s start out =
    (c : Text) × (cs : List Text) × (out ≡ some (c ∷ cs))
    × (c ≡ take size (drop start s))
    × All (λ x. length x ≤ size) (c ∷ cs)
    × (rejoin_rest overlap cs ≡ drop (start + size) s)

-- A chunk that ends before the text does, and those behind it.
Covers-more :
    (size overlap start : ℕ) (s : Text) (out : Option (List Text))
    → overlap < size
    → Covers size overlap s (start + size - overlap) out
    → Covers size overlap s start (with_chunk (take size (drop start s)) out)
unfolding with_chunk
Covers-more size overlap start s out short (c, cs, made, first, bounded, rest) =
    let next = start + size - overlap in
    let chunk = take size (drop start s) in
    let behind = drop (start + size) s in
    let own : drop overlap c ≡ take (size - overlap) behind =
      ap (drop overlap) first
      ∙ (drop-take overlap size (drop next s)
          ∙ ap (take (size - overlap)) (
              drop-drop overlap next s
              ∙ drop_at (next + overlap) (start + size) s (omega (arith, short)))) in
    let others : rejoin_rest overlap cs ≡ drop (size - overlap) behind =
      rest
      ∙ (drop_at (next + size) (start + size + (size - overlap)) s (omega (arith, short))
          ∙ sym (drop-drop (size - overlap) (start + size) s)) in
    (
      chunk,
      c ∷ cs,
      ap (with_chunk chunk) made,
      refl,
      (omega (arith, length-take size (drop start s)), bounded),
      ap (λ x. x ++ rejoin_rest overlap cs) own
          ∙ (ap (λ y. take (size - overlap) behind ++ y) others
              ∙ take-drop (size - overlap) behind),
    )

drop_whole : (n : ℕ) (s : Text) → length s ≤ n → drop n s ≡ []
unfolding drop
drop_whole zero [] h = refl
drop_whole zero (c ∷ s) h = ground (arith, h)
drop_whole (suc n) [] h = refl
drop_whole (suc n) (c ∷ s) h = drop_whole n s (omega (arith, h))

module _ (size overlap : ℕ) (s : Text) (short : overlap < size) where
  windows_last :
      (fuel start : ℕ)
      → start < length s
      → length s ≤ start + size
      → windows (suc fuel) size overlap s start ≡ some (take size (drop start s) ∷ [])
  unfolding windows slice
  windows_last fuel start inside ends =
      let stop : min (length s) (start + size) ≡ length s = omega arith in
      let before : ltb start (length s) ≡ true = ground arith in
      let done : leb (length s) (length s) ≡ true = ground arith in
      let left : length (drop start s) ≤ size = omega (arith, length-drop start s) in
      let all_left : length (drop start s) ≤ length s - start =
        omega (arith, length-drop start s) in
      rw stop (
        rw before (
          rw done (
            ap (λ c. some (c ∷ []))
              (take_whole (length s - start) (drop start s) all_left
                ∙ sym (take_whole size (drop start s) left)))))

  windows_more :
      (fuel start : ℕ)
      → start + size < length s
      → windows (suc fuel) size overlap s start
        ≡ with_chunk
            (take size (drop start s))
            (windows fuel size overlap s (start + size - overlap))
  unfolding windows slice
  windows_more fuel start inside =
      let stop : min (length s) (start + size) ≡ start + size = omega arith in
      let before : ltb start (length s) ≡ true = ground arith in
      let not_done : leb (length s) (start + size) ≡ false = ground arith in
      rw stop (
        rw before (
          rw not_done (
            ap (λ c. with_chunk c (windows fuel size overlap s (start + size - overlap)))
              (take_at (start + size - start) size (drop start s) (omega arith)))))

  windows-Covers :
      (fuel start : ℕ)
      → start < length s
      → length s < start + fuel
      → Covers size overlap s start (windows fuel size overlap s start)
  windows-Covers zero start inside enough = ground (arith, inside, enough)
  windows-Covers (suc fuel) start inside enough =
      elim (Bool-cases (leb (length s) (start + size))) [
        | inl ends ↦
            let chunk = take size (drop start s) in
            (
              chunk,
              [],
              windows_last fuel start inside (leb→le _ _ ends),
              refl,
              (omega (arith, length-take size (drop start s)), tt),
              sym (drop_whole (start + size) s (leb→le _ _ ends)),
            )
        | inr goes_on ↦
            subst (Covers size overlap s start)
              (sym (windows_more fuel start (ground (arith, goes_on))))
              (Covers-more size overlap start s _ short (
                windows-Covers fuel (start + size - overlap) (ground (arith, goes_on, short))
                  (omega (arith, short, enough))))
      ]

append_nothing : (s : Text) → s ++ [] ≡ s
append_nothing [] = refl
append_nothing (c ∷ s) = ap (λ t. c ∷ t) (append_nothing s)

chunk_normalized_covers :
    (size overlap : ℕ) (s : Text)
    → overlap < size
    → (cs : List Text) × (chunk_normalized size overlap s ≡ some cs)
      × All (λ c. length c ≤ size) cs
      × (rejoin overlap cs ≡ s)
unfolding chunk_normalized drop
chunk_normalized_covers size overlap [] short = ([], refl, tt, refl)
chunk_normalized_covers size overlap (x ∷ xs) short =
    let s : Text = x ∷ xs in
    elim (Bool-cases (leb (length s) size)) [
      | inl fits ↦ rw fits (s ∷ [], refl, (leb→le _ _ fits, tt), append_nothing s)
      | inr long ↦
          let (c, cs, made, first, bounded, rest) =
            windows-Covers size overlap s short (suc (length s)) 0 (omega arith) (omega arith) in
          rw long (
            c ∷ cs,
            made,
            bounded,
            ap (λ y. c ++ y) (rest ∙ drop_at (0 + size) size s (omega arith))
                ∙ (ap (λ x. x ++ drop size s) first ∙ take-drop size s),
          )
    ]

-- With an overlap below the size of a chunk, the loop comes to an end: no chunk is longer than this
-- size, and the chunks, without what each repeats of the one before it, are the normalized text.
pub chunk_text_covers :
    (normalize : Text → Text) (size overlap : ℕ) (text : Text)
    → overlap < size
    → (cs : List Text) × (chunk_text normalize size overlap text ≡ some cs)
      × All (λ c. length c ≤ size) cs
      × (rejoin overlap cs ≡ normalize text)
unfolding chunk_text
chunk_text_covers normalize size overlap text short =
    chunk_normalized_covers size overlap (normalize text) short
