-- ===== src/Str/Trim.antt =====
-- `trim` of str_utils.cpp.
use mathlib.Core.List.{reverse, reverse-cons, reverse-append, reverse-reverse}
use vector_engine.Common.{
  ◌≡◌, refl, sym, ap, ◌∙◌, true, false, [], ◌∷◌, ◌++◌, Bytes, All, All-append, Bool-cases, inl, inr,
}
use vector_engine.Str.{isspace, skip_spaces, trim}

abbrev pub IsSpaces : Bytes → Type 0
IsSpaces = All (λ c. isspace c ≡ true)

-- The text does not begin with a space.
abbrev pub IsFlush : Bytes → Type 0
IsFlush [] = Unit
IsFlush (c ∷ s) = isspace c ≡ false

record Skip (s mid : Bytes) : Type 0 where
  spaces : Bytes
  all : IsSpaces spaces
  whole : s ≡ spaces ++ mid
  flush : IsFlush mid

skip_spaces-Skip : (s : Bytes) → Skip s (skip_spaces s)
unfolding skip_spaces
skip_spaces-Skip [] = record { spaces = []; all = tt; whole = refl; flush = tt }
skip_spaces-Skip (c ∷ s) = elim (Bool-cases (isspace c)) [
  | inl space ↦
      let k = skip_spaces-Skip s in
      rw space (record {
        spaces = c ∷ k.spaces;
        all = (space, k.all);
        whole = ap (◌∷◌ c) k.whole;
        flush = k.flush;
      })
  | inr other ↦ rw other (record { spaces = []; all = tt; whole = refl; flush = other })
]

reverse-IsSpaces : (s : Bytes) → IsSpaces s → IsSpaces (reverse s)
reverse-IsSpaces [] h = tt
reverse-IsSpaces (c ∷ s) (hc, hs) =
    rw (reverse-cons c s)
      (All-append (λ d. isspace d ≡ true) (reverse s) (c ∷ []) (reverse-IsSpaces s hs) (hc, tt))

IsFlush-append : (s t : Bytes) → IsFlush (s ++ t) → IsFlush s
IsFlush-append [] t h = tt
IsFlush-append (c ∷ s) t h = h

-- `trim` cuts spaces at both ends, and leaves a text with no space at either end.
pub record IsTrim (line mid : Bytes) : Type 0 where
  pub left : Bytes
  pub right : Bytes
  pub left_spaces : IsSpaces left
  pub right_spaces : IsSpaces right
  pub whole : line ≡ left ++ (mid ++ right)
  pub flush_left : IsFlush mid
  pub flush_right : IsFlush (reverse mid)

skips-IsTrim : (line a k : Bytes) → Skip line a → Skip (reverse a) k → IsTrim line (reverse k)
skips-IsTrim line a k l r =
    let split : a ≡ reverse k ++ reverse r.spaces =
      sym (reverse-reverse a) ∙ ap reverse r.whole ∙ reverse-append r.spaces k in
    record {
      left = l.spaces;
      right = reverse r.spaces;
      left_spaces = l.all;
      right_spaces = reverse-IsSpaces r.spaces r.all;
      whole = l.whole ∙ ap (◌++◌ l.spaces) split;
      flush_left = IsFlush-append (reverse k) (reverse r.spaces) (rw split at l.flush);
      flush_right = rw (reverse-reverse k) r.flush;
    }

-- `trim` cuts nothing but spaces at the two ends of a text, and leaves a text with no space at
-- either end.
pub trim-IsTrim : (line : Bytes) → IsTrim line (trim line)
unfolding trim
trim-IsTrim line = skips-IsTrim line _ _ (skip_spaces-Skip line) (skip_spaces-Skip _)
