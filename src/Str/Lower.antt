-- ===== src/Str/Lower.antt =====
-- `to_lower` of str_utils.cpp.
use vector_engine.Common.{
  ℕ, ◌+◌, ◌≤◌, ◌≡◌, ◌⊎◌, ◌↔◌, refl, sym, ap₂, ◌∙◌, [], ◌∷◌, ◌++◌, map, append-nil, append_assoc,
  arith, Bytes,
}
use vector_engine.Str.{tolower, lower_onto, to_lower}

lower_onto-map : (res str : Bytes) → lower_onto res str ≡ res ++ map tolower str
unfolding lower_onto
lower_onto-map res [] = sym (append-nil res)
lower_onto-map res (c ∷ str) =
    lower_onto-map (res ++ tolower c ∷ []) str ∙ append_assoc res (tolower c ∷ []) (map tolower str)

pub to_lower-map : (str : Bytes) → to_lower str ≡ map tolower str
unfolding to_lower
to_lower-map str = lower_onto-map [] str

abbrev pub IsUpper : ℕ → Type 0
IsUpper c = (b'A' ≤ c) × (c ≤ b'Z')

-- Two bytes that are the same, or one ASCII letter in both cases.
abbrev pub SameLetter : ℕ → ℕ → Type 0
SameLetter c d = (c ≡ d) ⊎ ((IsUpper c × (d ≡ c + 32)) ⊎ (IsUpper d × (c ≡ d + 32)))

abbrev pub SameText : Bytes → Bytes → Type 0
SameText [] [] = Unit
SameText [] (d ∷ t) = ⊥
SameText (c ∷ s) [] = ⊥
SameText (c ∷ s) (d ∷ t) = SameLetter c d × SameText s t

tolower_there : (c d : ℕ) → tolower c ≡ tolower d → SameLetter c d
unfolding tolower
tolower_there c d h = ground arith

tolower_back : (c d : ℕ) → SameLetter c d → tolower c ≡ tolower d
unfolding tolower
tolower_back c d h = ground arith

map-tolower_there : (s t : Bytes) → map tolower s ≡ map tolower t → SameText s t
map-tolower_there [] [] h = tt
map-tolower_there [] (d ∷ t) h = cc
map-tolower_there (c ∷ s) [] h = cc
map-tolower_there (c ∷ s) (d ∷ t) h = (tolower_there c d cc, map-tolower_there s t cc)

map-tolower_back : (s t : Bytes) → SameText s t → map tolower s ≡ map tolower t
map-tolower_back [] [] h = refl
map-tolower_back [] (d ∷ t) h = absurd h
map-tolower_back (c ∷ s) [] h = absurd h
map-tolower_back (c ∷ s) (d ∷ t) (h, hs) =
    ap₂ (λ x xs. x ∷ xs) (tolower_back c d h) (map-tolower_back s t hs)

pub to_lower_iff : (s t : Bytes) → (to_lower s ≡ to_lower t) ↔ SameText s t
to_lower_iff s t = (
  λ h. map-tolower_there s t (sym (to_lower-map s) ∙ h ∙ to_lower-map t),
  λ h. to_lower-map s ∙ map-tolower_back s t h ∙ sym (to_lower-map t),
)
