-- ===== src/Str/Affix.antt =====
-- `starts_with` and `ends_with` of str_utils.cpp.
use vector_engine.Common.{
  ◌-◌, ◌≡◌, ◌↔◌, refl, sym, ap, ◌∙◌, true, inl, inr, [], ◌∷◌, ◌++◌, arith, Bytes, length,
  length-append, take, drop, take-append-drop, take-length-append, drop-length-append, take_all,
  length-drop, ltb, ltb-false, Bool-cases,
}
use vector_engine.Str.{bytes_eq, starts_with, ends_with}

pub bytes_eq_self : (s : Bytes) → bytes_eq s s ≡ true
unfolding bytes_eq
bytes_eq_self [] = refl
bytes_eq_self (c ∷ s) = ground (arith, bytes_eq_self s)

pub bytes_eq→eq : (s t : Bytes) → bytes_eq s t ≡ true → s ≡ t
unfolding bytes_eq
bytes_eq→eq [] [] h = refl
bytes_eq→eq [] (d ∷ t) h = cc
bytes_eq→eq (c ∷ s) [] h = cc
bytes_eq→eq (c ∷ s) (d ∷ t) h = ground (arith, bytes_eq→eq s t)

-- The bytes of a text that a comparison over the length of a shorter one reads.
starts_with-eq_append :
    (str prefix : Bytes) → starts_with str prefix ≡ true → str ≡ prefix ++ drop (length prefix) str
unfolding starts_with
starts_with-eq_append str prefix h = elim (Bool-cases (ltb (length str) (length prefix))) [
  | inl short ↦ absurd (ground arith)
  | inr fits ↦
      sym (take-append-drop (length prefix) str)
      ∙ ap (λ (p : Bytes). p ++ drop (length prefix) str)
          (bytes_eq→eq (take (length prefix) str) prefix (rw fits at h))
]

-- `starts_with` is true exactly when the text is the prefix with something behind it.
pub starts_with_iff :
    (str prefix : Bytes)
    → (starts_with str prefix ≡ true) ↔ ((rest : Bytes) × (str ≡ prefix ++ rest))
unfolding starts_with
starts_with_iff str prefix =
    (λ h. (drop (length prefix) str, starts_with-eq_append str prefix h), if_so)
  where
    if_so : ((rest : Bytes) × (str ≡ prefix ++ rest)) → starts_with str prefix ≡ true
    if_so (rest, e) =
        rw
          (
            e,
            ltb-false (length (prefix ++ rest)) (length prefix)
                (omega (arith, length-append prefix rest)),
            take-length-append prefix rest,
          )
          (bytes_eq_self prefix)

ends_with-eq_append :
    (str postfix : Bytes)
    → ends_with str postfix ≡ true
    → str ≡ take (length str - length postfix) str ++ postfix
unfolding ends_with
ends_with-eq_append str postfix h = elim (Bool-cases (ltb (length str) (length postfix))) [
  | inl short ↦ absurd (ground arith)
  | inr fits ↦
      sym (take-append-drop (length str - length postfix) str)
      ∙ ap (◌++◌ (take (length str - length postfix) str)) (
          sym (
            take_all (length postfix) (drop (length str - length postfix) str)
              (omega (arith, length-drop (length str - length postfix) str)))
          ∙ bytes_eq→eq _ postfix (rw fits at h))
]

-- `ends_with` is true exactly when the text is the postfix with something before it.
pub ends_with_iff :
    (str postfix : Bytes)
    → (ends_with str postfix ≡ true) ↔ ((front : Bytes) × (str ≡ front ++ postfix))
unfolding ends_with
ends_with_iff str postfix =
    (λ h. (take (length str - length postfix) str, ends_with-eq_append str postfix h), if_so)
  where
    if_so : ((front : Bytes) × (str ≡ front ++ postfix)) → ends_with str postfix ≡ true
    if_so (front, e) =
        let cut : length (front ++ postfix) - length postfix ≡ length front =
          omega (arith, length-append front postfix) in
        rw
          (
            e,
            ltb-false (length (front ++ postfix)) (length postfix)
                (omega (arith, length-append front postfix)),
            cut,
            drop-length-append front postfix,
            take_all (length postfix) postfix (omega arith),
          )
          (bytes_eq_self postfix)
