-- ===== src/Str/Interface.antt =====
-- str_utils.h as its clients see it, with what each function promises; and str_utils.cpp as such.
use vector_engine.Common.{◌≡◌, ◌↔◌, Bool, true, ◌++◌, Bytes}
use vector_engine.Str.{to_lower, trim_left, trim_right, trim, starts_with, ends_with}
use vector_engine.Str.Lower.{SameText, to_lower_iff}
use vector_engine.Str.Trim.{IsTrim, trim-IsTrim}
use vector_engine.Str.Affix.{starts_with_iff, ends_with_iff}

pub record StrUtils : Type 0 where
  pub lower : Bytes → Bytes
  pub strip : Bytes → Bytes
  pub strip_left : Bytes → Bytes
  pub strip_right : Bytes → Bytes
  pub begins : Bytes → Bytes → Bool
  pub ends : Bytes → Bytes → Bool
  pub lower_law : (s t : Bytes) → (lower s ≡ lower t) ↔ SameText s t
  pub strip_law : (line : Bytes) → IsTrim line (strip line)
  pub begins_law :
      (s prefix : Bytes) → (begins s prefix ≡ true) ↔ ((rest : Bytes) × (s ≡ prefix ++ rest))
  pub ends_law :
      (s postfix : Bytes) → (ends s postfix ≡ true) ↔ ((front : Bytes) × (s ≡ front ++ postfix))

abbrev pub str_utils : StrUtils
str_utils = record {
  lower = to_lower;
  strip = trim;
  strip_left = trim_left;
  strip_right = trim_right;
  begins = starts_with;
  ends = ends_with;
  lower_law = to_lower_iff;
  strip_law = trim-IsTrim;
  begins_law = starts_with_iff;
  ends_law = ends_with_iff;
}
