-- ===== src/Tests/Strings.antt =====
-- The functions on strings.
use vector_engine.Common.{codes}
use vector_engine.Str.{trim}
use vector_engine.Str.Trim.{IsTrim, trim-IsTrim}

trim-IsTrim_example : IsTrim (codes " a b ") (trim (codes " a b "))
trim-IsTrim_example = trim-IsTrim (codes " a b ")
