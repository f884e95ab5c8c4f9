-- ===== src/Str.antt =====
-- str_utils.h and str_utils.cpp. A string view is the list of its bytes; `tolower` and `isspace`
-- are those of the "C" locale, in which bytes from 0x80 on are no letters and no spaces.
pub mod Interface
pub mod Lower
pub mod Trim
pub mod Affix
use mathlib.Core.List.{reverse}
use vector_engine.Common.{
  ℕ, ◌+◌, ◌-◌, Bool, true, false, ◌&&◌, ◌||◌, List, [], ◌∷◌, ◌++◌, Bytes, length, take, drop, ltb,
  leb, ◌==◌, if◌then◌else◌,
}

pub tolower : ℕ → ℕ
tolower c = if leb b'A' c && leb c b'Z' then c + 32 else c

-- `res.push_back(std::tolower(c))` for each byte in turn.
lower_onto : Bytes → Bytes → Bytes
lower_onto res [] = res
lower_onto res (c ∷ str) = lower_onto (res ++ tolower c ∷ []) str

unfoldable pub to_lower : Bytes → Bytes
unfolding lower_onto tolower
to_lower str = lower_onto [] str

unfoldable pub isspace : ℕ → Bool
isspace c = c == 32 || (leb 9 c && leb c 13)

-- The text from the first byte on that is no space: the loops of `trim_left` and, on the
-- reversed text, of `trim_right`.
skip_spaces : Bytes → Bytes
unfolding isspace
skip_spaces [] = []
skip_spaces (c ∷ s) = if isspace c then skip_spaces s else c ∷ s

unfoldable pub trim_left : Bytes → Bytes
unfolding skip_spaces
trim_left line = skip_spaces line

-- The loop goes by reverse iterators.
unfoldable pub trim_right : Bytes → Bytes
unfolding skip_spaces
trim_right line = reverse (skip_spaces (reverse line))

unfoldable pub trim : Bytes → Bytes
unfolding trim_left trim_right
trim line = trim_right (trim_left line)

-- `std::memcmp` of two texts over the length of the second, and `==` on strings.
unfoldable pub bytes_eq : Bytes → Bytes → Bool
bytes_eq [] [] = true
bytes_eq [] (d ∷ t) = false
bytes_eq (c ∷ s) [] = false
bytes_eq (c ∷ s) (d ∷ t) = c == d && bytes_eq s t

unfoldable pub starts_with : Bytes → Bytes → Bool
unfolding bytes_eq
starts_with str prefix =
    if ltb (length str) (length prefix) then false else bytes_eq (take (length prefix) str) prefix

unfoldable pub ends_with : Bytes → Bytes → Bool
unfolding bytes_eq
ends_with str postfix =
    if ltb (length str) (length postfix)
    then false
    else bytes_eq (take (length postfix) (drop (length str - length postfix) str)) postfix
