-- ===== src/Prelude/Text.antt =====
-- What the code uses of Rust's `str`: the order, ASCII classes, `strip_suffix`, `split_once`.
-- A `str` is a native text: `compare` goes by code points, as UTF-8 bytes do; `len` counts bytes.
use Prim.Native.Nat.{ℕ, zero, suc, ◌+◌, ◌-◌}
use Prim.Native.Char.{code}
use Prim.Native.String.{String, [], ◌∷◌}
use Prim.Native.String as String
use mathlib.Core.Bool.{Bool, true, false, ◌&&◌, ◌||◌}
use mathlib.Core.Option.{Option, none, some}
use mathlib.Core.List as List
use text.Mathlib.Text.{◌==◌ as str_eq}
use pingling.Prelude.Tests.{leb, ◌==◌, if◌then◌else◌}

-- `format!`: the pieces one after the other.
unfoldable pub format : List.List String → String
format List.[] = ""
format (List.◌∷◌ s rest) = String.◌++◌ s (format rest)

-- `value.is_empty()`
abbrev pub is_empty : String → Bool
is_empty [] = true
is_empty (c ∷ s) = false

-- `value.chars().all(p)` and `value.chars().any(p)`
unfoldable pub chars_all : (ℕ → Bool) → String → Bool
chars_all p [] = true
chars_all p (c ∷ s) = p (code c) && chars_all p s

-- `value.contains(c)` for a character
unfoldable pub contains_char : ℕ → String → Bool
contains_char d [] = false
contains_char d (c ∷ s) = code c == d || contains_char d s

abbrev pub is_ascii_alphabetic : ℕ → Bool
is_ascii_alphabetic c = leb b'a' c && leb c b'z' || leb b'A' c && leb c b'Z'

abbrev pub is_ascii_digit : ℕ → Bool
is_ascii_digit c = leb b'0' c && leb c b'9'

abbrev pub is_ascii_alphanumeric : ℕ → Bool
is_ascii_alphanumeric c = is_ascii_alphabetic c || is_ascii_digit c

abbrev pub to_ascii_lowercase : ℕ → ℕ
to_ascii_lowercase c = if leb b'A' c && leb c b'Z' then c + 32 else c

-- `value.eq_ignore_ascii_case(other)`
unfoldable pub eq_ignore_ascii_case : String → String → Bool
eq_ignore_ascii_case [] [] = true
eq_ignore_ascii_case [] (d ∷ t) = false
eq_ignore_ascii_case (c ∷ s) [] = false
eq_ignore_ascii_case (c ∷ s) (d ∷ t) =
    to_ascii_lowercase (code c) == to_ascii_lowercase (code d) && eq_ignore_ascii_case s t

-- `value.strip_suffix(suffix)`
unfoldable pub strip_suffix : String → String → Option String
strip_suffix suffix [] = if str_eq suffix "" then some "" else none
strip_suffix suffix (c ∷ s) =
    let rest = strip_suffix suffix s in
    if str_eq suffix (c ∷ s) then some "" else elim rest [ none ↦ none | some p ↦ some (c ∷ p) ]

-- `value.strip_prefix(prefix)`
unfoldable pub strip_prefix : String → String → Option String
strip_prefix [] s = some s
strip_prefix (c ∷ p) [] = none
strip_prefix (c ∷ p) (d ∷ s) = if code c == code d then strip_prefix p s else none

-- `value.contains(needle)`
unfoldable pub contains : String → String → Bool
contains [] needle = is_empty needle
contains (c ∷ s) needle =
    let rest = contains s needle in
    elim (strip_prefix needle (c ∷ s)) [ some p ↦ true | none ↦ rest ]

-- `value.split_once(d)` for a character
unfoldable pub split_once : ℕ → String → Option (String × String)
split_once d [] = none
split_once d (c ∷ s) =
    let rest = split_once d s in
    if code c == d
    then some ("", s)
    else elim rest [ none ↦ none | some (before, after) ↦ some (c ∷ before, after) ]

-- `char::is_whitespace`: Unicode's White_Space.
abbrev pub is_whitespace : ℕ → Bool
is_whitespace c =
    leb 0x9 c && leb c 0xd
    || c == 0x20
    || c == 0x85
    || c == 0xa0
    || c == 0x1680
    || leb 0x2000 c && leb c 0x200a
    || c == 0x2028
    || c == 0x2029
    || c == 0x202f
    || c == 0x205f
    || c == 0x3000

-- `value.trim().is_empty()`
unfoldable pub trim_is_empty : String → Bool
trim_is_empty s = chars_all is_whitespace s

-- `value.ends_with(suffix)`
abbrev pub ends_with : String → String → Bool
ends_with suffix value = elim (strip_suffix suffix value) [ some p ↦ true | none ↦ false ]

unfoldable pub char_count : String → ℕ
char_count [] = 0
char_count (c ∷ s) = char_count s + 1

-- `value.replace(needle, with)`, for a needle that is not empty; the number counts the characters of
-- a match that are still to be passed over.
unfoldable pub replace_from : ℕ → String → String → String → String
replace_from skip needle with_text [] = ""
replace_from zero needle with_text (c ∷ s) =
    let matched = replace_from (char_count needle - 1) needle with_text s in
    let rest = replace_from 0 needle with_text s in
    elim (strip_prefix needle (c ∷ s)) [ some p ↦ String.◌++◌ with_text matched | none ↦ c ∷ rest ]
replace_from (suc skip) needle with_text (c ∷ s) = replace_from skip needle with_text s

unfoldable pub replace : String → String → String → String
replace needle with_text value = replace_from 0 needle with_text value

-- `value.trim_end_matches(suffix)`, for a suffix that is not empty: what stands before the first place
-- from which the value is only copies of it.
unfoldable pub repeats_from : ℕ → String → String → Bool
repeats_from skip suffix [] = skip == 0
repeats_from zero suffix (c ∷ s) =
    let rest = repeats_from (char_count suffix - 1) suffix s in
    elim (strip_prefix suffix (c ∷ s)) [ some p ↦ rest | none ↦ false ]
repeats_from (suc skip) suffix (c ∷ s) = repeats_from skip suffix s

unfoldable pub trim_end_matches : String → String → String
trim_end_matches suffix [] = ""
trim_end_matches suffix (c ∷ s) =
    let rest = trim_end_matches suffix s in if repeats_from 0 suffix (c ∷ s) then "" else c ∷ rest

-- `value.trim()`
unfoldable pub trim_start : String → String
trim_start [] = ""
trim_start (c ∷ s) = let rest = trim_start s in if is_whitespace (code c) then rest else c ∷ s

unfoldable pub trim_end : String → String
trim_end [] = ""
trim_end (c ∷ s) = let rest = trim_end s in if chars_all is_whitespace (c ∷ s) then "" else c ∷ rest

unfoldable pub trim : String → String
trim s = trim_end (trim_start s)

-- `value.rsplit_once(d)` for a character
unfoldable pub rsplit_once : ℕ → String → Option (String × String)
rsplit_once d [] = none
rsplit_once d (c ∷ s) =
    let rest = rsplit_once d s in
    elim rest [
      | some (before, after) ↦ some (c ∷ before, after)
      | none ↦ if code c == d then some ("", s) else none
    ]

-- `value.split_once(needle)` for a text that is not empty
unfoldable pub split_once_text : String → String → Option (String × String)
split_once_text needle [] = none
split_once_text needle (c ∷ s) =
    let rest = split_once_text needle s in
    elim (strip_prefix needle (c ∷ s)) [
      | some after ↦ some ("", after)
      | none ↦ elim rest [ none ↦ none | some (before, after) ↦ some (c ∷ before, after) ]
    ]

-- `value.lines().next()`
unfoldable pub up_to_newline : String → String
up_to_newline [] = ""
up_to_newline (c ∷ s) = let rest = up_to_newline s in if code c == 0xa then "" else c ∷ rest

unfoldable pub first_line : String → Option String
first_line value =
    let line = up_to_newline value in
    if is_empty value
    then none
    else elim (strip_suffix "\r" line) [ some short ↦ some short | none ↦ some line ]

-- `value.split_whitespace().nth(1)`
unfoldable pub up_to_space : String → String
up_to_space [] = ""
up_to_space (c ∷ s) = let rest = up_to_space s in if is_whitespace (code c) then "" else c ∷ rest

unfoldable pub from_space : String → String
from_space [] = ""
from_space (c ∷ s) = let rest = from_space s in if is_whitespace (code c) then c ∷ s else rest

unfoldable pub second_word : String → Option String
second_word value =
    let word = up_to_space (trim_start (from_space (trim_start value))) in
    if is_empty word then none else some word
