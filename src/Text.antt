-- ===== src/Text.antt =====
-- The methods of Rust's `str` that the code calls, over the native texts. A text is read character
-- by character, as `chars()` gives it; `format!` is `◌<>◌`. Used by the texts of src/state.rs and
-- src/whatsapp.rs.
pub mod Order
use Prim.Native.Char.{Char, code}
use text.Mathlib.Text.{◌==◌}
use rust_zap.Prelude.{
  ◌<>◌, is_some, ℕ, ◌+◌, String, Bool, true, false, ◌&&◌, ◌||◌, Option, none, some, List, [], ◌∷◌,
  leb, nat_eq, if◌then◌else◌,
}

-- The code points of a text.
abbrev pub codes : String → List ℕ
codes String.[] = []
codes (String.◌∷◌ c s) = code c ∷ codes s

abbrev pub is_empty : String → Bool
is_empty String.[] = true
is_empty (String.◌∷◌ c s) = false

-- `char::is_whitespace`: the code points with the property White_Space.
abbrev pub is_whitespace : ℕ → Bool
is_whitespace c =
    leb 9 c && leb c 13
    || nat_eq c 32
    || nat_eq c 133
    || nat_eq c 160
    || nat_eq c 5760
    || leb 8192 c && leb c 8202
    || nat_eq c 8232
    || nat_eq c 8233
    || nat_eq c 8239
    || nat_eq c 8287
    || nat_eq c 12288

trim_start : String → String
trim_start String.[] = String.[]
trim_start (String.◌∷◌ c s) = if is_whitespace (code c) then trim_start s else String.◌∷◌ c s

keep_unless_blank : Char → String → String
keep_unless_blank c s = if is_empty s && is_whitespace (code c) then String.[] else String.◌∷◌ c s

trim_end : String → String
unfolding keep_unless_blank
trim_end String.[] = String.[]
trim_end (String.◌∷◌ c s) = keep_unless_blank c (trim_end s)

unfoldable pub trim : String → String
unfolding trim_start trim_end
trim s = trim_end (trim_start s)

unfoldable pub ends_with : String → String → Bool
ends_with String.[] t = is_empty t
ends_with (String.◌∷◌ c s) t = String.◌∷◌ c s == t || ends_with s t

unfoldable pub contains_char : ℕ → String → Bool
contains_char c String.[] = false
contains_char c (String.◌∷◌ d s) = nat_eq c (code d) || contains_char c s

-- `split(c).next()`: the text before the first `c`, or all of it.
unfoldable pub before_char : ℕ → String → String
before_char c String.[] = String.[]
before_char c (String.◌∷◌ d s) =
    if nat_eq c (code d) then String.[] else String.◌∷◌ d (before_char c s)

-- `strip_prefix`
unfoldable pub strip_prefix : String → String → Option String
strip_prefix s String.[] = some s
strip_prefix String.[] (String.◌∷◌ d t) = none
strip_prefix (String.◌∷◌ c s) (String.◌∷◌ d t) =
    if nat_eq (code c) (code d) then strip_prefix s t else none

-- `contains` of a text
unfoldable pub contains_text : String → String → Bool
contains_text String.[] t = is_empty t
contains_text (String.◌∷◌ c s) t = is_some (strip_prefix (String.◌∷◌ c s) t) || contains_text s t

abbrev pub is_ascii_digit : ℕ → Bool
is_ascii_digit c = leb b'0' c && leb c b'9'

abbrev pub is_ascii_hexdigit : ℕ → Bool
is_ascii_hexdigit c = is_ascii_digit c || leb b'a' c && leb c b'f' || leb b'A' c && leb c b'F'

-- `chars().all(p)`, and `chars().filter(p).collect()`
unfoldable pub all_chars : (ℕ → Bool) → String → Bool
all_chars p String.[] = true
all_chars p (String.◌∷◌ c s) = p (code c) && all_chars p s

unfoldable pub keep_chars : (ℕ → Bool) → String → String
keep_chars p String.[] = String.[]
keep_chars p (String.◌∷◌ c s) = if p (code c) then String.◌∷◌ c (keep_chars p s) else keep_chars p s

-- `to_ascii_lowercase`, on the code points.
abbrev pub to_ascii_lowercase : List ℕ → List ℕ
to_ascii_lowercase [] = []
to_ascii_lowercase (c ∷ s) = (if leb b'A' c && leb c b'Z' then c + 32 else c) ∷ to_ascii_lowercase s

abbrev pub codes_eq : List ℕ → List ℕ → Bool
codes_eq [] [] = true
codes_eq [] (d ∷ t) = false
codes_eq (c ∷ s) [] = false
codes_eq (c ∷ s) (d ∷ t) = nat_eq c d && codes_eq s t

unfoldable pub codes_end_with : List ℕ → List ℕ → Bool
codes_end_with [] t = codes_eq [] t
codes_end_with (c ∷ s) t = codes_eq (c ∷ s) t || codes_end_with s t

-- `chars().take(n).collect()`
unfoldable pub take_chars : ℕ → String → String
take_chars n String.[] = String.[]
take_chars ℕ.zero (String.◌∷◌ c s) = String.[]
take_chars (ℕ.suc n) (String.◌∷◌ c s) = String.◌∷◌ c (take_chars n s)

abbrev pub start_with : Char → List String → List String
start_with c [] = String.◌∷◌ c String.[] ∷ []
start_with c (s ∷ r) = String.◌∷◌ c s ∷ r

-- `split(c)`
unfoldable pub split_char : ℕ → String → List String
split_char c String.[] = String.[] ∷ []
split_char c (String.◌∷◌ d s) =
    let rest = split_char c s in if nat_eq c (code d) then String.[] ∷ rest else start_with d rest

-- `replace(c, text)` for a character
unfoldable pub replace_char : ℕ → String → String → String
replace_char c t String.[] = String.[]
replace_char c t (String.◌∷◌ d s) =
    if nat_eq c (code d) then t <> replace_char c t s else String.◌∷◌ d (replace_char c t s)
