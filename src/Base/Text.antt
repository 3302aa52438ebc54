-- ===== src/Base/Text.antt =====
-- The operations of Python's `str` that the program uses. A text is its sequence of code points.
use Prim.Native.Nat.{ℕ, zero, suc, ◌-◌, ◌≤◌, ◌<◌}
use Prim.Native.Char.{Char, code}
use Prim.Native.String
use Prim.Native.String.{String}
use mathlib.Core.Path.{◌≡◌, refl, ap, ◌∙◌}
use mathlib.Core.Bool.{Bool, true, false, not, ◌&&◌, ◌||◌}
use mathlib.Core.Logic.{inl, inr}
use mathlib.Core.List.{List, [], ◌∷◌}
use mathlib.Core.Option.{Option, none, some}
use native.Mathlib.Omega.{arith}
use smart_ao_v.Base.Tests.{leb, ◌==◌, if◌then◌else◌, Bool-cases}

-- The code points for which `str.isspace` holds.
unfoldable pub is_space : ℕ → Bool
is_space c =
    leb 9 c && leb c 13
    || leb 28 c && leb c 32
    || c == 133
    || c == 160
    || c == 5760
    || leb 8192 c && leb c 8202
    || c == 8232
    || c == 8233
    || c == 8239
    || c == 8287
    || c == 12288

-- `not s`
abbrev pub is_empty : String → Bool
is_empty String.[] = true
is_empty (String.◌∷◌ c s) = false

unfoldable pub lstrip : String → String
unfolding is_space
lstrip String.[] = String.[]
lstrip (String.◌∷◌ c s) = if is_space (code c) then lstrip s else String.◌∷◌ c s

unfoldable pub rstrip : String → String
unfolding is_space
rstrip String.[] = String.[]
rstrip (String.◌∷◌ c s) =
    let r = rstrip s in if is_space (code c) && is_empty r then String.[] else String.◌∷◌ c r

unfoldable pub strip : String → String
unfolding lstrip rstrip
strip s = rstrip (lstrip s)

-- `not s.strip()`
abbrev pub is_blank : String → Bool
is_blank s = is_empty (strip s)

-- The character at a position, or `c` beyond the end.
char_or : Char → ℕ → String → Char
char_or c n String.[] = c
char_or c zero (String.◌∷◌ d s) = d
char_or c (suc n) (String.◌∷◌ d s) = char_or c n s

-- `s.lower()` on the ASCII letters; other characters are left alone.
unfoldable pub lower_char : Char → Char
unfolding char_or
lower_char c =
    if leb b'A' (code c) && leb (code c) b'Z'
    then char_or c (code c - b'A') "abcdefghijklmnopqrstuvwxyz"
    else c

unfoldable pub lower : String → String
unfolding lower_char
lower String.[] = String.[]
lower (String.◌∷◌ c s) = String.◌∷◌ (lower_char c) (lower s)

-- `len(s)`
abbrev pub text_length : String → ℕ
text_length String.[] = 0
text_length (String.◌∷◌ c s) = suc (text_length s)

-- `s.strip() if s else ""`, and `(s or "").strip()`
abbrev pub strip_or_empty : Option String → String
strip_or_empty none = String.[]
strip_or_empty (some s) = strip s

-- `s.strip() if s else None`
abbrev pub strip_or_none : Option String → Option String
strip_or_none none = none
strip_or_none (some s) = if is_empty s then none else some (strip s)

-- The first word of the list, longer by a character in front.
abbrev cons_word : Char → List String → List String
cons_word c [] = String.◌∷◌ c String.[] ∷ []
cons_word c (w ∷ ws) = String.◌∷◌ c w ∷ ws

abbrev begins_word : String → Bool
begins_word String.[] = false
begins_word (String.◌∷◌ c s) = not (is_space (code c))

-- `s.split()`: the words between runs of spaces.
unfoldable pub words : String → List String
unfolding is_space
words String.[] = []
words (String.◌∷◌ c s) =
    let rest = words s in
    if is_space (code c)
    then rest
    else if begins_word s
    then cons_word c rest
    else String.◌∷◌ c String.[] ∷ rest

-- `" ".join(ws)`
unfoldable pub join_words : List String → String
join_words [] = String.[]
join_words (w ∷ ws) = elim ws [ [] ↦ w | v ∷ vs ↦ String.◌++◌ w (String.◌++◌ " " (join_words ws)) ]

text_length-lstrip : (s : String) → text_length (lstrip s) ≤ text_length s
unfolding lstrip
text_length-lstrip String.[] = omega arith
text_length-lstrip (String.◌∷◌ c s) = ground (arith, text_length-lstrip s)

-- A text that does not begin with a space is left alone by `lstrip`, and stays so.
lstrip-rstrip : (s : String) → lstrip s ≡ s → lstrip (rstrip s) ≡ rstrip s
unfolding lstrip rstrip
lstrip-rstrip String.[] h = refl
lstrip-rstrip (String.◌∷◌ c s) h = elim (Bool-cases (is_space (code c))) [
  | inl e ↦ absurd (omega (arith, text_length-lstrip s, ap text_length (rw e at h)))
  | inr e ↦ ground arith
]

rstrip-rstrip : (s : String) → rstrip (rstrip s) ≡ rstrip s
unfolding rstrip
rstrip-rstrip String.[] = refl
rstrip-rstrip (String.◌∷◌ c s) = ground (arith, rstrip-rstrip s)

lstrip-lstrip : (s : String) → lstrip (lstrip s) ≡ lstrip s
unfolding lstrip
lstrip-lstrip String.[] = refl
lstrip-lstrip (String.◌∷◌ c s) = ground (arith, lstrip-lstrip s)

-- Stripping a stripped text changes nothing.
pub strip-strip : (s : String) → strip (strip s) ≡ strip s
unfolding strip
strip-strip s = ap rstrip (lstrip-rstrip (lstrip s) (lstrip-lstrip s)) ∙ rstrip-rstrip (lstrip s)

-- No character of the text is an upper-case letter, or below.
all_past_upper : String → Bool
all_past_upper String.[] = true
all_past_upper (String.◌∷◌ c s) = leb 91 (code c) && all_past_upper s

char_or-past_upper :
    (c : Char) (n : ℕ) (s : String)
    → all_past_upper s ≡ true
    → n < text_length s
    → 90 < code (char_or c n s)
unfolding char_or all_past_upper
char_or-past_upper c n String.[] h lt = elim lt [ ]
char_or-past_upper c zero (String.◌∷◌ d s) h lt = ground arith
char_or-past_upper c (suc n) (String.◌∷◌ d s) h lt =
    char_or-past_upper c n s (ground arith) (omega arith)

alphabet_past_upper : all_past_upper "abcdefghijklmnopqrstuvwxyz" ≡ true
unfolding all_past_upper
alphabet_past_upper = refl

lower_char-lower_char : (c : Char) → lower_char (lower_char c) ≡ lower_char c
unfolding lower_char
lower_char-lower_char c =
    ground
      (arith, char_or-past_upper c (code c - 65) "abcdefghijklmnopqrstuvwxyz" alphabet_past_upper)

-- A text in lower case stays as it is.
pub lower-lower : (s : String) → lower (lower s) ≡ lower s
unfolding lower
lower-lower String.[] = refl
lower-lower (String.◌∷◌ c s) = cc (lower_char-lower_char c, lower-lower s)

pub text_length-lower : (s : String) → text_length (lower s) ≡ text_length s
unfolding lower
text_length-lower String.[] = refl
text_length-lower (String.◌∷◌ c s) = ap suc (text_length-lower s)
