-- ===== src/Text.antt =====
-- The text operations of Python that the program calls: str.strip, str.lower,
-- str.split on a character, the reading of a decimal number by int(), and the test of
-- ipaddress.ip_address for a dotted IPv4 address.
use Prim.Native.Char.{code}
use pg_limiter.Prelude.{
  ℕ, ◌+◌, ◌-◌, ◌*◌, String, Bool, true, false, not, ◌&&◌, ◌||◌, Option, none, some, List, [], ◌∷◌,
  leb, nat_beq, if◌then◌else◌, map,
}
use pg_limiter.Prelude.Int.{ℤ, pos, negsuc}

-- The code points of a text.
abbrev pub codes : String → List ℕ
codes String.[] = []
codes (String.◌∷◌ c s) = code c ∷ codes s

abbrev within : ℕ → ℕ → ℕ → Bool
within lo hi c = leb lo c && leb c hi

-- `str.isspace` of one character.
unfoldable pub is_space : ℕ → Bool
is_space c =
    within 9 13 c
    || within 28 32 c
    || nat_beq c 133
    || nat_beq c 160
    || nat_beq c 5760
    || within 8192 8202 c
    || within 8232 8233 c
    || nat_beq c 8239
    || nat_beq c 8287
    || nat_beq c 12288

unfoldable pub lstrip : String → String
unfolding is_space
lstrip String.[] = ""
lstrip (String.◌∷◌ c s) = let rest = lstrip s in if is_space (code c) then rest else String.◌∷◌ c s

abbrev is_blank : String → Bool
is_blank String.[] = true
is_blank (String.◌∷◌ c s) = false

unfoldable pub rstrip : String → String
unfolding is_space
rstrip String.[] = ""
rstrip (String.◌∷◌ c s) =
    let rest = rstrip s in if is_blank rest && is_space (code c) then "" else String.◌∷◌ c rest

-- `s.strip()`
unfoldable pub strip : String → String
unfolding lstrip rstrip
strip s = rstrip (lstrip s)

-- A code point of `str.lower`, as far as a comparison with ASCII words can tell: the capital ASCII
-- letters and the Kelvin sign become small ASCII letters, and no other character does.
abbrev lower_code : ℕ → ℕ
lower_code c = if within b'A' b'Z' c then c + 32 else if nat_beq c 8490 then b'k' else c

-- `s.lower()`, as code points.
abbrev pub lower : String → List ℕ
lower s = map lower_code (codes s)

abbrev is_digit : ℕ → Bool
is_digit c = within b'0' b'9' c

-- The digits of int(): single underscores may stand between two digits. `after_digit` tells
-- whether the last character read was a digit.
unfoldable pub digits : Bool → ℕ → List ℕ → Option ℕ
digits after_digit n [] = if after_digit then some n else none
digits after_digit n (c ∷ cs) =
    let d = is_digit c in
    let rest = digits d (if d then n * 10 + (c - b'0') else n) cs in
    if d || (nat_beq c b'_' && after_digit) then rest else none

-- The value of a sign followed by digits.
unfoldable pub signed : List ℕ → Option ℤ
unfolding digits
signed [] = none
signed (c ∷ cs) =
    if nat_beq c b'-'
    then elim (digits false 0 cs) [ none ↦ none | some n ↦ some (negated n) ]
    else elim (digits false 0 (if nat_beq c b'+' then cs else c ∷ cs)) [
      | none ↦ none
      | some n ↦ some (pos n)
    ]
  where
    negated : ℕ → ℤ
    negated n = if nat_beq n 0 then pos 0 else negsuc (n - 1)

-- `int(s)` of a text, where `none` is ValueError; digits other than ASCII ones are not read.
unfoldable pub int_of_text : String → Option ℤ
unfolding signed strip
int_of_text s = signed (codes (strip s))

-- `s.split(".")`
unfoldable pub split_dots : String → List String
split_dots String.[] = "" ∷ []
split_dots (String.◌∷◌ c s) = elim (split_dots s) [
  | [] ↦ []
  | part ∷ parts ↦ if nat_beq (code c) b'.' then "" ∷ part ∷ parts else String.◌∷◌ c part ∷ parts
]

-- One decimal octet: one to three digits, no leading zero, at most 255.
unfoldable pub is_octet : List ℕ → Bool
is_octet (a ∷ []) = is_digit a
is_octet (a ∷ b ∷ []) = is_digit a && is_digit b && not (nat_beq a b'0')
is_octet (a ∷ b ∷ c ∷ []) =
    is_digit a
    && is_digit b
    && is_digit c
    && not (nat_beq a b'0')
    && leb ((a - b'0') * 100 + (b - b'0') * 10 + (c - b'0')) 255
is_octet _ = false
