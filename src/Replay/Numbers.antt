-- ===== src/Replay/Numbers.antt =====
-- What `_decode_frames` of app/adapters/osr_replay.py uses of Python's `str`: `split` at one
-- character, `strip`, and `int` of text that `bytes.decode("ascii", errors="replace")` gave, in
-- which what is not ASCII is U+FFFD.
use bancho_prism_1_0_0_prod.Base.{
  ℕ, zero, suc, ◌+◌, ◌-◌, ◌*◌, ◌%◌, List, [], ◌∷◌, map, Bool, true, false, ◌&&◌, ◌||◌, Option, none,
  some, ltb, leb, ◌==◌, if◌then◌else◌,
}
use bancho_prism_1_0_0_prod.Base.Int.{ℤ, pos, negsuc}
use bancho_prism_1_0_0_prod.Utf8.{Bytes, Text}

-- raw.decode("ascii", errors="replace")
abbrev pub decode_ascii : Bytes → Text
decode_ascii = map (λ b. if ltb b 128 then b else 0xfffd)

abbrev pub before_first : ℕ → List Text → List Text
before_first c [] = []
before_first c (part ∷ parts) = (c ∷ part) ∷ parts

-- text.split(separator)
unfoldable pub split : (separator : ℕ) → Text → List Text
split separator [] = [] ∷ []
split separator (c ∷ s) =
    let rest = split separator s in if c == separator then [] ∷ rest else before_first c rest

abbrev pub drop_while : (ℕ → Bool) → Text → Text
drop_while test [] = []
drop_while test (c ∷ s) = if test c then drop_while test s else c ∷ s

-- What is left of a text whose end is white space.
abbrev pub trim_end : (ℕ → Bool) → Text → Text
trim_end test [] = []
trim_end test (c ∷ s) = elim (trim_end test s) [
  | [] ↦ if test c then [] else c ∷ []
  | d ∷ t ↦ c ∷ d ∷ t
]

-- The ASCII white space of `str.strip`; `int` does not take the four separators for it.
abbrev pub is_space : ℕ → Bool
is_space c = (leb 9 c && leb c 13) || (leb 28 c && leb c 32)

abbrev pub is_int_space : ℕ → Bool
is_int_space c = (leb 9 c && leb c 13) || c == 32

unfoldable pub strip : Text → Text
strip s = trim_end is_space (drop_while is_space s)

abbrev is_digit : ℕ → Bool
is_digit c = leb 48 c && leb c 57

-- Digits, in which an underscore stands between two; more than 4300 of them are refused.
unfoldable pub digits : (acc count : ℕ) (after_digit : Bool) → Text → Option ℕ
digits acc count after_digit [] = if after_digit && leb count 4300 then some acc else none
digits acc count after_digit (c ∷ s) =
    if is_digit c
    then digits (acc * 10 + (c - 48)) (count + 1) true s
    else if c == 95 && after_digit
    then digits acc count false s
    else none

abbrev negated : Option ℕ → Option ℤ
negated none = none
negated (some zero) = some (pos zero)
negated (some (suc n)) = some (negsuc n)

abbrev non_negative : Option ℕ → Option ℤ
non_negative none = none
non_negative (some n) = some (pos n)

abbrev pub signed : Text → Option ℤ
signed [] = none
signed (c ∷ s) =
    if c == 45
    then negated (digits 0 0 false s)
    else if c == 43
    then non_negative (digits 0 0 false s)
    else non_negative (digits 0 0 false (c ∷ s))

-- int(text), `none` where it raises ValueError
unfoldable pub int_of : Text → Option ℤ
unfolding digits
int_of s = signed (trim_end is_int_space (drop_while is_int_space s))

-- z & 0x1f, of the two's complement form
abbrev pub low_5 : ℤ → ℕ
low_5 (pos n) = n % 32
low_5 (negsuc n) = 31 - n % 32
