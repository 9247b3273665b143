-- ===== src/Str.antt =====
-- lib/string.c: a string is the list of its bytes before the null that ends it, and the bytes that
-- a call writes are its result, with the null left out where one ends a string.
pub mod Compare
pub mod Digits
mod Tests
use fos_educational_os_proje.Base.{
  ℕ, zero, suc, ◌+◌, ◌-◌, ◌*◌, ◌^◌, ◌/◌, ◌%◌, Bool, true, false, ◌&&◌, ◌||◌, Option, none, some,
  List, [], ◌∷◌, ◌++◌, ◌==◌, ltb, leb, if◌then◌else◌,
}
use fos_educational_os_proje.Base.Int.{ℤ, pos, negsuc}
use mathlib.Core.List.{reverse}

-- *s and s + 1
abbrev pub first : List ℕ → ℕ
first [] = 0
first (c ∷ s) = c

abbrev pub rest : List ℕ → List ℕ
rest [] = []
rest (c ∷ s) = s

-- The difference of two bytes as an int.
abbrev pub diff : ℕ → ℕ → ℤ
diff a b = if leb b a then pos (a - b) else negsuc (b - a - 1)

unfoldable pub strlen : List ℕ → ℕ
strlen [] = 0
strlen (c ∷ s) = 1 + strlen s

unfoldable pub strnlen : List ℕ → (size : ℕ) → ℕ
strnlen s zero = 0
strnlen [] (suc n) = 0
strnlen (c ∷ s) (suc n) = 1 + strnlen s n

-- All `size` bytes that are written.
unfoldable pub strncpy : List ℕ → (size : ℕ) → List ℕ
strncpy src zero = []
strncpy src (suc n) = first src ∷ strncpy (rest src) n

-- The bytes before the null that is written at the end, for a size that is not 0.
abbrev copy_below : List ℕ → ℕ → List ℕ
copy_below src zero = []
copy_below [] (suc n) = []
copy_below (c ∷ src) (suc n) = c ∷ copy_below src n

unfoldable pub strlcpy : List ℕ → (size : ℕ) → Option (List ℕ)
strlcpy src zero = none
strlcpy src (suc n) = some (copy_below src n)

unfoldable pub strcmp : List ℕ → List ℕ → ℤ
strcmp [] q = diff 0 (first q)
strcmp (c ∷ p) q = let r = strcmp p (rest q) in if c == first q then r else diff c (first q)

unfoldable pub strncmp : List ℕ → List ℕ → ℕ → ℤ
strncmp p q zero = pos 0
strncmp [] q (suc n) = diff 0 (first q)
strncmp (c ∷ p) q (suc n) =
    let r = strncmp p (rest q) n in if c == first q then r else diff c (first q)

-- The string from the first `c` on, or null.
unfoldable pub strchr : List ℕ → ℕ → Option (List ℕ)
strchr [] c = none
strchr (d ∷ s) c = if d == c then some (d ∷ s) else strchr s c

unfoldable pub strfind : List ℕ → ℕ → List ℕ
strfind [] c = []
strfind (d ∷ s) c = if d == c then d ∷ s else strfind s c

-- Two blocks of the same number of bytes.
unfoldable pub memcmp : List ℕ → List ℕ → ℤ
memcmp [] s₂ = pos 0
memcmp (a ∷ s₁) [] = pos 0
memcmp (a ∷ s₁) (b ∷ s₂) = if a == b then memcmp s₁ s₂ else diff a b

unfoldable pub strcconcat : List ℕ → List ℕ → List ℕ
strcconcat [] t = t
strcconcat (c ∷ s) t = c ∷ strcconcat s t

unfoldable pub str2lower : List ℕ → List ℕ
str2lower [] = []
str2lower (c ∷ s) = (if leb 65 c && leb c 90 then c + 32 else c) ∷ str2lower s

-- strtol, part by part: the leading blanks ...
unfoldable pub skip_blanks : List ℕ → List ℕ
skip_blanks [] = []
skip_blanks (c ∷ s) = if (c == 32) || (c == 9) then skip_blanks s else c ∷ s

-- ... the sign ...
unfoldable pub take_sign : List ℕ → Bool × List ℕ
take_sign [] = (false, [])
take_sign (c ∷ s) = if c == 43 then (false, s) else if c == 45 then (true, s) else (false, c ∷ s)

-- ... the prefix of the base ...
unfoldable pub take_base : List ℕ → ℕ → ℕ × List ℕ
take_base s base =
    if ((base == 0) || (base == 16)) && ((first s == 48) && (first (rest s) == 120))
    then (16, rest (rest s))
    else if (base == 0) && (first s == 48)
    then (8, rest s)
    else if base == 0
    then (10, s)
    else (base, s)

-- ... the value of a digit, none for another byte ...
unfoldable pub digit : ℕ → Option ℕ
digit c =
    if leb 48 c && leb c 57
    then some (c - 48)
    else if leb 97 c && leb c 122
    then some (c - 97 + 10)
    else if leb 65 c && leb c 90
    then some (c - 65 + 10)
    else none

abbrev pub step :
    Option ℕ → (base : ℕ) → (go_on : ℕ → ℕ × List ℕ) → (stop : ℕ × List ℕ) → ℕ × List ℕ
step none base go_on stop = stop
step (some d) base go_on stop = if leb base d then stop else go_on d

-- ... and the digits. A long has 32 bits, and the value keeps the low ones.
unfoldable pub digits : (base : ℕ) → List ℕ → (val : ℕ) → ℕ × List ℕ
digits base [] val = (val, [])
digits base (c ∷ s) val =
    step (digit c) base (λ d. digits base s ((val * base + d) % 2 ^ 32)) (val, c ∷ s)

-- The long with these 32 bits, and its negation.
abbrev pub to_long : ℕ → ℤ
to_long v = if ltb v (2 ^ 31) then pos v else negsuc (2 ^ 32 - v - 1)

abbrev pub negated : Bool → ℕ → ℕ
negated neg v = if neg then (2 ^ 32 - v) % 2 ^ 32 else v

-- The value, and the string behind it (*endptr).
unfoldable pub strtol : List ℕ → (base : ℕ) → ℤ × List ℕ
strtol s base =
    let (neg, s₁) = take_sign (skip_blanks s) in
    let (b, s₂) = take_base s₁ base in
    let (val, s₃) = digits b s₂ 0 in (to_long (negated neg val), s₃)

-- The loop of ltostr, which writes the last digit first. The rounds are enough where they are more
-- than the value.
unfoldable pub last_digits : (fuel value : ℕ) → List ℕ
last_digits zero value = []
last_digits (suc n) value =
    let more = last_digits n (value / 10) in
    (value % 10 + 48) ∷ (if value / 10 == 0 then [] else more)

-- The digits in the order of reading: the second loop swaps the ends until they meet.
unfoldable pub decimal : ℕ → List ℕ
decimal value = reverse (last_digits (value + 1) value)

-- For -2 ^ 31, which `value * -1` does not negate, C leaves the result open.
unfoldable pub ltostr : ℤ → Option (List ℕ)
ltostr (pos n) = some (decimal n)
ltostr (negsuc n) = if n == 2 ^ 31 - 1 then none else some (45 ∷ decimal (n + 1))
