-- ===== src/Str/Tests.antt =====
-- The routines of lib/string.c on short strings.
use fos_educational_os_proje.Base.{◌≡◌, refl, [], ◌∷◌, some, arith, Yields}
use fos_educational_os_proje.Base.Int.{negsuc}
use fos_educational_os_proje.Str.{
  strtol, ltostr, skip_blanks, take_sign, take_base, digits, digit, decimal, last_digits,
}
use fos_educational_os_proje.Str.Digits.{strtol-ltostr}

-- "-0x1fg" at base 0
reads_hex : strtol (45 ∷ 48 ∷ 120 ∷ 49 ∷ 102 ∷ 103 ∷ []) 0 ≡ (negsuc 30, 103 ∷ [])
unfolding strtol skip_blanks take_sign take_base digits digit
reads_hex = refl

writes_decimal : ltostr (negsuc 104) ≡ some (45 ∷ 49 ∷ 48 ∷ 53 ∷ [])
unfolding ltostr decimal last_digits
writes_decimal = refl

strtol-ltostr_example : Yields (λ s. strtol s 10 ≡ (negsuc 104, [])) (ltostr (negsuc 104))
strtol-ltostr_example = strtol-ltostr (negsuc 104) (omega arith)
