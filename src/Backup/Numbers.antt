-- ===== src/Backup/Numbers.antt =====
-- The numbers of a manifest record: `{}` and `{:o}` print them, `parse` and `from_str_radix` read
-- them back, below a maximum.
use Prim.Native.Nat.{zero, suc, ◌+◌, ◌-◌, ◌*◌, ◌/◌, ◌%◌, ◌≤◌}
use onix_core.Base.{
  ℕ, false, Option, none, some, [], ◌∷◌, ◌||◌, ◌≡◌, ◌≢◌, refl, All, arith, leb, ltb, nat_eq, ◌∙◌,
  Bool-cases, inl, inr, if◌then◌else◌,
}
use onix_core.Base.Text.{Text}

pub data Radix : Type 0 where
  decimal octal : Radix

abbrev pub base : Radix → ℕ
base decimal = 10
base octal = 8

-- The digits of `n` before those of `out`. The fuel is one round for each digit at most.
unfoldable pub emit : Radix → ℕ → ℕ → Text → Text
emit r zero n out = out
emit r (suc fuel) n out =
    let rest = emit r fuel (n / base r) ((b'0' + n % base r) ∷ out) in
    if nat_eq n 0 then out else rest

unfoldable pub format : Radix → ℕ → Text
unfolding emit
format r n = if nat_eq n 0 then b'0' ∷ [] else emit r n n []

-- Each digit is checked, then the multiplication and the addition.
unfoldable pub scan : Radix → ℕ → Text → ℕ → Option ℕ
scan r max [] n = some n
scan r max (c ∷ s) n =
    let rest = scan r max s (n * base r + (c - b'0')) in
    if ltb c b'0' || leb (b'0' + base r) c
    then none
    else if ltb max (n * base r + (c - b'0'))
    then none
    else rest

unfoldable pub scan_digits : Radix → ℕ → Text → Option ℕ
unfolding scan
scan_digits r max [] = none
scan_digits r max (c ∷ s) = scan r max (c ∷ s) 0

-- One leading plus sign is accepted.
unfoldable pub parse : Radix → ℕ → Text → Option ℕ
unfolding scan_digits
parse r max [] = none
parse r max (c ∷ s) = if nat_eq c b'+' then scan_digits r max s else scan_digits r max (c ∷ s)

abbrev pub IsDigit : ℕ → Type 0
IsDigit c = (b'0' ≤ c) × (c ≤ b'9')

scan_last :
    (r : Radix) (max n : ℕ) (out : Text)
    → n ≤ max
    → scan r max ((b'0' + n % base r) ∷ out) (n / base r) ≡ scan r max out n
unfolding scan
scan_last decimal max n out h = ground arith
scan_last octal max n out h = ground arith

scan-emit :
    (r : Radix) (max fuel n : ℕ) (out : Text)
    → n ≤ fuel
    → n ≤ max
    → scan r max (emit r fuel n out) 0 ≡ scan r max out n
unfolding emit
scan-emit r max zero n out f h = let e : n ≡ 0 = omega arith in rw e
scan-emit decimal max (suc fuel) n out f h = ground (
  arith,
  scan-emit decimal max fuel (n / 10) ((b'0' + n % 10) ∷ out),
  scan_last decimal max n out h,
)
scan-emit octal max (suc fuel) n out f h =
    ground
      (arith, scan-emit octal max fuel (n / 8) ((b'0' + n % 8) ∷ out), scan_last octal max n out h)

emit-IsDigit :
    (r : Radix) (fuel n : ℕ) (out : Text) → All IsDigit out → All IsDigit (emit r fuel n out)
unfolding emit
emit-IsDigit r zero n out h = h
emit-IsDigit decimal (suc fuel) n out h = elim (Bool-cases (nat_eq n 0)) [
  | inl done ↦ rw done h
  | inr more ↦
      rw more
        (emit-IsDigit decimal fuel (n / 10) ((b'0' + n % 10) ∷ out) ((omega arith, omega arith), h))
]
emit-IsDigit octal (suc fuel) n out h = elim (Bool-cases (nat_eq n 0)) [
  | inl done ↦ rw done h
  | inr more ↦
      rw more
        (emit-IsDigit octal fuel (n / 8) ((b'0' + n % 8) ∷ out) ((omega arith, omega arith), h))
]

pub format-IsDigit : (r : Radix) (n : ℕ) → All IsDigit (format r n)
unfolding format
format-IsDigit r n = elim (Bool-cases (nat_eq n 0)) [
  | inl done ↦ rw done ((omega arith, omega arith), tt)
  | inr more ↦ rw more (emit-IsDigit r n n [] tt)
]

emit-ne-nil : (r : Radix) (fuel n : ℕ) (out : Text) → out ≢ [] → emit r fuel n out ≢ []
unfolding emit
emit-ne-nil r zero n out h = h
emit-ne-nil r (suc fuel) n out h =
    ground (arith, emit-ne-nil r fuel (n / base r) ((b'0' + n % base r) ∷ out))

emit_positive : (r : Radix) (n : ℕ) → nat_eq n 0 ≡ false → emit r n n [] ≢ []
unfolding emit
emit_positive r zero h = cc
emit_positive r (suc n) h =
    ground (arith, emit-ne-nil r n (suc n / base r) ((b'0' + suc n % base r) ∷ []))

format-ne-nil : (r : Radix) (n : ℕ) → format r n ≢ []
unfolding format
format-ne-nil r n = ground (arith, emit_positive r n)

parse-digits :
    (r : Radix) (max : ℕ) (s : Text) → s ≢ [] → All IsDigit s → parse r max s ≡ scan r max s 0
unfolding parse scan_digits
parse-digits r max [] ne h = absurd (ne refl)
parse-digits r max (c ∷ s) ne h = ground arith

scan-format : (r : Radix) (max n : ℕ) → n ≤ max → scan r max (format r n) 0 ≡ some n
unfolding format scan
scan-format decimal max n h = ground (arith, scan-emit decimal max n n [])
scan-format octal max n h = ground (arith, scan-emit octal max n n [])

-- A printed number that is not above the maximum is read back.
pub parse-format : (r : Radix) (max n : ℕ) → n ≤ max → parse r max (format r n) ≡ some n
parse-format r max n h =
    parse-digits r max (format r n) (format-ne-nil r n) (format-IsDigit r n) ∙ scan-format r max n h

scan_bound :
    (r : Radix) (max : ℕ) (s : Text) (n m : ℕ) → n ≤ max → scan r max s n ≡ some m → m ≤ max
unfolding scan
scan_bound r max [] n m h e = ground arith
scan_bound r max (c ∷ s) n m h e = ground (arith, scan_bound r max s (n * base r + (c - b'0')) m)

-- What is read is not above the maximum.
pub parse_bound : (r : Radix) (max : ℕ) (s : Text) (m : ℕ) → parse r max s ≡ some m → m ≤ max
unfolding parse scan_digits
parse_bound r max [] m e = cc
parse_bound r max (c ∷ []) m e = ground (arith, scan_bound r max (c ∷ []) 0 m)
parse_bound r max (c ∷ d ∷ s) m e =
    ground (arith, scan_bound r max (c ∷ d ∷ s) 0 m, scan_bound r max (d ∷ s) 0 m)
