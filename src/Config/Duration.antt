-- ===== src/Config/Duration.antt =====
-- `humantime_serde_seconds` of src/config.rs, and the parsing of a u64 that it uses of Rust.
use ctwatch.Base.{
  ℕ, zero, suc, ◌+◌, ◌-◌, ◌*◌, ◌/◌, ◌%◌, ◌^◌, ◌<◌, ◌≡◌, refl, ◌∙◌, ap, Bool, true, false, ◌&&◌, [],
  ◌∷◌, ◌++◌, arith, leb, ltb, ◌==◌, All, inl, inr, Bool-cases, if◌then◌else◌,
}
use ctwatch.Base.Int.{u64_mod}
use ctwatch.Base.Text.{Text, is_empty, ends_with, ends_with_snoc, init, init_snoc, digits, decimal}
use ctwatch.Base.Result.{Result, ok, err, parse_int_error, ◌>>=◌}

abbrev is_digit : ℕ → Bool
is_digit c = leb b'0' c && leb c b'9'

-- The digits after the value so far; it overflows where it leaves u64.
unfoldable parse_digits : ℕ → Text → Result ℕ
parse_digits n [] = ok n
parse_digits n (c ∷ s) =
    let rest = parse_digits (n * 10 + (c - b'0')) s in
    if is_digit c && ltb (n * 10 + (c - b'0')) u64_mod then rest else err parse_int_error

-- str::parse::<u64>: a sign `+` may come first.
unfoldable pub parse_u64 : Text → Result ℕ
unfolding parse_digits
parse_u64 [] = err parse_int_error
parse_u64 (c ∷ s) =
    if c == b'+'
    then (if is_empty s then err parse_int_error else parse_digits 0 s)
    else parse_digits 0 (c ∷ s)

-- The number of seconds. The multiplication wraps in the release profile.
unfoldable pub deserialize : Text → Result ℕ
deserialize s =
    if ends_with b's' s
    then parse_u64 (init s)
    else if ends_with b'm' s
    then (parse_u64 (init s) >>= λ m. ok (m * 60 % u64_mod))
    else parse_u64 s

read_digit :
    (n d : ℕ) (s : Text)
    → d < 10
    → n * 10 + d < u64_mod
    → parse_digits n ((d + 48) ∷ s) ≡ parse_digits (n * 10 + d) s
unfolding parse_digits
read_digit n d s h k =
    let value : (d + 48) - 48 ≡ d = omega arith in
    let test : is_digit (d + 48) && ltb (n * 10 + d) u64_mod ≡ true = ground arith in
    rw (value, test) refl

-- The digits of a number are read back as the number.
parse_digits-digits :
    (fuel n : ℕ) (out : Text)
    → n < 10 ^ fuel
    → n < u64_mod
    → parse_digits 0 (digits fuel n out) ≡ parse_digits n out
unfolding parse_digits digits
parse_digits-digits zero n out h k = let e : n ≡ 0 = omega arith in rw e refl
parse_digits-digits (suc fuel) n out h k = elim (Bool-cases (ltb n 10)) [
  | inl e ↦ rw e (
      read_digit 0 n out (ground arith) (omega arith)
      ∙ ap (λ m. parse_digits m out) {x = 0 * 10 + n} {y = n} (omega arith))
  | inr e ↦ rw e (
      parse_digits-digits fuel (n / 10) ((n % 10 + 48) ∷ out) (omega arith) (omega arith)
      ∙ read_digit (n / 10) (n % 10) out (omega arith) (omega arith)
      ∙ ap (λ m. parse_digits m out) {x = n / 10 * 10 + n % 10} {y = n} (omega arith))
]

abbrev IsNumeral : Text → Type 0
IsNumeral s = All (λ c. is_digit c ≡ true) s

digits-IsNumeral : (fuel n : ℕ) (out : Text) → IsNumeral out → IsNumeral (digits fuel n out)
unfolding digits
digits-IsNumeral zero n out h = h
digits-IsNumeral (suc fuel) n out h = elim (Bool-cases (ltb n 10)) [
  | inl e ↦ rw e (ground arith, h)
  | inr e ↦
      rw e (digits-IsNumeral fuel (n / 10) ((n % 10 + 48) ∷ out) (digit (n % 10) (omega arith), h))
]
  where
    digit : (d : ℕ) → d < 10 → is_digit (d + 48) ≡ true
    digit d h = ground arith

is_empty-digits : (fuel n c : ℕ) (out : Text) → is_empty (digits fuel n (c ∷ out)) ≡ false
unfolding digits
is_empty-digits zero n c out = refl
is_empty-digits (suc fuel) n c out =
    ground (arith, is_empty-digits fuel (n / 10) (n % 10 + 48) (c ∷ out))

is_empty-decimal : (n : ℕ) → is_empty (decimal n) ≡ false
unfolding decimal digits
is_empty-decimal n = ground (arith, is_empty-digits 19 (n / 10) (n % 10 + 48) [])

-- What no numeral ends with.
ends_with_numeral : (c : ℕ) (s : Text) → is_digit c ≡ false → IsNumeral s → ends_with c s ≡ false
unfolding ends_with
ends_with_numeral c [] h k = refl
ends_with_numeral c (d ∷ []) h k = ground (arith, k.0)
ends_with_numeral c (d ∷ e ∷ s) h k = ends_with_numeral c (e ∷ s) h k.1

parse_u64_numeral :
    (n : ℕ) (s : Text)
    → is_empty s ≡ false
    → IsNumeral s
    → parse_digits 0 s ≡ ok n
    → parse_u64 s ≡ ok n
unfolding parse_u64
parse_u64_numeral n [] h k e = cc
parse_u64_numeral n (c ∷ s) h k e = let plus : c == b'+' ≡ false = ground (arith, k.0) in rw plus e

-- A u64 is read back from its decimal digits.
parse_u64-decimal : (n : ℕ) → n < u64_mod → parse_u64 (decimal n) ≡ ok n
unfolding decimal parse_digits
parse_u64-decimal n h =
    parse_u64_numeral n (decimal n) (is_empty-decimal n) (digits-IsNumeral 20 n [] tt)
      (parse_digits-digits 20 n [] (omega arith) h)

decimal-IsNumeral : (n : ℕ) → IsNumeral (decimal n)
unfolding decimal
decimal-IsNumeral n = digits-IsNumeral 20 n [] tt

-- A u64 in decimal digits is read back as a number of seconds, with or without `s` behind it, and with
-- `m` as a number of minutes, whose seconds are taken modulo 2^64.
pub deserialize-decimal :
    (n : ℕ)
    → n < u64_mod
    → (deserialize (decimal n) ≡ ok n)
      × (deserialize (decimal n ++ b's' ∷ []) ≡ ok n)
      × (deserialize (decimal n ++ b'm' ∷ []) ≡ ok (n * 60 % u64_mod))
unfolding deserialize
deserialize-decimal n h =
    let no_s = ends_with_numeral b's' (decimal n) refl (decimal-IsNumeral n) in
    let no_m = ends_with_numeral b'm' (decimal n) refl (decimal-IsNumeral n) in
    (
      rw (no_s, no_m) (parse_u64-decimal n h),
      rw (ends_with_snoc b's' b's' (decimal n), init_snoc b's' (decimal n)) (parse_u64-decimal n h),
      rw
          (
            ends_with_snoc b's' b'm' (decimal n),
            ends_with_snoc b'm' b'm' (decimal n),
            init_snoc b'm' (decimal n),
            parse_u64-decimal n h,
          )
          refl,
    )
