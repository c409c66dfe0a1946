-- ===== src/Base/Text.antt =====
-- What the program uses of Rust's `str`, `String` and `BTreeSet<String>`. A text is the list of its
-- code points, whose order is the byte order of UTF-8.
mod Order
unfoldable pub use Order.*
use Prim.Native.Nat.{ℕ, zero, suc, ◌+◌, ◌-◌, ◌*◌, ◌/◌, ◌%◌, ◌≤◌, ◌<◌}
use Prim.Native.Char.{code}
use Prim.Native.String.{String}
use mathlib.Core.Path.{◌≡◌, refl, ap}
use mathlib.Core.Logic.{◌≢◌, ◌↔◌}
use mathlib.Core.Bool.{Bool, true, false, ◌&&◌, ◌||◌}
use mathlib.Core.Option.{Option, none, some}
use mathlib.Core.List.{List, [], ◌∷◌, ◌++◌, map}
use native.Mathlib.Omega.{arith}
use ctwatch.Base.Tests.{ltb, leb, ◌==◌, if◌then◌else◌}

abbrev pub Text : Type 0
Text = List ℕ

abbrev pub text : String → Text
text String.[] = []
text (String.◌∷◌ c s) = code c ∷ text s

abbrev pub is_empty {ℓ} : {A : Type ℓ} → List A → Bool
is_empty [] = true
is_empty (x ∷ xs) = false

-- char::is_whitespace: the property White_Space.
unfoldable pub is_whitespace : ℕ → Bool
is_whitespace c =
    (leb 9 c && leb c 13)
    || c == 32
    || c == 0x85
    || c == 0xa0
    || c == 0x1680
    || (leb 0x2000 c && leb c 0x200a)
    || c == 0x2028
    || c == 0x2029
    || c == 0x202f
    || c == 0x205f
    || c == 0x3000

unfoldable pub to_lower : ℕ → ℕ
to_lower c = if leb b'A' c && leb c b'Z' then c + 32 else c

unfoldable pub to_ascii_lowercase : Text → Text
to_ascii_lowercase s = map to_lower s

-- The characters at the end that satisfy `p` go.
unfoldable pub strip_end : (ℕ → Bool) → Text → Text
strip_end p [] = []
strip_end p (c ∷ s) = let rest = strip_end p s in if is_empty rest && p c then [] else c ∷ rest

unfoldable pub trim_start : Text → Text
trim_start [] = []
trim_start (c ∷ s) = let rest = trim_start s in if is_whitespace c then rest else c ∷ s

unfoldable pub trim : Text → Text
unfolding trim_start strip_end is_whitespace
trim s = strip_end is_whitespace (trim_start s)

-- str::split at a character: never an empty list.
unfoldable pub split_cons : ℕ → List Text → List Text
split_cons c [] = (c ∷ []) ∷ []
split_cons c (w ∷ ws) = (c ∷ w) ∷ ws

unfoldable pub split : ℕ → Text → List Text
unfolding split_cons
split sep [] = [] ∷ []
split sep (c ∷ s) = let rest = split sep s in if c == sep then [] ∷ rest else split_cons c rest

unfoldable pub ends_with : ℕ → Text → Bool
ends_with c [] = false
ends_with c (d ∷ []) = d == c
ends_with c (d ∷ e ∷ s) = ends_with c (e ∷ s)

-- String::pop and str::strip_suffix of one character: all but the last.
unfoldable pub init : Text → Text
init [] = []
init (d ∷ []) = []
init (d ∷ e ∷ s) = d ∷ init (e ∷ s)

unfoldable pub strip_prefix : Text → Text → Option Text
strip_prefix [] s = some s
strip_prefix (p ∷ ps) [] = none
strip_prefix (p ∷ ps) (c ∷ s) = if p == c then strip_prefix ps s else none

unfoldable pub eq_ignore_ascii_case : Text → Text → Bool
unfolding to_ascii_lowercase to_lower
eq_ignore_ascii_case a b = beq (to_ascii_lowercase a) (to_ascii_lowercase b)

-- ToString for u64: at most twenty digits.
unfoldable pub digits : ℕ → ℕ → Text → Text
digits zero n out = out
digits (suc fuel) n out =
    let rest = digits fuel (n / 10) ((n % 10 + 48) ∷ out) in
    if ltb n 10 then (n + 48) ∷ out else rest

unfoldable pub decimal : ℕ → Text
unfolding digits
decimal n = digits 20 n []

to_lower_idem : (c : ℕ) → to_lower (to_lower c) ≡ to_lower c
unfolding to_lower
to_lower_idem c = ground arith

to_ascii_lowercase_idem :
    (s : Text) → to_ascii_lowercase (to_ascii_lowercase s) ≡ to_ascii_lowercase s
unfolding to_ascii_lowercase
to_ascii_lowercase_idem [] = refl
to_ascii_lowercase_idem (c ∷ s) = cc (to_lower_idem c, to_ascii_lowercase_idem s)

-- A text of lowercase characters only keeps that, whatever goes from its end.
pub to_ascii_lowercase-strip_end :
    (p : ℕ → Bool) (s : Text)
    → to_ascii_lowercase (strip_end p (to_ascii_lowercase s)) ≡ strip_end p (to_ascii_lowercase s)
unfolding to_ascii_lowercase strip_end
to_ascii_lowercase-strip_end p [] = refl
to_ascii_lowercase-strip_end p (c ∷ s) =
    ground (arith, to_lower_idem c, to_ascii_lowercase-strip_end p s)

pub ends_with-strip_end : (c : ℕ) (s : Text) → ends_with c (strip_end (λ d. d == c) s) ≡ false
unfolding ends_with strip_end
ends_with-strip_end c [] = refl
ends_with-strip_end c (d ∷ s) = go (strip_end (λ d. d == c) s) (ends_with-strip_end c s)
  where
    go :
        (rest : Text)
        → ends_with c rest ≡ false
        → ends_with c (if is_empty rest && (d == c) then [] else d ∷ rest) ≡ false
    go [] h = ground arith
    go (e ∷ rest) h = h

pub ends_with_snoc : (c d : ℕ) (s : Text) → ends_with c (s ++ d ∷ []) ≡ (d == c)
unfolding ends_with
ends_with_snoc c d [] = refl
ends_with_snoc c d (e ∷ []) = refl
ends_with_snoc c d (e ∷ f ∷ s) = ends_with_snoc c d (f ∷ s)

pub init_snoc : (d : ℕ) (s : Text) → init (s ++ d ∷ []) ≡ s
unfolding init
init_snoc d [] = refl
init_snoc d (e ∷ []) = refl
init_snoc d (e ∷ f ∷ s) = ap (λ t. e ∷ t) (init_snoc d (f ∷ s))
