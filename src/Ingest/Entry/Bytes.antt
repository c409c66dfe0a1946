-- ===== src/Ingest/Entry/Bytes.antt =====
-- Big-endian numbers of a given width: `be_from` and its inverse.
use ctwatch.Base.{
  ℕ, zero, suc, ◌+◌, ◌*◌, ◌/◌, ◌%◌, ◌^◌, ◌<◌, ◌≡◌, refl, ◌∙◌, List, [], ◌∷◌, ◌++◌, arith, length,
  length-append, All,
}
use native.Mathlib.Nat.{pow-suc}
use mathlib.Core.List.{append-nil, append_assoc}
use ctwatch.Ingest.Entry.Reader.{be_from}

-- The low `n` bytes of a number, high byte first.
abbrev pub to_be : ℕ → ℕ → List ℕ
to_be zero v = []
to_be (suc n) v = to_be n (v / 256) ++ (v % 256 ∷ [])

abbrev pub IsByte : ℕ → Type 0
IsByte b = b < 256

pub length-to_be : (n v : ℕ) → length (to_be n v) ≡ n
length-to_be zero v = refl
length-to_be (suc n) v =
    omega (arith, length-append (to_be n (v / 256)) (v % 256 ∷ []), length-to_be n (v / 256))

be_from-snoc :
    (acc : ℕ) (bs : List ℕ) (b : ℕ) → be_from acc (bs ++ b ∷ []) ≡ be_from acc bs * 256 + b
be_from-snoc acc [] b = refl
be_from-snoc acc (c ∷ bs) b = be_from-snoc (acc * 256 + c) bs b

pub be_from-to_be : (n v : ℕ) → v < 256 ^ n → be_from 0 (to_be n v) ≡ v
be_from-to_be zero v h = omega arith
be_from-to_be (suc n) v h =
    let h' : v < 256 ^ n * 256 = rw pow-suc at h in
    let ih : be_from 0 (to_be n (v / 256)) ≡ v / 256 = be_from-to_be n (v / 256) (omega arith) in
    rw be_from-snoc (omega (arith, ih))

to_be-be_from_acc :
    (k acc : ℕ) (p bs : List ℕ)
    → to_be k acc ≡ p
    → All IsByte bs
    → (m : ℕ) → m ≡ length bs + k
    → to_be m (be_from acc bs) ≡ p ++ bs
to_be-be_from_acc k acc p [] e h m l = let same : m ≡ k = omega arith in rw (same, append-nil) e
to_be-be_from_acc k acc p (b ∷ bs) e h m l =
    let quotient : (acc * 256 + b) / 256 ≡ acc = omega (arith, h.0) in
    let remainder : (acc * 256 + b) % 256 ≡ b = omega (arith, h.0) in
    let step : to_be (suc k) (acc * 256 + b) ≡ p ++ b ∷ [] = rw (quotient, remainder, e) in
    to_be-be_from_acc (suc k) (acc * 256 + b) (p ++ b ∷ []) bs step h.1 m (omega arith)
    ∙ append_assoc p (b ∷ []) bs

pub to_be-be_from : (bs : List ℕ) → All IsByte bs → to_be (length bs) (be_from 0 bs) ≡ bs
to_be-be_from bs h = to_be-be_from_acc 0 0 [] bs refl h (length bs) (omega arith)
