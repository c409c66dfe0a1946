-- ===== src/Ingest/Entry/Numbers.antt =====
-- The numbers and length-prefixed strings that src/ingest/entry.rs reads, from what they took.
use native.Mathlib.Nat.{pow-suc}
use ctwatch.Base.{
  ℕ, zero, suc, ◌+◌, ◌*◌, ◌/◌, ◌%◌, ◌^◌, ◌≤◌, ◌<◌, ◌≡◌, refl, ap, ◌∙◌, sym, subst, List, [], ◌∷◌,
  ◌++◌, arith, length, All,
}
use ctwatch.Base.Int.{u64_mod}
use ctwatch.Base.Result.{ok}
use ctwatch.Ingest.Entry.Reader.{
  Reader, pure, read_exact, first, be_from, u8, u16, u64, read_len, slice, var_bytes,
}
use ctwatch.Ingest.Entry.Bytes.{IsByte, to_be, to_be-be_from}
use ctwatch.Ingest.Entry.Encode.{opaque_bytes}
use ctwatch.Ingest.Entry.Parses.{At}
use ctwatch.Ingest.Entry.Inverts.{
  Took, Took-append, read_exact-inverts, slice-inverts, bind-inverts,
}

single : (b : ℕ) (bs : List ℕ) → length bs ≡ 1 → first bs ≡ b → bs ≡ b ∷ []
single b [] l e = absurd (omega arith)
single b (c ∷ []) l e = ap (λ x. x ∷ []) e
single b (c ∷ d ∷ bs) l e = absurd (omega arith)

-- A number that fits the bytes it was read from.
be_from-lt :
    (k acc : ℕ) (bs : List ℕ) (m : ℕ)
    → acc < 256 ^ k
    → All IsByte bs
    → m ≡ length bs + k
    → be_from acc bs < 256 ^ m
be_from-lt k acc [] m h a e = let same : m ≡ k = omega arith in rw same h
be_from-lt k acc (b ∷ bs) m h a e =
    be_from-lt (suc k) (acc * 256 + b) bs m (rw pow-suc (omega (arith, a.0))) a.1 (omega arith)

pub record Read (width v : ℕ) (inp : List ℕ) (r' : Reader) : Type 0 where
  pub took : Took inp (to_be width v) r'
  pub fits : v < 256 ^ width

number-Read :
    (n : ℕ) (bs inp : List ℕ) (r' : Reader)
    → length bs ≡ n
    → Took inp bs r'
    → Read n (be_from 0 bs) inp r'
number-Read n bs inp r' l t = record {
  took =
      subst (λ x. Took inp x r')
        (sym (to_be-be_from bs t.bytes) ∙ ap (λ k. to_be k (be_from 0 bs)) l) t;
  fits = be_from-lt 0 0 bs n (omega arith) t.bytes (omega arith);
}

-- How large the number may be when `n` more bytes are shifted in.
room : ℕ → ℕ
room zero = u64_mod
room (suc n) = room n / 256

room-le : (n : ℕ) → room n ≤ u64_mod
unfolding room
room-le zero = omega arith
room-le (suc n) = omega (arith, room-le n)

module _ (r : Reader) (inp : List ℕ) (at : At r inp) (bytes : All IsByte inp) where
  pub u8-inverts : (b : ℕ) (r' : Reader) → u8 r ≡ ok (b, r') → Took inp (b ∷ []) r'
  unfolding u8
  u8-inverts b r' e =
      let (bs, r₁, e₁, e₂) = bind-inverts (read_exact 1 r) (λ b. pure (first b)) e in
      let (l, t) = read_exact-inverts r inp at bytes 1 bs r₁ e₁ in
      let same : bs ≡ b ∷ [] = single b bs l (cc) in
      let moved : r₁ ≡ r' = cc in rw (← same, ← moved) t

  pub u16-inverts : (v : ℕ) (r' : Reader) → u16 r ≡ ok (v, r') → Read 2 v inp r'
  unfolding u16
  u16-inverts v r' e =
      let (bs, r₁, e₁, e₂) = bind-inverts (read_exact 2 r) (λ b. pure (be_from 0 b)) e in
      let (l, t) = read_exact-inverts r inp at bytes 2 bs r₁ e₁ in
      let value : be_from 0 bs ≡ v = cc in
      let moved : r₁ ≡ r' = cc in rw (← value, ← moved) (number-Read 2 bs inp r₁ l t)

  pub u64-inverts : (v : ℕ) (r' : Reader) → u64 r ≡ ok (v, r') → Read 8 v inp r'
  unfolding u64
  u64-inverts v r' e =
      let (bs, r₁, e₁, e₂) = bind-inverts (read_exact 8 r) (λ b. pure (be_from 0 b)) e in
      let (l, t) = read_exact-inverts r inp at bytes 8 bs r₁ e₁ in
      let value : be_from 0 bs ≡ v = cc in
      let moved : r₁ ≡ r' = cc in rw (← value, ← moved) (number-Read 8 bs inp r₁ l t)

room_pos : (n : ℕ) → n ≤ 3 → 0 < room n
unfolding room
room_pos zero h = omega arith
room_pos (suc zero) h = omega arith
room_pos (suc (suc zero)) h = omega arith
room_pos (suc (suc (suc zero))) h = omega arith
room_pos (suc (suc (suc (suc n)))) h = absurd (omega arith)

read_len-inverts :
    (n len : ℕ) (r : Reader) (inp : List ℕ)
    → At r inp
    → All IsByte inp
    → (v : ℕ) (r' : Reader) → len < room n
    → read_len n len r ≡ ok (v, r')
    → (bs : List ℕ) × (length bs ≡ n) × (v ≡ be_from len bs) × Took inp bs r'
unfolding read_len room
read_len-inverts zero len r inp at bytes v r' h e = (
  [],
  refl,
  cc,
  record {
    rest = inp;
    input = refl;
    bytes = tt;
    rest_bytes = bytes;
    at = let moved : r ≡ r' = cc in subst (λ x. At x inp) moved at;
  },
)
read_len-inverts (suc n) len r inp at bytes v r' h e =
    let (b, r₁, e₁, e₂) = bind-inverts (u8 r) (λ b. read_len n ((len * 256) % u64_mod + b)) e in
    let t = u8-inverts r inp at bytes b r₁ e₁ in
    let exact : (len * 256) % u64_mod + b ≡ len * 256 + b = omega (arith, room-le n) in
    let (bs, l, value, t') =
      read_len-inverts n (len * 256 + b) r₁ t.rest t.at t.rest_bytes v r' (omega (arith, t.bytes.0))
        (rw exact at e₂) in
    (b ∷ bs, omega arith, value, Took-append t t')

-- A length of at most three bytes, and that many bytes after it.
pub var_bytes-inverts :
    (n : ℕ) (r : Reader) (inp : List ℕ)
    → At r inp
    → All IsByte inp
    → (bs : List ℕ) (r' : Reader) → n ≤ 3
    → var_bytes n r ≡ ok (bs, r')
    → Took inp (opaque_bytes n bs) r' × (length bs < 256 ^ n)
unfolding var_bytes
var_bytes-inverts n r inp at bytes bs r' small e =
    let (v, r₁, e₁, e₂) = bind-inverts (read_len n 0 r) slice e in
    let (lenbs, l, value, t) = read_len-inverts n 0 r inp at bytes v r₁ (room_pos n small) e₁ in
    let (l', t') = slice-inverts r₁ t.rest t.at t.rest_bytes v bs r' e₂ in
    let read = number-Read n lenbs inp r₁ l t in
    let size : be_from 0 lenbs ≡ length bs = sym value ∙ sym l' in
    let prefix : lenbs ≡ to_be n (length bs) =
      sym (to_be-be_from lenbs t.bytes)
      ∙ ap (λ k. to_be k (be_from 0 lenbs)) l
      ∙ ap (to_be n) size in
    (
      subst (λ x. Took inp (x ++ bs) r') prefix (Took-append t t'),
      subst (λ x. x < 256 ^ n) size read.fits,
    )
