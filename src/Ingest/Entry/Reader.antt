-- ===== src/Ingest/Entry/Reader.antt =====
-- src/ingest/entry.rs: `Reader`, a cursor over a byte slice. A parser takes the reader to a result
-- and the reader moved on; after an error the program drops the reader.
use ctwatch.Base.{
  ℕ, zero, suc, ◌+◌, ◌*◌, ◌%◌, Bool, true, false, List, [], ◌∷◌, ltb, length, take, drop,
  if◌then◌else◌,
}
use ctwatch.Base.Int.{u64_mod}
use ctwatch.Base.Result.{Error, Result, ok, err, short_read, short_var_bytes}

pub record Reader : Type 0 where
  pub buf : List ℕ
  pub pos : ℕ

abbrev pub Parser : Type 0 → Type 0
Parser A = Reader → Result (A × Reader)

abbrev pub pure : {A : Type 0} → A → Parser A
pure a r = ok (a, r)

abbrev pub fail : {A : Type 0} → Error → Parser A
fail e r = err e

abbrev pub lift : {A : Type 0} → Result A → Parser A
lift (ok a) r = ok (a, r)
lift (err e) r = err e

-- `bail!` under a test
abbrev pub check : Bool → Error → Parser (Unit {0})
check true e r = ok (tt, r)
check false e r = err e

infixl 5 ◌>>=◌ ◌>>◌
abbrev pub ◌>>=◌ : {A B : Type 0} → Parser A → (A → Parser B) → Parser B
◌>>=◌ m f r = elim (m r) [ ok (a, r') ↦ f a r' | err e ↦ err e ]

abbrev pub ◌>>◌ : {B : Type 0} → Parser (Unit {0}) → Parser B → Parser B
m >> k = m >>= λ _. k

unfoldable pub new : List ℕ → Reader
new buf = record { buf = buf; pos = 0 }

-- The bytes copied into a destination of `n` bytes.
unfoldable pub read_exact : ℕ → Parser (List ℕ)
read_exact n r =
    if ltb (length r.buf) (r.pos + n)
    then err short_read
    else ok (take n (drop r.pos r.buf), record r { pos = r.pos + n })

-- `b[0]`, of an array that was zeroed
abbrev pub first : List ℕ → ℕ
first [] = 0
first (b ∷ bs) = b

-- from_be_bytes, from the high byte on
abbrev pub be_from : ℕ → List ℕ → ℕ
be_from acc [] = acc
be_from acc (b ∷ bs) = be_from (acc * 256 + b) bs

unfoldable pub u8 : Parser ℕ
u8 = do b ← read_exact 1; pure (first b)

unfoldable pub u16 : Parser ℕ
u16 = do b ← read_exact 2; pure (be_from 0 b)

unfoldable pub u64 : Parser ℕ
u64 = do b ← read_exact 8; pure (be_from 0 b)

-- The loop over `len_bytes`: `(len << 8) | b` on u64, where the byte fills the eight free bits.
unfoldable pub read_len : ℕ → ℕ → Parser ℕ
read_len zero len = pure len
read_len (suc n) len = do b ← u8; read_len n ((len * 256) % u64_mod + b)

-- `self.buf[pos..pos + len]` behind its test
unfoldable pub slice : ℕ → Parser (List ℕ)
slice len r =
    if ltb (length r.buf) (r.pos + len)
    then err short_var_bytes
    else ok (take len (drop r.pos r.buf), record r { pos = r.pos + len })

unfoldable pub var_bytes : ℕ → Parser (List ℕ)
var_bytes len_bytes = do len ← read_len len_bytes 0; slice len
