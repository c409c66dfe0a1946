-- ===== src/Ingest/Entry/Parses.antt =====
-- What a parser of src/ingest/entry.rs does on an input that begins with a known text.
use mathlib.Core.List.{append_assoc}
use ctwatch.Base.{
  ℕ, zero, suc, ◌+◌, ◌*◌, ◌%◌, ◌^◌, ◌≤◌, ◌<◌, ◌≡◌, refl, ap, ◌∙◌, sym, subst, List, [], ◌∷◌, ◌++◌,
  arith, length, take, drop, length-append, length-drop, drop-drop, take-length_append,
  drop-length_append,
}
use ctwatch.Base.Int.{u64_mod}
use ctwatch.Base.Result.{Result, ok}
use ctwatch.Ingest.Entry.Reader.{
  Reader, Parser, pure, lift, ◌>>=◌, new, read_exact, be_from, u8, u16, u64, read_len, slice,
  var_bytes,
}
use ctwatch.Ingest.Entry.Bytes.{to_be, length-to_be, be_from-to_be}
use ctwatch.Ingest.Entry.Encode.{opaque_bytes}

-- What the reader has left.
pub record At (r : Reader) (inp : List ℕ) : Type 0 where
  pub left : drop r.pos r.buf ≡ inp
  pub within : r.pos ≤ length r.buf

-- From `inp` the parser returns `a` and leaves `rest`.
pub record Parses {A : Type 0} (p : Parser A) (inp : List ℕ) (a : A) (rest : List ℕ) : Type 0 where
  pub from : (r : Reader) → At r inp → (r' : Reader) × (p r ≡ ok (a, r')) × At r' rest

pub At-new : (buf : List ℕ) → At (new buf) buf
unfolding new
At-new buf = record { left = refl; within = omega arith }

At-advance :
    (r : Reader) (bs rest : List ℕ)
    → At r (bs ++ rest)
    → (r.pos + length bs ≤ length r.buf)
      × At (record r { pos = r.pos + length bs }) rest
      × (take (length bs) (drop r.pos r.buf) ≡ bs)
At-advance r bs rest h =
    let room : r.pos + length bs ≤ length r.buf =
      omega (arith, length-drop r.pos r.buf, length-append bs rest, ap length h.left, h.within) in
    (
      room,
      record {
        left =
            sym (drop-drop r.pos (length bs) (r.pos + length bs) r.buf refl)
            ∙ ap (drop (length bs)) h.left
            ∙ drop-length_append bs rest;
        within = room;
      },
      ap (take (length bs)) h.left ∙ take-length_append bs rest,
    )

module _ {A B : Type 0} where
  pub Parses-bind :
      (p : Parser A) (f : A → Parser B) (inp : List ℕ) (a : A) (mid : List ℕ) (b : B)
      (rest : List ℕ)
      → Parses p inp a mid
      → Parses (f a) mid b rest
      → Parses (p >>= f) inp b rest
  Parses-bind p f inp a mid b rest hp hf = record {
    from = λ r at.
        let (r', e, at') = hp.from r at in
        let (r'', e', at'') = hf.from r' at' in (r'', rw (e, ◌>>=◌) e', at'');
  }

pub Parses-pure : {A : Type 0} (a : A) (inp : List ℕ) → Parses (pure a) inp a inp
Parses-pure a inp = record { from = λ r at. (r, refl, at) }

pub Parses-lift :
    {A : Type 0} (m : Result A) (a : A) (inp : List ℕ) → m ≡ ok a → Parses (lift m) inp a inp
Parses-lift m a inp e = record { from = λ r at. (r, rw e, at) }

pub Parses-read_exact :
    (n : ℕ) (bs rest : List ℕ) → length bs ≡ n → Parses (read_exact n) (bs ++ rest) bs rest
unfolding read_exact
Parses-read_exact n bs rest e = rw (← e) (record {
  from = λ r at.
      let (room, at', bytes) = At-advance r bs rest at in
      (record r { pos = r.pos + length bs }, ground (arith), at');
})

Parses-slice : (n : ℕ) (bs rest : List ℕ) → length bs ≡ n → Parses (slice n) (bs ++ rest) bs rest
unfolding slice
Parses-slice n bs rest e = rw (← e) (record {
  from = λ r at.
      let (room, at', bytes) = At-advance r bs rest at in
      (record r { pos = r.pos + length bs }, ground (arith), at');
})

pub Parses-u8 : (b : ℕ) (rest : List ℕ) → Parses u8 (b ∷ rest) b rest
unfolding u8
Parses-u8 b rest =
    Parses-bind _ _ _ (b ∷ []) rest _ _ (Parses-read_exact 1 (b ∷ []) rest (omega arith))
      (Parses-pure _ _)

module _ (v : ℕ) (rest : List ℕ) where
  pub Parses-u16 : v < 2 ^ 16 → Parses u16 (to_be 2 v ++ rest) v rest
  unfolding u16
  Parses-u16 h =
      Parses-bind _ _ _ (to_be 2 v) rest _ _
        (Parses-read_exact 2 (to_be 2 v) rest (length-to_be 2 v))
        (subst (λ k. Parses (pure k) rest v rest) (sym (be_from-to_be 2 v (omega arith)))
          (Parses-pure v rest))

  pub Parses-u64 : v < 2 ^ 64 → Parses u64 (to_be 8 v ++ rest) v rest
  unfolding u64
  Parses-u64 h =
      Parses-bind _ _ _ (to_be 8 v) rest _ _
        (Parses-read_exact 8 (to_be 8 v) rest (length-to_be 8 v))
        (subst (λ k. Parses (pure k) rest v rest) (sym (be_from-to_be 8 v (omega arith)))
          (Parses-pure v rest))

be_from-grows : (acc : ℕ) (bs : List ℕ) → acc ≤ be_from acc bs
be_from-grows acc [] = omega arith
be_from-grows acc (b ∷ bs) = omega (arith, be_from-grows (acc * 256 + b) bs)

-- The length that the loop builds up does not wrap.
Parses-read_len :
    (n len : ℕ) (bs rest : List ℕ)
    → length bs ≡ n
    → be_from len bs < u64_mod
    → Parses (read_len n len) (bs ++ rest) (be_from len bs) rest
unfolding read_len
Parses-read_len zero len [] rest e h = Parses-pure len rest
Parses-read_len zero len (b ∷ bs) rest e h = absurd (omega arith)
Parses-read_len (suc n) len [] rest e h = absurd (omega arith)
Parses-read_len (suc n) len (b ∷ bs) rest e h =
    let exact : (len * 256) % u64_mod + b ≡ len * 256 + b =
      omega (arith, be_from-grows (len * 256 + b) bs) in
    Parses-bind _ _ _ b (bs ++ rest) _ _ (Parses-u8 b (bs ++ rest)) (
      subst (λ k. Parses (read_len n k) (bs ++ rest) (be_from (len * 256 + b) bs) rest) (sym exact)
        (Parses-read_len n (len * 256 + b) bs rest (omega arith) h))

pub Parses-var_bytes :
    (n : ℕ) (bs rest : List ℕ)
    → length bs < 256 ^ n
    → length bs < u64_mod
    → Parses (var_bytes n) (opaque_bytes n bs ++ rest) bs rest
unfolding var_bytes
Parses-var_bytes n bs rest h small =
    let value : be_from 0 (to_be n (length bs)) ≡ length bs = be_from-to_be n (length bs) h in
    rw (append_assoc (to_be n (length bs)) bs rest) (
      Parses-bind _ _ _ (length bs) (bs ++ rest) _ _
        (subst (λ k. Parses (read_len n 0) (to_be n (length bs) ++ (bs ++ rest)) k (bs ++ rest))
          value
          (Parses-read_len n 0 (to_be n (length bs)) (bs ++ rest) (length-to_be n (length bs))
            (rw value small)))
        (Parses-slice (length bs) bs rest refl))
