-- ===== src/Ingest/Entry/Inverts.antt =====
-- What a successful read of src/ingest/entry.rs says about the input.
use mathlib.Core.List.{append_assoc}
use ctwatch.Base.{
  ℕ, ◌+◌, ◌≤◌, ◌≡◌, refl, ap, ◌∙◌, sym, subst, Bool-cases, inl, inr, List, [], ◌∷◌, ◌++◌, arith,
  ltb, length, take, drop, length-take, length-drop, drop-drop, take-append-drop, All, All-append,
}
use ctwatch.Base.Result.{Result, ok, err}
use ctwatch.Ingest.Entry.Reader.{Reader, read_exact, slice}
use ctwatch.Ingest.Entry.Bytes.{IsByte}
use ctwatch.Ingest.Entry.Parses.{At}

-- The read took `used` off the input, and the bytes after it are left.
pub record Took (inp used : List ℕ) (r' : Reader) : Type 0 where
  pub rest : List ℕ
  pub input : inp ≡ used ++ rest
  pub bytes : All IsByte used
  pub rest_bytes : All IsByte rest
  pub at : At r' rest

All-split : (used rest : List ℕ) → All IsByte (used ++ rest) → All IsByte used × All IsByte rest
All-split [] rest h = (tt, h)
All-split (b ∷ used) rest h = let (hu, hr) = All-split used rest h.1 in ((h.0, hu), hr)

module _ (r : Reader) (inp : List ℕ) (at : At r inp) (bytes : All IsByte inp) where
  take_some :
      (n : ℕ)
      → r.pos + n ≤ length r.buf
      → (length (take n (drop r.pos r.buf)) ≡ n)
        × Took inp (take n (drop r.pos r.buf)) (record r { pos = r.pos + n })
  take_some n room =
      let rest = drop n (drop r.pos r.buf) in
      let whole : inp ≡ take n (drop r.pos r.buf) ++ rest =
        sym at.left ∙ sym (take-append-drop n (drop r.pos r.buf)) in
      let (hu, hr) = All-split _ rest (subst (All IsByte) whole bytes) in
      (
        omega (arith, length-take n (drop r.pos r.buf), length-drop r.pos r.buf),
        record {
          rest = rest;
          input = whole;
          bytes = hu;
          rest_bytes = hr;
          at = record { left = sym (drop-drop r.pos n (r.pos + n) r.buf refl); within = room };
        },
      )

  pub read_exact-inverts :
      (n : ℕ) (bs : List ℕ) (r' : Reader)
      → read_exact n r ≡ ok (bs, r')
      → (length bs ≡ n) × Took inp bs r'
  unfolding read_exact
  read_exact-inverts n bs r' e = elim (Bool-cases (ltb (length r.buf) (r.pos + n))) [
    | inl short ↦ absurd (ground arith)
    | inr room ↦
        let (l, took) = take_some n (ground arith) in
        let same : bs ≡ take n (drop r.pos r.buf) = ground arith in
        let moved : r' ≡ record r { pos = r.pos + n } = ground arith in rw (same, moved) (l, took)
  ]

  pub slice-inverts :
      (n : ℕ) (bs : List ℕ) (r' : Reader)
      → slice n r ≡ ok (bs, r')
      → (length bs ≡ n) × Took inp bs r'
  unfolding slice
  slice-inverts n bs r' e = elim (Bool-cases (ltb (length r.buf) (r.pos + n))) [
    | inl short ↦ absurd (ground arith)
    | inr room ↦
        let (l, took) = take_some n (ground arith) in
        let same : bs ≡ take n (drop r.pos r.buf) = ground arith in
        let moved : r' ≡ record r { pos = r.pos + n } = ground arith in rw (same, moved) (l, took)
  ]

-- A bind that succeeds had a first part that succeeds.
pub bind-inverts :
    {A C : Type 0} (m : Result (A × Reader)) (f : A → Reader → Result C) {c : C}
    → elim m [ ok (a, r₁) ↦ f a r₁ | err e ↦ err e ] ≡ ok c
    → (a : A) × (r₁ : Reader) × (m ≡ ok (a, r₁)) × (f a r₁ ≡ ok c)
bind-inverts (ok (a, r₁)) f h = (a, r₁, refl, h)
bind-inverts (err e) f h = cc

pub Took-append :
    {inp used more : List ℕ} {r₁ r₂ : Reader} (t : Took inp used r₁)
    → Took t.rest more r₂
    → Took inp (used ++ more) r₂
Took-append {inp} {used} {more} t u = record {
  rest = u.rest;
  input = t.input ∙ ap (λ x. used ++ x) u.input ∙ sym (append_assoc used more u.rest);
  bytes = All-append IsByte used more t.bytes u.bytes;
  rest_bytes = u.rest_bytes;
  at = u.at;
}
