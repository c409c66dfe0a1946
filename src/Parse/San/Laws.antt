-- ===== src/Parse/San/Laws.antt =====
-- src/parse/san.rs: the names in the result of `normalize_sans`, and their order.
use ctwatch.Base.{
  ◌≡◌, sym, subst, ◌∙◌, Bool, true, false, not, ◌&&◌, ◌||◌, ◌==◌, Bool-cases, inl, inr, List, [],
  ◌∷◌, arith, any,
}
use ctwatch.Base.Text.{
  Text, is_empty, to_ascii_lowercase, to_ascii_lowercase-strip_end, ends_with-strip_end, ends_with,
  trim, set_insert, beq, beq_iff, beq_refl, contains, contains-set_insert, set_insert-IsAscending,
  IsAscending, IsAscending-unique,
}
use ctwatch.Parse.San.{clean, normalize_into, normalize_sans}

normalize_into-IsAscending :
    (set names : List Text) → IsAscending set → IsAscending (normalize_into set names)
unfolding normalize_into
normalize_into-IsAscending set [] h = h
normalize_into-IsAscending set (n ∷ names) h = elim (Bool-cases (is_empty (clean n))) [
  | inl e ↦ rw e (normalize_into-IsAscending set names h)
  | inr e ↦ rw e (
      normalize_into-IsAscending (set_insert (clean n) set) names
        (set_insert-IsAscending (clean n) set h))
]

-- The result is strictly ascending: sorted, and without duplicates.
pub normalize_sans-IsAscending : (names : List Text) → IsAscending (normalize_sans names)
unfolding normalize_sans
normalize_sans-IsAscending names = normalize_into-IsAscending [] names tt

-- the names that clean to `k`
abbrev pub cleans_to : Text → Text → Bool
cleans_to k n = beq (clean n) k

contains-normalize_into :
    (set names : List Text) (k : Text)
    → contains (normalize_into set names) k
      ≡ (contains set k || (not (is_empty k) && any (cleans_to k) names))
unfolding normalize_into
contains-normalize_into set [] k = ground arith
contains-normalize_into set (n ∷ names) k = elim (Bool-cases (is_empty (clean n))) [
  | inl e ↦ rw e (contains-normalize_into set names k ∙ ground (arith, beq_iff (clean n) k))
  | inr e ↦ rw e (
      contains-normalize_into (set_insert (clean n) set) names k
      ∙ ground (arith, beq_iff (clean n) k, contains-set_insert (clean n) k set))
]

-- A name is in the result exactly if it is not empty and some name of the input cleans to it.
pub contains-normalize_sans :
    (names : List Text) (k : Text)
    → contains (normalize_sans names) k ≡ (not (is_empty k) && any (cleans_to k) names)
unfolding normalize_sans contains
contains-normalize_sans names k = contains-normalize_into [] names k

-- The normal form of a name.
pub record IsNormal (k : Text) : Type 0 where
  pub not_empty : is_empty k ≡ false
  pub lowercase : to_ascii_lowercase k ≡ k
  pub no_final_dot : ends_with b'.' k ≡ false

clean-IsNormal : (n : Text) → is_empty (clean n) ≡ false → IsNormal (clean n)
unfolding clean
clean-IsNormal n h = record {
  not_empty = h;
  lowercase = to_ascii_lowercase-strip_end (λ c. c == b'.') (trim n);
  no_final_dot = ends_with-strip_end b'.' (to_ascii_lowercase (trim n));
}

any-cleans_to-IsNormal :
    (names : List Text) (k : Text)
    → is_empty k ≡ false
    → any (cleans_to k) names ≡ true
    → IsNormal k
any-cleans_to-IsNormal [] k e h = cc
any-cleans_to-IsNormal (n ∷ names) k e h = elim (Bool-cases (beq (clean n) k)) [
  | inl same ↦
      let eq : clean n ≡ k = (beq_iff (clean n) k).0 same in
      subst IsNormal eq (clean-IsNormal n (rw eq e))
  | inr other ↦ any-cleans_to-IsNormal names k e (rw other at h)
]

-- Every name in the result is not empty, is in lowercase and does not end in a dot.
normalize_sans-IsNormal :
    (names : List Text) (k : Text) → contains (normalize_sans names) k ≡ true → IsNormal k
normalize_sans-IsNormal names k h =
    let found : (not (is_empty k) && any (cleans_to k) names) ≡ true =
      sym (contains-normalize_sans names k) ∙ h in
    any-cleans_to-IsNormal names k (ground arith) (ground arith)

any-of-contains :
    (k : Text) (xs : List Text) (n : Text)
    → contains xs n ≡ true
    → cleans_to k n ≡ true
    → any (cleans_to k) xs ≡ true
unfolding contains
any-of-contains k [] n h c = cc
any-of-contains k (x ∷ xs) n h c = elim (Bool-cases (beq x n)) [
  | inl same ↦ let eq : x ≡ n = (beq_iff x n).0 same in ground arith
  | inr other ↦ ground (arith, any-of-contains k xs n (rw other at h) c)
]

any_mono :
    (k : Text) (xs ys : List Text)
    → ((n : Text) → contains xs n ≡ true → contains ys n ≡ true)
    → any (cleans_to k) xs ≡ true
    → any (cleans_to k) ys ≡ true
unfolding contains
any_mono k [] ys sub h = cc
any_mono k (x ∷ xs) ys sub h = elim (Bool-cases (cleans_to k x)) [
  | inl hit ↦ any-of-contains k ys x (sub x (ground (arith, beq_refl x))) hit
  | inr miss ↦ any_mono k xs ys (λ n e. sub n (ground (arith, e))) (rw miss at h)
]

-- Only the set of the input names counts: neither their order nor how often each occurs.
normalize_sans-of_same_names :
    (xs ys : List Text)
    → ((n : Text) → contains xs n ≡ contains ys n)
    → normalize_sans xs ≡ normalize_sans ys
normalize_sans-of_same_names xs ys h =
    IsAscending-unique (normalize_sans xs) (normalize_sans ys) (normalize_sans-IsAscending xs)
      (normalize_sans-IsAscending ys)
      (λ k.
        contains-normalize_sans xs k
        ∙ ground (arith, any_mono k xs ys (λ n e. sym (h n) ∙ e), any_mono k ys xs (λ n e. h n ∙ e))
        ∙ sym (contains-normalize_sans ys k))
