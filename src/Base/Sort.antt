-- ===== src/Base/Sort.antt =====
-- ORDER BY and LIMIT of SQL: sorting by insertion, and the first rows of what is sorted. Rows with the
-- same key may come in any order; here a row goes before those that are equal to it.
use Prim.Native.Nat.{ℕ, min}
use mathlib.Core.Path.{◌≡◌, sym, subst}
use mathlib.Core.Logic.{inl, inr}
use mathlib.Core.Bool.{Bool, true, false}
use mathlib.Core.List.{List, [], ◌∷◌, ◌++◌, Perm}
use mathlib.Core.List.Perm
use native.Mathlib.Omega.{arith}
use ctwatch.Base.Tests.{if◌then◌else◌, Bool-cases}
use ctwatch.Base.Lists.{All, filter, length, take, drop, length-take, take-append-drop}

module _ {A : Type 0} (after : A → A → Bool) where
  unfoldable pub insert_by : A → List A → List A
  insert_by r [] = r ∷ []
  insert_by r (s ∷ rows) = if after r s then s ∷ insert_by r rows else r ∷ s ∷ rows

  unfoldable pub sort_by : List A → List A
  unfolding insert_by
  sort_by [] = []
  sort_by (r ∷ rows) = insert_by r (sort_by rows)

  -- No row goes after one that stands behind it.
  abbrev pub IsSortedBy : List A → Type 0
  IsSortedBy [] = Unit
  IsSortedBy (r ∷ rows) = All (λ s. after r s ≡ false) rows × IsSortedBy rows

  -- `out` is a first part of the rows that are asked for, in order: all of them if the limit allows.
  pub record IsPage (asked : A → Bool) (limit : ℕ) (table out : List A) : Type 0 where
    pub rest : List A
    pub sorted : IsSortedBy (out ++ rest)
    pub complete : Perm (out ++ rest) (filter asked table)
    pub size : length out ≡ min limit (length (filter asked table))

  insert_by-perm : (r : A) (rows : List A) → Perm (insert_by r rows) (r ∷ rows)
  unfolding insert_by
  insert_by-perm r [] = Perm.refl _
  insert_by-perm r (s ∷ rows) = elim (Bool-cases (after r s)) [
    | inl e ↦ rw e (Perm.trans (Perm.cons s (insert_by-perm r rows)) (Perm.swap r s rows))
    | inr e ↦ rw e (Perm.refl _)
  ]

  sort_by-perm : (rows : List A) → Perm (sort_by rows) rows
  unfolding sort_by
  sort_by-perm [] = Perm.refl _
  sort_by-perm (r ∷ rows) =
      Perm.trans (insert_by-perm r (sort_by rows)) (Perm.cons r (sort_by-perm rows))

  All-insert_by :
      (P : A → Type 0) (r : A) (rows : List A) → P r → All P rows → All P (insert_by r rows)
  unfolding insert_by
  All-insert_by P r [] h hs = (h, tt)
  All-insert_by P r (s ∷ rows) h hs = elim (Bool-cases (after r s)) [
    | inl e ↦ rw e (hs.0, All-insert_by P r rows h hs.1)
    | inr e ↦ rw e (h, hs)
  ]

  length-insert_by : (r : A) (rows : List A) → length (insert_by r rows) ≡ length (r ∷ rows)
  unfolding insert_by
  length-insert_by r [] = omega arith
  length-insert_by r (s ∷ rows) = ground (arith, length-insert_by r rows)

  pub length-sort_by : (rows : List A) → length (sort_by rows) ≡ length rows
  unfolding sort_by
  length-sort_by [] = omega arith
  length-sort_by (r ∷ rows) = omega (arith, length-insert_by r (sort_by rows), length-sort_by rows)

  module _ (swapped : (a b : A) → after a b ≡ true → after b a ≡ false)
      (chain : (a b c : A) → after a b ≡ false → after b c ≡ false → after a c ≡ false) where
    All-chain :
        (a b : A) (rows : List A)
        → after a b ≡ false
        → All (λ c. after b c ≡ false) rows
        → All (λ c. after a c ≡ false) rows
    All-chain a b [] h hs = tt
    All-chain a b (c ∷ rows) h hs = (chain a b c h hs.0, All-chain a b rows h hs.1)

    insert_by-IsSortedBy : (r : A) (rows : List A) → IsSortedBy rows → IsSortedBy (insert_by r rows)
    unfolding insert_by
    insert_by-IsSortedBy r [] h = (tt, tt)
    insert_by-IsSortedBy r (s ∷ rows) h = elim (Bool-cases (after r s)) [
      | inl e ↦ rw e (
        All-insert_by (λ c. after s c ≡ false) r rows (swapped r s e) h.0,
        insert_by-IsSortedBy r rows h.1,
      )
      | inr e ↦ rw e ((e, All-chain r s rows e h.0), h)
    ]

    sort_by-IsSortedBy : (rows : List A) → IsSortedBy (sort_by rows)
    unfolding sort_by
    sort_by-IsSortedBy [] = tt
    sort_by-IsSortedBy (r ∷ rows) = insert_by-IsSortedBy r (sort_by rows) (sort_by-IsSortedBy rows)

    pub take-sort_by-IsPage :
        (asked : A → Bool) (limit : ℕ) (table : List A)
        → IsPage asked limit table (take limit (sort_by (filter asked table)))
    take-sort_by-IsPage asked limit table =
        let found = sort_by (filter asked table) in
        let parts = sym (take-append-drop limit (sort_by (filter asked table))) in
        record {
          rest = drop limit (sort_by (filter asked table));
          sorted = subst IsSortedBy parts (sort_by-IsSortedBy (filter asked table));
          complete =
              subst (λ xs. Perm xs (filter asked table)) parts (sort_by-perm (filter asked table));
          size = omega (
            arith,
            length-take limit (sort_by (filter asked table)),
            length-sort_by (filter asked table),
          );
        }
