-- ===== src/Base/Text/Order.antt =====
-- Equality and order of texts (and of byte strings), and the sorted set without duplicates.
use Prim.Native.Nat.{ℕ}
use mathlib.Core.Path.{◌≡◌, refl, ap, subst}
use mathlib.Core.Logic.{◌↔◌, inl, inr}
use mathlib.Core.Bool.{Bool, true, false, ◌&&◌, ◌||◌}
use mathlib.Core.List.{List, [], ◌∷◌}
use native.Mathlib.Omega.{arith}
use ctwatch.Base.Tests.{ltb, ◌==◌, if◌then◌else◌, Bool-cases}
use ctwatch.Base.Lists.{All}

unfoldable pub beq : List ℕ → List ℕ → Bool
beq [] [] = true
beq [] (b ∷ y) = false
beq (a ∷ x) [] = false
beq (a ∷ x) (b ∷ y) = a == b && beq x y

pub beq_iff : (x y : List ℕ) → (beq x y ≡ true) ↔ (x ≡ y)
unfolding beq
beq_iff [] [] = (λ _. refl, λ _. refl)
beq_iff [] (b ∷ y) = (λ h. cc, λ h. cc)
beq_iff (a ∷ x) [] = (λ h. cc, λ h. cc)
beq_iff (a ∷ x) (b ∷ y) = ground (arith, beq_iff x y)

pub beq_refl : (x : List ℕ) → beq x x ≡ true
beq_refl x = (beq_iff x x).1 refl

-- Ord for String: lexicographic.
unfoldable pub lt_text : List ℕ → List ℕ → Bool
lt_text x [] = false
lt_text [] (b ∷ y) = true
lt_text (a ∷ x) (b ∷ y) = ltb a b || (a == b && lt_text x y)

lt_text_trans : (x y z : List ℕ) → lt_text x y ≡ true → lt_text y z ≡ true → lt_text x z ≡ true
unfolding lt_text
lt_text_trans x y [] h k = k
lt_text_trans [] y (c ∷ z) h k = refl
lt_text_trans (a ∷ x) [] (c ∷ z) h k = cc
lt_text_trans (a ∷ x) (b ∷ y) (c ∷ z) h k = ground (arith, lt_text_trans x y z)

lt_text_total : (x y : List ℕ) → lt_text x y ≡ false → beq x y ≡ false → lt_text y x ≡ true
unfolding lt_text beq
lt_text_total [] [] h k = cc
lt_text_total (a ∷ x) [] h k = refl
lt_text_total [] (b ∷ y) h k = cc
lt_text_total (a ∷ x) (b ∷ y) h k = ground (arith, lt_text_total x y)

lt_text_irrefl : (x : List ℕ) → lt_text x x ≡ false
unfolding lt_text
lt_text_irrefl [] = refl
lt_text_irrefl (a ∷ x) = ground (arith, lt_text_irrefl x)

-- BTreeSet::insert
unfoldable pub set_insert : List ℕ → List (List ℕ) → List (List ℕ)
set_insert n [] = n ∷ []
set_insert n (m ∷ s) =
    if lt_text n m then n ∷ m ∷ s else if beq n m then m ∷ s else m ∷ set_insert n s

unfoldable pub contains : List (List ℕ) → List ℕ → Bool
contains [] n = false
contains (m ∷ s) n = beq m n || contains s n

-- Strictly ascending: the order in which a BTreeSet is iterated.
abbrev pub IsAscending : List (List ℕ) → Type 0
IsAscending [] = Unit
IsAscending (n ∷ s) = All (λ m. lt_text n m ≡ true) s × IsAscending s

pub contains-set_insert :
    (n k : List ℕ) (s : List (List ℕ)) → contains (set_insert n s) k ≡ (beq n k || contains s k)
unfolding set_insert contains
contains-set_insert n k [] = refl
contains-set_insert n k (m ∷ s) =
    ground (arith, contains-set_insert n k s, beq_iff n m, beq_iff n k, beq_iff m k)

All-lt_trans :
    (n m : List ℕ) (s : List (List ℕ))
    → lt_text n m ≡ true
    → All (λ k. lt_text m k ≡ true) s
    → All (λ k. lt_text n k ≡ true) s
All-lt_trans n m [] h a = tt
All-lt_trans n m (k ∷ s) h a = (lt_text_trans n m k h a.0, All-lt_trans n m s h a.1)

All-lt-set_insert :
    (m n : List ℕ) (s : List (List ℕ))
    → lt_text m n ≡ true
    → All (λ k. lt_text m k ≡ true) s
    → All (λ k. lt_text m k ≡ true) (set_insert n s)
unfolding set_insert
All-lt-set_insert m n [] h a = (h, tt)
All-lt-set_insert m n (k ∷ s) h a =
    elim (lt_text n k)
      as (λ b.
        All (λ k'. lt_text m k' ≡ true)
          (if b then n ∷ k ∷ s else if beq n k then k ∷ s else k ∷ set_insert n s)) [
            | true ↦ (h, a)
            | false ↦
                elim (beq n k)
                  as (λ b.
                    All (λ k'. lt_text m k' ≡ true) (if b then k ∷ s else k ∷ set_insert n s)) [
                      | true ↦ a
                      | false ↦ (a.0, All-lt-set_insert m n s h a.1)
                    ]
          ]

pub set_insert-IsAscending :
    (n : List ℕ) (s : List (List ℕ)) → IsAscending s → IsAscending (set_insert n s)
unfolding set_insert
set_insert-IsAscending n [] h = (tt, tt)
set_insert-IsAscending n (m ∷ s) h = ground (
  arith,
  All-lt_trans n m s,
  set_insert-IsAscending n s,
  All-lt-set_insert m n s,
  lt_text_total n m,
)

contains-above :
    (n : List ℕ) (s : List (List ℕ)) → All (λ m. lt_text n m ≡ true) s → contains s n ≡ false
unfolding contains
contains-above n [] h = refl
contains-above n (m ∷ s) h =
    ground
      (arith, beq_iff m n, lt_text_irrefl n, contains-above n s h.1, ap (lt_text n) {x = m} {y = n})

lt_of_contains :
    (n k : List ℕ) (s : List (List ℕ))
    → All (λ m. lt_text n m ≡ true) s
    → contains s k ≡ true
    → lt_text n k ≡ true
unfolding contains
lt_of_contains n k [] a h = cc
lt_of_contains n k (m ∷ s) a h = elim (Bool-cases (beq m k)) [
  | inl e ↦ subst (λ x. lt_text n x ≡ true) ((beq_iff m k).0 e) a.0
  | inr e ↦ lt_of_contains n k s a.1 (rw e at h)
]

same_head :
    (n m : List ℕ) (s t : List (List ℕ))
    → IsAscending (n ∷ s)
    → IsAscending (m ∷ t)
    → ((k : List ℕ) → contains (n ∷ s) k ≡ contains (m ∷ t) k)
    → n ≡ m
unfolding contains
same_head n m s t hs ht h = elim (Bool-cases (beq n m)) [
  | inl e ↦ (beq_iff n m).0 e
  | inr e ↦
      let in_t : contains t n ≡ true = ground (arith, h n, beq_refl n, beq_iff m n, beq_iff n m) in
      let in_s : contains s m ≡ true = ground (arith, h m, beq_refl m, beq_iff n m) in
      absurd (
        ground (
          arith,
          lt_of_contains m n t ht.0 in_t,
          lt_of_contains n m s hs.0 in_s,
          lt_text_trans n m n,
          lt_text_irrefl n,
        ))
]

-- An ascending list is determined by what it contains.
pub IsAscending-unique :
    (s t : List (List ℕ))
    → IsAscending s
    → IsAscending t
    → ((k : List ℕ) → contains s k ≡ contains t k)
    → s ≡ t
unfolding contains
IsAscending-unique [] [] hs ht h = refl
IsAscending-unique [] (m ∷ t) hs ht h = absurd (ground (arith, h m, beq_refl m))
IsAscending-unique (n ∷ s) [] hs ht h = absurd (ground (arith, h n, beq_refl n))
IsAscending-unique (n ∷ s) (m ∷ t) hs ht h =
    let head : n ≡ m = same_head n m s t hs ht h in
    let tail : s ≡ t =
      IsAscending-unique s t hs.1 ht.1
        (λ k. ground (arith, h k, beq_iff n k, contains-above n s hs.0, contains-above m t ht.0)) in
    cc

-- No element twice.
abbrev pub IsDistinct : List (List ℕ) → Type 0
IsDistinct [] = Unit
IsDistinct (d ∷ set) = (contains set d ≡ false) × IsDistinct set
