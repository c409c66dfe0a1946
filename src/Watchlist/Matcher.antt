-- ===== src/Watchlist/Matcher.antt =====
-- src/watchlist/matcher.rs. The `HashSet<String>` behind the lock is the list of its elements: it is
-- only ever cleared, added to and asked. Each method holds the lock for its whole length.
use ctwatch.Base.{
  ℕ, ◌+◌, ◌≤◌, ◌≡◌, refl, ap, ◌∙◌, Bool, ◌||◌, Bool-cases, inl, inr, List, [], ◌∷◌, arith,
  if◌then◌else◌, length, filter, any,
}
use ctwatch.Base.Text.{Text, beq, IsDistinct, beq_iff, to_ascii_lowercase, contains}

pub record Matcher : Type 0 where
  pub inner : List Text

abbrev pub new : Matcher
new = record { inner = [] }

-- HashSet::insert
unfoldable pub hash_insert : Text → List Text → List Text
hash_insert d set = if contains set d then set else d ∷ set

unfoldable pub insert_all : List Text → List Text → List Text
unfolding hash_insert
insert_all set [] = set
insert_all set (d ∷ domains) = insert_all (hash_insert (to_ascii_lowercase d) set) domains

-- The old set is cleared.
unfoldable pub replace : Matcher → List Text → Matcher
unfolding insert_all
replace m domains = record { inner = insert_all [] domains }

unfoldable pub watches : Matcher → Text → Bool
watches m d = contains m.inner (to_ascii_lowercase d)

unfoldable pub matches : Matcher → List Text → List Text
unfolding watches
matches m registered_domains = filter (watches m) registered_domains

-- Matcher::len
unfoldable pub len : Matcher → ℕ
len m = length m.inner

contains-hash_insert :
    (d k : Text) (set : List Text) → contains (hash_insert d set) k ≡ (beq d k || contains set k)
unfolding hash_insert contains
contains-hash_insert d k set = ground (arith, beq_iff d k, ap (contains set) {x = d} {y = k})

-- whether some text of the list is `k` in lowercase
abbrev pub is_listed : List Text → Text → Bool
is_listed domains k = any (λ d. beq (to_ascii_lowercase d) k) domains

contains-insert_all :
    (set domains : List Text) (k : Text)
    → contains (insert_all set domains) k ≡ (contains set k || is_listed domains k)
unfolding insert_all
contains-insert_all set [] k = ground arith
contains-insert_all set (d ∷ domains) k =
    contains-insert_all (hash_insert (to_ascii_lowercase d) set) domains k
    ∙ ground (arith, contains-hash_insert (to_ascii_lowercase d) k set)

pub watches-replace :
    (m : Matcher) (domains : List Text) (d : Text)
    → watches (replace m domains) d
      ≡ any (λ w. beq (to_ascii_lowercase w) (to_ascii_lowercase d)) domains
unfolding watches replace contains
watches-replace m domains d = contains-insert_all [] domains (to_ascii_lowercase d)

-- After a reload, exactly those registered domains match, in the order of the certificate, that
-- equal some domain of the new list up to ASCII case; what was watched before does not count.
pub matches-replace :
    (m : Matcher) (domains registered_domains : List Text)
    → matches (replace m domains) registered_domains
      ≡ filter
          (λ d. any (λ w. beq (to_ascii_lowercase w) (to_ascii_lowercase d)) domains)
          registered_domains
unfolding matches replace contains
matches-replace m domains [] = refl
matches-replace m domains (d ∷ rest) =
    ground
      (arith, contains-insert_all [] domains (to_ascii_lowercase d), matches-replace m domains rest)

insert_all-IsDistinct :
    (set domains : List Text) → IsDistinct set → IsDistinct (insert_all set domains)
unfolding insert_all hash_insert
insert_all-IsDistinct set [] h = h
insert_all-IsDistinct set (d ∷ domains) h =
    elim (Bool-cases (contains set (to_ascii_lowercase d))) [
      | inl old ↦ rw old (insert_all-IsDistinct set domains h)
      | inr new ↦ rw new (insert_all-IsDistinct (to_ascii_lowercase d ∷ set) domains (new, h))
    ]

insert_all-le :
    (set domains : List Text) → length (insert_all set domains) ≤ length set + length domains
unfolding insert_all hash_insert
insert_all-le set [] = omega arith
insert_all-le set (d ∷ domains) = elim (Bool-cases (contains set (to_ascii_lowercase d))) [
  | inl old ↦ rw old (omega (arith, insert_all-le set domains))
  | inr new ↦ rw new (omega (arith, insert_all-le (to_ascii_lowercase d ∷ set) domains))
]

-- A reload keeps no domain twice, and at most as many as the list has.
replace-IsDistinct :
    (m : Matcher) (domains : List Text)
    → IsDistinct (replace m domains).inner × (len (replace m domains) ≤ length domains)
unfolding replace len
replace-IsDistinct m domains =
    (insert_all-IsDistinct [] domains tt, omega (arith, insert_all-le [] domains))
