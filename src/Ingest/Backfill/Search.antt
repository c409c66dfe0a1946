-- ===== src/Ingest/Backfill/Search.antt =====
-- The binary search of src/ingest/backfill_worker.rs: its result and its end.
use ctwatch.Base.{
  ℕ, zero, suc, ◌+◌, ◌-◌, ◌/◌, ◌≤◌, ◌<◌, ◌≡◌, refl, ◌∙◌, subst, true, false, Bool-cases, inl, inr,
  some, arith, ltb, leb, ltb→lt, leb→le,
}
use ctwatch.Base.Int.{ℤ, pos, negsuc}
use ctwatch.Base.Text.{Text}
use ctwatch.Base.Result.{Error, Result, ok, err, Result-cases}
use ctwatch.Ingest.Client.{Server}
use ctwatch.Ingest.Backfill.{probe, search, binary_search_index}

-- The entry `r` is the first that is not older, or else the last of the tree.
abbrev pub IsFirst : (ℕ → ℕ) → ℕ → ℕ → ℕ → Type 0
IsFirst time target last r =
    (r ≤ last) × ((i : ℕ) → i < r → time i < target) × (r < last → target ≤ time r)

abbrev middle : ℕ → ℕ → ℕ
middle lo hi = lo + (hi - lo) / 2

module _ (server : Server) (url : Text) (target fuel lo hi : ℕ) where
  search-stops : ltb lo hi ≡ false → search server url target (suc fuel) lo hi ≡ some (ok lo)
  unfolding search
  search-stops h = rw (h, search)

  search-fails :
      (e : Error)
      → ltb lo hi ≡ true
      → probe server url (middle lo hi) ≡ err e
      → search server url target (suc fuel) lo hi ≡ some (err e)
  unfolding search
  search-fails e h p = rw (h, p, search)

  search-goes_left :
      (t : ℕ)
      → ltb lo hi ≡ true
      → probe server url (middle lo hi) ≡ ok t
      → leb target t ≡ true
      → search server url target (suc fuel) lo hi ≡ search server url target fuel lo (middle lo hi)
  unfolding search
  search-goes_left t h p b = rw (h, p, b, search)

  search-goes_right :
      (t : ℕ)
      → ltb lo hi ≡ true
      → probe server url (middle lo hi) ≡ ok t
      → leb target t ≡ false
      → search server url target (suc fuel) lo hi
        ≡ search server url target fuel (middle lo hi + 1) hi
  unfolding search
  search-goes_right t h p b = rw (h, p, b, search)

module _ (server : Server) (url : Text) (target : ℕ) where
  -- With enough fuel the search ends.
  search_total :
      (fuel lo hi : ℕ)
      → hi - lo ≤ fuel
      → (r : Result ℕ) × (search server url target fuel lo hi ≡ some r)
  unfolding search
  search_total zero lo hi h = (ok lo, ground arith)
  search_total (suc fuel) lo hi h = elim (Bool-cases (ltb lo hi)) [
    | inr e ↦ (ok lo, search-stops server url target fuel lo hi e)
    | inl e ↦
        let l = ltb→lt lo hi e in
        elim (Result-cases (probe server url (middle lo hi))) [
          | inr (x, q) ↦ (err x, search-fails server url target fuel lo hi x e q)
          | inl (t, q) ↦ elim (Bool-cases (leb target t)) [
            | inl b ↦
                let (r, s) = search_total fuel lo (middle lo hi) (omega arith) in
                (r, search-goes_left server url target fuel lo hi t e q b ∙ s)
            | inr b ↦
                let (r, s) = search_total fuel (middle lo hi + 1) hi (omega arith) in
                (r, search-goes_right server url target fuel lo hi t e q b ∙ s)
          ]
        ]
  ]

  module _ (time : ℕ → ℕ) (last : ℕ) (ordered : (i j : ℕ) → i ≤ j → j ≤ last → time i ≤ time j)
      (served : (i : ℕ) → i ≤ last → probe server url i ≡ ok (time i)) where
    stops-IsFirst :
        (lo hi : ℕ)
        → hi ≤ lo
        → lo ≤ hi
        → hi ≤ last
        → ((i : ℕ) → i < lo → time i < target)
        → (hi < last → target ≤ time hi)
        → IsFirst time target last lo
    stops-IsFirst lo hi f o l below above =
        let e : hi ≡ lo = omega arith in
        (omega arith, below, λ h. subst (λ i. target ≤ time i) e (above (omega arith)))

    older_up_to :
        (m : ℕ) → m ≤ last → leb target (time m) ≡ false → (i : ℕ) → i < m + 1 → time i < target
    older_up_to m l b i h = let o = ordered i m (omega arith) l in ground arith

    search-IsFirst :
        (fuel lo hi : ℕ)
        → hi - lo ≤ fuel
        → lo ≤ hi
        → hi ≤ last
        → ((i : ℕ) → i < lo → time i < target)
        → (hi < last → target ≤ time hi)
        → (r : ℕ) × (search server url target fuel lo hi ≡ some (ok r)) × IsFirst time target last r
    unfolding search
    search-IsFirst zero lo hi f o l below above =
        (lo, ground arith, stops-IsFirst lo hi (omega arith) o l below above)
    search-IsFirst (suc fuel) lo hi f o l below above = elim (Bool-cases (ltb lo hi)) [
      | inr e ↦ (
        lo,
        search-stops server url target fuel lo hi e,
        stops-IsFirst lo hi (ground arith) o l below above,
      )
      | inl e ↦
          let m = middle lo hi in
          let h = ltb→lt lo hi e in
          let q = served (middle lo hi) (omega arith) in
          elim (Bool-cases (leb target (time (middle lo hi)))) [
            | inl b ↦
                let (r, s, i) =
                  search-IsFirst fuel lo (middle lo hi) (omega arith) (omega arith) (omega arith)
                    below (λ _. leb→le target (time (middle lo hi)) b) in
                (
                  r,
                  search-goes_left server url target fuel lo hi (time (middle lo hi)) e q b ∙ s,
                  i,
                )
            | inr b ↦
                let (r, s, i) =
                  search-IsFirst fuel (middle lo hi + 1) hi (omega arith) (omega arith) l
                    (older_up_to (middle lo hi) (omega arith) b) above in
                (
                  r,
                  search-goes_right server url target fuel lo hi (time (middle lo hi)) e q b ∙ s,
                  i,
                )
          ]
    ]

  -- In a log of `last + 1` entries whose timestamps do not decrease, and which the server serves, the
  -- search returns the first entry that is not older than the target, or the last one if all are older.
  pub binary_search_index-IsFirst :
      (time : ℕ → ℕ) (last : ℕ)
      → ((i j : ℕ) → i ≤ j → j ≤ last → time i ≤ time j)
      → ((i : ℕ) → i ≤ last → probe server url i ≡ ok (time i))
      → (r : ℕ) × (binary_search_index server url target (pos (suc last)) ≡ some (ok r))
        × IsFirst time target last r
  unfolding binary_search_index
  binary_search_index-IsFirst time last ordered served =
      search-IsFirst time last ordered served last 0 last (omega arith) (omega arith) (omega arith)
        (λ i h. omega arith) (λ h. omega arith)

  -- Whatever the server answers and whatever tree size it announces, the search ends.
  pub binary_search_index_total :
      (tree_size : ℤ) → (r : Result ℕ) × (binary_search_index server url target tree_size ≡ some r)
  unfolding binary_search_index
  binary_search_index_total (pos zero) = (ok 0, refl)
  binary_search_index_total (pos (suc n)) = search_total n 0 n (omega arith)
  binary_search_index_total (negsuc n) = (ok 0, refl)
