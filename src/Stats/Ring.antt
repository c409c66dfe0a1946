-- ===== src/Stats/Ring.antt =====
-- What a ring buffer of src/stats/mod.rs holds after a sequence of pushes.
use ctwatch.Base.{
  append_assoc, append-nil, ℕ, zero, suc, ◌-◌, ◌≤◌, ◌≡◌, refl, ap, ◌∙◌, sym, Bool-cases, inl, inr,
  List, [], ◌∷◌, ◌++◌, arith, length, drop, ◌==◌, length-append, length-drop, drop-drop, ◌<◌,
}
use ctwatch.Stats.{RingBuf, push}

-- pushes in their order, each the time and the value
abbrev pub push_all : List (ℕ × ℕ) → RingBuf → RingBuf
push_all [] rb = rb
push_all ((now, value) ∷ pushes) rb = push_all pushes (push now value rb)

-- the last `n` of a list
abbrev pub last_of : ℕ → List (ℕ × ℕ) → List (ℕ × ℕ)
last_of n xs = drop (length xs - n) xs

drop-append : (n : ℕ) (xs ys : List (ℕ × ℕ)) → n ≤ length xs → drop n (xs ++ ys) ≡ drop n xs ++ ys
drop-append zero xs ys h = refl
drop-append (suc n) [] ys h = absurd (omega arith)
drop-append (suc n) (x ∷ xs) ys h = drop-append n xs ys (omega arith)

-- a list that is not longer is its own last part
last_of-short : (n : ℕ) (xs : List (ℕ × ℕ)) → length xs ≤ n → last_of n xs ≡ xs
last_of-short n xs h = let e : length xs - n ≡ 0 = omega arith in rw e

last_of-append :
    (n : ℕ) (xs ys : List (ℕ × ℕ)) → last_of n (last_of n xs ++ ys) ≡ last_of n (xs ++ ys)
last_of-append n xs ys =
    let k : ℕ = length xs - n in
    let e : last_of n xs ++ ys ≡ drop (length xs - n) (xs ++ ys) =
      sym (drop-append (length xs - n) xs ys (omega arith)) in
    ap (last_of n) e
    ∙ drop-drop (length xs - n) (length (drop (length xs - n) (xs ++ ys)) - n)
        (length (xs ++ ys) - n) (xs ++ ys)
        (omega (arith, length-drop (length xs - n) (xs ++ ys), length-append xs ys))

module _ (now value : ℕ) (rb : RingBuf) (low : 1 ≤ rb.capacity)
    (h : length rb.samples ≤ rb.capacity) where
  push-samples : (push now value rb).samples ≡ last_of rb.capacity (rb.samples ++ (now, value) ∷ [])
  unfolding push
  push-samples = elim (Bool-cases (length rb.samples == rb.capacity)) [
    | inl e ↦
        let full : length rb.samples ≡ rb.capacity = ground arith in
        let one : length (rb.samples ++ (now, value) ∷ []) - rb.capacity ≡ 1 =
          omega (arith, length-append rb.samples ((now, value) ∷ [])) in
        rw (e, one, drop-append 1 rb.samples ((now, value) ∷ []) (omega arith))
    | inr e ↦
        let room : length rb.samples < rb.capacity = ground arith in
        rw (
          e,
          last_of-short rb.capacity (rb.samples ++ (now, value) ∷ [])
              (omega (arith, length-append rb.samples ((now, value) ∷ []))),
        )
  ]

  push-length : length (push now value rb).samples ≤ rb.capacity
  push-length =
      let l =
        length-drop (length (rb.samples ++ (now, value) ∷ []) - rb.capacity)
          (rb.samples ++ (now, value) ∷ []) in
      let e = ap length push-samples in omega arith

-- A buffer that has room for at least one sample, and is pushed to, holds the latest of all the samples
-- that were in it, as many as its capacity, in their order.
pub push_all-samples :
    (pushes : List (ℕ × ℕ)) (rb : RingBuf)
    → 1 ≤ rb.capacity
    → length rb.samples ≤ rb.capacity
    → (push_all pushes rb).samples ≡ last_of rb.capacity (rb.samples ++ pushes)
unfolding push
push_all-samples [] rb low h =
    sym (ap (last_of rb.capacity) (append-nil rb.samples) ∙ last_of-short rb.capacity rb.samples h)
push_all-samples ((now, value) ∷ pushes) rb low h =
    push_all-samples pushes (push now value rb) low (push-length now value rb low h)
    ∙ ap (λ xs. last_of rb.capacity (xs ++ pushes)) (push-samples now value rb low h)
    ∙ last_of-append rb.capacity (rb.samples ++ (now, value) ∷ []) pushes
    ∙ ap (last_of rb.capacity) (append_assoc rb.samples ((now, value) ∷ []) pushes)
