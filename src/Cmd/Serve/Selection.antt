-- ===== src/Cmd/Serve/Selection.antt =====
-- The logs of a list that src/cmd/serve.rs selects.
use ctwatch.Base.{
  ℕ, ◌≡◌, refl, ap, Bool, true, false, ◌&&◌, ◌||◌, Bool-cases, inl, inr, List, [], ◌∷◌, map, arith,
  All, any, filter, if◌then◌else◌,
}
use ctwatch.Base.Text.{Text, text, beq, contains, trim, IsDistinct}
use ctwatch.Ingest.LogList.{CtLog, filter_operators, is_allowed}

module _ (p : CtLog → Bool) where
  contains-filter :
      (k : List ℕ) (logs : List CtLog)
      → contains (map (λ (l : CtLog). l.log_id) logs) k ≡ false
      → contains (map (λ (l : CtLog). l.log_id) (filter p logs)) k ≡ false
  unfolding contains
  contains-filter k [] h = h
  contains-filter k (l ∷ logs) h = ground (arith, contains-filter k logs)

  pub filter-IsDistinct :
      (logs : List CtLog)
      → IsDistinct (map (λ (l : CtLog). l.log_id) logs)
      → IsDistinct (map (λ (l : CtLog). l.log_id) (filter p logs))
  filter-IsDistinct [] h = h
  filter-IsDistinct (l ∷ logs) h = elim (Bool-cases (p l)) [
    | inl e ↦ rw e (contains-filter l.log_id logs h.0, filter-IsDistinct logs h.1)
    | inr e ↦ rw e (filter-IsDistinct logs h.1)
  ]

  pub All-filter :
      (P : CtLog → Type 0) (logs : List CtLog)
      → ((l : CtLog) → p l ≡ true → P l)
      → All P (filter p logs)
  All-filter P [] h = tt
  All-filter P (l ∷ logs) h = elim (Bool-cases (p l)) [
    | inl e ↦ rw e (h l e, All-filter P logs h)
    | inr e ↦ rw e (All-filter P logs h)
  ]

-- `*` allows every operator.
abbrev pub is_asked : Text → CtLog → Bool
is_asked operators l = beq (trim operators) (text "*") || is_allowed operators l

filter_unless :
    (b : Bool) (p : CtLog → Bool) (logs : List CtLog)
    → (if b then logs else filter p logs) ≡ filter (λ l. b || p l) logs
filter_unless true p [] = refl
filter_unless true p (l ∷ logs) = ap (λ ls. l ∷ ls) (filter_unless true p logs)
filter_unless false p logs = refl

pub filter_operators-filter :
    (operators : Text) (logs : List CtLog)
    → filter_operators logs operators ≡ filter (is_asked operators) logs
unfolding filter_operators
filter_operators-filter operators logs =
    filter_unless (beq (trim operators) (text "*")) (is_allowed operators) logs

pub any-filter :
    (p q : CtLog → Bool) (logs : List CtLog) → any p (filter q logs) ≡ any (λ l. q l && p l) logs
any-filter p q [] = refl
any-filter p q (l ∷ logs) = ground (arith, any-filter p q logs)

pub filter-filter :
    (p q : CtLog → Bool) (logs : List CtLog)
    → filter p (filter q logs) ≡ filter (λ l. q l && p l) logs
filter-filter p q [] = refl
filter-filter p q (l ∷ logs) = ground (arith, filter-filter p q logs)
