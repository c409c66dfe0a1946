-- ===== src/Base/Exec.antt =====
-- Effectful code: a function from a state to a result and the state left behind, where an error keeps
-- what was done before it. `?` is a bind.
use ctwatch.Base.Result.{Error, Result, ok, err}
use mathlib.Core.Path.{◌≡◌, refl}
use mathlib.Core.Bool.{Bool, true, false}
use ctwatch.Base.Tests.{if◌then◌else◌}

abbrev pub Exec : Type 0 → Type 0 → Type 0
Exec S A = S → Result A × S

module _ {S A : Type 0} where
  abbrev pub pure : A → Exec S A
  pure a s = (ok a, s)

  abbrev pub raise : Error → Exec S A
  raise e s = (err e, s)

  abbrev pub lift : Result A → Exec S A
  lift r s = (r, s)

  abbrev pub gets : (S → A) → Exec S A
  gets f s = (ok (f s), s)

  -- What is done whether or not it fails, `let _ =` or `if let Err(e) =`.
  abbrev pub attempt : Exec S A → Exec S (Result A)
  attempt m s = let (r, s') = m s in (ok r, s')

abbrev pub modify : {S : Type 0} → (S → S) → Exec S (Unit {0})
modify f s = (ok tt, f s)

module _ {S A B : Type 0} where
  abbrev pub resume : (A → Exec S B) → Result A × S → Result B × S
  resume f (ok a, s) = f a s
  resume f (err e, s) = (err e, s)

  infixl 5 ◌>>=◌
  unfoldable pub ◌>>=◌ : Exec S A → (A → Exec S B) → Exec S B
  ◌>>=◌ m f s = resume f (m s)

module _ {S B : Type 0} where
  infixl 5 ◌>>◌
  abbrev pub ◌>>◌ : Exec S (Unit {0}) → Exec S B → Exec S B
  m >> k = m >>= λ _. k

-- A relation between the state before and after.
pub record IsPreorder {S : Type 0} (R : S → S → Type 0) : Type 0 where
  pub reflexive : (s : S) → R s s
  pub transitive : (s t u : S) → R s t → R t u → R s u

pub record Always {S A : Type 0} (R : S → S → Type 0) (m : Exec S A) : Type 0 where
  pub from : (s : S) → R s (m s).1

module _ {S : Type 0} {R : S → S → Type 0} (p : IsPreorder R) where
  pub Always-pure : {A : Type 0} (a : A) → Always R (pure {S = S} a)
  Always-pure a = record { from = λ s. p.reflexive s }

  Always-raise : {A : Type 0} (e : Error) → Always R (raise {S = S} {A = A} e)
  Always-raise e = record { from = λ s. p.reflexive s }

  pub Always-lift : {A : Type 0} (r : Result A) → Always R (lift {S = S} r)
  Always-lift r = record { from = λ s. p.reflexive s }

  Always-gets : {A : Type 0} (f : S → A) → Always R (gets f)
  Always-gets f = record { from = λ s. p.reflexive s }

  pub Always-bind :
      {A B : Type 0} (m : Exec S A) (f : A → Exec S B)
      → Always R m
      → ((a : A) → Always R (f a))
      → Always R (m >>= f)
  unfolding ◌>>=◌
  Always-bind m f hm hf = record { from = λ s. after (m s) s (hm.from s) }
    where
      after : (r : Result _ × S) (s : S) → R s r.1 → R s (resume f r).1
      after (ok a, t) s h = p.transitive s t (f a t).1 h ((hf a).from t)
      after (err e, t) s h = h

pub Always-if :
    {S A : Type 0} {R : S → S → Type 0} (b : Bool) (m n : Exec S A)
    → Always R m
    → Always R n
    → Always R (if b then m else n)
Always-if true m n hm hn = hm
Always-if false m n hm hn = hn

Always-attempt :
    {S A : Type 0} {R : S → S → Type 0} (m : Exec S A) → Always R m → Always R (attempt m)
Always-attempt m h = record { from = λ s. h.from s }

-- A bind that succeeds had a first part that succeeds.
pub >>=-inverts :
    {S A B : Type 0} (m : Exec S A) (f : A → Exec S B) (s : S) {b : B} {s' : S}
    → (m >>= f) s ≡ (ok b, s')
    → (a : A) × (t : S) × (m s ≡ (ok a, t)) × (f a t ≡ (ok b, s'))
unfolding ◌>>=◌
>>=-inverts m f s {b} {s'} h = go (m s) refl h
  where
    go :
        (r : Result _ × _)
        → m s ≡ r
        → resume f r ≡ (ok b, s')
        → (a : _) × (t : _) × (m s ≡ (ok a, t)) × (f a t ≡ (ok b, s'))
    go (ok a, t) e h = (a, t, e, h)
    go (err x, t) e h = cc

pub resume-pure : {S A B : Type 0} (a : B) (r : Result A × S) → (resume (λ _. pure a) r).1 ≡ r.1
resume-pure a (ok u, t) = refl
resume-pure a (err e, t) = refl

-- It succeeds from every state, and relates the states before and after.
pub record Surely {S A : Type 0} (R : S → S → Type 0) (m : Exec S A) : Type 0 where
  pub from : (s : S) → (a : A) × (t : S) × (m s ≡ (ok a, t)) × R s t

module _ {S A : Type 0} {R : S → S → Type 0} where
  pub Surely-attempt : (m : Exec S A) → Always R m → Surely R (attempt m)
  Surely-attempt m h = record { from = λ s. ((m s).0, (m s).1, refl, h.from s) }

  pub Surely-pure : IsPreorder R → (a : A) → Surely R (pure {S = S} a)
  Surely-pure p a = record { from = λ s. (a, s, refl, p.reflexive s) }

pub Surely-bind :
    {S A B : Type 0} {R : S → S → Type 0} (p : IsPreorder R) (m : Exec S A) (f : A → Exec S B)
    → Surely R m
    → ((a : A) → Surely R (f a))
    → Surely R (m >>= f)
unfolding ◌>>=◌
Surely-bind p m f hm hf = record {
  from = λ s.
      let (a, t, e, r) = hm.from s in
      let (b, u, e', r') = (hf a).from t in (b, u, rw e e', p.transitive s t u r r');
}

pub Surely-if :
    {S A : Type 0} {R : S → S → Type 0} (b : Bool) (m n : Exec S A)
    → Surely R m
    → Surely R n
    → Surely R (if b then m else n)
Surely-if true m n hm hn = hm
Surely-if false m n hm hn = hn
