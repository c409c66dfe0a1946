-- ===== src/Ingest/LogList/Laws.antt =====
-- The list of logs that is parsed, and what the filter keeps.
use ctwatch.Base.{
  ◌≡◌, ◌==◌, refl, subst, ap, true, false, Bool-cases, inl, inr, List, [], ◌∷◌, ◌++◌, map, some,
  arith, filter, any, All,
}
use ctwatch.Base.Text.{
  Text, text, beq, ends_with, ends_with_snoc, trim, split, eq_ignore_ascii_case,
}
use ctwatch.Base.Result.{ok, >>=-eq-ok}
use ctwatch.Ingest.LogList.{
  CtLog, RawLog, RawOperator, RawList, Decoders, with_slash, parse_log, parse_logs, parse_operators,
  parse_log_list, parse_state, filter_operators,
}

with_slash-ends_with : (url : Text) → ends_with b'/' (with_slash url) ≡ true
unfolding with_slash
with_slash-ends_with url = elim (Bool-cases (ends_with b'/' url)) [
  | inl e ↦ rw e e
  | inr e ↦ rw e (ends_with_snoc b'/' b'/' url)
]

-- What the parser makes of the raw log `r` of an operator, one for one.
abbrev pub IsParsed : Decoders → Text → RawLog → CtLog → Type 0
IsParsed d operator r l =
    (d.decode r.log_id ≡ some l.log_id)
    × (l.operator ≡ operator)
    × (l.state ≡ parse_state r.state)
    × (l.url ≡ with_slash r.url)
    × (ends_with b'/' l.url ≡ true)

-- The raw logs with their operators' names, in order.
abbrev pub tag : Text → List RawLog → List (Text × RawLog)
tag name [] = []
tag name (r ∷ rs) = (name, r) ∷ tag name rs

abbrev pub flat_logs : List RawOperator → List (Text × RawLog)
flat_logs [] = []
flat_logs (op ∷ ops) = tag op.name op.logs ++ flat_logs ops

abbrev pub AllParsed : Decoders → List (Text × RawLog) → List CtLog → Type 0
AllParsed d [] [] = Unit
AllParsed d [] (l ∷ ls) = ⊥
AllParsed d (r ∷ rs) [] = ⊥
AllParsed d ((name, r) ∷ rs) (l ∷ ls) = IsParsed d name r l × AllParsed d rs ls

module _ (d : Decoders) where
  AllParsed-append :
      (rs rs' : List (Text × RawLog)) (ls ls' : List CtLog)
      → AllParsed d rs ls
      → AllParsed d rs' ls'
      → AllParsed d (rs ++ rs') (ls ++ ls')
  AllParsed-append [] rs' [] ls' h h' = h'
  AllParsed-append [] rs' (l ∷ ls) ls' h h' = absurd h
  AllParsed-append (r ∷ rs) rs' [] ls' h h' = absurd h
  AllParsed-append ((name, r) ∷ rs) rs' (l ∷ ls) ls' h h' =
      (h.0, AllParsed-append rs rs' ls ls' h.1 h')

  parse_log-IsParsed :
      (name : Text) (r : RawLog) (l : CtLog) → parse_log d name r ≡ ok l → IsParsed d name r l
  unfolding parse_log
  parse_log-IsParsed name r l h = ground (arith, with_slash-ends_with r.url)

  parse_logs-AllParsed :
      (name : Text) (rs : List RawLog) (ls : List CtLog)
      → parse_logs d name rs ≡ ok ls
      → AllParsed d (tag name rs) ls
  unfolding parse_logs
  parse_logs-AllParsed name [] [] h = tt
  parse_logs-AllParsed name [] (l ∷ ls) h = cc
  parse_logs-AllParsed name (r ∷ rs) ls h =
      let (l, e, h₁) = >>=-eq-ok (parse_log d name r) _ h in
      let (ls', e', h₂) = >>=-eq-ok (parse_logs d name rs) _ h₁ in
      let eq : l ∷ ls' ≡ ls = cc in
      subst (AllParsed d (tag name (r ∷ rs))) eq
        (parse_log-IsParsed name r l e, parse_logs-AllParsed name rs ls' e')

  parse_operators-AllParsed :
      (ops : List RawOperator) (ls : List CtLog)
      → parse_operators d ops ≡ ok ls
      → AllParsed d (flat_logs ops) ls
  unfolding parse_operators
  parse_operators-AllParsed [] [] h = tt
  parse_operators-AllParsed [] (l ∷ ls) h = cc
  parse_operators-AllParsed (op ∷ ops) ls h =
      let (xs, e, h₁) = >>=-eq-ok (parse_logs d op.name op.logs) _ h in
      let (ys, e', h₂) = >>=-eq-ok (parse_operators d ops) _ h₁ in
      let eq : xs ++ ys ≡ ls = cc in
      subst (AllParsed d (flat_logs (op ∷ ops))) eq (
        AllParsed-append (tag op.name op.logs) (flat_logs ops) xs ys
          (parse_logs-AllParsed op.name op.logs xs e) (parse_operators-AllParsed ops ys e'))

  -- A list that parses has one log for each raw log, in order: its id decoded, its operator's name,
  -- its state read, and its URL, which now ends in a slash.
  pub parse_log_list-AllParsed :
      (raw : Text) (list : RawList) (ls : List CtLog)
      → d.from_str raw ≡ some list
      → parse_log_list d raw ≡ ok ls
      → AllParsed d (flat_logs list.operators) ls
  unfolding parse_log_list
  parse_log_list-AllParsed raw list ls e h =
      parse_operators-AllParsed list.operators ls (rw (e, parse_log_list) at h)

-- An operator list as an administrator writes it: names with a comma between any two.
abbrev pub join : Text → List Text → Text
join w [] = w
join w (v ∷ vs) = w ++ (b',' ∷ join v vs)

-- A name without commas, and without white space at its ends.
abbrev pub IsPlain : Text → Type 0
IsPlain w = All (λ c. (c == b',') ≡ false) w × (trim w ≡ w)

split-plain : (w : Text) → All (λ c. (c == b',') ≡ false) w → split b',' w ≡ w ∷ []
unfolding split
split-plain [] h = refl
split-plain (c ∷ w) h = rw (h.0, split-plain w h.1)

split-plain_comma :
    (w rest : Text)
    → All (λ c. (c == b',') ≡ false) w
    → split b',' (w ++ b',' ∷ rest) ≡ w ∷ split b',' rest
unfolding split
split-plain_comma [] rest h = refl
split-plain_comma (c ∷ w) rest h = rw (h.0, split-plain_comma w rest h.1)

split-join :
    (w : Text) (ws : List Text)
    → IsPlain w
    → All IsPlain ws
    → map trim (split b',' (join w ws)) ≡ w ∷ ws
split-join w [] h hs = rw (split-plain w h.0, h.1)
split-join w (v ∷ vs) h hs =
    rw (split-plain_comma w (join v vs) h.0, split-join v vs hs.0 hs.1, h.1)

-- For an operator list that is written as plain names with commas between them, and is not `*`, the
-- filter keeps, in order, exactly the logs whose operator is one of the names up to ASCII case.
filter_operators-join :
    (logs : List CtLog) (w : Text) (ws : List Text)
    → IsPlain w
    → All IsPlain ws
    → beq (trim (join w ws)) (text "*") ≡ false
    → filter_operators logs (join w ws)
      ≡ filter (λ l. any (λ a. eq_ignore_ascii_case a l.operator) (w ∷ ws)) logs
unfolding filter_operators
filter_operators-join logs w ws h hs star = rw star (
    ap
      (λ (parts : List Text). filter (λ l. any (λ a. eq_ignore_ascii_case a l.operator) parts) logs)
      (split-join w ws h hs))
