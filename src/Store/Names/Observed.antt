-- ===== src/Store/Names/Observed.antt =====
-- What the rows of names_observed say after any number of upserts of src/store/names.rs.
use ctwatch.Base.{
  ℕ, suc, ◌≤◌, subst, All, any, leb, ◌+◌, ◌≡◌, refl, sym, ap, ◌∙◌, true, false, Bool-cases, inl,
  inr, List, [], ◌∷◌, Option, none, some, filter, length, arith, if◌then◌else◌,
}
use ctwatch.Base.Text.{Text, beq, beq_iff}
use ctwatch.Base.Result.{Result, ok}
use ctwatch.Base.Exec.{Exec, pure, ◌>>=◌, ◌>>◌}
use ctwatch.Store.Answering.{IsAnswering, answered-AllTrue, later-AllTrue}
use ctwatch.Store.Db.{Time, NameRow, Db, later, statement}
use ctwatch.Store.Names.{upsert_row, upsert, is_full}

-- a name of a certificate, its registered domain, and the time that is stored
pub record Seen : Type 0 where
  pub name : Text
  pub registered_domain : Text
  pub at : Time

abbrev pub upsert_all : List Seen → List NameRow → List NameRow
upsert_all [] rows = rows
upsert_all (u ∷ us) rows = upsert_all us (upsert_row u.name u.registered_domain u.at rows)

-- the row of a name
abbrev pub row_of : Text → List NameRow → Option NameRow
row_of name [] = none
row_of name (r ∷ rows) = if beq r.name name then some r else row_of name rows

abbrev pub of_name : Text → List Seen → List Seen
of_name name us = filter (λ (u : Seen). beq u.name name) us

abbrev pub last_at : Time → List Seen → Time
last_at t [] = t
last_at t (u ∷ us) = last_at u.at us

-- What a row becomes: the time of the last sighting, and one more for each. A name that has no row gets
-- one from its first sighting.
abbrev pub counted : List Seen → Option NameRow → Option NameRow
counted us (some r) =
    some (record r { last_seen = last_at r.last_seen us; cert_count = r.cert_count + length us })
counted [] none = none
counted (u ∷ us) none = some (record {
  name = u.name;
  registered_domain = u.registered_domain;
  first_seen = u.at;
  last_seen = last_at u.at us;
  cert_count = length us + 1;
})

counted_one :
    (u : Seen) (us : List Seen) (o : Option NameRow)
    → counted us (counted (u ∷ []) o) ≡ counted (u ∷ us) o
counted_one u us none =
    ap
      (λ n. some (record {
        name = u.name;
        registered_domain = u.registered_domain;
        first_seen = u.at;
        last_seen = last_at u.at us;
        cert_count = n;
      }))
      (omega arith)
counted_one u us (some r) =
    ap (λ n. some (record r { last_seen = last_at u.at us; cert_count = n })) (omega arith)

counted_none : (o : Option NameRow) → counted [] o ≡ o
counted_none none = refl
counted_none (some r) = ap (λ n. some (record r { cert_count = n })) (omega arith)

same_name :
    (u : Seen) (name : Text) (rows : List NameRow)
    → beq u.name name ≡ true
    → row_of name (upsert_row u.name u.registered_domain u.at rows)
      ≡ counted (u ∷ []) (row_of name rows)
unfolding upsert_row
same_name u name [] h = rw h refl
same_name u name (r ∷ rows) h = elim (Bool-cases (beq r.name u.name)) [
  | inl e ↦
      let k : beq r.name name ≡ true = ap (λ x. beq x name) ((beq_iff r.name u.name).0 e) ∙ h in
      rw (e, k) refl
  | inr e ↦
      let k : beq r.name name ≡ false = ap (beq r.name) (sym ((beq_iff u.name name).0 h)) ∙ e in
      rw (e, k) (same_name u name rows h)
]

other_name :
    (u : Seen) (name : Text) (rows : List NameRow)
    → beq u.name name ≡ false
    → row_of name (upsert_row u.name u.registered_domain u.at rows) ≡ row_of name rows
unfolding upsert_row
other_name u name [] h = rw h refl
other_name u name (r ∷ rows) h = elim (Bool-cases (beq r.name u.name)) [
  | inl e ↦
      let k : beq r.name name ≡ false = ap (λ x. beq x name) ((beq_iff r.name u.name).0 e) ∙ h in
      rw (e, k) refl
  | inr e ↦ elim (Bool-cases (beq r.name name)) [
    | inl k ↦ rw (e, k) refl
    | inr k ↦ rw (e, k) (other_name u name rows h)
  ]
]

counts_upsert_all :
    (us : List Seen) (name : Text) (rows : List NameRow)
    → row_of name (upsert_all us rows) ≡ counted (of_name name us) (row_of name rows)
counts_upsert_all [] name rows = sym (counted_none (row_of name rows))
counts_upsert_all (u ∷ us) name rows = elim (Bool-cases (beq u.name name)) [
  | inl h ↦
      counts_upsert_all us name (upsert_row u.name u.registered_domain u.at rows)
      ∙ ap (counted (of_name name us)) (same_name u name rows h)
      ∙ counted_one u (of_name name us) (row_of name rows)
      ∙ rw h refl
  | inr h ↦
      counts_upsert_all us name (upsert_row u.name u.registered_domain u.at rows)
      ∙ ap (counted (of_name name us)) (other_name u name rows h)
      ∙ rw h refl
]

-- No count can pass the largest INTEGER in so many upserts.
abbrev pub HasRoom : ℕ → List NameRow → Type 0
HasRoom n rows = All (λ (r : NameRow). r.cert_count + n ≤ 2147483647) rows

HasRoom-upsert_row :
    (u : Seen) (n : ℕ) (rows : List NameRow)
    → n + 1 ≤ 2147483647
    → HasRoom (n + 1) rows
    → HasRoom n (upsert_row u.name u.registered_domain u.at rows)
unfolding upsert_row
HasRoom-upsert_row u n [] k h = (omega arith, tt)
HasRoom-upsert_row u n (r ∷ rows) k (h, hs) = elim (Bool-cases (beq r.name u.name)) [
  | inl e ↦ rw e (omega arith, less rows hs)
  | inr e ↦ rw e (omega arith, HasRoom-upsert_row u n rows k hs)
]
  where
    less : (rows : List NameRow) → HasRoom (n + 1) rows → HasRoom n rows
    less [] h = tt
    less (r ∷ rows) (h, hs) = (omega arith, less rows hs)

none_full :
    (name : Text) (n : ℕ) (rows : List NameRow)
    → HasRoom (n + 1) rows
    → any (is_full name) rows ≡ false
unfolding is_full
none_full name n [] h = refl
none_full name n (r ∷ rows) (h, hs) =
    let b : leb 2147483647 r.cert_count ≡ false = ground arith in
    rw (b, none_full name n rows hs)
      (elim (Bool-cases (beq r.name name)) [ inl e ↦ rw e refl | inr e ↦ rw e refl ])

-- the upserts one after the other
abbrev pub upserts : List Seen → Exec Db (Unit {0})
upserts [] = pure tt
upserts (u ∷ us) = upsert u.name u.registered_domain u.at >> upserts us

upserts_run :
    (us : List Seen) (db : Db)
    → IsAnswering db
    → length us ≤ 2147483647
    → HasRoom (length us) db.names_observed
    → (db' : Db) × (upserts us db ≡ (ok tt, db'))
      × (db'.names_observed ≡ upsert_all us db.names_observed)
unfolding upsert statement ◌>>=◌
upserts_run [] db a k h = (db, refl, refl)
upserts_run (u ∷ us) db a k h =
    let one_more : suc (length us) ≡ length us + 1 = omega arith in
    let room : HasRoom (length us + 1) db.names_observed =
      subst (λ n. HasRoom n db.names_observed) one_more h in
    let rows = upsert_row u.name u.registered_domain u.at db.names_observed in
    let (db', e, same) =
      upserts_run us (record db { answers = later db.answers; names_observed = rows })
        (later-AllTrue db.answers a) (omega arith)
        (HasRoom-upsert_row u (length us) db.names_observed (omega arith) room) in
    (
      db',
      rw (answered-AllTrue db.answers a, none_full u.name (length us) db.names_observed room) e,
      same,
    )

-- Upserts of names that the database answers, in any order, and so few that no count passes 2 ^ 31 - 1:
-- the row of a name counts the sightings of that name and has the time of the last of them that was
-- upserted, which need not be the latest; a name without a row gets one with the domain and the time of
-- its first sighting; and no other row is touched.
pub row_of-upserts :
    (us : List Seen) (db : Db) (name : Text)
    → IsAnswering db
    → length us ≤ 2147483647
    → HasRoom (length us) db.names_observed
    → ((upserts us db).0 ≡ ok tt)
      × (row_of name (upserts us db).1.names_observed
          ≡ counted (of_name name us) (row_of name db.names_observed))
row_of-upserts us db name a k h =
    let (db', e, same) = upserts_run us db a k h in
    (
      ap (λ (r : Result (Unit {0}) × Db). r.0) e,
      ap (λ (r : Result (Unit {0}) × Db). row_of name r.1.names_observed) e
          ∙ ap (row_of name) same
          ∙ counts_upsert_all us name db.names_observed,
    )
