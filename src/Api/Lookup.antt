-- ===== src/Api/Lookup.antt =====
-- src/api/lookup.rs: GET /v1/lookup. `now` is `Utc::now()`.
pub mod Outcome
use ctwatch.Base.{ℕ, Bool, true, false, Option, none, some, List, ◌∷◌, map, length, if◌then◌else◌}
use ctwatch.Base.Int.{ℤ}
use ctwatch.Base.Text.{Text, text, is_empty, trim, to_ascii_lowercase}
use ctwatch.Api.{Handler, bad_request, respond, refuse, query, ◌>>=◌, limit_of}
use ctwatch.Parse.Psl.{registered_or_name}
use ctwatch.Stats.Snapshot.{days_before}
use ctwatch.Store.Db.{Time, NameRow}
use ctwatch.Store.Names

pub record Params : Type 0 where
  pub domain : Text
  pub since : Option Time
  pub contains : Option Text
  pub limit : Option ℤ

pub record NameJson : Type 0 where
  pub name : Text
  pub first_seen : Time
  pub last_seen : Time
  pub cert_count : ℕ

pub record LookupJson : Type 0 where
  pub domain : Text
  pub registered_domain : Text
  pub total : ℕ
  pub names : List NameJson

abbrev pub name_json : NameRow → NameJson
name_json r = record {
  name = r.name;
  first_seen = r.first_seen;
  last_seen = r.last_seen;
  cert_count = r.cert_count;
}

abbrev pub since_or : Time → Option Time → Time
since_or default none = default
since_or default (some t) = t

abbrev pub lookup_json : Text → Text → List NameRow → LookupJson
lookup_json d regdom rows = record {
  domain = d;
  registered_domain = regdom;
  total = length rows;
  names = map name_json rows;
}

module _ (like : Text → Text → Bool) (domain : Text → Option Text) (retention_days_cold : ℕ)
    (now : Time) where
  -- what follows the test of the domain
  unfoldable pub lookup : Params → Text → Handler LookupJson
  lookup p d =
      let regdom = registered_or_name domain d in
      query (
        Names.list_by_registered_domain like regdom
          (since_or (days_before now retention_days_cold) p.since) p.contains
          (limit_of 1000 10000 p.limit))
      >>= λ rows. respond (lookup_json d regdom rows)

  unfoldable pub handler : Params → Handler LookupJson
  unfolding lookup
  handler p =
      let d = to_ascii_lowercase (trim p.domain) in
      if is_empty d then refuse (bad_request (text "domain required")) else lookup p d
