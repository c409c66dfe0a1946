-- ===== src/Api/Certs.antt =====
-- src/api/certs.rs: GET /v1/certs and the routes under /v1/cert. hex and the requests to crt.sh are
-- parameters: what comes back is the status and the body, or nothing.
pub mod Outcome
use ctwatch.Base.{
  ℕ, Bool, false, ◌&&◌, Option, none, some, List, [], ◌∷◌, ◌++◌, map, length, leb, ltb,
  if◌then◌else◌,
}
use ctwatch.Base.Int.{ℤ}
use ctwatch.Base.Text.{Text, text}
use ctwatch.Base.Result.{http_error}
use ctwatch.Api.{
  Handler, bad_request, not_found, internal, respond, refuse, query, found_or, ◌>>=◌, limit_of,
  normalized,
}
use ctwatch.Api.Lookup.{since_or}
use ctwatch.Stats.Snapshot.{days_before}
use ctwatch.Store.Db.{Time, CertRow}
use ctwatch.Store.Certs

pub record ListParams : Type 0 where
  pub domain : Text
  pub since : Option Time
  pub limit : Option ℤ

pub record CertJson : Type 0 where
  pub cert_hash : Text
  pub issuer_cn : Text
  pub not_before : Time
  pub not_after : Time
  pub sans : List Text
  pub registered_domains : List Text

pub record CertsJson : Type 0 where
  pub domain : Text
  pub total : ℕ
  pub certs : List CertJson

-- A response that is passed on.
pub record Passed : Type 0 where
  pub content_type : Text
  pub body : List ℕ

module _ (encode : List ℕ → Text) where
  unfoldable pub serialize_cert : CertRow → CertJson
  serialize_cert r = record {
    cert_hash = encode r.cert_hash;
    issuer_cn = r.issuer_cn;
    not_before = r.not_before;
    not_after = r.not_after;
    sans = r.sans;
    registered_domains = r.registered_domains;
  }

  abbrev pub certs_json : Text → List CertRow → CertsJson
  certs_json regdom rows = record {
    domain = regdom;
    total = length rows;
    certs = map serialize_cert rows;
  }

  module _ (domain : Text → Option Text) (retention_days_hot : ℕ) (now : Time) where
    unfoldable pub list : ListParams → Handler CertsJson
    list p =
        let regdom = normalized domain p.domain in
        query (
          Certs.list_by_registered_domain regdom
            (since_or (days_before now retention_days_hot) p.since) (limit_of 500 5000 p.limit))
        >>= λ rows. respond (certs_json regdom rows)

module _ (decode : Text → Option (List ℕ)) where
  -- `hex::decode(&hash_hex).map_err(…)?`
  abbrev pub hash_of : Text → Handler (List ℕ)
  hash_of hash_hex = found_or (bad_request (text "hash_hex must be hex")) (decode hash_hex)

  unfoldable pub one : (List ℕ → Text) → Text → Handler CertJson
  one encode hash_hex = do
    hash ← hash_of hash_hex
    found ← query (Certs.get_one hash)
    row ← found_or (not_found (text "cert not in window")) found
    respond (serialize_cert encode row)

  module _ (get : Text → Option (ℕ × List ℕ)) where
    -- the response of crt.sh, if it is a success
    abbrev pub passed : Text → Option (ℕ × List ℕ) → Handler Passed
    passed content_type none = refuse (internal http_error)
    passed content_type (some (status, body)) =
        if leb 200 status && ltb status 300
        then respond (record { content_type = content_type; body = body })
        else refuse (internal http_error)

    unfoldable pub raw : Text → Text → Handler Passed
    raw crtsh_base_url hash_hex = do
      _hash ← hash_of hash_hex
      passed (text "application/pkix-cert") (get (crtsh_base_url ++ (text "/?d=" ++ hash_hex)))

    unfoldable pub observations : Text → Text → Handler Passed
    observations crtsh_base_url hash_hex = do
      _hash ← hash_of hash_hex
      passed (text "application/json")
          (get (crtsh_base_url ++ (text "/?q=" ++ (hash_hex ++ text "&output=json"))))
