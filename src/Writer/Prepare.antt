-- ===== src/Writer/Prepare.antt =====
-- src/writer.rs: what `flush_batch` makes of one job, with `parse_cert`. Parameters are what the program
-- takes from crates: SHA-256, the X.509 parser, the public suffix list, and `from_timestamp` of chrono.
use ctwatch.Base.{ℕ, List, [], ◌∷◌, Option, none, some, ltb, if◌then◌else◌}
use ctwatch.Base.Int.{ℤ}
use ctwatch.Base.Text.{Text, text, set_insert}
use ctwatch.Base.Result.{
  Result, ok, err, x509_error, not_before_out_of_range, not_after_out_of_range,
}
use ctwatch.Ingest.Entry.{precert, final_cert}
use ctwatch.Parse.Psl.{registered_domain}
use ctwatch.Parse.San.{extract_sans_from_der}
use ctwatch.Parse.X509.{Certificate, FromDer}
use ctwatch.Store.Db.{Time, CertRow}
use ctwatch.Stream.Event.{CertEvent}
use ctwatch.Writer.Job.{WriterJob}

pub record ParsedCert : Type 0 where
  pub issuer_hash : List ℕ
  pub issuer_cn : Text
  pub not_before : Time
  pub not_after : Time
  pub sans : List Text
  pub registered_domains : List Text

-- The set of the domains that are found, in its order.
unfoldable pub collect_domains : (Text → Option Text) → List Text → List Text
unfolding registered_domain
collect_domains domain [] = []
collect_domains domain (s ∷ sans) =
    let rest = collect_domains domain sans in
    elim (registered_domain domain s) [ some d ↦ set_insert d rest | none ↦ rest ]

-- `.next().and_then(|cn| cn.as_str().ok()).unwrap_or("")`
unfoldable pub common_name : List (Option Text) → Text
common_name [] = []
common_name (none ∷ names) = []
common_name (some s ∷ names) = s

pub data Prepared : Type 0 where
  dropped : Prepared
  expired : Prepared
  ready : CertRow → CertEvent → Prepared

module _ (sha256 : List ℕ → List ℕ) (from_der : FromDer) (domain : Text → Option Text)
    (from_timestamp : ℤ → Option Time) where
  unfoldable pub parsed_of : Certificate → List Text → Result ParsedCert
  unfolding collect_domains common_name
  parsed_of cert sans = elim (from_timestamp cert.not_before) [
    | none ↦ err not_before_out_of_range
    | some nb ↦ elim (from_timestamp cert.not_after) [
      | none ↦ err not_after_out_of_range
      | some na ↦ ok (record {
        issuer_hash = sha256 cert.issuer_raw;
        issuer_cn = common_name cert.issuer_common_names;
        not_before = nb;
        not_after = na;
        sans = sans;
        registered_domains = collect_domains domain sans;
      })
    ]
  ]

  unfoldable pub parse_cert : List ℕ → Result ParsedCert
  unfolding parsed_of
  parse_cert der = elim (from_der der) [
    | none ↦ err x509_error
    | some cert ↦ elim (extract_sans_from_der from_der der) [
      | err e ↦ err e
      | ok sans ↦ parsed_of cert sans
    ]
  ]

  unfoldable pub row_of : List ℕ → ParsedCert → CertRow
  row_of der p = record {
    cert_hash = sha256 der;
    issuer_hash = p.issuer_hash;
    issuer_cn = p.issuer_cn;
    not_before = p.not_before;
    not_after = p.not_after;
    sans = p.sans;
    registered_domains = p.registered_domains;
  }

  unfoldable pub event_of : Time → WriterJob → List ℕ → ParsedCert → CertEvent
  event_of now job der p = record {
    event = text "precert";
    observed_at = now;
    cert = record {
      cert_hash = sha256 der;
      issuer_cn = p.issuer_cn;
      not_before = p.not_before;
      not_after = p.not_after;
      sans = p.sans;
      registered_domains = p.registered_domains;
    };
    log = record { operator = job.operator; log_id = job.log_id };
  }

  module _ (now cutoff : Time) where
    unfoldable pub admitted : WriterJob → List ℕ → Result ParsedCert → Prepared
    unfolding row_of event_of
    admitted job der (err e) = dropped
    admitted job der (ok p) =
        if ltb p.not_before cutoff then expired else ready (row_of der p) (event_of now job der p)

    -- Only a precertificate that comes with its DER is kept.
    unfoldable pub prepared : WriterJob → Prepared
    unfolding admitted
    prepared job = elim job.entry.kind [
      | final_cert der ↦ dropped
      | precert ikh tbs ↦ elim job.entry.precert_der [
        | none ↦ dropped
        | some der ↦ admitted job der (parse_cert der)
      ]
    ]
