-- ===== src/Parse/X509.antt =====
-- What the program reads of a certificate that the crate x509-parser has parsed. The parser itself,
-- `X509Certificate::from_der`, is a parameter of whatever calls it.
use ctwatch.Base.{ℕ, Option, List}
use ctwatch.Base.Int.{ℤ}
use ctwatch.Base.Text.{Text}

pub data GeneralName : Type 0 where
  dns_name : Text → GeneralName
  other_name : GeneralName

pub data Extension : Type 0 where
  subject_alternative_name : List GeneralName → Extension
  other_extension : Extension

-- A common name is `none` where `as_str` fails. Times are seconds since 1970.
pub record Certificate : Type 0 where
  pub extensions : List Extension
  pub subject_common_names : List (Option Text)
  pub issuer_common_names : List (Option Text)
  pub issuer_raw : List ℕ
  pub not_before : ℤ
  pub not_after : ℤ

abbrev pub FromDer : Type 0
FromDer = List ℕ → Option Certificate
