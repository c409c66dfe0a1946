-- ===== src/Stream/Event.antt =====
-- src/stream/mod.rs: what is sent to subscribers. `event` is always "precert".
use ctwatch.Base.{ℕ, List}
use ctwatch.Base.Text.{Text}

pub record CertEventCert : Type 0 where
  pub cert_hash : List ℕ
  pub issuer_cn : Text
  pub not_before : ℕ
  pub not_after : ℕ
  pub sans : List Text
  pub registered_domains : List Text

pub record CertEventLog : Type 0 where
  pub operator : Text
  pub log_id : List ℕ

pub record CertEvent : Type 0 where
  pub event : Text
  pub observed_at : ℕ
  pub cert : CertEventCert
  pub log : CertEventLog
