-- ===== src/Ingest/Entry.antt =====
-- src/ingest/entry.rs: `decode_leaf`. The reader is in Reader, the format's inverse in Encode.
pub mod Reader
pub mod Bytes
pub mod Encode
pub mod Parses
pub mod Inverts
pub mod Numbers
pub mod RoundTrip
pub mod Sound
use ctwatch.Base.{ℕ, ◌≡◌, Option, none, some, List, ◌==◌, if◌then◌else◌}
use ctwatch.Base.Result.{
  Result, ok, err, unsupported_version, unsupported_leaf_type, unknown_entry_type,
}
use Reader.{Parser, pure, fail, check, lift, ◌>>=◌, ◌>>◌, new, read_exact, u8, u16, u64, var_bytes}

pub data EntryKind : Type 0 where
  precert : (issuer_key_hash tbs : List ℕ) → EntryKind
  final_cert : (der : List ℕ) → EntryKind

pub record DecodedEntry : Type 0 where
  pub timestamp_ms : ℕ
  pub kind : EntryKind
  pub precert_der : Option (List ℕ)

unfoldable pub x509_entry : Parser (EntryKind × Option (List ℕ))
x509_entry = do der ← var_bytes 3; pure (final_cert der, none)

-- The precertificate itself, by a reader of its own over `extra_data`.
unfoldable pub chain_head : List ℕ → Result (List ℕ)
chain_head extra_data = elim (var_bytes 3 (new extra_data)) [ ok (der, _) ↦ ok der | err e ↦ err e ]

unfoldable pub precert_entry : List ℕ → Parser (EntryKind × Option (List ℕ))
precert_entry extra_data = do
  ikh ← read_exact 32
  tbs ← var_bytes 3
  der ← lift (chain_head extra_data)
  pure (precert ikh tbs, some der)

-- the match on `entry_type`
unfoldable pub signed_entry : List ℕ → ℕ → Parser (EntryKind × Option (List ℕ))
signed_entry extra_data n =
    if n == 0
    then x509_entry
    else if n == 1
    then precert_entry extra_data
    else fail (unknown_entry_type n)

-- the body and the extensions, which are skipped
unfoldable pub leaf_body : List ℕ → ℕ → ℕ → Parser DecodedEntry
leaf_body extra_data timestamp_ms entry_type = do
  body ← signed_entry extra_data entry_type
  _ext ← var_bytes 2
  pure (record { timestamp_ms = timestamp_ms; kind = body.0; precert_der = body.1 })

unfoldable pub leaf : List ℕ → Parser DecodedEntry
leaf extra_data = do
  version ← u8
  check (version == 0) (unsupported_version version)
  leaf_type ← u8
  check (leaf_type == 0) (unsupported_leaf_type leaf_type)
  timestamp_ms ← u64
  entry_type ← u16
  leaf_body extra_data timestamp_ms entry_type

unfoldable pub decode_leaf : List ℕ → List ℕ → Result DecodedEntry
decode_leaf leaf_input extra_data = elim (leaf extra_data (new leaf_input)) [
  | ok (e, _) ↦ ok e
  | err e ↦ err e
]
