-- ===== src/Ingest/Entry/Encode.antt =====
-- The format that src/ingest/entry.rs quotes from RFC 6962, section 3.4, as an encoder.
use ctwatch.Base.{ℕ, ◌^◌, ◌<◌, ◌≡◌, Option, none, some, List, ◌++◌, length}
use ctwatch.Ingest.Entry.{EntryKind, precert, final_cert, DecodedEntry}
use ctwatch.Ingest.Entry.Bytes.{to_be}

-- A length of `n` bytes, then that many bytes.
abbrev pub opaque_bytes : ℕ → List ℕ → List ℕ
opaque_bytes n bs = to_be n (length bs) ++ bs

unfoldable pub encode_kind : EntryKind → List ℕ
encode_kind (final_cert der) = to_be 2 0 ++ opaque_bytes 3 der
encode_kind (precert ikh tbs) = to_be 2 1 ++ (ikh ++ opaque_bytes 3 tbs)

unfoldable pub encode_leaf : DecodedEntry → List ℕ → List ℕ
unfolding encode_kind
encode_leaf e extensions =
    to_be 1 0
    ++ (to_be 1 0 ++ (to_be 8 e.timestamp_ms ++ (encode_kind e.kind ++ opaque_bytes 2 extensions)))

-- The lengths fit their prefixes, and the precertificate heads `extra_data`. RFC 6962 also asks for a
-- certificate of one byte at least, which the decoder does not check and is not asked for here.
abbrev pub KindFits : EntryKind → Option (List ℕ) → List ℕ → Type 0
KindFits (final_cert der) none extra = length der < 2 ^ 24
KindFits (final_cert der) (some _) extra = ⊥
KindFits (precert ikh tbs) none extra = ⊥
KindFits (precert ikh tbs) (some der) extra =
    (length ikh ≡ 32)
    × (length tbs < 2 ^ 24)
    × (length der < 2 ^ 24)
    × ((chain : List ℕ) × (extra ≡ opaque_bytes 3 der ++ chain))

pub record Fits (e : DecodedEntry) (extensions extra : List ℕ) : Type 0 where
  pub timestamp_fits : e.timestamp_ms < 2 ^ 64
  pub extensions_fit : length extensions < 2 ^ 16
  pub kind_fits : KindFits e.kind e.precert_der extra
