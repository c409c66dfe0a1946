-- ===== src/Ingest/Client.antt =====
-- src/ingest/client.rs. The HTTP request with its JSON, and base64, are what the server and the crates
-- answer: `none` stands for any failure of them.
use ctwatch.Base.{ℕ, List, [], ◌∷◌, ◌++◌, Option, none, some, ltb, if◌then◌else◌}
use ctwatch.Base.Text.{Text, text, decimal}
use ctwatch.Base.Result.{Result, ok, err, end_before_start, http_error, base64_error, ◌>>=◌}

pub record SignedTreeHead : Type 0 where
  pub tree_size : ℕ
  pub timestamp_ms : ℕ
  pub sha256_root_hash : List ℕ
  pub tree_head_signature : List ℕ

pub record RawEntry : Type 0 where
  pub leaf_input : List ℕ
  pub extra_data : List ℕ

pub record RawSth : Type 0 where
  pub tree_size : ℕ
  pub timestamp : ℕ
  pub sha256_root_hash : Text
  pub tree_head_signature : Text

pub record RawEntryJson : Type 0 where
  pub leaf_input : Text
  pub extra_data : Text

-- `.get(url).send().error_for_status().json()` at the two types, and `STANDARD.decode`
pub record Server : Type 0 where
  pub sth_json : Text → Option RawSth
  pub entries_json : Text → Option (List RawEntryJson)
  pub decode : Text → Option (List ℕ)

module _ (s : Server) where
  unfoldable pub base64 : Text → Result (List ℕ)
  base64 t = elim (s.decode t) [ none ↦ err base64_error | some b ↦ ok b ]

  unfoldable pub get_sth : Text → Result SignedTreeHead
  unfolding base64
  get_sth base_url = elim (s.sth_json (base_url ++ text "ct/v1/get-sth")) [
    | none ↦ err http_error
    | some raw ↦ base64 raw.sha256_root_hash >>= λ hash.
        base64 raw.tree_head_signature >>= λ signature. ok (record {
          tree_size = raw.tree_size;
          timestamp_ms = raw.timestamp;
          sha256_root_hash = hash;
          tree_head_signature = signature;
        })
  ]

  unfoldable pub decode_entries : List RawEntryJson → Result (List RawEntry)
  unfolding base64
  decode_entries [] = ok []
  decode_entries (e ∷ es) = base64 e.leaf_input >>= λ leaf_input.
      base64 e.extra_data >>= λ extra_data. decode_entries es >>= λ rest.
      ok (record { leaf_input = leaf_input; extra_data = extra_data } ∷ rest)

  unfoldable pub entries_url : Text → ℕ → ℕ → Text
  unfolding decimal
  entries_url base_url start last =
      base_url
      ++ (text "ct/v1/get-entries?start=" ++ (decimal start ++ (text "&end=" ++ decimal last)))

  unfoldable pub get_entries : Text → ℕ → ℕ → Result (List RawEntry)
  unfolding decode_entries entries_url
  get_entries base_url start last =
      if ltb last start
      then err end_before_start
      else elim (s.entries_json (entries_url base_url start last)) [
        | none ↦ err http_error
        | some raw ↦ decode_entries raw
      ]
