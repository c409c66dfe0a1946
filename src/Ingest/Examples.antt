-- ===== src/Ingest/Examples.antt =====
-- The properties of src/ingest at one input each, and a log server that reads the URL of a request.
mod Others
mod Pipeline
use native.Mathlib.Nat.{pow-suc}
use ctwatch.Base.{
  ℕ, zero, suc, ◌+◌, ◌-◌, ◌*◌, ◌/◌, ◌%◌, ◌^◌, ◌≤◌, ◌<◌, ◌≡◌, refl, sym, ap, ◌∙◌, subst, true, false,
  Bool-cases, inl, inr, List, [], ◌∷◌, ◌++◌, map, none, some, arith, min, get_elem?, All, take,
  drop, length, ltb, ltb→lt, ◌==◌, if◌then◌else◌,
}
use ctwatch.Base.Int.{pos}
use ctwatch.Base.Text.{Text, beq, text, digits, decimal}
use ctwatch.Base.Result.{Result, ok, err, end_before_start}
use ctwatch.Ingest.Client.{RawEntry, RawEntryJson, Server, get_entries, decode_entries, entries_url}
use ctwatch.Ingest.Entry.{DecodedEntry, precert, decode_leaf}
use ctwatch.Ingest.Entry.Encode.{encode_leaf}
use ctwatch.Ingest.LogList.{CtLog, usable}
use ctwatch.Ingest.Entry.RoundTrip.{decode_leaf-encode_leaf}
use ctwatch.Ingest.Entry.Sound.{decode_leaf_sound}
use ctwatch.Ingest.Worker.{run, spawn}
use ctwatch.Ingest.Worker.Backoff.{outcomes, failures, run-IsDown}
use ctwatch.Ingest.Worker.Cursor.{CursorsGrow, spawn-CursorsGrow}
use ctwatch.Ingest.Worker.Delivery.{ServesTree, Covered, run-Covered}
use ctwatch.Store.Cursors.{find}
use ctwatch.Store.Db.{Db, Cursor}
use ctwatch.Writer.Job.{World}

-- the number up to `&`
unfoldable read : ℕ → Text → ℕ
read v [] = v
read v (c ∷ cs) = let rest = read (v * 10 + (c - 48)) cs in if c == b'&' then v else rest

read-digit : (v n : ℕ) (acc : Text) → n < 10 → read v ((n + 48) ∷ acc) ≡ read (v * 10 + n) acc
unfolding read
read-digit v n acc h =
    let e : ((n + 48) == b'&') ≡ false = ground arith in
    let m : (n + 48) - 48 ≡ n = omega arith in rw (e, m)

read-digits : (fuel n : ℕ) (acc : Text) → n < 10 ^ fuel → read 0 (digits fuel n acc) ≡ read n acc
unfolding digits
read-digits zero n acc h = let e : n ≡ 0 = omega arith in rw e
read-digits (suc fuel) n acc h = elim (Bool-cases (ltb n 10)) [
  | inl b ↦
      let e : 0 * 10 + n ≡ n = omega arith in
      rw b (read-digit 0 n acc (ltb→lt n 10 b) ∙ ap (λ k. read k acc) e)
  | inr b ↦
      let e : n / 10 * 10 + n % 10 ≡ n = omega arith in
      rw b (
        read-digits fuel (n / 10) ((n % 10 + 48) ∷ acc) (omega (arith, pow-suc 10 fuel))
        ∙ read-digit (n / 10) (n % 10) acc (omega arith)
        ∙ ap (λ k. read k acc) e)
]

append_digits :
    (fuel n : ℕ) (acc more : Text) → digits fuel n acc ++ more ≡ digits fuel n (acc ++ more)
unfolding digits
append_digits zero n acc more = refl
append_digits (suc fuel) n acc more = elim (Bool-cases (ltb n 10)) [
  | inl b ↦ rw b refl
  | inr b ↦ rw b (append_digits fuel (n / 10) ((n % 10 + 48) ∷ acc) more)
]

read-decimal :
    (n : ℕ) (more : Text) → n < 10 ^ 20 → read 0 (decimal n ++ (text "&end=" ++ more)) ≡ n
unfolding decimal read
read-decimal n more h =
    ap (read 0) (append_digits 20 n [] (text "&end=" ++ more))
    ∙ read-digits 20 n (text "&end=" ++ more) h

abbrev url : Text
url = text "https://log/"

no_server : Server
no_server = record { sth_json = λ _. none; entries_json = λ _. none; decode = λ t. some t }

-- the index that a request starts from
start_of : Text → ℕ
start_of u = read 0 (drop 36 u)

start_of-entries_url :
    (start last : ℕ) → start < 10 ^ 20 → start_of (entries_url no_server url start last) ≡ start
unfolding start_of entries_url
start_of-entries_url start last h = read-decimal start (decimal last) h

abbrev four_bytes : List ℕ
four_bytes = 7 ∷ 8 ∷ 7 ∷ 8 ∷ []

-- 32 bytes
abbrev key_hash : List ℕ
key_hash =
    (four_bytes ++ four_bytes ++ four_bytes ++ four_bytes)
    ++ four_bytes
    ++ four_bytes
    ++ four_bytes
    ++ four_bytes

-- the precertificate 04, with its length
abbrev chain : List ℕ
chain = 0 ∷ 0 ∷ 1 ∷ 4 ∷ []

abbrev leaf_at : ℕ → DecodedEntry
leaf_at t = record {
  timestamp_ms = t;
  kind = precert key_hash (9 ∷ []);
  precert_der = some (4 ∷ []);
}

abbrev json_at : ℕ → RawEntryJson
json_at t = record { leaf_input = encode_leaf (leaf_at t) (1 ∷ []); extra_data = chain }

abbrev entry_at : ℕ → RawEntry
entry_at t = record { leaf_input = encode_leaf (leaf_at t) (1 ∷ []); extra_data = chain }

-- One entry for each request, of a tree of three.
server : Server
unfolding start_of
server = record {
  sth_json = λ _.
      some
        (record { tree_size = 3; timestamp = 0; sha256_root_hash = []; tree_head_signature = [] });
  entries_json = λ u. some (take 1 (drop (start_of u) (json_at 10 ∷ json_at 20 ∷ json_at 30 ∷ [])));
  decode = λ t. some t;
}

abbrev tree : List RawEntry
tree = entry_at 10 ∷ entry_at 20 ∷ entry_at 30 ∷ []

abbrev log : CtLog
log = record { log_id = 1 ∷ []; url = text "https://log/"; operator = text "op"; state = usable }

decode_tree :
    (n : ℕ)
    → decode_entries server (take 1 (drop n (json_at 10 ∷ json_at 20 ∷ json_at 30 ∷ [])))
      ≡ ok (take 1 (drop n tree))
unfolding decode_entries server
decode_tree zero = refl
decode_tree (suc zero) = refl
decode_tree (suc (suc zero)) = refl
decode_tree (suc (suc (suc zero))) = refl
decode_tree (suc (suc (suc (suc n)))) = refl

get_entries-server :
    (start last : ℕ)
    → start < 10 ^ 20
    → start ≤ last
    → get_entries server url start last ≡ ok (take 1 (drop start tree))
unfolding get_entries server
get_entries-server start last h l =
    let e : ltb last start ≡ false = ground arith in
    rw (e, start_of-entries_url start last h) (decode_tree start)

ok_inj : {a b : List RawEntry} → ok a ≡ ok b → a ≡ b
ok_inj h = cc

serves_tree : ServesTree log tree server
unfolding get_entries
serves_tree start last entries small h = elim (Bool-cases (ltb last start)) [
  | inl e ↦ let k : err end_before_start ≡ ok entries = rw e at h in absurd cc
  | inr e ↦
      let k = get_entries-server start last (omega arith) (ground arith) in (1, ok_inj (sym h ∙ k))
]

abbrev cursor_at : ℕ → Cursor
cursor_at n = record {
  log_id = 1 ∷ [];
  log_url = text "https://log/";
  operator = text "op";
  last_tree_size = pos n;
  last_updated = 0;
  state = text "usable";
}

abbrev db_at : ℕ → Db
db_at n = record {
  certs = [];
  cert_names = [];
  names_observed = [];
  ingest_cursors = cursor_at n ∷ [];
  watchlist = [];
  webhook_outbox = [];
  outbox_next_id = 1;
  backfill_jobs = [];
  jobs_next_id = 1;
  clock = 0;
  answers = [];
}

abbrev world_at : ℕ → World
world_at n = record { db = db_at n; sent = []; writer_open = true }

found_1 : find log.log_id (world_at 1).db.ingest_cursors ≡ some (pos 1)
unfolding find beq
found_1 = refl

run-Covered_example : Covered log tree 1 (run 10 log 5 (server ∷ server ∷ []) (world_at 1)).0
run-Covered_example =
    run-Covered 10 log 5 tree (server ∷ server ∷ []) (world_at 1) 1 (omega arith) (omega arith)
      (omega arith) found_1 (serves_tree, (serves_tree, tt))

spawn-CursorsGrow_example :
    CursorsGrow (world_at 1) (spawn 10 log 5 (server ∷ server ∷ []) (world_at 1)).0
spawn-CursorsGrow_example = spawn-CursorsGrow 10 log 5 (server ∷ server ∷ []) (world_at 1)

run-IsDown_example :
    get_elem? (run 10 log 5 ((server ∷ []) ++ no_server ∷ no_server ∷ []) (world_at 1)).1 (1 + 1)
    ≡ some (min (2 ^ (failures 0 (outcomes log 5 (server ∷ []) (world_at 1)) + 1)) 300)
unfolding no_server
run-IsDown_example =
    run-IsDown 10 log 5 (server ∷ []) (no_server ∷ no_server ∷ []) (world_at 1) 1 (refl, (refl, tt))
      (omega arith)

decode_leaf-encode_leaf_example :
    decode_leaf (encode_leaf (leaf_at 10) (1 ∷ []) ++ 9 ∷ []) chain ≡ ok (leaf_at 10)
decode_leaf-encode_leaf_example =
    decode_leaf-encode_leaf (leaf_at 10) (1 ∷ []) chain (9 ∷ []) (record {
      timestamp_fits = omega arith;
      extensions_fit = omega arith;
      kind_fits = (refl, omega arith, omega arith, ([], refl));
    })
