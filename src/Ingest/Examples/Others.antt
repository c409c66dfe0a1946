-- ===== src/Ingest/Examples/Others.antt =====
-- More properties of src/ingest at one input each: the decoder, the search, the walk and the log list.
use ctwatch.Base.{
  Bool, true, ℕ, zero, suc, ◌+◌, ◌*◌, ◌≤◌, ◌<◌, ◌≡◌, refl, subst, append-nil, false, List, [], ◌∷◌,
  ◌++◌, some, arith, All, map, max, length, ◌⊎◌,
}
use ctwatch.Base.Int.{pos}
use ctwatch.Base.Text.{text, beq, trim, trim_start, strip_end, is_whitespace, ends_with, contains}
use ctwatch.Base.Result.{Result, ok}
use ctwatch.Ingest.Backfill.{probe, probe_first, binary_search_index, walk}
use ctwatch.Ingest.Backfill.Search.{IsFirst, binary_search_index-IsFirst, binary_search_index_total}
use ctwatch.Ingest.Backfill.Walk.{Serves}
use ctwatch.Ingest.Backfill.Walk.Sends.{Walked, walk-Walked}
use ctwatch.Ingest.Client.{get_entries}
use ctwatch.Ingest.Entry.{decode_leaf}
use ctwatch.Ingest.Entry.Encode.{encode_leaf, encode_kind, Fits}
use ctwatch.Ingest.Entry.RoundTrip.{decode_leaf-encode_leaf}
use ctwatch.Ingest.Entry.Sound.{decode_leaf_sound}
use ctwatch.Ingest.Entry.Bytes.{IsByte}
use ctwatch.Ingest.Backfill.Tasks.Ends.{is_running, total, IsEnded, IsHeld, run_many_ends}
use ctwatch.Ingest.Backfill.Tasks.{
  waiting, ended, Task, Tasks, spawn_task, spawn_all, Step, acquires, ends, join_all, Steps, here,
  there,
}
use ctwatch.Ingest.Examples.{
  chain, tree, server, no_server, url, log, world_at, leaf_at, entry_at, get_entries-server,
}
use ctwatch.Ingest.LogList.{
  CtLog, RawList, Decoders, object, parse_log_list, parse_operators, parse_logs, parse_log,
  parse_state, with_slash,
}
use ctwatch.Ingest.LogList.Laws.{AllParsed, flat_logs, parse_log_list-AllParsed, join, IsPlain}

Fits-at : (t : ℕ) → t < 100 → Fits (leaf_at t) (1 ∷ []) chain
Fits-at t h = record {
  timestamp_fits = omega arith;
  extensions_fit = omega arith;
  kind_fits = (refl, omega arith, omega arith, ([], refl));
}

pub decode_at : (t : ℕ) → t < 100 → decode_leaf (entry_at t).leaf_input chain ≡ ok (leaf_at t)
decode_at t h =
    subst (λ bs. decode_leaf bs chain ≡ ok (leaf_at t))
      (append-nil (encode_leaf (leaf_at t) (1 ∷ [])))
      (decode_leaf-encode_leaf (leaf_at t) (1 ∷ []) chain [] (Fits-at t h))

probe-ok :
    (i t : ℕ)
    → get_entries server url i i ≡ ok (entry_at t ∷ [])
    → t < 100
    → probe server url i ≡ ok t
unfolding probe probe_first
probe-ok i t e h = rw (e, decode_at t h, probe, probe_first)

served : (i : ℕ) → i ≤ 2 → probe server url i ≡ ok (10 * i + 10)
served zero h = probe-ok 0 10 (get_entries-server 0 0 (omega arith) (omega arith)) (omega arith)
served (suc zero) h =
    probe-ok 1 20 (get_entries-server 1 1 (omega arith) (omega arith)) (omega arith)
served (suc (suc zero)) h =
    probe-ok 2 30 (get_entries-server 2 2 (omega arith) (omega arith)) (omega arith)
served (suc (suc (suc i))) h = absurd (omega arith)

binary_search_index-IsFirst_example :
    (r : ℕ) × (binary_search_index server url 15 (pos 3) ≡ some (ok r))
    × IsFirst (λ i. 10 * i + 10) 15 2 r
binary_search_index-IsFirst_example =
    binary_search_index-IsFirst server url 15 (λ i. 10 * i + 10) 2 (λ i j h k. omega arith) served

binary_search_index_total_example :
    (r : Result ℕ) × (binary_search_index no_server url 15 (pos 3) ≡ some r)
binary_search_index_total_example = binary_search_index_total no_server url 15 (pos 3)

Serves-server : Serves log tree server
Serves-server from to h inside = (1, omega arith, get_entries-server from to (omega arith) h)

walk-Walked_example :
    Walked log 1 2 tree 0
      (world_at 1)
      (walk log 5 1 (pos 2) (server ∷ server ∷ []) (pos 0) (world_at 1))
walk-Walked_example =
    walk-Walked log 5 1 2 tree (omega arith) (omega arith) (omega arith) (omega arith)
      (server ∷ server ∷ []) 0 (world_at 1) (Serves-server, (Serves-server, tt)) (omega arith) refl
      tt

bytes_10 : All IsByte (entry_at 10).leaf_input
unfolding encode_leaf encode_kind
bytes_10 = omega arith

decode_leaf_sound_example :
    (extensions trailing : List ℕ) × ((entry_at 10).leaf_input
      ≡ encode_leaf (leaf_at 10) extensions ++ trailing)
    × Fits (leaf_at 10) extensions chain
decode_leaf_sound_example =
    decode_leaf_sound (entry_at 10).leaf_input chain (leaf_at 10) bytes_10 (omega arith)
      (decode_at 10 (omega arith))

raw_list : RawList
raw_list = record {
  operators =
      record {
        name = text "op";
        logs =
            record {
              log_id = 1 ∷ [];
              url = text "https://log";
              state = object (text "usable" ∷ []);
            }
            ∷ [];
      }
      ∷ [];
}

decoders : Decoders
decoders = record { from_str = λ raw. some raw_list; decode = λ t. some t }

parsed : parse_log_list decoders (text "{}") ≡ ok (log ∷ [])
unfolding parse_log_list parse_operators parse_logs parse_log decoders raw_list with_slash ends_with
    parse_state contains beq
parsed = refl

parse_log_list-AllParsed_example : AllParsed decoders (flat_logs raw_list.operators) (log ∷ [])
unfolding decoders
parse_log_list-AllParsed_example =
    parse_log_list-AllParsed decoders (text "{}") raw_list (log ∷ []) refl parsed

IsPlain-op : IsPlain (text "op")
unfolding trim trim_start strip_end is_whitespace
IsPlain-op = ((refl, (refl, tt)), refl)

not_star : beq (trim (join (text "op") (text "op" ∷ []))) (text "*") ≡ false
unfolding trim trim_start strip_end is_whitespace beq
not_star = refl

abbrev two_logs : List CtLog
two_logs = log ∷ log ∷ []

-- One permit, and the first task has run to its end.
abbrev one_ended : Tasks
one_ended = record {
  tasks = record { log = log; progress = ended } ∷ record { log = log; progress = waiting } ∷ [];
  permits = 0 + 1;
}

-- Both backfills return.
abbrev both_return : CtLog → Bool
both_return l = true

one_ended-Steps : Steps both_return 2 (spawn_all 0 two_logs) one_ended
unfolding spawn_all spawn_task
one_ended-Steps =
    there 1 _ _ _
      (there 0 _ _ _ (here (spawn_all 0 two_logs)) (
        acquires (spawn_all 0 two_logs) [] (record { log = log; progress = waiting } ∷ []) log 0
          refl refl))
      (ends _ [] (record { log = log; progress = waiting } ∷ []) log refl refl)

run_many_ends_example :
    (map (λ (t : Task). t.log) one_ended.tasks ≡ two_logs)
    × (total is_running one_ended.tasks ≤ max 0 1)
    × (2 ≤ 2 * length two_logs)
    × (((2 ≡ 2 * length two_logs)
          × All IsEnded one_ended.tasks
          × (join_all one_ended.tasks ≡ some (ok tt)))
        ⊎ ((t : Tasks) × Step both_return one_ended t)
        ⊎ IsHeld both_return one_ended)
run_many_ends_example = run_many_ends both_return 0 two_logs 2 one_ended one_ended-Steps
