-- ===== src/Pipeline.antt =====
-- src/ingest/worker.rs and src/writer.rs together: what becomes of the entries of a log.
use ctwatch.Base.{
  ℕ, ◌-◌, ◌≤◌, ◌<◌, ◌≡◌, refl, sym, ◌∙◌, ap, subst, append-nil, true, List, [], ◌∷◌, ◌++◌, map,
  Option, some, All, In, ◌⊎◌, inl, inr, take, drop, length,
}
use ctwatch.Base.Int.{ℤ, pos, i64_mod}
use ctwatch.Base.Text.{Text}
use ctwatch.Base.Result.{ok}
use ctwatch.Ingest.Client.{RawEntry, Server}
use ctwatch.Ingest.Entry.{DecodedEntry, decode_leaf}
use ctwatch.Ingest.LogList.{CtLog}
use ctwatch.Ingest.Worker.{job_of, run}
use ctwatch.Ingest.Worker.Delivery.{ServesTree, Covered, run-Covered}
use ctwatch.Ingest.Worker.Sending.{IsSent}
use ctwatch.Parse.X509.{FromDer}
use ctwatch.Store.Answering.{IsAnswering}
use ctwatch.Store.Certs.Batch.{is_stored}
use ctwatch.Store.Cursors.{find}
use ctwatch.Store.Db.{Time, CertRow}
use ctwatch.Writer.Flush.{Writer}
use ctwatch.Writer.Flush.Outcome.{rows_of, cutoff_of}
use ctwatch.Writer.Job.{WriterJob, World}
use ctwatch.Writer.Loop.{Turn, Batch, batches, arrivals_of, jobs_of, loop}
use ctwatch.Writer.Loop.Stored.{IsStored, loop_stores}
use ctwatch.Writer.Prepare.{Prepared, dropped, expired, ready, prepared}

-- what holds for the certificates of a batch holds for that of each of its jobs
module _ {A : Type 0} (P : CertRow → Type 0) (f : A → Prepared) where
  rows_of-In :
      (x : A) (xs : List A) → In x xs → All P (rows_of (map f xs)) → All P (rows_of (f x ∷ []))
  rows_of-In x [] i h = absurd i
  rows_of-In x (y ∷ xs) (inl e) h = subst (λ z. All P (rows_of (f z ∷ []))) e (first (f y) h)
    where
      first : (p : Prepared) → All P (rows_of (p ∷ map f xs)) → All P (rows_of (p ∷ []))
      first dropped h = tt
      first expired h = tt
      first (ready row evt) h = (h.0, tt)
  rows_of-In x (y ∷ xs) (inr i) h = rows_of-In x xs i (later (f y) h)
    where
      later : (p : Prepared) → All P (rows_of (p ∷ map f xs)) → All P (rows_of (map f xs))
      later dropped h = h
      later expired h = h
      later (ready row evt) h = h.1

In-append-cases : {A : Type 0} (x : A) (xs ys : List A) → In x (xs ++ ys) → In x xs ⊎ In x ys
In-append-cases x [] ys h = inr h
In-append-cases x (y ∷ xs) ys (inl e) = inl (inl e)
In-append-cases x (y ∷ xs) ys (inr h) = elim (In-append-cases x xs ys h) [
  | inl i ↦ inl (inr i)
  | inr i ↦ inr i
]

module _ (sha256 : List ℕ → List ℕ) (from_der : FromDer) (domain : Text → Option Text)
    (from_timestamp : ℤ → Option Time) (uuid : ℕ → ℕ) (retention_days_hot : ℕ) where
  -- The job was taken at some turn, in the batch of that turn, and the certificate that it has, if any in
  -- retention at the time of that turn, is in the table.
  abbrev pub JobStored : List Turn → Writer → WriterJob → Type 0
  JobStored ts w job =
      (b : Batch) × In b (batches ts [])
      × In job b.jobs
      × All (λ row. is_stored row w.db.certs ≡ true)
          (rows_of (
            prepared sha256 from_der domain from_timestamp b.at.now
              (cutoff_of b.at.now retention_days_hot) job
            ∷ []))

  -- The entry decodes, and its job is stored.
  abbrev pub EntryStored : CtLog → List Turn → Writer → RawEntry → Type 0
  EntryStored log ts w raw =
      (e : DecodedEntry) × (decode_leaf raw.leaf_input raw.extra_data ≡ ok e)
      × JobStored ts w (job_of log e)

  -- The cursor of the log stands at or past `first`, and all entries of the tree from `first` up to it
  -- are stored.
  pub record Reached (log : CtLog) (tree : List RawEntry) (first : ℕ) (world : World)
      (ts : List Turn) (w : Writer) : Type 0 where
    pub cursor : ℕ
    pub found : find log.log_id world.db.ingest_cursors ≡ some (pos cursor)
    pub past : first ≤ cursor
    pub stored : All (EntryStored log ts w) (take (cursor - first) (drop first tree))

  job_stored :
      (ts : List Turn) (w : Writer) (bs : List Batch) (job : WriterJob)
      → All (IsStored sha256 from_der domain from_timestamp uuid retention_days_hot w) bs
      → ((b : Batch) → In b bs → In b (batches ts []))
      → In job (jobs_of bs)
      → JobStored ts w job
  job_stored ts w [] job h at i = absurd i
  job_stored ts w (b ∷ bs) job h at i = elim (In-append-cases job b.jobs (jobs_of bs) i) [
    | inl j ↦ (b, at b (inl refl), j, rows_of-In _ _ job b.jobs j h.0)
    | inr j ↦ job_stored ts w bs job h.1 (λ c k. at c (inr k)) j
  ]

  entries_stored :
      (log : CtLog) (ts : List Turn) (w : Writer) (sent : List WriterJob) (entries : List RawEntry)
      → All
          (IsStored sha256 from_der domain from_timestamp uuid retention_days_hot w)
          (batches ts [])
      → jobs_of (batches ts []) ≡ sent
      → All (IsSent log sent) entries
      → All (EntryStored log ts w) entries
  entries_stored log ts w sent [] h same k = tt
  entries_stored log ts w sent (raw ∷ entries) h same ((e, d, i), k) = (
    (
      e,
      d,
      job_stored ts w (batches ts []) (job_of log e) h (λ b j. j)
          (subst (In (job_of log e)) (sym same) i),
    ),
    entries_stored log ts w sent entries h same k,
  )

  -- No precertificate is lost between the log and the table. A worker whose cursor has left 0 runs against
  -- a log that serves consecutive entries of one tree, below 2 ^ 63 of them, whatever fails on its way;
  -- the writer's turns take what it sent, in any portions, until the channel is empty, and the database
  -- answers the writer. Then every entry between the place where the worker began and its cursor decodes,
  -- and its certificate, if it parses and was in retention at the turn that took it, is in the table.
  pub loop-run_stores :
      (poll : ℕ) (log : CtLog) (batch_size : ℕ) (tree : List RawEntry) (servers : List Server)
      (world : World) (first : ℕ) (ts : List Turn) (w : Writer)
      → length tree < i64_mod
      → 0 < first
      → first < i64_mod
      → find log.log_id world.db.ingest_cursors ≡ some (pos first)
      → All (ServesTree log tree) servers
      → IsAnswering w.db
      → arrivals_of ts ≡ (run poll log batch_size servers world).0.sent
      → (loop sha256 from_der domain from_timestamp uuid retention_days_hot ts [] w).0 ≡ []
      → Reached log tree first
          (run poll log batch_size servers world).0
          ts
          (loop sha256 from_der domain from_timestamp uuid retention_days_hot ts [] w).1
  loop-run_stores poll log batch_size tree servers world first ts w small positive low found serves
        answering arrived empty =
      let c : Covered log tree first (run poll log batch_size servers world).0 =
        run-Covered poll log batch_size tree servers world first small positive low found serves in
      let bs = batches ts [] in
      let (jobs, stored, _) =
        loop_stores sha256 from_der domain from_timestamp uuid retention_days_hot ts [] w
          answering in
      let all : jobs_of bs ≡ (run poll log batch_size servers world).0.sent =
        sym (append-nil (jobs_of bs)) ∙ ap (λ xs. jobs_of bs ++ xs) (sym empty) ∙ jobs ∙ arrived in
      record {
        cursor = c.cursor;
        found = c.found;
        past = c.past;
        stored =
            entries_stored log ts
              (loop sha256 from_der domain from_timestamp uuid retention_days_hot ts [] w).1 _
              (take (c.cursor - first) (drop first tree)) stored all c.sent;
      }
