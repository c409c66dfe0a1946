-- ===== src/Ingest/Worker/Sending.antt =====
-- What the loop over the entries in src/ingest/worker.rs hands to the writer.
use mathlib.Core.List.{append-nil, append_assoc}
use ctwatch.Base.{
  ◌≡◌, refl, sym, ◌∙◌, ap, subst, true, false, List, [], ◌∷◌, ◌++◌, All, In, In-append,
  In-append_last, if◌then◌else◌,
}
use ctwatch.Base.Result.{Result, ok, err, writer_closed}
use ctwatch.Base.Exec.{lift, resume, ◌>>=◌, ◌>>◌}
use ctwatch.Ingest.Entry.{DecodedEntry, decode_leaf}
use ctwatch.Ingest.LogList.{CtLog}
use ctwatch.Ingest.Client.{RawEntry}
use ctwatch.Ingest.Worker.{job_of, send_entries}
use ctwatch.Writer.Job.{WriterJob, World, send}

-- The entry decodes, and its job is among those sent.
abbrev pub IsSent : CtLog → List WriterJob → RawEntry → Type 0
IsSent log sent raw =
    (e : DecodedEntry) × (decode_leaf raw.leaf_input raw.extra_data ≡ ok e) × In (job_of log e) sent

pub IsSent-append :
    (log : CtLog) (sent more : List WriterJob) (entries : List RawEntry)
    → All (IsSent log sent) entries
    → All (IsSent log (sent ++ more)) entries
IsSent-append log sent more [] h = tt
IsSent-append log sent more (raw ∷ entries) ((e, d, i), h) =
    ((e, d, In-append (job_of log e) sent more i), IsSent-append log sent more entries h)

module _ (log : CtLog) where
  -- After the loop, whether or not it ended well; if it did, every entry has been sent.
  unfoldable pub SentAll : List RawEntry → World → Result (Unit {0}) × World → Type 0
  SentAll entries w r =
      (more : List WriterJob) × (r.1 ≡ record w { sent = w.sent ++ more })
      × (r.0 ≡ ok tt → All (IsSent log (w.sent ++ more)) entries)

  same_world : (w : World) → w ≡ record w { sent = w.sent ++ [] }
  same_world w = sym (ap (λ (sent : List WriterJob). record w { sent = sent }) (append-nil w.sent))

  after_send :
      (raw : RawEntry) (entries : List RawEntry) (w : World) (d : DecodedEntry)
      → decode_leaf raw.leaf_input raw.extra_data ≡ ok d
      → SentAll entries
          (record w { sent = w.sent ++ job_of log d ∷ [] })
          (send_entries log entries (record w { sent = w.sent ++ job_of log d ∷ [] }))
      → SentAll (raw ∷ entries) w ((send (job_of log d) >> send_entries log entries) w)
  unfolding SentAll send ◌>>=◌
  after_send raw entries w d e (more, same, all) =
      let job = job_of log d in
      let joined : (w.sent ++ job ∷ []) ++ more ≡ w.sent ++ (job ∷ more) =
        append_assoc w.sent (job ∷ []) more in
      elim w.writer_open
        as (λ b. SentAll (raw ∷ entries) w (
          resume (λ _. send_entries log entries)
            (if◌then◌else◌ {A = Result (Unit {0}) × World} b
              (ok tt, record w { sent = w.sent ++ job ∷ [] }) (err writer_closed, w)))) [
                | true ↦ (
                  job ∷ more,
                  same ∙ ap (λ (sent : List WriterJob). record w { sent = sent }) joined,
                  λ h.
                      subst (λ sent. All (IsSent log sent) (raw ∷ entries)) joined
                        (
                          (
                            d,
                            e,
                            In-append job (w.sent ++ job ∷ []) more (In-append_last job w.sent),
                          ),
                          all h,
                        ),
                )
                | false ↦ ([], same_world w, λ h. cc)
              ]

  after_decode :
      (raw : RawEntry) (entries : List RawEntry) (w : World) (d : Result DecodedEntry)
      → decode_leaf raw.leaf_input raw.extra_data ≡ d
      → ((w' : World) → SentAll entries w' (send_entries log entries w'))
      → SentAll
          (raw ∷ entries)
          w
          (resume (λ e. send (job_of log e) >> send_entries log entries) (lift d w))
  after_decode raw entries w (err x) e ih = unfold SentAll in ([], same_world w, λ h. cc)
  after_decode raw entries w (ok d) e ih = after_send raw entries w d e (ih _)

  pub send_entries-SentAll :
      (entries : List RawEntry) (w : World) → SentAll entries w (send_entries log entries w)
  unfolding send_entries SentAll ◌>>=◌
  send_entries-SentAll [] w = ([], same_world w, λ _. tt)
  send_entries-SentAll (raw ∷ entries) w =
      after_decode raw entries w (decode_leaf raw.leaf_input raw.extra_data) refl
        (λ w'. send_entries-SentAll entries w')
