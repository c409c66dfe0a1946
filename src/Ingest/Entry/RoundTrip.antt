-- ===== src/Ingest/Entry/RoundTrip.antt =====
-- src/ingest/entry.rs: the decoder on what the encoder of its format gives.
use mathlib.Core.List.{append_assoc}
use ctwatch.Base.{
  ℕ, ◌<◌, ◌^◌, ◌≡◌, refl, sym, subst, ◌∙◌, Option, none, some, List, ◌∷◌, ◌++◌, arith, length, ap,
}
use ctwatch.Base.Result.{ok}
use ctwatch.Ingest.Entry.{
  EntryKind, precert, final_cert, DecodedEntry, x509_entry, chain_head, precert_entry, signed_entry,
  leaf_body, leaf, decode_leaf,
}
use ctwatch.Ingest.Entry.Reader.{new, ◌>>=◌}
use ctwatch.Ingest.Entry.Bytes.{to_be}
use ctwatch.Ingest.Entry.Encode.{opaque_bytes, encode_kind, encode_leaf, KindFits, Fits}
use ctwatch.Ingest.Entry.Parses.{
  Parses, At-new, Parses-bind, Parses-pure, Parses-lift, Parses-read_exact, Parses-u8, Parses-u16,
  Parses-u64, Parses-var_bytes,
}

chain_head-opaque :
    (der chain : List ℕ) → length der < 2 ^ 24 → chain_head (opaque_bytes 3 der ++ chain) ≡ ok der
unfolding chain_head
chain_head-opaque der chain h =
    let input = opaque_bytes 3 der ++ chain in
    let (r', e, _) =
      (Parses-var_bytes 3 der chain (omega arith) (omega arith)).from (new input) (At-new input) in
    rw (e, chain_head)

-- The tag and the rest of an encoded entry, as `leaf` reads them.
record Tagged (k : EntryKind) (o : Option (List ℕ)) (extra rest : List ℕ) : Type 0 where
  tag : ℕ
  tag_fits : tag < 2 ^ 16
  body : List ℕ
  split : encode_kind k ≡ to_be 2 tag ++ body
  parses : Parses (signed_entry extra tag) (body ++ rest) (k, o) rest

encode_kind-Tagged :
    (k : EntryKind) (o : Option (List ℕ)) (extra rest : List ℕ)
    → KindFits k o extra
    → Tagged k o extra rest
unfolding signed_entry x509_entry precert_entry encode_kind
encode_kind-Tagged (final_cert der) none extra rest h = record {
  tag = 0;
  tag_fits = omega arith;
  body = opaque_bytes 3 der;
  split = refl;
  parses =
      Parses-bind _ _ _ der rest _ _ (Parses-var_bytes 3 der rest (omega arith) (omega arith))
        (Parses-pure _ _);
}
encode_kind-Tagged (final_cert der) (some p) extra rest h = absurd h
encode_kind-Tagged (precert ikh tbs) none extra rest h = absurd h
encode_kind-Tagged (precert ikh tbs) (some der) extra rest (l, t, d, (chain, e)) = record {
  tag = 1;
  tag_fits = omega arith;
  body = ikh ++ opaque_bytes 3 tbs;
  split = refl;
  parses = rw (append_assoc ikh (opaque_bytes 3 tbs) rest) (
      Parses-bind _ _ _ ikh (opaque_bytes 3 tbs ++ rest) _ _
        (Parses-read_exact 32 ikh (opaque_bytes 3 tbs ++ rest) l)
        (Parses-bind _ _ _ tbs rest _ _ (Parses-var_bytes 3 tbs rest (omega arith) (omega arith)) (
          Parses-bind _ _ _ der rest _ _
            (Parses-lift (chain_head extra) der rest
              (subst (λ x. chain_head x ≡ ok der) (sym e) (chain_head-opaque der chain d)))
            (Parses-pure _ _))));
}

leaf-encode_leaf :
    (e : DecodedEntry) (extensions extra trailing : List ℕ)
    → Fits e extensions extra
    → Parses (leaf extra) (encode_leaf e extensions ++ trailing) e trailing
unfolding leaf leaf_body encode_leaf
leaf-encode_leaf e extensions extra trailing h =
    let rest = opaque_bytes 2 extensions ++ trailing in
    let t = encode_kind-Tagged e.kind e.precert_der extra rest h.kind_fits in
    let after = t.body ++ rest in
    let input = to_be 8 e.timestamp_ms ++ (to_be 2 t.tag ++ after) in
    let shape : (encode_kind e.kind ++ opaque_bytes 2 extensions) ++ trailing
        ≡ to_be 2 t.tag ++ after =
      append_assoc (encode_kind e.kind) (opaque_bytes 2 extensions) trailing
      ∙ ap (λ k. k ++ rest) t.split
      ∙ append_assoc (to_be 2 t.tag) t.body rest in
    subst (λ x. Parses (leaf extra) (0 ∷ 0 ∷ (to_be 8 e.timestamp_ms ++ x)) e trailing) (sym shape)
      (record {
        from = λ r at.
            let (r₁, e₁, at₁) = (Parses-u8 0 (0 ∷ input)).from r at in
            let (r₂, e₂, at₂) = (Parses-u8 0 input).from r₁ at₁ in
            let (r₃, e₃, at₃) =
              (Parses-u64 e.timestamp_ms (to_be 2 t.tag ++ after) h.timestamp_fits).from r₂ at₂ in
            let (r₄, e₄, at₄) = (Parses-u16 t.tag after t.tag_fits).from r₃ at₃ in
            let (r₅, e₅, at₅) = t.parses.from r₄ at₄ in
            let (r₆, e₆, at₆) =
              (Parses-var_bytes 2 extensions trailing h.extensions_fit
                  (omega (arith, h.extensions_fit))).from
                r₅ at₅ in
            (r₆, rw (e₁, e₂, e₃, e₄, e₅, e₆, leaf, leaf_body, ◌>>=◌), at₆);
      })

-- A leaf that the format encodes, whatever bytes follow it, decodes to the entry that was encoded,
-- if the timestamp is below 2 ^ 64, the extensions are shorter than 2 ^ 16, the certificate bytes
-- are shorter than 2 ^ 24, the issuer key hash has 32 bytes, and `extra_data` begins with the
-- precertificate of a precertificate entry.
pub decode_leaf-encode_leaf :
    (e : DecodedEntry) (extensions extra trailing : List ℕ)
    → Fits e extensions extra
    → decode_leaf (encode_leaf e extensions ++ trailing) extra ≡ ok e
unfolding decode_leaf
decode_leaf-encode_leaf e extensions extra trailing h =
    let input = encode_leaf e extensions ++ trailing in
    let (r', eq, _) =
      (leaf-encode_leaf e extensions extra trailing h).from (new input) (At-new input) in
    rw (eq, decode_leaf)
