-- ===== src/Ingest/Entry/Sound.antt =====
-- src/ingest/entry.rs: what a byte string that decodes looks like.
use mathlib.Core.List.{append_assoc}
use ctwatch.Base.{
  ℕ, ◌<◌, ◌^◌, ◌≡◌, ◌==◌, refl, sym, ap, subst, ◌∙◌, Bool, true, false, Bool-cases, inl, inr,
  Option, none, some, List, [], ◌∷◌, ◌++◌, arith, length, All, ==_iff,
}
use ctwatch.Base.Result.{Error, Result, ok, err}
use ctwatch.Ingest.Entry.{
  EntryKind, precert, final_cert, DecodedEntry, x509_entry, chain_head, precert_entry, signed_entry,
  leaf_body, leaf, decode_leaf,
}
use ctwatch.Ingest.Entry.Reader.{
  Reader, check, pure, lift, new, u8, u16, u64, read_exact, var_bytes,
}
use ctwatch.Ingest.Entry.Bytes.{to_be, IsByte}
use ctwatch.Ingest.Entry.Encode.{opaque_bytes, encode_kind, encode_leaf, KindFits, Fits}
use ctwatch.Ingest.Entry.Parses.{At, At-new}
use ctwatch.Ingest.Entry.Inverts.{Took, Took-append, bind-inverts, read_exact-inverts}
use ctwatch.Ingest.Entry.Numbers.{u8-inverts, u16-inverts, u64-inverts, var_bytes-inverts}

lift-inverts :
    {A : Type 0} (m : Result A) (r : Reader) (a : A) (r' : Reader)
    → lift m r ≡ ok (a, r')
    → (m ≡ ok a) × (r ≡ r')
lift-inverts (ok a') r a r' e = (cc, cc)
lift-inverts (err x) r a r' e = cc

check-inverts :
    (b : Bool) (x : Error) (r : Reader) (u : Unit {0}) (r' : Reader)
    → check b x r ≡ ok (u, r')
    → (b ≡ true) × (r ≡ r')
check-inverts true x r u r' e = (refl, cc)
check-inverts false x r u r' e = cc

chain_head-inverts :
    (extra der : List ℕ)
    → All IsByte extra
    → chain_head extra ≡ ok der
    → (length der < 2 ^ 24) × ((chain : List ℕ) × (extra ≡ opaque_bytes 3 der ++ chain))
unfolding chain_head
chain_head-inverts extra der bytes e =
    let (der', r', e₁, e₂) = bind-inverts (var_bytes 3 (new extra)) (λ d _. ok d) e in
    let same : der' ≡ der = cc in
    let (t, small) =
      var_bytes-inverts 3 (new extra) extra (At-new extra) bytes der' r' (omega arith) e₁ in
    rw (← same) (small, (t.rest, t.input))

-- A body that was read after the tag `n`.
record Body (extra inp : List ℕ) (n : ℕ) (k : EntryKind) (o : Option (List ℕ)) (r' : Reader)
    : Type 0 where
  used : List ℕ
  took : Took inp used r'
  encoded : encode_kind k ≡ to_be 2 n ++ used
  fits : KindFits k o extra

module _ (extra : List ℕ) (extra_bytes : All IsByte extra) where
  module _ (r : Reader) (inp : List ℕ) (at : At r inp) (bytes : All IsByte inp) where
    x509_entry-Body :
        (b : EntryKind × Option (List ℕ)) (r' : Reader)
        → x509_entry r ≡ ok (b, r')
        → Body extra inp 0 b.0 b.1 r'
    unfolding x509_entry encode_kind
    x509_entry-Body b r' e =
        let (der, r₁, e₁, e₂) =
          bind-inverts (var_bytes 3 r) (λ der. pure (final_cert der, none)) e in
        let (t, small) = var_bytes-inverts 3 r inp at bytes der r₁ (omega arith) e₁ in
        let body : b ≡ (final_cert der, none) = cc in
        let moved : r' ≡ r₁ = cc in
        rw (body, moved)
          (record { used = opaque_bytes 3 der; took = t; encoded = refl; fits = small })

    precert_entry-Body :
        (b : EntryKind × Option (List ℕ)) (r' : Reader)
        → precert_entry extra r ≡ ok (b, r')
        → Body extra inp 1 b.0 b.1 r'
    unfolding precert_entry encode_kind
    precert_entry-Body b r' e =
        let (ikh, r₁, e₁, f₁) = bind-inverts (read_exact 32 r) _ e in
        let (l, t₁) = read_exact-inverts r inp at bytes 32 ikh r₁ e₁ in
        let (tbs, r₂, e₂, f₂) = bind-inverts (var_bytes 3 r₁) _ f₁ in
        let (t₂, small) =
          var_bytes-inverts 3 r₁ t₁.rest t₁.at t₁.rest_bytes tbs r₂ (omega arith) e₂ in
        let (der, r₃, e₃, f₃) = bind-inverts (lift (chain_head extra) r₂) _ f₂ in
        let (head, moved) = lift-inverts (chain_head extra) r₂ der r₃ e₃ in
        let (fits, chain) = chain_head-inverts extra der extra_bytes head in
        let body : b ≡ (precert ikh tbs, some der) = cc in
        let moved' : r' ≡ r₂ = cc in
        rw (body, moved')
          (record {
            used = ikh ++ opaque_bytes 3 tbs;
            took = Took-append t₁ t₂;
            encoded = refl;
            fits = (l, small, fits, chain);
          })

    signed_entry-Body :
        (n : ℕ) (b : EntryKind × Option (List ℕ)) (r' : Reader)
        → signed_entry extra n r ≡ ok (b, r')
        → Body extra inp n b.0 b.1 r'
    unfolding signed_entry
    signed_entry-Body n b r' e = elim (Bool-cases (n == 0)) [
      | inl zero_tag ↦
          let same : n ≡ 0 = (==_iff n 0).0 zero_tag in
          rw same (x509_entry-Body b r' (rw zero_tag at e))
      | inr other ↦ elim (Bool-cases (n == 1)) [
        | inl one_tag ↦
            let same : n ≡ 1 = (==_iff n 1).0 one_tag in
            rw same (precert_entry-Body b r' (rw (other, one_tag) at e))
        | inr unknown ↦ absurd (cc (rw (other, unknown) at e))
      ]
    ]

-- From the tag on: what was read after it, and that it is the encoding of what was returned.
record Tail (extra input : List ℕ) (timestamp : ℕ) (e : DecodedEntry) : Type 0 where
  extensions : List ℕ
  trailing : List ℕ
  encoded : input ≡ encode_kind e.kind ++ (opaque_bytes 2 extensions ++ trailing)
  extensions_fit : length extensions < 2 ^ 16
  timestamp_is : e.timestamp_ms ≡ timestamp
  kind_fits : KindFits e.kind e.precert_der extra

leaf_body-Tail :
    (extra : List ℕ)
    → All IsByte extra
    → (r : Reader) (inp : List ℕ) → At r inp
    → All IsByte inp
    → (timestamp tag : ℕ) (e : DecodedEntry) (r' : Reader)
    → leaf_body extra timestamp tag r ≡ ok (e, r')
    → Tail extra (to_be 2 tag ++ inp) timestamp e
unfolding leaf_body
leaf_body-Tail extra extra_bytes r inp at bytes timestamp tag e r' h =
    let (body, r₁, e₁, f₁) = bind-inverts (signed_entry extra tag r) _ h in
    let t₁ = signed_entry-Body extra extra_bytes r inp at bytes tag body r₁ e₁ in
    let (extensions, r₂, e₂, f₂) = bind-inverts (var_bytes 2 r₁) _ f₁ in
    let (t₂, small) =
      var_bytes-inverts 2 r₁ t₁.took.rest t₁.took.at t₁.took.rest_bytes extensions r₂ (omega arith)
        e₂ in
    let result : DecodedEntry = record {
      timestamp_ms = timestamp;
      kind = body.0;
      precert_der = body.1;
    } in
    let built : result ≡ e = cc in
    subst (Tail extra (to_be 2 tag ++ inp) timestamp) built (record {
      extensions = extensions;
      trailing = t₂.rest;
      encoded =
          ap (λ x. to_be 2 tag ++ x) (t₁.took.input ∙ ap (λ x. t₁.used ++ x) t₂.input)
          ∙ sym (append_assoc (to_be 2 tag) t₁.used (opaque_bytes 2 extensions ++ t₂.rest))
          ∙ ap (λ x. x ++ (opaque_bytes 2 extensions ++ t₂.rest)) (sym t₁.encoded);
      extensions_fit = small;
      timestamp_is = refl;
      kind_fits = t₁.fits;
    })

-- A leaf that decodes is an encoding.
record Leaf (extra leaf_input : List ℕ) (e : DecodedEntry) : Type 0 where
  extensions : List ℕ
  trailing : List ℕ
  encoded : leaf_input ≡ encode_leaf e extensions ++ trailing
  fits : Fits e extensions extra

header_encoded :
    (version leaf_type timestamp tag : ℕ) {leaf_input : List ℕ} (x₁ x₂ x₃ x₄ : List ℕ)
    (e : DecodedEntry) (extensions trailing : List ℕ)
    → version ≡ 0
    → leaf_type ≡ 0
    → e.timestamp_ms ≡ timestamp
    → leaf_input ≡ (version ∷ []) ++ x₁
    → x₁ ≡ (leaf_type ∷ []) ++ x₂
    → x₂ ≡ to_be 8 timestamp ++ x₃
    → x₃ ≡ to_be 2 tag ++ x₄
    → to_be 2 tag ++ x₄ ≡ encode_kind e.kind ++ (opaque_bytes 2 extensions ++ trailing)
    → leaf_input ≡ encode_leaf e extensions ++ trailing
unfolding encode_leaf
header_encoded version leaf_type timestamp tag x₁ x₂ x₃ x₄ e extensions trailing v l t i₁ i₂ i₃ i₄
      i₅ =
    let tail : (encode_kind e.kind ++ opaque_bytes 2 extensions) ++ trailing ≡ x₃ =
      append_assoc (encode_kind e.kind) (opaque_bytes 2 extensions) trailing ∙ sym i₅ ∙ sym i₄ in
    let body = (encode_kind e.kind ++ opaque_bytes 2 extensions) ++ trailing in
    i₁
    ∙ ap (λ y. version ∷ y) i₂
    ∙ ap (λ y. version ∷ leaf_type ∷ y) i₃
    ∙ ap (λ y. version ∷ leaf_type ∷ (to_be 8 timestamp ++ y)) (sym tail)
    ∙ ap (λ y. y ∷ leaf_type ∷ (to_be 8 timestamp ++ body)) v
    ∙ ap (λ y. 0 ∷ y ∷ (to_be 8 timestamp ++ body)) l
    ∙ ap (λ y. 0 ∷ 0 ∷ (to_be 8 y ++ body)) (sym t)

leaf-Leaf :
    (extra leaf_input : List ℕ) (e : DecodedEntry) (r' : Reader)
    → All IsByte extra
    → All IsByte leaf_input
    → leaf extra (new leaf_input) ≡ ok (e, r')
    → Leaf extra leaf_input e
unfolding leaf encode_leaf
leaf-Leaf extra leaf_input e r' extra_bytes bytes h =
    let r = new leaf_input in
    let (version, r₁, e₁, f₁) = bind-inverts (u8 r) _ h in
    let t₁ = u8-inverts r leaf_input (At-new leaf_input) bytes version r₁ e₁ in
    let (_, r₂, e₂, f₂) = bind-inverts (check (version == 0) _ r₁) _ f₁ in
    let (is_v1, m₂) = check-inverts (version == 0) _ r₁ _ r₂ e₂ in
    let (leaf_type, r₃, e₃, f₃) = bind-inverts (u8 r₂) _ f₂ in
    let t₃ =
      u8-inverts r₂ t₁.rest (subst (λ x. At x t₁.rest) m₂ t₁.at) t₁.rest_bytes leaf_type r₃ e₃ in
    let (_, r₄, e₄, f₄) = bind-inverts (check (leaf_type == 0) _ r₃) _ f₃ in
    let (is_timestamped, m₄) = check-inverts (leaf_type == 0) _ r₃ _ r₄ e₄ in
    let (timestamp, r₅, e₅, f₅) = bind-inverts (u64 r₄) _ f₄ in
    let t₅ =
      u64-inverts r₄ t₃.rest (subst (λ x. At x t₃.rest) m₄ t₃.at) t₃.rest_bytes timestamp r₅ e₅ in
    let (tag, r₆, e₆, f₆) = bind-inverts (u16 r₅) _ f₅ in
    let t₆ = u16-inverts r₅ t₅.took.rest t₅.took.at t₅.took.rest_bytes tag r₆ e₆ in
    let tail =
      leaf_body-Tail extra extra_bytes r₆ t₆.took.rest t₆.took.at t₆.took.rest_bytes timestamp tag e
        r' f₆ in
    record {
      extensions = tail.extensions;
      trailing = tail.trailing;
      encoded =
          header_encoded version leaf_type timestamp tag t₁.rest t₃.rest t₅.took.rest t₆.took.rest e
            tail.extensions tail.trailing ((==_iff version 0).0 is_v1)
            ((==_iff leaf_type 0).0 is_timestamped) tail.timestamp_is t₁.input t₃.input
            t₅.took.input t₆.took.input tail.encoded;
      fits = record {
        timestamp_fits = subst (λ k. k < 2 ^ 64) (sym tail.timestamp_is) t₅.fits;
        extensions_fit = tail.extensions_fit;
        kind_fits = tail.kind_fits;
      };
    }

-- Whatever decodes, from byte strings, begins with an encoding of the result, with some extensions: the
-- lengths fit their prefixes, and `extra_data` begins with the precertificate of a precertificate entry.
-- More is not checked: a certificate may be empty, which RFC 6962 forbids, any bytes may follow in the
-- leaf, and the chain behind the precertificate is not looked at.
pub decode_leaf_sound :
    (leaf_input extra : List ℕ) (e : DecodedEntry)
    → All IsByte leaf_input
    → All IsByte extra
    → decode_leaf leaf_input extra ≡ ok e
    → (extensions trailing : List ℕ) × (leaf_input ≡ encode_leaf e extensions ++ trailing)
      × Fits e extensions extra
unfolding decode_leaf
decode_leaf_sound leaf_input extra e bytes extra_bytes h =
    let (e', r', e₁, e₂) = bind-inverts (leaf extra (new leaf_input)) (λ x _. ok x) h in
    let same : e' ≡ e = cc in
    let l = leaf-Leaf extra leaf_input e' r' extra_bytes bytes e₁ in
    subst
      (λ x.
        (extensions trailing : List ℕ) × (leaf_input ≡ encode_leaf x extensions ++ trailing)
        × Fits x extensions extra)
      same (l.extensions, l.trailing, l.encoded, l.fits)
