-- ===== src/Parse/San.antt =====
-- src/parse/san.rs: the DNS names of a certificate, normalised. The laws are in the children.
pub mod Laws
use ctwatch.Base.{ℕ, Bool, Option, none, some, List, [], ◌∷◌, ◌++◌, ◌==◌, if◌then◌else◌}
use ctwatch.Base.Text.{Text, is_empty, trim, to_ascii_lowercase, strip_end, set_insert}
use ctwatch.Base.Result.{Result, ok, err, x509_error}
use ctwatch.Parse.X509.{
  GeneralName, dns_name, other_name, Extension, subject_alternative_name, other_extension,
  Certificate, FromDer,
}

-- trim, lowercase, and `while n.ends_with('.') { n.pop(); }`
unfoldable pub clean : Text → Text
unfolding trim to_ascii_lowercase strip_end
clean n = strip_end (λ c. c == b'.') (to_ascii_lowercase (trim n))

unfoldable pub normalize_into : List Text → List Text → List Text
normalize_into set [] = set
normalize_into set (n ∷ names) =
    let m = clean n in normalize_into (if is_empty m then set else set_insert m set) names

-- The set starts empty, and is listed in its order.
unfoldable pub normalize_sans : List Text → List Text
unfolding normalize_into
normalize_sans names = normalize_into [] names

unfoldable pub dns_names : List GeneralName → List Text
dns_names [] = []
dns_names (dns_name d ∷ names) = d ∷ dns_names names
dns_names (other_name ∷ names) = dns_names names

unfoldable pub alternative_names : List Extension → List Text
unfolding dns_names
alternative_names [] = []
alternative_names (subject_alternative_name names ∷ exts) =
    dns_names names ++ alternative_names exts
alternative_names (other_extension ∷ exts) = alternative_names exts

-- `iter_common_name().next()`, where it is a string
unfoldable pub first_common_name : List (Option Text) → List Text
first_common_name [] = []
first_common_name (none ∷ names) = []
first_common_name (some s ∷ names) = s ∷ []

unfoldable pub names_of : Certificate → List Text
unfolding alternative_names first_common_name
names_of cert =
    let out = alternative_names cert.extensions in
    if is_empty out then first_common_name cert.subject_common_names else out

unfoldable pub extract_sans_from_der : FromDer → List ℕ → Result (List Text)
unfolding names_of
extract_sans_from_der from_der der = elim (from_der der) [
  | none ↦ err x509_error
  | some cert ↦ ok (normalize_sans (names_of cert))
]
