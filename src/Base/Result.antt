-- ===== src/Base/Result.antt =====
-- `anyhow::Result`: the errors that the program tells apart by their message.
use Prim.Native.Nat.{ℕ}
use mathlib.Core.Path.{◌≡◌, refl}
use mathlib.Core.Logic.{◌⊎◌, inl, inr}

pub data Error : Type 0 where
  short_read short_var_bytes : Error
  unsupported_version unsupported_leaf_type unknown_entry_type : ℕ → Error
  end_before_start : Error
  empty_get_entries : ℕ → Error
  http_error : Error
  json_error : Error
  base64_error : Error
  hex_error : Error
  database_error : Error
  writer_closed : Error
  x509_error : Error
  io_error yaml_error : Error
  parse_int_error parse_error config_error : Error
  not_before_out_of_range not_after_out_of_range : Error

pub data Result {ℓ} (T : Type ℓ) : Type ℓ where
  err : Error → Result T
  ok : T → Result T

pub Result-cases {ℓ} :
    {T : Type ℓ} (r : Result T) → ((t : T) × (r ≡ ok t)) ⊎ ((e : Error) × (r ≡ err e))
Result-cases (ok t) = inl (t, refl)
Result-cases (err e) = inr (e, refl)

-- The operator `?`.
infixl 5 ◌>>=◌
abbrev pub ◌>>=◌ {ℓ κ} : {T : Type ℓ} {U : Type κ} → Result T → (T → Result U) → Result U
err e >>= k = err e
ok t >>= k = k t

-- A chain that succeeds has a first part that succeeds.
pub >>=-eq-ok {ℓ κ} :
    {T : Type ℓ} {U : Type κ} (r : Result T) (k : T → Result U) {u : U}
    → (r >>= k) ≡ ok u
    → (t : T) × (r ≡ ok t) × (k t ≡ ok u)
>>=-eq-ok (err e) k h = cc
>>=-eq-ok (ok t) k h = (t, refl, h)
