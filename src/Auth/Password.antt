-- ===== src/Auth/Password.antt =====
-- Passwords in src/auth.ts. The key derivation (scrypt, 64 bytes in base64) is the parameter `derive`;
-- a stored hash, which validation holds to 64 bytes, is compared in its base64 form.
use birdbox.Prelude.{
  ℕ, ◌*◌, String, Bool, true, false, not, ◌&&◌, ◌||◌, Option, none, some, [], str_eq, ltb, ◌==◌,
  if◌then◌else◌, or_else, length,
}
use birdbox.Prelude.Text.{Text, same_text}
use birdbox.Auth.State.{
  ScryptParameters, PasswordRecord, AuthError, password_invalid, password_mismatch,
  password_min_length, password_max_length,
}
use Prim.Native.Nat.{bit_and, pred}

-- The password to set, or the error that is thrown.
pub data Checked : Type 0 where
  fine : Text → Checked
  bad : AuthError → Checked

unfoldable pub normalize_password : Option Text → Option Text → Checked
normalize_password value confirmation =
    let password = or_else value [] in
    if ltb (length password) password_min_length || ltb password_max_length (length password)
    then bad password_invalid
    else elim confirmation [
      | none ↦ bad password_mismatch
      | some other ↦ if same_text password other then fine password else bad password_mismatch
    ]

abbrev pub scrypt_options : ScryptParameters
scrypt_options = record { n = 16384; r = 8; p = 1; maxmem = 64 * 1024 * 1024 }

unfoldable pub is_power_of_two : ℕ → Bool
is_power_of_two n = ltb 0 n && bit_and n (pred n) == 0

-- `none` is the exception. Above the largest bound a number is refused before it could be unsafe.
unfoldable pub normalize_scrypt_options : ScryptParameters → Option ScryptParameters
normalize_scrypt_options o =
    if not (is_power_of_two o.n)
      || ltb o.n 16384
      || ltb 1048576 o.n
      || ltb o.r 1
      || ltb 32 o.r
      || ltb o.p 1
      || ltb 16 o.p
      || ltb o.maxmem (32 * 1024 * 1024)
      || ltb (512 * 1024 * 1024) o.maxmem
    then none
    else some o

abbrev same_params : ScryptParameters → ScryptParameters → Bool
same_params a b = a.n == b.n && (a.r == b.r && (a.p == b.p && a.maxmem == b.maxmem))

-- `none` is the exception.
unfoldable pub password_record_is_current : PasswordRecord → Option Bool
password_record_is_current record_ =
    elim (normalize_scrypt_options (or_else record_.params scrypt_options)) [
      | none ↦ none
      | some o ↦ some (same_params o scrypt_options)
    ]

abbrev pub same_optional_params : Option ScryptParameters → Option ScryptParameters → Bool
same_optional_params none none = true
same_optional_params (some a) (some b) = same_params a b
same_optional_params _ _ = false

-- `isDeepStrictEqual` of two password records.
unfoldable pub same_password : PasswordRecord → PasswordRecord → Bool
same_password a b =
    str_eq a.salt b.salt && (str_eq a.hash b.hash && same_optional_params a.params b.params)

module _ (derive : Text → String → ScryptParameters → String) where
  unfoldable pub make_password_record : Text → String → PasswordRecord
  make_password_record password salt = record {
    salt = salt;
    hash = derive password salt scrypt_options;
    params = some scrypt_options;
  }

  -- An exception of `normalizeScryptOptions` is caught; an empty hash never verifies.
  unfoldable pub verify_password : Text → Option PasswordRecord → Bool
  verify_password password none = false
  verify_password password (some r) =
      elim (normalize_scrypt_options (or_else r.params scrypt_options)) [
        | none ↦ false
        | some o ↦ not (str_eq r.hash "") && str_eq r.hash (derive password r.salt o)
      ]
