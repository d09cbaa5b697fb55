-- ===== src/Security/Operations.antt =====
-- The operations of `SecurityManager` in src/Security.cpp. The contents of the certificate file, `none` where it does not
-- open, the random bytes and the leftover memory of the cipher are arguments; `now` is a reading of the system clock.
use barren_engine.Common.{
  ℕ, ◌+◌, ◌*◌, ◌^◌, Bool, true, false, not, ◌||◌, Option, none, some, [], Bytes, length, take, drop,
  ltb, leb, ◌==◌, if◌then◌else◌, contains, bytes_key, Result, ok, catch, ◌>>=◌, Outcome, returns,
  lock_guard, outcome_map, Access, reached, through,
}
use barren_engine.Crypto.Modes.{Leftover, key_size_256}
use barren_engine.Crypto.Modes
use barren_engine.Crypto.Hash.{hash, sign, verify}
use barren_engine.Security.Types.{
  SecurityLevel, standard, level_code, Certificate, SecurityConfig, SecurityManager, Reading, read,
  past_end,
}

unfoldable pub generate_key : (ℕ → ℕ) → Result Bytes
generate_key random = Modes.generate_key random key_size_256

unfoldable pub generate_iv : (ℕ → ℕ) → Bytes
generate_iv random = Modes.generate_iv random

-- The constructor; `memory` is what the configuration, which it does not write, holds.
unfoldable pub new_manager : (ℕ → ℕ) → (ℕ → ℕ) → SecurityConfig → Result SecurityManager
unfolding generate_key generate_iv
new_manager random_key random_iv memory = generate_key random_key >>= (λ key. ok (record {
  config = memory;
  current_certificate = none;
  initialized = false;
  encryption_key = key;
  current_iv = generate_iv random_iv;
}))

-- A year of 365 days.
abbrev pub validity : ℕ
validity = 24 * 365 * 3600 * 10 ^ 9

unfoldable pub parse_certificate : Bytes → ℕ → Reading Certificate
parse_certificate file now =
    if ltb (length file) 64
    then past_end
    else read (record {
      public_key = take 32 file;
      private_key = take 32 (drop 32 file);
      expiration_date = now + validity;
      issuer = [];
      subject = [];
      allowed_ips = [];
    })

unfoldable pub load_certificate :
    Option Bytes → ℕ → SecurityManager → Reading (SecurityManager × Bool)
unfolding parse_certificate
load_certificate none now m = read (m, false)
load_certificate (some file) now m = elim (parse_certificate file now) [
  | read certificate ↦ read (record m { current_certificate = some certificate }, true)
  | past_end ↦ past_end
]

unfoldable pub initialize_anti_cheat : SecurityManager → SecurityManager
initialize_anti_cheat m = m

-- The end of `initialize`, once the certificate is loaded.
abbrev pub finish_initialize : SecurityConfig → SecurityManager × Bool → SecurityManager × Bool
finish_initialize config (m, loaded) = if not loaded then (m, false) else (
  record (if config.enable_anti_cheat then initialize_anti_cheat m else m) { initialized = true },
  true,
)

unfoldable pub initialize :
    Option Bytes → ℕ → SecurityConfig → SecurityManager → Reading (SecurityManager × Bool)
unfolding load_certificate initialize_anti_cheat
initialize file now config m =
    let configured = record m { config = config } in
    if level_code config.level == 0
    then read (record configured { initialized = true }, true)
    else elim (load_certificate file now configured) [
      | read r ↦ read (finish_initialize config r)
      | past_end ↦ past_end
    ]

unfoldable pub check_certificate_expiration : ℕ → Certificate → Bool
check_certificate_expiration now certificate = ltb now certificate.expiration_date

unfoldable pub verify_certificate_signature : Certificate → Bool
verify_certificate_signature certificate =
    verify (hash certificate.public_key) certificate.private_key certificate.public_key

unfoldable pub validate_certificate_chain : Certificate → Bool
validate_certificate_chain certificate =
    verify (hash certificate.public_key) certificate.private_key certificate.public_key

-- The flag says that `securityMutex_` is held.
unfoldable pub validate_certificate : Bool → ℕ → Certificate → SecurityManager → Outcome Bool
unfolding check_certificate_expiration verify_certificate_signature validate_certificate_chain
validate_certificate held now certificate m = lock_guard held (λ _. returns (
    if not m.initialized
    then false
    else if not (check_certificate_expiration now certificate)
    then false
    else if not (verify_certificate_signature certificate)
    then false
    else if leb (level_code standard) (level_code m.config.level)
    then (if not (validate_certificate_chain certificate) then false else true)
    else true))

unfoldable pub update_certificate : ℕ → Certificate → SecurityManager → Outcome SecurityManager
unfolding validate_certificate
update_certificate now certificate m = lock_guard false (λ held.
    outcome_map (λ valid. if valid then record m { current_certificate = some certificate } else m)
      (validate_certificate held now certificate m))

unfoldable pub verify_packet_signature : Bytes → Bytes → SecurityManager → Access Bool
verify_packet_signature bytes signature m =
    if not m.initialized || not m.config.enable_packet_signing
    then reached false
    else through m.current_certificate
        (λ certificate. reached (verify (hash bytes) signature certificate.public_key))

unfoldable pub sign_packet : Bytes → SecurityManager → Access Bytes
sign_packet bytes m =
    if not m.initialized || not m.config.enable_packet_signing
    then reached []
    else through m.current_certificate
        (λ certificate. reached (sign (hash bytes) certificate.private_key))

unfoldable pub is_ip_allowed : Bytes → SecurityManager → Bool
is_ip_allowed ip m = elim m.current_certificate [
  | none ↦ false
  | some certificate ↦ if not m.initialized then false else contains ip certificate.allowed_ips
]

unfoldable pub is_anti_cheat_enabled : SecurityManager → Bool
is_anti_cheat_enabled m = m.config.enable_anti_cheat

unfoldable pub get_security_level : SecurityManager → SecurityLevel
get_security_level m = m.config.level

unfoldable pub encrypt : Leftover → Bytes → SecurityManager → Bytes
encrypt l bytes m =
    if not m.initialized
    then []
    else catch (Modes.encrypt l bytes m.encryption_key m.current_iv m.config.encryption_mode) []

unfoldable pub decrypt : Leftover → Bytes → SecurityManager → Bytes
decrypt l bytes m =
    if not m.initialized
    then []
    else catch (Modes.decrypt l bytes m.encryption_key m.current_iv m.config.encryption_mode) []
