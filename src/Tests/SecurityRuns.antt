-- ===== src/Tests/SecurityRuns.antt =====
-- Runs of the operations of src/Security.cpp.
use barren_engine.Common.{
  ◌≡◌, ◌≢◌, ◌↔◌, refl, true, false, none, some, [], ◌++◌, Bytes, take, drop, replicate, arith,
  reached, null_pointer, deadlock,
}
use barren_engine.Crypto.Modes.{gcm}
use barren_engine.Crypto.Hash.{hash, sign}
use barren_engine.Security.Types.{
  SecurityLevel, standard, Certificate, SecurityConfig, SecurityManager, read,
}
use barren_engine.Security.Operations.{
  initialize, is_ip_allowed, sign_packet, verify_packet_signature, update_certificate,
  validate_certificate,
}
use barren_engine.Security.Signing.{sign_packet-initialize, sign_packet-null}

abbrev config_of : SecurityLevel → SecurityConfig
config_of level = record {
  level = level;
  encryption_mode = gcm;
  certificate_path = [];
  enable_anti_cheat = true;
  enable_packet_signing = true;
  enable_certificate_pinning = false;
  trusted_certificates = [];
}

abbrev manager : SecurityManager
manager = record {
  config = config_of SecurityLevel.none;
  current_certificate = none;
  initialized = false;
  encryption_key = replicate 32 7;
  current_iv = replicate 12 9;
}

abbrev file : Bytes
file = replicate 32 1 ++ replicate 32 2

standard_protects : standard ≢ SecurityLevel.none
standard_protects e = absurd (ground arith)

sign_packet-initialize_example :
    (n : SecurityManager) × (initialize (some file) 5 (config_of standard) manager ≡ read (n, true))
    × (((ip : Bytes) → is_ip_allowed ip n ≡ false)
        × ((bytes signature : Bytes)
            → (sign_packet bytes n ≡ reached (sign (hash bytes) (take 32 (drop 32 file))))
              × ((verify_packet_signature bytes signature n ≡ reached true)
                  ↔ (signature ≡ sign (hash bytes) (take 32 file)))))
sign_packet-initialize_example =
    sign_packet-initialize file 5 (config_of standard) manager standard_protects refl (omega arith)

sign_packet-null_example :
    (n : SecurityManager) × (initialize none 5 (config_of SecurityLevel.none) manager
      ≡ read (n, true))
    × (((ip : Bytes) → is_ip_allowed ip n ≡ false)
        × ((bytes signature : Bytes)
            → (sign_packet bytes n ≡ null_pointer)
              × (verify_packet_signature bytes signature n ≡ null_pointer)))
sign_packet-null_example =
    sign_packet-null none 5 (config_of SecurityLevel.none) manager refl refl refl

abbrev certificate : Certificate
certificate = record {
  public_key = replicate 32 1;
  private_key = replicate 32 1;
  expiration_date = 10;
  issuer = [];
  subject = [];
  allowed_ips = [];
}

update_certificate_run : update_certificate 5 certificate manager ≡ deadlock
unfolding update_certificate validate_certificate
update_certificate_run = refl
