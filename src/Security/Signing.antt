-- ===== src/Security/Signing.antt =====
-- Certificates and signatures of src/Security.cpp.
use barren_engine.Common.{
  ℕ, ◌+◌, ◌≤◌, Bool, true, false, ◌≡◌, ◌≢◌, ◌↔◌, refl, Option, none, some, [], Bytes, length, take,
  drop, ltb, ◌==◌, arith, if◌then◌else◌, Access, reached, null_pointer, bytes_key,
}
use barren_engine.Crypto.Hash.{hash, sign, verify}
use barren_engine.Crypto.Hash.Signatures.{verify_iff}
use barren_engine.Security.Types.{
  SecurityLevel, basic, standard, high, maximum, level_code, Certificate, SecurityConfig,
  SecurityManager, read,
}
use barren_engine.Security.Operations.{
  initialize, load_certificate, parse_certificate, initialize_anti_cheat, validity, sign_packet,
  verify_packet_signature, is_ip_allowed,
}

level_code_none :
    (level : SecurityLevel) → level ≢ SecurityLevel.none → (level_code level == 0) ≡ false
level_code_none SecurityLevel.none h = absurd (h refl)
level_code_none basic h = refl
level_code_none standard h = refl
level_code_none high h = refl
level_code_none maximum h = refl

abbrev certificate_of : Bytes → ℕ → Certificate
certificate_of file now = record {
  public_key = take 32 file;
  private_key = take 32 (drop 32 file);
  expiration_date = now + validity;
  issuer = [];
  subject = [];
  allowed_ips = [];
}

abbrev protected : Bytes → ℕ → SecurityConfig → SecurityManager → SecurityManager
protected file now config m = record m {
  config = config;
  initialized = true;
  current_certificate = some (certificate_of file now);
}

same : {A : Type 0} (b : Bool) (x : A) → (if b then x else x) ≡ x
same true x = refl
same false x = refl

initialize_protected :
    (file : Bytes) (now : ℕ) (config : SecurityConfig) (m : SecurityManager)
    → config.level ≢ SecurityLevel.none
    → 64 ≤ length file
    → initialize (some file) now config m ≡ read (protected file now config m, true)
unfolding initialize load_certificate parse_certificate initialize_anti_cheat
initialize_protected file now config m h k =
    let e : ltb (length file) 64 ≡ false = ground arith in
    let loaded = record m {
      config = config;
      current_certificate = some (certificate_of file now);
    } in
    rw (initialize, level_code_none config.level h, e, same config.enable_anti_cheat loaded) refl

sign_packet_lem :
    (bytes : Bytes) (m : SecurityManager) (c : Certificate)
    → m.initialized ≡ true
    → m.config.enable_packet_signing ≡ true
    → m.current_certificate ≡ some c
    → sign_packet bytes m ≡ reached (sign (hash bytes) c.private_key)
unfolding sign_packet
sign_packet_lem bytes m c h k e = simp (sign_packet, h, k, e)

verify_packet_signature_lem :
    (bytes signature : Bytes) (m : SecurityManager) (c : Certificate)
    → m.initialized ≡ true
    → m.config.enable_packet_signing ≡ true
    → m.current_certificate ≡ some c
    → verify_packet_signature bytes signature m
      ≡ reached (verify (hash bytes) signature c.public_key)
unfolding verify_packet_signature
verify_packet_signature_lem bytes signature m c h k e = simp (verify_packet_signature, h, k, e)

reached_iff : (b : Bool) → (Access.reached b ≡ reached true) ↔ (b ≡ true)
reached_iff true = (λ e. refl, λ e. refl)
reached_iff false = (λ e. absurd (ground arith), λ e. absurd (ground arith))

-- After an initialization at a level other than `NONE`, with packet signing and a certificate file of 64 bytes or
-- more, `initialize` succeeds, no address is allowed, every packet is signed with
-- the second 32 bytes of the file, and a signature of a packet is accepted exactly if it is the one made with the first 32 bytes.
pub sign_packet-initialize :
    (file : Bytes) (now : ℕ) (config : SecurityConfig) (m : SecurityManager)
    → config.level ≢ SecurityLevel.none
    → config.enable_packet_signing ≡ true
    → 64 ≤ length file
    → (n : SecurityManager) × (initialize (some file) now config m ≡ read (n, true))
      × (((ip : Bytes) → is_ip_allowed ip n ≡ false)
          × ((bytes signature : Bytes)
              → (sign_packet bytes n ≡ reached (sign (hash bytes) (take 32 (drop 32 file))))
                × ((verify_packet_signature bytes signature n ≡ reached true)
                    ↔ (signature ≡ sign (hash bytes) (take 32 file)))))
unfolding is_ip_allowed
sign_packet-initialize file now config m h s k = (
  protected file now config m,
  initialize_protected file now config m h k,
  (
    (λ ip. refl),
    (λ bytes signature.
        let c = certificate_of file now in
        let n = protected file now config m in
        let r = reached_iff (verify (hash bytes) signature c.public_key) in
        let v = verify_iff (hash bytes) signature c.public_key in
        (
          sign_packet_lem bytes n c refl s refl,
          rw (verify_packet_signature_lem bytes signature n c refl s refl)
              ((λ e. v.0 (r.0 e)), (λ e. r.1 (v.1 e))),
        )),
  ),
)

-- After an initialization at level `NONE` with packet signing, of a manager that has no certificate, `initialize`
-- succeeds without the file, no address is allowed, and to sign a packet or to verify a signature goes through a null pointer.
pub sign_packet-null :
    (file : Option Bytes) (now : ℕ) (config : SecurityConfig) (m : SecurityManager)
    → config.level ≡ SecurityLevel.none
    → config.enable_packet_signing ≡ true
    → m.current_certificate ≡ none
    → (n : SecurityManager) × (initialize file now config m ≡ read (n, true))
      × (((ip : Bytes) → is_ip_allowed ip n ≡ false)
          × ((bytes signature : Bytes)
              → (sign_packet bytes n ≡ null_pointer)
                × (verify_packet_signature bytes signature n ≡ null_pointer)))
unfolding initialize is_ip_allowed sign_packet verify_packet_signature
sign_packet-null file now config m h s c = (
  record m { config = config; initialized = true },
  rw (initialize, h) refl,
  (
    (λ ip. simp (is_ip_allowed, c)),
    (λ bytes signature. (simp (sign_packet, s, c), simp (verify_packet_signature, s, c))),
  ),
)
