-- ===== src/Security/Types.antt =====
-- The data and the state of `SecurityManager` in Security.hpp. Times are nanoseconds of the system clock. The map of
-- trusted certificates, which no code touches, is left out.
use barren_engine.Common.{ℕ, Bool, Option, List, Bytes}
use barren_engine.Crypto.Modes.{Mode}

pub data SecurityLevel : Type 0 where
  none basic standard high maximum : SecurityLevel

-- The value of the enumerator.
abbrev pub level_code : SecurityLevel → ℕ
level_code none = 0
level_code basic = 1
level_code standard = 2
level_code high = 3
level_code maximum = 4

pub record Certificate : Type 0 where
  pub public_key : Bytes
  pub private_key : Bytes
  pub expiration_date : ℕ
  pub issuer : Bytes
  pub subject : Bytes
  pub allowed_ips : List Bytes

pub record SecurityConfig : Type 0 where
  pub level : SecurityLevel
  pub encryption_mode : Mode
  pub certificate_path : Bytes
  pub enable_anti_cheat : Bool
  pub enable_packet_signing : Bool
  pub enable_certificate_pinning : Bool
  pub trusted_certificates : List Bytes

pub record SecurityManager : Type 0 where
  pub config : SecurityConfig
  pub current_certificate : Option Certificate
  pub initialized : Bool
  pub encryption_key : Bytes
  pub current_iv : Bytes

-- What comes of a read that may go past the end of its data, which is undefined.
pub data Reading (A : Type 0) : Type 0 where
  read : A → Reading A
  past_end : Reading A
