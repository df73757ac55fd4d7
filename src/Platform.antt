-- ===== src/Platform.antt =====
-- What the SDS library calls and this repository does not implement: SHA-256 and hexadecimal
-- (@noble/hashes), UTF-8 (`TextEncoder`), `String.prototype.localeCompare`, the compiled Nim hash
-- `hashN` (packages/sds/src/nim_hashn), and the generated protobuf codec's wire format.
use logos_messaging_js.Prelude.{ℕ, ◌<◌, ◌≡◌, ◌⊎◌, Bool, true, List, String}

pub record Platform : Type 0 where
  pub sha256 : List ℕ → List ℕ
  pub bytes_to_hex : List ℕ → String
  pub encode_text : String → List ℕ
  -- `a.localeCompare(b) <= 0`
  pub locale_le : String → String → Bool
  -- `hashN(item, n, maxValue)`
  pub hash_n : String → ℕ → ℕ → ℕ

-- `localeCompare` orders texts: any two are comparable, and the order is transitive.
pub record IsCollation (platform : Platform) : Type 0 where
  pub total : (a b : String) → (platform.locale_le a b ≡ true) ⊎ (platform.locale_le b a ≡ true)
  pub trans :
      (a b c : String)
      → platform.locale_le a b ≡ true
      → platform.locale_le b c ≡ true
      → platform.locale_le a c ≡ true

-- `hashN` returns a number below its maximum.
pub record IsBoundedHash (platform : Platform) : Type 0 where
  pub below :
      (item : String) (n max_value : ℕ)
      → 0 < max_value
      → platform.hash_n item n max_value < max_value
