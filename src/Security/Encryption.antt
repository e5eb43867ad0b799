-- ===== src/Security/Encryption.antt =====
-- The encryption and the random texts of app/core/security.py.
use super_wallet.Base.{String, Option}
use super_wallet.Security.{Platform}

unfoldable pub encrypt_value : Platform → String → String
encrypt_value p raw = p.fernet_encrypt raw

-- `none` at a text that another key encrypted.
unfoldable pub decrypt_value : Platform → String → Option String
decrypt_value p encrypted = p.fernet_decrypt encrypted

unfoldable pub generate_secure_random_string : Platform → String
generate_secure_random_string p = p.token_urlsafe
