-- ===== src/Users/Fixture.antt =====
-- A platform, tables and an SMTP server for runs of the user services and of the worker.
use super_wallet.Base.{
  not, ◌==◌, str_eq, if◌then◌else◌, ◌+◌, String, true, false, none, some, [], ◌∷◌,
}
use super_wallet.Db.{Db, UserRow, SessionRow, VerificationTokenRow, OutboxEventRow, Json, num}
use super_wallet.Base.Int.{pos}
use super_wallet.Security.{Platform, Verification, matches, mismatch}
use super_wallet.Users.AuthService.{Client}
use super_wallet.Worker.{Pass}

abbrev password_of : String → String → Verification
password_of hashed plain = if str_eq hashed plain then matches else mismatch

abbrev pub payload : Json
payload = ("sub", num (pos 7)) ∷ []

abbrev body : Json
body = ("sub", num (pos 7)) ∷ ("exp", num (pos 61)) ∷ []

-- Hashing and encoding leave a text as it is here.
abbrev pub platform : Platform
platform = record {
  server = record {
    now = 100;
    gen_random_uuid = λ n. n + 1000;
    reads_inet = λ address. not (str_eq address "unknown");
  };
  utc_now = 1000000;
  argon2_hash = λ s. s;
  argon2_verify = password_of;
  argon2_check_needs_rehash = λ _. false;
  split_dots = λ _. "body" ∷ "signature" ∷ [];
  json_dumps = λ _. "body";
  json_loads = λ _. some body;
  urlsafe_b64encode = λ s. s;
  urlsafe_b64decode = λ s. some s;
  hmac_sha256 = λ _ _. "signature";
  sha256_hexdigest = λ s. s;
  token_urlsafe = "fresh";
  token_hex = λ i. if i == 0 then "a1" else (if i == 1 then "b2" else "c3");
  random_base32 = "BASE";
  fernet_encrypt = λ s. s;
  fernet_decrypt = λ s. some s;
  totp_verify = λ _ _. true;
  provisioning_uri = λ s _ _. s;
  uuid_of = λ _. some 7;
  signing_key = "key";
}

abbrev pub client : Client
client = record { ip_address = "10.0.0.1"; user_agent = none }

abbrev pub alice : UserRow
alice = record {
  id = 7;
  username = "alice";
  email = "alice@example.org";
  hashed_password = "secret";
  failed_login_count = 0;
  locked_until = none;
  totp_enabled = false;
  totp_secret_encrypted = none;
  email_verified = true;
  is_active = true;
  deleted_at = none;
  created_at = 1;
}

abbrev pub session : SessionRow
session = record {
  id = 50;
  user_id = 7;
  refresh_token_hash = "token";
  device_info = none;
  ip_address = none;
  created_at = 2;
  expires_at = 9000000;
  revoked_at = none;
  revoked_reason = none;
  replaced_by_session_id = none;
}

abbrev reset_token : VerificationTokenRow
reset_token = record {
  id = 60;
  user_id = 7;
  token_hash = "reset";
  type = "password_reset";
  ip_address = none;
  expires_at = 500;
  used_at = none;
  created_at = 3;
}

abbrev pub password_changed : OutboxEventRow
password_changed = record {
  id = 70;
  event_type = "user.password_changed";
  payload = [];
  status = "pending";
  attempts = 0;
  last_error = none;
  created_at = 4;
  processed_at = none;
}

abbrev pub tables : Db
tables = record {
  wallets = [];
  transactions = [];
  ledger_entries = [];
  audit_logs = [];
  users = alice ∷ [];
  sessions = session ∷ [];
  verification_tokens = reset_token ∷ [];
  outbox_events = password_changed ∷ [];
}

-- The SMTP server refuses every email.
abbrev pub pass : Pass
pass = record { now = 100; str = λ _. ""; send_raw_email = λ _ _. some "refused" }
