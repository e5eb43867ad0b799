-- ===== src/Security/BackupCodes.antt =====
-- The backup codes of a user.
use super_wallet.Base.{
  ◌≡◌, ◌≢◌, ap, ◌∙◌, arith, ℕ, zero, suc, ◌+◌, ◌<◌, ◌≤◌, ◌==◌, ==_iff, String, str_eq, eq_iff,
  false, some, inl, inr, Bool-cases, if◌then◌else◌, map,
}
use super_wallet.Db.{Db, ok}
use super_wallet.Security.{Platform, matches, mismatch}
use super_wallet.Security.Users.{
  backup_codes_from, generate_backup_codes, hash_backup_codes, verify_backup_code,
}

text_ne : (a b : String) → a ≢ b → str_eq a b ≡ false
text_ne a b apart = elim (Bool-cases (str_eq a b)) [
  | inl same ↦ absurd (apart ((eq_iff a b).0 same))
  | inr differs ↦ differs
]

before_of_test : (i k : ℕ) → i ≤ k → (i == k) ≡ false → i < k
before_of_test i k low e = ground arith

module _ (p : Platform)
    (argon2 : (s t : String)
      → p.argon2_verify (p.argon2_hash s) t ≡ (if str_eq s t then matches else mismatch)) where
  verify_from :
      (count i k : ℕ) (db : Db)
      → i ≤ k
      → k < i + count
      → ((j : ℕ) → j < k → p.token_hex j ≢ p.token_hex k)
      → verify_backup_code p (p.token_hex k) i (map p.argon2_hash (backup_codes_from p i count)) db
        ≡ (ok (some k), db)
  unfolding verify_backup_code
  verify_from zero i k db low high apart = absurd (omega (arith, low, high))
  verify_from (suc count) i k db low high apart = elim (Bool-cases (i == k)) [
    | inl e ↦
        let same : i ≡ k = (==_iff i k).0 e in
        let test : p.argon2_verify (p.argon2_hash (p.token_hex i)) (p.token_hex k) ≡ matches =
          argon2 (p.token_hex i) (p.token_hex k)
          ∙ ap (λ b. if b then matches else mismatch)
              ((eq_iff (p.token_hex i) (p.token_hex k)).1 (ap p.token_hex same)) in
        rw test (ap (λ j. (ok (some j), db)) same)
    | inr e ↦
        let below : i < k = before_of_test i k low e in
        let test : p.argon2_verify (p.argon2_hash (p.token_hex i)) (p.token_hex k) ≡ mismatch =
          argon2 (p.token_hex i) (p.token_hex k)
          ∙ ap (λ b. if b then matches else mismatch)
              (text_ne (p.token_hex i) (p.token_hex k) (apart i below)) in
        rw test (verify_from count (i + 1) k db (omega (arith, below)) (omega (arith, high)) apart)
  ]

  -- Each backup code that was generated is accepted, at its own place among the hashes, when no
  -- earlier draw gave the same code. Of argon2 it is assumed that a hash verifies the text that it
  -- was made of, and no other.
  pub verify_backup_code-hash_backup_codes :
      (count k : ℕ) (db : Db)
      → k < count
      → ((j : ℕ) → j < k → p.token_hex j ≢ p.token_hex k)
      → verify_backup_code p
          (p.token_hex k)
          0
          (hash_backup_codes p (generate_backup_codes p count))
          db
        ≡ (ok (some k), db)
  unfolding hash_backup_codes generate_backup_codes
  verify_backup_code-hash_backup_codes count k db inside apart =
      verify_from count 0 k db (omega arith) (omega (arith, inside)) apart
