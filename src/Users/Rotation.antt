-- ===== src/Users/Rotation.antt =====
-- The rotation of a session, as the table of sessions shows it.
use super_wallet.Base.{
  ◌≡◌, ◌≢◌, refl, sym, subst, ◌∙◌, ◌==◌, ==_iff, ne_false, arith, Bool-cases, inl, inr, String,
  str_eq, true, false, Option, some, List, [], ◌∷◌, ◌++◌,
}
use mathlib.Core.Bool.{false≢true}
use super_wallet.Base.Table.{
  find_row, has_row, update_rows, find_row-append, find_row-append_old, find_row-append_miss,
  find_row-update_rows, find_row-update_rows_apart, find_row-holds, find_row-none_of_has,
  has_row-find_row,
}
use super_wallet.Db.{Db, Server, Uuid, Timestamp, SessionRow, ok}
use super_wallet.Db.Post.{Post, Post-result}
use super_wallet.Users.SessionRepository.{create, rotate, has_id, new_session}

abbrev pub rotated : Timestamp → Uuid → SessionRow → SessionRow
rotated now new_id s = record s {
  revoked_at = some now;
  revoked_reason = some "rotated";
  replaced_by_session_id = some new_id;
}

module _ (server : Server) (id old_session_id user_id : Uuid) (token_hash : String)
    (device_info : Option String) (ip_address : String) (expires_at : Timestamp) where
  abbrev pub next_session : SessionRow
  next_session = new_session server.now id user_id token_hash device_info ip_address expires_at

  abbrev Writes : Db → Uuid → Db → Type 0
  Writes db r db' =
      (r ≡ id)
      × (has_row (has_id id) db.sessions ≡ false)
      × (has_row (λ s. str_eq s.refresh_token_hash token_hash) db.sessions ≡ false)
      × (db'.sessions
          ≡ update_rows (has_id old_session_id) (rotated server.now id)
              (db.sessions ++ next_session ∷ []))

  rotate-Post :
      (db : Db)
      → Post
          (Writes db)
          (rotate server id old_session_id user_id token_hash device_info ip_address expires_at db)
  unfolding rotate create
  rotate-Post db = ground arith

  new_apart :
      (xs : List SessionRow) (s : SessionRow)
      → find_row (has_id old_session_id) xs ≡ some s
      → has_row (has_id id) xs ≡ false
      → (id == old_session_id) ≡ false
  new_apart xs s found fresh = elim (Bool-cases (id == old_session_id)) [
    | inr apart ↦ apart
    | inl same ↦ absurd (
        false≢true (
          sym fresh
          ∙ subst (λ k. has_row (has_id k) xs ≡ true) (sym ((==_iff id old_session_id).0 same))
              (has_row-find_row (has_id old_session_id) xs s found)))
  ]

  -- A rotation that returns found the token new. The old session is revoked as rotated and names the
  -- new one, the new one is there and live, and every other session is as it was.
  pub rotate_lem :
      (s : SessionRow) (other r : Uuid) (db db' : Db)
      → find_row (has_id old_session_id) db.sessions ≡ some s
      → other ≢ old_session_id
      → other ≢ id
      → rotate server id old_session_id user_id token_hash device_info ip_address expires_at db
        ≡ (ok r, db')
      → (has_row (λ x. str_eq x.refresh_token_hash token_hash) db.sessions ≡ false)
        × (find_row (has_id old_session_id) db'.sessions ≡ some (rotated server.now id s))
        × (find_row (has_id r) db'.sessions ≡ some next_session)
        × (find_row (has_id other) db'.sessions ≡ find_row (has_id other) db.sessions)
  rotate_lem s other r db db' found not_old not_new h =
      let (is_id, fresh, free, at) = Post-result (Writes db) _ h (rotate-Post db) in
      let rows = db.sessions ++ next_session ∷ [] in
      let f = rotated server.now id in
      let self : (id == id) ≡ true = (==_iff id id).1 refl in
      let there : find_row (has_id id) rows ≡ some next_session =
        find_row-append (has_id id) db.sessions next_session
          (find_row-none_of_has (has_id id) db.sessions fresh)
        ∙ rw self refl in
      (
        free,
        rw at (
            find_row-update_rows (has_id old_session_id) (has_id old_session_id) f rows s
              (λ _. refl)
              (find_row-append_old (has_id old_session_id) db.sessions next_session s found)
            ∙ rw (find_row-holds (has_id old_session_id) db.sessions s found) refl),
        rw (at, is_id)
            (find_row-update_rows (has_id id) (has_id old_session_id) f rows next_session
                (λ _. refl) there
              ∙ rw (new_apart db.sessions s found fresh) refl),
        rw at (
            find_row-update_rows_apart (has_id other) (has_id old_session_id) f rows (λ _. refl)
              (λ x hit.
                ne_false x.id old_session_id (λ e. not_old (sym ((==_iff x.id other).0 hit) ∙ e)))
            ∙ find_row-append_miss (has_id other) db.sessions next_session
                (ne_false id other (λ e. not_new (sym e)))),
      )
