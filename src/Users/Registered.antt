-- ===== src/Users/Registered.antt =====
-- What a registration leaves.
use super_wallet.Base.{
  ◌≡◌, refl, ap, sym, ◌∙◌, subst, String, str_eq, false, Option, none, some, List, [], ◌∷◌, ◌++◌,
  inl, inr, Bool-cases,
}
use super_wallet.Base.Table.{has_row}
use super_wallet.Errors.{AppError, app}
use super_wallet.Db.{
  OutboxEventRow, Db, Uuid, UserRow, Action, Json, text, ok, raise, pure, ◌>>=◌, ◌>>◌,
}
use super_wallet.Db.Post.{Post, Post-any, Post-bind, Post-weaken, Post-transaction, Post-result}
use super_wallet.Audit.{log_audit_event-Post, audit_row, add_audit}
use super_wallet.Outbox.{enqueue-Post, enqueue, new_event}
use super_wallet.Security.{Platform}
use super_wallet.Security.Users.{hash_password, create_email_verification_token}
use super_wallet.Users.UserRepository
use super_wallet.Users.UserRepository.{
  UserRecord, new_user, from_row, get_by_email, get_by_username, to_record_or_none,
}
use super_wallet.Users.AuthService.{
  Client, RegisterResult, register, register_body, ensure_email_and_username_free, refuse_duplicate,
  verification_email, audit,
}
use super_wallet.Users.Reads.{get_by_username-Reads, get_by_email-Reads, Reads-bind, Reads}

module _ (p : Platform) (client : Client) (email username password : String) where
  abbrev pub registered_user : UserRow
  registered_user =
      new_user p.server.now (p.server.gen_random_uuid 0) username email (hash_password p password)

  -- The events with one more, which waits: the email with the link.
  abbrev pub with_email : String → Db → List OutboxEventRow
  with_email token db =
      db.outbox_events
      ++ new_event p.server.now (p.server.gen_random_uuid 1) "email"
          (verification_email email token)
        ∷ []

  -- The user, unverified, and the email with the link, which waits to be sent.
  pub record Registered (result : RegisterResult) (db db' : Db) : Type 0 where
    pub new_username : has_row (λ u. str_eq u.username username) db.users ≡ false
    pub new_email : has_row (λ u. str_eq u.email email) db.users ≡ false
    pub users : db'.users ≡ db.users ++ registered_user ∷ []
    pub events :
        db'.outbox_events
        ≡ db.outbox_events
          ++ new_event p.server.now
              (p.server.gen_random_uuid 1)
              "email"
              (verification_email email result.email_verification_token)
            ∷ []
    pub sessions : db'.sessions ≡ db.sessions
    pub tokens : result ≡ record {
      user_id = registered_user.id;
      email = email;
      email_verification_token = create_email_verification_token p registered_user.id;
    }

  -- The tables of a duplicate's refusal do not matter: it raises.
  refuse_duplicate-Post :
      (o : Option UserRecord) (why : String) (e : AppError) (db : Db)
      → Post (λ _ db'. db' ≡ db) (refuse_duplicate p client o why e db)
  refuse_duplicate-Post none why e db = refl
  refuse_duplicate-Post (some u) why e db =
      Post-bind (λ _ _. Unit {0}) (λ _ db'. db' ≡ db) (audit p client none "register_failed" _)
        (λ _. raise (app e)) db (Post-any _) λ _ _ _. tt

  create-Post :
      (db : Db)
      → Post
          (λ id db'.
            (db' ≡ record db { users = db.users ++ registered_user ∷ [] })
            × (id ≡ registered_user.id)
            × (has_row (λ u. str_eq u.username username) db.users ≡ false)
            × (has_row (λ u. str_eq u.email email) db.users ≡ false))
          (UserRepository.create p.server.now
            (p.server.gen_random_uuid 0)
            username
            email
            (hash_password p password)
            db)
  unfolding UserRepository.create
  create-Post db =
      elim (Bool-cases (UserRepository.texts_fit username email (hash_password p password))) [
        | inr long ↦ rw long tt
        | inl fits ↦
            elim (Bool-cases
              (has_row (UserRepository.has_id (p.server.gen_random_uuid 0)) db.users)) [
                | inl taken ↦ rw (fits, taken) tt
                | inr new ↦ elim (Bool-cases (has_row (λ u. str_eq u.username username) db.users)) [
                  | inl known ↦ rw (fits, new, known) tt
                  | inr fresh ↦ elim (Bool-cases (has_row (λ u. str_eq u.email email) db.users)) [
                    | inl used ↦ rw (fits, new, fresh, used) tt
                    | inr free ↦ rw (fits, new, fresh, free) (refl, refl, fresh, free)
                  ]
                ]
              ]
      ]

  free-Reads : Reads (ensure_email_and_username_free p client email username)
  unfolding ensure_email_and_username_free
  free-Reads = Reads-bind (get_by_email email) _ (get_by_email-Reads email) λ e.
      Reads-bind (refuse_duplicate p client e "duplicate_email" _) _
        (refuse_duplicate-Post e "duplicate_email" _)
        λ _.
          Reads-bind (get_by_username username) _ (get_by_username-Reads username)
            λ u. refuse_duplicate-Post u "duplicate_username" _

  abbrev details : Option Json
  details = some (("email", text email) ∷ ("username", text username) ∷ [])

  abbrev result_of : Uuid → RegisterResult
  result_of id = record {
    user_id = id;
    email = email;
    email_verification_token = create_email_verification_token p id;
  }

  abbrev token_of : Uuid → String
  token_of id = create_email_verification_token p id

  -- The writes of `register_body` after the user's row.
  abbrev send : Uuid → Action Uuid
  send id =
      enqueue p.server.now (p.server.gen_random_uuid 1) "email"
        (verification_email email (token_of id))

  abbrev announce : Uuid → Action RegisterResult
  announce id =
      audit p client (some id) "user_registered" details >> (send id >>= λ _. pure (result_of id))

  abbrev Announced : Uuid → Db → RegisterResult → Db → Type 0
  Announced id db r db' =
      (db'.users ≡ db.users)
      × (db'.sessions ≡ db.sessions)
      × (db'.outbox_events ≡ with_email (token_of id) db)
      × (r ≡ result_of id)

  announce-Post : (id : Uuid) (db : Db) → Post (Announced id db) (announce id db)
  announce-Post id db =
      let row =
        audit_row p.server.now (some id) "user_registered" (some client.ip_address)
          client.user_agent details in
      Post-bind (λ _ db'. db' ≡ add_audit row db) (Announced id db)
        (audit p client (some id) "user_registered" details)
        (λ _. send id >>= λ _. pure (result_of id)) db
        (log_audit_event-Post p.server (some id) "user_registered" (some client.ip_address)
          client.user_agent details db)
        λ _ db₁ at₁.
          Post-bind (λ _ db'. db' ≡ record db₁ { outbox_events = with_email (token_of id) db₁ })
            (Announced id db) (send id) (λ _. pure (result_of id)) db₁
            (enqueue-Post p.server.now (p.server.gen_random_uuid 1) "email"
              (verification_email email (token_of id)) db₁)
            λ _ db₂ at₂. (
              ap (λ (d : Db). d.users) at₂ ∙ ap (λ (d : Db). d.users) at₁,
              ap (λ (d : Db). d.sessions) at₂ ∙ ap (λ (d : Db). d.sessions) at₁,
              ap (λ (d : Db). d.outbox_events) at₂ ∙ ap (with_email (token_of id)) at₁,
              refl,
            )

  abbrev insert : Action Uuid
  insert =
      UserRepository.create p.server.now (p.server.gen_random_uuid 0) username email
        (hash_password p password)

  abbrev IsRegistered : Db → RegisterResult → Db → Type 0
  IsRegistered db r db' = Registered r db db'

  insert-Post : (db : Db) → Post (IsRegistered db) ((insert >>= announce) db)
  insert-Post db =
      Post-bind _ (IsRegistered db) insert announce db (create-Post db)
        λ id db₁ (at, is_id, fresh, free).
          Post-weaken (Announced id db₁) (IsRegistered db) _ (announce-Post id db₁)
            λ r db' (users, sessions, events, made). record {
              new_username = fresh;
              new_email = free;
              users = users ∙ ap (λ (d : Db). d.users) at;
              events =
                  events
                  ∙ ap (with_email (token_of id)) at
                  ∙ ap (λ t. with_email t db)
                      (sym (ap (λ (x : RegisterResult). x.email_verification_token) made));
              sessions = sessions ∙ ap (λ (d : Db). d.sessions) at;
              tokens = made ∙ ap result_of is_id;
            }

  register_body-Post :
      (db : Db) → Post (IsRegistered db) (register_body p client email username password db)
  unfolding register_body
  register_body-Post db =
      Post-bind (λ _ db'. db' ≡ db) (IsRegistered db)
        (ensure_email_and_username_free p client email username) (λ _. insert >>= announce) db
        (free-Reads db)
        λ _ db₁ same.
          subst (λ d. Post (IsRegistered db) ((insert >>= announce) d)) (sym same) (insert-Post db)

  -- A registration that returns found neither the address nor the username in the table. It adds
  -- the user, unverified and with the hash of the password, and one email with the token that it
  -- returns, which waits to be sent; no session starts.
  pub register_lem :
      (result : RegisterResult) (db db' : Db)
      → register p client email username password db ≡ (ok result, db')
      → Registered result db db'
  unfolding register
  register_lem result db db' h =
      let body = register_body p client email username password in
      Post-result (λ r d. Registered r db d) _ h
        (Post-transaction (λ r d. Registered r db d) body db (register_body-Post db))
