-- ===== src/Users/Reads.antt =====
-- What the lookups of a user return, and that they change no table.
use super_wallet.Base.{◌≡◌, refl, ◌∙◌, arith, String, Option, none, some, map_option}
use super_wallet.Db.{Db, UserRow, Action, ◌>>=◌}
use super_wallet.Db.Post.{Post, Post-bind, Post-weaken}
use super_wallet.Users.UserRepository
use super_wallet.Users.UserRepository.{from_row, to_record_or_none, get_by_email, get_by_username}

pub to_record_or_none-Post :
    (o : Option UserRow) (db : Db)
    → Post (λ r db'. (db' ≡ db) × (r ≡ map_option from_row o)) (to_record_or_none o db)
unfolding UserRepository.to_record
to_record_or_none-Post none db = (refl, refl)
to_record_or_none-Post (some u) db = ground arith

-- A call that changes no table, if it returns.
abbrev pub Reads : {A : Type 0} → Action A → Type 0
Reads m = (db : Db) → Post (λ _ db'. db' ≡ db) (m db)

pub Reads-bind :
    {A B : Type 0} (m : Action A) (f : A → Action B)
    → Reads m
    → ((a : A) → Reads (f a))
    → Reads (m >>= f)
Reads-bind m f hm hf db =
    Post-bind (λ _ db'. db' ≡ db) (λ _ db'. db' ≡ db) m f db (hm db)
      λ a db₁ same.
        Post-weaken (λ _ db'. db' ≡ db₁) (λ _ db'. db' ≡ db) (f a db₁) (hf a db₁)
          λ _ db' again. again ∙ same

pub get_by_email-Reads : (email : String) → Reads (get_by_email email)
unfolding get_by_email
get_by_email-Reads email db =
    Post-weaken _ (λ _ db'. db' ≡ db) _ (to_record_or_none-Post _ db) λ _ _ h. h.0

pub get_by_username-Reads : (username : String) → Reads (get_by_username username)
unfolding get_by_username
get_by_username-Reads username db =
    Post-weaken _ (λ _ db'. db' ≡ db) _ (to_record_or_none-Post _ db) λ _ _ h. h.0
