-- ===== src/Users/Schemas/Passwords.antt =====
-- Passwords and addresses that one request model accepts and another refuses.
use super_wallet.Base.{
  suc, subst, ◌≡◌, ◌≢◌, refl, ap, ◌∙◌, arith, ℕ, ◌≤◌, ◌<◌, String, Bool, true, false, leb, ◌&&◌,
  Option, none, some, if◌then◌else◌,
}
use super_wallet.Base.Text.{is_empty, trim_right, trim_left, lower, strip, is_space}
use Prim.Native.Char.{code}
use super_wallet.Http.{Validators, count, ◌>>=◌, bind-eq-some, some_injective}
use super_wallet.Users.Schemas.Auth.{
  normalized_email, sized, LoginRequest, login_request, validate_code,
}
use super_wallet.Users.Schemas.Profile.{optional_email, username_charset, profile_update}
use super_wallet.Users.Schemas.SessionAuth.{reset_password_request}
use super_wallet.Users.Schemas.Registration.{normalized_email-lower}

count-if :
    (b : Bool) (x y : String) (n : ℕ) → count x ≤ n → count y ≤ n → count (if b then x else y) ≤ n
count-if true x y n hx hy = hx
count-if false x y n hx hy = hy

trim_left-le : (space : ℕ → Bool) (s : String) → count (trim_left space s) ≤ count s
unfolding trim_left
trim_left-le space String.[] = omega arith
trim_left-le space (String.◌∷◌ c s) =
    count-if (space (code c)) (trim_left space s) (String.◌∷◌ c s) (suc (count s))
      (omega (arith, trim_left-le space s)) (omega arith)

trim_right-le : (space : ℕ → Bool) (s : String) → count (trim_right space s) ≤ count s
unfolding trim_right
trim_right-le space String.[] = omega arith
trim_right-le space (String.◌∷◌ c s) =
    let rest = trim_right space s in
    count-if (is_empty rest && space (code c)) String.[] (String.◌∷◌ c rest) (suc (count s))
      (omega arith) (omega (arith, trim_right-le space s))

count-strip-le : (s : String) → count (strip s) ≤ count s
unfolding strip
count-strip-le s =
    omega (arith, trim_right-le is_space (trim_left is_space s), trim_left-le is_space s)

bind-eq-none :
    {A B : Type 0} (m : Option A) (f : A → Option B) → ((a : A) → f a ≡ none) → (m >>= f) ≡ none
bind-eq-none none f h = refl
bind-eq-none (some a) f h = h a

leb_of_le : (m n : ℕ) → m ≤ n → leb m n ≡ true
leb_of_le m n h = ground arith

too_long : (n : ℕ) → 128 < n → (leb 1 n && leb n 128) ≡ false
too_long n h = ground arith

-- A password of more than 128 characters, spaces at its ends aside, can be set by a password reset
-- and never be used: the reset accepts it as it is, and no login with it is accepted.
pub reset_password_request-login_request :
    (v : Validators) (token raw_password raw_email : String) (raw_code : Option String)
    → 128 < count (strip raw_password)
    → (reset_password_request token raw_password
        ≡ some (record { token = token; new_password = raw_password }))
      × (login_request v raw_email raw_password raw_code ≡ none)
unfolding reset_password_request login_request
reset_password_request-login_request v token raw_password raw_email raw_code long =
    let accepted = leb_of_le 8 (count raw_password) (omega (arith, count-strip-le raw_password)) in
    let refused = too_long (count (strip raw_password)) long in
    (rw accepted refl, bind-eq-none (normalized_email v raw_email) _ λ email. rw refused refl)

-- An address that a profile update accepts keeps its upper case letters, and no login that is
-- accepted then has it: the login's address is in lower case, and differs from it.
pub profile_update-login_request :
    (v : Validators) (raw email raw_email raw_password : String) (raw_code : Option String)
    (request : LoginRequest)
    → v.validate_email (strip raw) ≡ some email
    → lower email ≢ email
    → login_request v raw_email raw_password raw_code ≡ some request
    → (profile_update v none (some raw) ≡ some (record { username = none; email = some email }))
      × (request.email ≢ email)
unfolding profile_update username_charset optional_email login_request
profile_update-login_request v raw email raw_email raw_password raw_code request accepted mixed h =
    let (e, at_email, rest) = bind-eq-some (normalized_email v raw_email) _ h in
    let (password, _, rest') = bind-eq-some (sized 1 128 (strip raw_password)) _ rest in
    let (_, _, made) = bind-eq-some (validate_code v raw_code) _ rest' in
    let same : e ≡ request.email = ap (λ (r : LoginRequest). r.email) (some_injective made) in
    (
      rw accepted refl,
      λ k.
          mixed (subst (λ t. lower t ≡ t) (same ∙ k) (normalized_email-lower v raw_email at_email)),
    )
