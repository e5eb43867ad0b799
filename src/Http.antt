-- ===== src/Http.antt =====
-- What the routers read of a request, and what they give back. FastAPI and pydantic are no part of
-- the program: a body comes with its fields in their JSON types, and the format of an email address
-- and the digits beyond ASCII are parameters.
pub mod Dependencies
pub mod Routes
pub mod Bearer
use super_wallet.Base.{
  ◌≡◌, refl, true, false, ℕ, String, str_eq, ◌==◌, leb, Bool, Option, none, some, ◌&&◌, ◌||◌,
  if◌then◌else◌, length,
}
use super_wallet.Base.Text.{codes, is_space, is_empty, trim_left, trim_right}
use Prim.Native.Char.{Char, code}
pub use super_wallet.Base.Text.{count}

-- `email-validator` on a text, with the normalised address, and which code points beyond ASCII `\d`
-- matches.
pub record Validators : Type 0 where
  pub validate_email : String → Option String
  pub is_decimal : ℕ → Bool

-- A body that pydantic accepts, or the answer 422.
infixl 5 ◌>>=◌
abbrev pub ◌>>=◌ : {A B : Type 0} → Option A → (A → Option B) → Option B
none >>= f = none
some a >>= f = f a

-- `raise ValueError(…)` unless the test holds.
abbrev pub check : {A : Type 0} → Bool → A → Option A
check ok a = if ok then some a else none

-- A request: the two headers that are read, the address of the peer, and the one cookie.
pub record Request : Type 0 where
  pub forwarded_for : Option String
  pub user_agent : Option String
  pub client_host : Option String
  pub refresh_token : Option String

-- `response.set_cookie(…)`
pub record Cookie : Type 0 where
  pub key : String
  pub value : String
  pub httponly : Bool
  pub secure : Bool
  pub samesite : String
  pub max_age : ℕ
  pub path : String

-- What a handler does to the cookies; `deleted` has the key and the path.
pub data CookieChange : Type 0 where
  kept : CookieChange
  set_cookie : Cookie → CookieChange
  deleted : String → String → CookieChange

pub record Response (A : Type 0) : Type 0 where
  pub body : A
  pub cookie : CookieChange

-- What a chain of checks that ends has passed.
pub bind-eq-some :
    {A B : Type 0} (m : Option A) (f : A → Option B) {b : B}
    → (m >>= f) ≡ some b
    → (a : A) × (m ≡ some a) × (f a ≡ some b)
bind-eq-some none f h = cc
bind-eq-some (some a) f h = (a, refl, h)

pub some_injective : {A : Type 0} {a b : A} → some a ≡ some b → a ≡ b
some_injective h = cc

pub check-eq-some : {A : Type 0} (ok : Bool) (a b : A) → check ok a ≡ some b → (ok ≡ true) × (a ≡ b)
check-eq-some true a b h = (refl, cc)
check-eq-some false a b h = cc
