-- ===== src/Queue/Results.antt =====
-- A transaction that may raise. One that raises is rolled back, so an error carries no store.
use crawltrove.Base.{◌≡◌, refl, Bool, true, false}
use crawltrove.Queue.Rows.{Db}

pub data Error : Type 0 where
  -- providers.ProviderProtocolError
  protocol_error : Error
  -- a CHECK of the database
  constraint_violation : Error
  -- KeyError and ValueError of retry_failures
  key_error value_error : Error

pub data Result (A : Type 0) : Type 0 where
  ok : A → Result A
  err : Error → Result A

infixl 5 ◌>>=◌ ◌>>◌
abbrev pub ◌>>=◌ : {A B : Type 0} → Result A → (A → Result B) → Result B
ok a >>= f = f a
err e >>= f = err e

abbrev pub ◌>>◌ : {B : Type 0} → Result Unit → Result B → Result B
m >> k = m >>= λ _. k

-- `if b: raise e`
abbrev pub raise_if : Bool → Error → Result Unit
raise_if true e = err e
raise_if false e = ok tt

-- P holds of what is returned, if something is.
abbrev pub Yields : {A : Type 0} → (A → Type 0) → Result A → Type 0
Yields P (ok a) = P a
Yields P (err e) = Unit

-- What a transaction leaves behind when it commits satisfies P.
abbrev pub Keeps : {A : Type 0} → (Db → Type 0) → Result (Db × A) → Type 0
Keeps P = Yields (λ r. P r.0)

pub Yields-bind :
    {A B : Type 0} (P : A → Type 0) (Q : B → Type 0) (m : Result A) (f : A → Result B)
    → Yields P m
    → ((a : A) → P a → Yields Q (f a))
    → Yields Q (m >>= f)
Yields-bind P Q (ok a) f h k = k a h
Yields-bind P Q (err e) f h k = tt

-- The rest of a transaction may use that a step did not raise.
pub Yields-after :
    {A B : Type 0} (Q : B → Type 0) (m : Result A) (f : A → Result B)
    → ((a : A) → m ≡ ok a → Yields Q (f a))
    → Yields Q (m >>= f)
Yields-after Q (ok a) f k = k a refl
Yields-after Q (err e) f k = tt

-- The store after a transaction that started at `db`.
abbrev pub after : {A : Type 0} → Db → Result (Db × A) → Db
after db (ok (db', a)) = db'
after db (err e) = db
