-- ===== src/World/Request.antt =====
-- How a request to a service runs: over the state `S` that its services share, it ends with a value
-- or with an HTTP exception, and keeps what it has written in both cases.
pub mod Within
use corporate_lawyers_backen.Prelude.{Bool, true, false, Option, none, some}

-- The exceptions of NestJS that the services throw; their messages are left out. Any other exception
-- is an internal error.
pub data HttpError : Type 0 where
  not_found bad_request unauthorized forbidden conflict service_unavailable internal_error :
      HttpError

pub data Ended {ℓ κ} (S : Type ℓ) (A : Type κ) : Type (ℓ ⊔ κ) where
  ok : A → S → Ended S A
  err : HttpError → S → Ended S A

module _ {ℓ} {S : Type ℓ} where
  abbrev pub pure {κ} : {A : Type κ} → A → S → Ended S A
  pure a w = ok a w

  abbrev pub throw {κ} : {A : Type κ} → HttpError → S → Ended S A
  throw e w = err e w

  infixl 5 ◌>>=◌ ◌>>◌
  abbrev pub ◌>>=◌ {κ μ} :
      {A : Type κ} {B : Type μ} → (S → Ended S A) → (A → S → Ended S B) → S → Ended S B
  ◌>>=◌ m f w = elim (m w) [ ok a w' ↦ f a w' | err e w' ↦ err e w' ]

  abbrev pub ◌>>◌ {κ μ} :
      {A : Type κ} {B : Type μ} → (S → Ended S A) → (S → Ended S B) → S → Ended S B
  m >> k = m >>= λ _. k

  -- `if (!test) throw new e`
  abbrev pub guard : Bool → HttpError → S → Ended S (Unit {0})
  guard true e w = ok tt w
  guard false e w = err e w

  -- `if (!row) throw new e`
  abbrev pub need {κ} : {A : Type κ} → Option A → HttpError → S → Ended S A
  need none e w = err e w
  need (some a) e w = ok a w

  -- `if (test) { … }`
  abbrev pub when : Bool → (S → Ended S (Unit {0})) → S → Ended S (Unit {0})
  when true m w = m w
  when false m w = ok tt w

  -- The state that a request leaves behind, whether or not it threw.
  abbrev pub final {κ} : {A : Type κ} → Ended S A → S
  final (ok a w) = w
  final (err e w) = w

  -- What a request reads of the state, and what it writes.
  abbrev pub get : S → Ended S S
  get w = ok w w

  abbrev pub modify : (S → S) → S → Ended S (Unit {0})
  modify f w = ok tt (f w)
