-- ===== src/Python/Result.antt =====
-- Python's exceptions as values: a function that may raise returns a `Result`.
use wu_kong_easy_sdk_csharp.Common.{ℕ, String, Bool, true, false, ◌≡◌, refl, ◌⊎◌, inl, inr}

-- The exception classes that the scripts raise or catch, with the message where the scripts write it.
pub data Exc : Type 0 where
  assertion_error runtime_error value_error : String → Exc
  key_error type_error timeout_error url_error os_error : Exc
  http_error : ℕ → Exc
  system_exit : String → Exc
  -- any other exception, by its class
  raised : String → Exc

-- What a call leaves: the exception that it raises, or the value that it returns.
pub data Result {ℓ} (Value : Type ℓ) : Type ℓ where
  err : (exception : Exc) → Result Value
  ok : (value : Value) → Result Value

module _ {ℓ κ} {Value : Type ℓ} {Next : Type κ} where
  infixl 5 ◌>>=◌
  -- The rest of a function after a call: it runs with the value, and an exception passes it by.
  abbrev pub ◌>>=◌ : Result Value → (rest : Value → Result Next) → Result Next
  err exception >>= rest = err exception
  ok value >>= rest = rest value

module _ {ℓ} {Next : Type ℓ} where
  infixl 5 ◌>>◌
  abbrev pub ◌>>◌ : (first : Result (Unit {0})) → (rest : Result Next) → Result Next
  first >> rest = first >>= (λ nothing. rest)

-- `if test: raise e`
abbrev pub raise_if : Bool → Exc → Result (Unit {0})
raise_if true e = err e
raise_if false e = ok tt

module _ {ℓ} {A : Type ℓ} where
  -- What follows a test that did not raise.
  pub raise_if-eq-ok :
      (b : Bool) (e : Exc) (k : Result A) {a : A}
      → (raise_if b e >> k) ≡ ok a
      → (b ≡ false) × (k ≡ ok a)
  raise_if-eq-ok true e k h = absurd (cc)
  raise_if-eq-ok false e k h = (refl, h)

  -- A call that is followed by others returned, and so did they.
  pub >>=-eq-ok {κ} :
      {Next : Type κ} (call : Result A) (rest : A → Result Next) {last : Next}
      → (call >>= rest) ≡ ok last
      → (value : A) × (call ≡ ok value) × (rest value ≡ ok last)
  >>=-eq-ok (err exception) rest h = absurd (cc)
  >>=-eq-ok (ok value) rest h = (value, refl, h)

  pub Result-cases : (r : Result A) → ((e : Exc) × (r ≡ err e)) ⊎ ((a : A) × (r ≡ ok a))
  Result-cases (ok a) = inr (a, refl)
  Result-cases (err e) = inl (e, refl)

  pub ok_injective : {a b : A} → ok a ≡ ok b → a ≡ b
  ok_injective h = cc
