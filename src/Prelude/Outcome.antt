-- ===== src/Prelude/Outcome.antt =====
-- Rust's `Result`, with the chain that `?` makes.
use mathlib.Core.Path.{◌≡◌, refl}
use mathlib.Core.Logic.{◌⊎◌, inl, inr}
use mathlib.Core.Option.{Option, none, some}

pub data Result {ℓ κ} (E : Type ℓ) (A : Type κ) : Type (ℓ ⊔ κ) where
  ok : A → Result E A
  err : E → Result E A

module _ {ℓ} {E : Type ℓ} where
  infixl 5 ◌>>=◌
  abbrev pub ◌>>=◌ {κ μ} :
      {A : Type κ} {B : Type μ} (tried : Result E A) (next : A → Result E B) → Result E B
  err why >>= next = err why
  ok value >>= next = next value

  infixl 5 ◌>>◌
  abbrev pub ◌>>◌ {κ μ} : {A : Type κ} {B : Type μ} (tried : Result E A) → Result E B → Result E B
  err why >> next = err why
  ok value >> next = next

  -- Inversion of a chain that succeeds.
  pub >>=-eq-ok {κ μ} :
      {A : Type κ} {B : Type μ} (tried : Result E A) (next : A → Result E B) {end : B}
      → (tried >>= next) ≡ ok end
      → (middle : A) × (tried ≡ ok middle) × (next middle ≡ ok end)
  >>=-eq-ok (err why) next ended = absurd (cc)
  >>=-eq-ok (ok middle) next ended = (middle, refl, ended)

  pub Result-cases {κ} :
      {A : Type κ} (r : Result E A) → ((a : A) × (r ≡ ok a)) ⊎ ((e : E) × (r ≡ err e))
  Result-cases (ok a) = inl (a, refl)
  Result-cases (err e) = inr (e, refl)

-- `Result::map_err`
abbrev pub map_err {ℓ κ μ} :
    {E : Type ℓ} {F : Type κ} {A : Type μ} → (E → F) → Result E A → Result F A
map_err f (ok a) = ok a
map_err f (err e) = err (f e)

-- `Option::ok_or_else`
abbrev pub ok_or {ℓ κ} : {E : Type ℓ} {A : Type κ} → E → Option A → Result E A
ok_or e none = err e
ok_or e (some a) = ok a

-- `Option::unwrap_or`
abbrev pub unwrap_or {ℓ} : {A : Type ℓ} → A → Option A → A
unwrap_or d none = d
unwrap_or d (some a) = a

pub map_err-eq-ok {ℓ κ μ} :
    {E : Type ℓ} {F : Type κ} {A : Type μ} (f : E → F) (r : Result E A) {a : A}
    → map_err f r ≡ ok a
    → r ≡ ok a
map_err-eq-ok f (ok b) e = cc
map_err-eq-ok f (err b) e = cc

pub ok-injective {ℓ κ} :
    {E : Type ℓ} {A : Type κ} {a b : A} → ◌≡◌ {A = Result E A} (ok a) (ok b) → a ≡ b
ok-injective e = cc

pub err-ne-ok {ℓ κ} :
    {E : Type ℓ} {A : Type κ} {a : E} {b : A} → ◌≡◌ {A = Result E A} (err a) (ok b) → ⊥
err-ne-ok e = cc

pub ok_or-eq-ok {ℓ κ} :
    {E : Type ℓ} {A : Type κ} (e : E) (o : Option A) {a : A} → ok_or e o ≡ ok a → o ≡ some a
ok_or-eq-ok e none p = cc
ok_or-eq-ok e (some b) p = cc
