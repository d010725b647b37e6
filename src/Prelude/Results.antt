-- ===== src/Prelude/Results.antt =====
-- A function that may raise: `err` carries what is raised.
use mathlib.Core.Path.{◌≡◌, refl}

pub data Result {ℓ} (E A : Type ℓ) : Type ℓ where
  ok : A → Result E A
  err : E → Result E A

infixl 5 ◌>>=◌ ◌>>◌
abbrev pub ◌>>=◌ {ℓ} : {E A B : Type ℓ} → Result E A → (A → Result E B) → Result E B
err raised >>= next = err raised
ok value >>= next = next value

abbrev pub ◌>>◌ {ℓ} : {E A B : Type ℓ} → Result E A → Result E B → Result E B
first >> second = first >>= λ _. second

-- What a successful bind says of its parts.
pub >>=-eq-ok {ℓ} :
    {E A B : Type ℓ} (r : Result E A) (next : A → Result E B) {end : B}
    → (r >>= next) ≡ ok end
    → (value : A) × (r ≡ ok value) × (next value ≡ ok end)
>>=-eq-ok (err raised) next done = absurd (cc (done))
>>=-eq-ok (ok value) next done = (value, refl, done)

module _ {ℓ} {E A : Type ℓ} where
  pub ok-injective : {a b : A} → ◌≡◌ {A = Result E A} (ok a) (ok b) → a ≡ b
  ok-injective h = cc
