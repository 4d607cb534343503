-- ===== src/Common/Results.antt =====
-- Rust's `Result<A, E>`, with `?` as the bind of `do` blocks.
use mathlib.Core.Bool.{Bool, true, false}
use mathlib.Core.Option.{Option, none, some}
use mathlib.Core.Path.{◌≡◌, refl}
use mathlib.Core.Logic.{◌⊎◌, inl, inr}

pub data Result {ℓ κ} (A : Type ℓ) (E : Type κ) : Type (ℓ ⊔ κ) where
  ok : A → Result A E
  err : E → Result A E

infixl 5 ◌>>=◌ ◌>>◌
abbrev pub ◌>>=◌ {ℓ κ ι} :
    {A : Type ℓ} {B : Type κ} {E : Type ι} → Result A E → (A → Result B E) → Result B E
ok a >>= f = f a
err e >>= f = err e

abbrev pub ◌>>◌ {ℓ ι} : {B : Type ℓ} {E : Type ι} → Result (Unit {0}) E → Result B E → Result B E
m >> k = m >>= λ _. k

-- `if bad { return Err(e) }`
abbrev pub ensure {ι} : {E : Type ι} → Bool → E → Result (Unit {0}) E
ensure true e = ok tt
ensure false e = err e

-- `ok_or`
abbrev pub ok_or {ℓ ι} : {A : Type ℓ} {E : Type ι} → Option A → E → Result A E
ok_or none e = err e
ok_or (some a) e = ok a

-- `unwrap_or`
abbrev pub unwrap_or {ℓ} : {A : Type ℓ} → Option A → A → A
unwrap_or none d = d
unwrap_or (some a) d = a

-- `o.map(f)`
abbrev pub map_option {ℓ κ} : {A : Type ℓ} {B : Type κ} → (A → B) → Option A → Option B
map_option f none = none
map_option f (some a) = some (f a)

-- A chain of calls that succeeds is one of which each succeeds.
pub ensure_parts {ℓ ι} :
    {B : Type ℓ} {E : Type ι} (c : Bool) (e : E) (k : Result B E) (b : B)
    → (ensure c e >> k) ≡ ok b
    → (c ≡ true) × (k ≡ ok b)
ensure_parts true e k b h = (refl, h)
ensure_parts false e k b h = cc h

pub bind_parts {ℓ κ ι} :
    {A : Type ℓ} {B : Type κ} {E : Type ι} (m : Result A E) (f : A → Result B E) (b : B)
    → (m >>= f) ≡ ok b
    → (a : A) × (m ≡ ok a) × (f a ≡ ok b)
bind_parts (ok a) f b h = (a, refl, h)
bind_parts (err e) f b h = cc h

pub ok_injective {ℓ ι} :
    {A : Type ℓ} {E : Type ι} {a b : A} → ◌≡◌ {A = Result A E} (ok a) (ok b) → a ≡ b
ok_injective h = cc h

pub bind_ok {ℓ κ ι} :
    {A : Type ℓ} {B : Type κ} {E : Type ι} (m : Result A E) (f : A → Result B E) (a : A)
    → m ≡ ok a
    → (m >>= f) ≡ f a
bind_ok m f a h = rw h refl

pub ensure-ok {ι} : {E : Type ι} (c : Bool) (e : E) → ensure c e ≡ ok tt → c ≡ true
ensure-ok true e h = refl
ensure-ok false e h = cc h

pub ok_or-ok {ℓ ι} :
    {A : Type ℓ} {E : Type ι} (o : Option A) (e : E) (a : A) → ok_or o e ≡ ok a → o ≡ some a
ok_or-ok none e a h = cc h
ok_or-ok (some b) e a h = cc h

pub Result-cases {ℓ ι} :
    {A : Type ℓ} {E : Type ι} (m : Result A E) → ((a : A) × (m ≡ ok a)) ⊎ ((e : E) × (m ≡ err e))
Result-cases (ok a) = inl (a, refl)
Result-cases (err e) = inr (e, refl)
