-- ===== src/Prelude/Run.antt =====
-- How a call of the program ends: with a value, by a failed assertion or `error` (which traps), never,
-- or in undefined behaviour. `forever` stands for a loop that has used up its fuel, `wild` for a read
-- outside of the program's objects.
use mathlib.Core.Path.{◌≡◌, refl}
use mathlib.Core.Bool.{Bool, true, false}

pub data Run {ℓ} (A : Type ℓ) : Type ℓ where
  ok : A → Run A
  trap : Run A
  forever : Run A
  wild : Run A

infixl 5 ◌>>=◌
infixl 5 ◌>>◌
abbrev pub ◌>>=◌ {ℓ κ} : {X : Type ℓ} {Y : Type κ} (run : Run X) (next : X → Run Y) → Run Y
trap >>= next = trap
forever >>= next = forever
wild >>= next = wild
ok x >>= next = next x

abbrev pub ◌>>◌ {ℓ} : {Y : Type ℓ} (check : Run (Unit {0})) (rest : Run Y) → Run Y
check >> rest = check >>= λ _. rest

-- `assert(b)`
abbrev pub assert : Bool → Run (Unit {0})
assert false = trap
assert true = ok tt

-- The run ends normally, in a value that satisfies `P`.
abbrev pub Returns {ℓ κ} : {X : Type ℓ} (run : Run X) (P : X → Type κ) → Type (ℓ ⊔ κ)
Returns {X} run P = (x : X) × (run ≡ ok x) × P x

-- A sequence that ends normally did so in both parts.
pub >>=-eq-ok {ℓ κ} :
    {A : Type ℓ} {B : Type κ} (run : Run A) (next : A → Run B) {last : B}
    → run >>= next ≡ ok last
    → Returns run λ a. next a ≡ ok last
>>=-eq-ok trap next h = cc
>>=-eq-ok forever next h = cc
>>=-eq-ok wild next h = cc
>>=-eq-ok (ok a) next h = (a, refl, h)

pub ok_injective {ℓ} : {A : Type ℓ} {a b : A} → ◌≡◌ {A = Run A} (ok a) (ok b) → a ≡ b
ok_injective h = cc

-- The run comes to an end, and a value that it ends in satisfies `P`.
abbrev pub Ends {ℓ} : {A : Type ℓ} → Run A → (A → Type 0) → Type 0
Ends (ok a) P = P a
Ends trap P = Unit {0}
Ends forever P = ⊥
Ends wild P = Unit {0}

pub Ends->>= {ℓ κ} :
    {A : Type ℓ} {B : Type κ} (P : A → Type 0) (Q : B → Type 0) (m : Run A) (f : A → Run B)
    → Ends m P
    → ((a : A) → P a → Ends (f a) Q)
    → Ends (m >>= f) Q
Ends->>= P Q (ok a) f h k = k a h
Ends->>= P Q trap f h k = tt
Ends->>= P Q forever f h k = absurd h
Ends->>= P Q wild f h k = tt

-- A value that the run ends in satisfies `P`; it may also end in another way, or never.
abbrev pub IfOk {ℓ} : {A : Type ℓ} → Run A → (A → Type 0) → Type 0
IfOk (ok a) P = P a
IfOk trap P = Unit {0}
IfOk forever P = Unit {0}
IfOk wild P = Unit {0}

pub IfOk->>= {ℓ κ} :
    {A : Type ℓ} {B : Type κ} (P : A → Type 0) (Q : B → Type 0) (m : Run A) (f : A → Run B)
    → IfOk m P
    → ((a : A) → P a → IfOk (f a) Q)
    → IfOk (m >>= f) Q
IfOk->>= P Q (ok a) f h k = k a h
IfOk->>= P Q trap f h k = tt
IfOk->>= P Q forever f h k = tt
IfOk->>= P Q wild f h k = tt

-- A run of which nothing is asked
pub IfOk-any {ℓ} : {A : Type ℓ} (m : Run A) → IfOk m (λ _. Unit {0})
IfOk-any (ok a) = tt
IfOk-any trap = tt
IfOk-any forever = tt
IfOk-any wild = tt

pub IfOk-weaken {ℓ} :
    {A : Type ℓ} (P Q : A → Type 0) (m : Run A) → ((a : A) → P a → Q a) → IfOk m P → IfOk m Q
IfOk-weaken P Q (ok a) f h = f a h
IfOk-weaken P Q trap f h = tt
IfOk-weaken P Q forever f h = tt
IfOk-weaken P Q wild f h = tt
