-- ===== src/Base/Outcomes.antt =====
-- How a piece of the emulator ends: with a value, in `abort()` (an `assert`, `Assert` or
-- `CPUAssert` that fails), in `exit(0)`, or in behaviour that C leaves undefined (an access outside
-- an array, a division by zero, a call of a null pointer). `unfinished` is the outcome of a loop that
-- has used up the rounds that its caller allows it.
use mathlib.Core.Path.{◌≡◌, refl, subst}
use nemu_riscv.Base.Tests.{if◌then◌else◌}
use mathlib.Core.Bool.{Bool, true, false}

pub data Outcome {ℓ} (A : Type ℓ) : Type ℓ where
  ok : A → Outcome A
  abort : Outcome A
  exit : Outcome A
  fault : Outcome A
  unfinished : Outcome A

infixl 5 ◌>>=◌ ◌>>◌
abbrev pub ◌>>=◌ {ℓ κ} : {A : Type ℓ} {B : Type κ} → Outcome A → (A → Outcome B) → Outcome B
ok a >>= f = f a
abort >>= f = abort
exit >>= f = exit
fault >>= f = fault
unfinished >>= f = unfinished

abbrev pub ◌>>◌ {ℓ} : {B : Type ℓ} → Outcome (Unit {0}) → Outcome B → Outcome B
m >> k = m >>= λ _. k

-- `assert`, `Assert` and `CPUAssert`.
abbrev pub cpu_assert : Bool → Outcome (Unit {0})
cpu_assert true = ok tt
cpu_assert false = abort

-- What C requires of the program, such as an index inside the array.
abbrev pub defined : Bool → Outcome (Unit {0})
defined true = ok tt
defined false = fault

-- A value, an abort or an exit: no undefined behaviour, and no end of the rounds allowed.
abbrev pub IsDefined {ℓ} : {A : Type ℓ} → Outcome A → Type 0
IsDefined (ok a) = Unit {0}
IsDefined abort = Unit {0}
IsDefined exit = Unit {0}
IsDefined fault = ⊥
IsDefined unfinished = ⊥

pub IsDefined->>= {ℓ κ} :
    {A : Type ℓ} {B : Type κ} (m : Outcome A) (f : A → Outcome B)
    → IsDefined m
    → ((a : A) → m ≡ ok a → IsDefined (f a))
    → IsDefined (m >>= f)
IsDefined->>= (ok a) f h k = k a refl
IsDefined->>= abort f h k = tt
IsDefined->>= exit f h k = tt
IsDefined->>= fault f h k = absurd h
IsDefined->>= unfinished f h k = absurd h

-- What an assertion guards, where it holds.
pub IsDefined-cpu_assert {ℓ} :
    {B : Type ℓ} (b : Bool) (k : Outcome B)
    → (b ≡ true → IsDefined k)
    → IsDefined (cpu_assert b >> k)
IsDefined-cpu_assert true k h = h refl
IsDefined-cpu_assert false k h = tt

-- If there is a value, it satisfies `P`.
abbrev pub Ensures {ℓ} : {A : Type ℓ} → (A → Type 0) → Outcome A → Type ℓ
Ensures {A} P m = (a : A) → m ≡ ok a → P a

-- The outcome is a value, and it satisfies `P`.
abbrev pub Returns {ℓ} : {A : Type ℓ} → (A → Type 0) → Outcome A → Type 0
Returns P (ok a) = P a
Returns P abort = ⊥
Returns P exit = ⊥
Returns P fault = ⊥
Returns P unfinished = ⊥

pub ok-injective {ℓ} : {A : Type ℓ} {a b : A} → ok a ≡ ok b → a ≡ b
ok-injective h = cc

pub >>=-assoc {ℓ κ μ} :
    {A : Type ℓ} {B : Type κ} {C : Type μ} (m : Outcome A) (f : A → Outcome B) (g : B → Outcome C)
    → (m >>= f >>= g) ≡ (m >>= λ a. f a >>= g)
>>=-assoc (ok a) f g = refl
>>=-assoc abort f g = refl
>>=-assoc exit f g = refl
>>=-assoc fault f g = refl
>>=-assoc unfinished f g = refl

-- A sequence that ends well has ended well in both parts.
pub >>-eq-ok {ℓ} :
    {B : Type ℓ} (m : Outcome (Unit {0})) {k : Outcome B} {b : B}
    → (m >> k) ≡ ok b
    → (m ≡ ok tt) × (k ≡ ok b)
>>-eq-ok (ok u) h = (refl, h)
>>-eq-ok abort h = absurd (cc)
>>-eq-ok exit h = absurd (cc)
>>-eq-ok fault h = absurd (cc)
>>-eq-ok unfinished h = absurd (cc)

pub >>=-eq-ok {ℓ κ} :
    {A : Type ℓ} {B : Type κ} (m : Outcome A) {f : A → Outcome B} {b : B}
    → (m >>= f) ≡ ok b
    → (a : A) × (m ≡ ok a) × (f a ≡ ok b)
>>=-eq-ok (ok a) h = (a, refl, h)
>>=-eq-ok abort h = absurd (cc)
>>=-eq-ok exit h = absurd (cc)
>>=-eq-ok fault h = absurd (cc)
>>=-eq-ok unfinished h = absurd (cc)

-- An abort that the code behind it does not come from.
pub >>=-eq-abort {ℓ κ} :
    {A : Type ℓ} {B : Type κ} (m : Outcome A) (f : A → B)
    → (m >>= λ a. ok (f a)) ≡ abort
    → m ≡ abort
>>=-eq-abort (ok a) f h = absurd (cc)
>>=-eq-abort abort f h = refl
>>=-eq-abort exit f h = absurd (cc)
>>=-eq-abort fault f h = absurd (cc)
>>=-eq-abort unfinished f h = absurd (cc)

-- Two continuations that agree at the value that a step returns.
pub >>=-cong {ℓ κ} :
    {A : Type ℓ} {B : Type κ} (m : Outcome A) (f g : A → Outcome B)
    → ((a : A) → m ≡ ok a → f a ≡ g a)
    → (m >>= f) ≡ (m >>= g)
>>=-cong (ok a) f g h = h a refl
>>=-cong abort f g h = refl
>>=-cong exit f g h = refl
>>=-cong fault f g h = refl
>>=-cong unfinished f g h = refl

pub Returns-eq {ℓ} :
    {A : Type ℓ} {P : A → Type 0} (m : Outcome A) → Returns P m → (a : A) × (m ≡ ok a) × P a
Returns-eq (ok a) h = (a, refl, h)
Returns-eq abort h = absurd h
Returns-eq exit h = absurd h
Returns-eq fault h = absurd h
Returns-eq unfinished h = absurd h

pub Returns-map {ℓ} :
    {A : Type ℓ} {P Q : A → Type 0} (m : Outcome A)
    → Returns P m
    → ((a : A) → P a → Q a)
    → Returns Q m
Returns-map (ok a) h f = f a h
Returns-map abort h f = absurd h
Returns-map exit h f = absurd h
Returns-map fault h f = absurd h
Returns-map unfinished h f = absurd h

pub Returns->>= {ℓ κ} :
    {A : Type ℓ} {B : Type κ} {P : A → Type 0} (Q : B → Type 0) (m : Outcome A) (f : A → Outcome B)
    → Returns P m
    → ((a : A) → P a → Returns Q (f a))
    → Returns Q (m >>= f)
Returns->>= Q (ok a) f h k = k a h
Returns->>= Q abort f h k = absurd h
Returns->>= Q exit f h k = absurd h
Returns->>= Q fault f h k = absurd h
Returns->>= Q unfinished f h k = absurd h

-- The rules for `Ensures`, one for each way to build an outcome.
pub Ensures-ok {ℓ} : {A : Type ℓ} (P : A → Type 0) {a : A} → P a → Ensures P (ok a)
Ensures-ok P h b e = subst P (ok-injective e) h

pub Ensures-abort {ℓ} : {A : Type ℓ} (P : A → Type 0) → Ensures P abort
Ensures-abort P b e = absurd (cc)

pub Ensures-exit {ℓ} : {A : Type ℓ} (P : A → Type 0) → Ensures P exit
Ensures-exit P b e = absurd (cc)

pub Ensures->>= {ℓ κ} :
    {A : Type ℓ} {B : Type κ} {P : A → Type 0} (Q : B → Type 0) (m : Outcome A) {f : A → Outcome B}
    → Ensures P m
    → ((a : A) → P a → Ensures Q (f a))
    → Ensures Q (m >>= f)
Ensures->>= Q m h k b e = let (a, e1, e2) = >>=-eq-ok m e in k a (h a e1) b e2

pub Ensures->> {ℓ} :
    {B : Type ℓ} (Q : B → Type 0) (m : Outcome (Unit {0})) {k : Outcome B}
    → Ensures Q k
    → Ensures Q (m >> k)
Ensures->> Q m h b e = let (e1, e2) = >>-eq-ok m e in h b e2

pub Ensures-if {ℓ} :
    {A : Type ℓ} (P : A → Type 0) (b : Bool) {x y : Outcome A}
    → Ensures P x
    → Ensures P y
    → Ensures P (if b then x else y)
Ensures-if P true h k = h
Ensures-if P false h k = k

pub Ensures-elim {ℓ} :
    {A : Type ℓ} (P : A → Type 0) (b : Bool) {x y : Outcome A}
    → Ensures P x
    → Ensures P y
    → Ensures P (elim b [ true ↦ x | false ↦ y ])
Ensures-elim P true h k = h
Ensures-elim P false h k = k

-- The same for a value.
pub if-ensures {ℓ} :
    {A : Type ℓ} (P : A → Type 0) (b : Bool) {x y : A} → P x → P y → P (if b then x else y)
if-ensures P true h k = h
if-ensures P false h k = k
