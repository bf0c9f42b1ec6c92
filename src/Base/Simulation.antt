-- ===== src/Base/Simulation.antt =====
-- Two pieces of code that end alike: both with values that are related, or both in the same way.
use mathlib.Core.Path.{◌≡◌, refl, subst}
use nemu_riscv.Base.Outcomes.{
  Outcome, ok, abort, exit, fault, unfinished, ◌>>=◌, Returns, IsDefined, ok-injective,
}

abbrev pub Simulates {ℓ κ} :
    {A : Type ℓ} {B : Type κ} → (A → B → Type 0) → Outcome A → Outcome B → Type 0
Simulates R (ok a) (ok b) = R a b
Simulates R abort abort = Unit {0}
Simulates R exit exit = Unit {0}
Simulates R fault fault = Unit {0}
Simulates R unfinished unfinished = Unit {0}
Simulates R _ _ = ⊥

-- The same first step on both sides.
pub Simulates-same {ℓ κ μ} :
    {A : Type ℓ} {B : Type κ} {C : Type μ} (R : B → C → Type 0) (m : Outcome A) (f : A → Outcome B)
    (g : A → Outcome C)
    → ((a : A) → m ≡ ok a → Simulates R (f a) (g a))
    → Simulates R (m >>= f) (m >>= g)
Simulates-same R (ok a) f g h = h a refl
Simulates-same R abort f g h = tt
Simulates-same R exit f g h = tt
Simulates-same R fault f g h = tt
Simulates-same R unfinished f g h = tt

-- First steps that end alike.
pub Simulates->>= {ℓ κ μ ν} :
    {A : Type ℓ} {B : Type κ} {C : Type μ} {D : Type ν} {Q : A → B → Type 0} (R : C → D → Type 0)
    (m : Outcome A) (m' : Outcome B) (f : A → Outcome C) (g : B → Outcome D)
    → Simulates Q m m'
    → ((a : A) (b : B) → Q a b → Simulates R (f a) (g b))
    → Simulates R (m >>= f) (m' >>= g)
Simulates->>= R (ok a) (ok b) f g h k = k a b h
Simulates->>= R abort abort f g h k = tt
Simulates->>= R exit exit f g h k = tt
Simulates->>= R fault fault f g h k = tt
Simulates->>= R unfinished unfinished f g h k = tt
Simulates->>= R _ _ f g h k = absurd h

-- A first step of the second side alone, which returns.
pub Simulates-right {ℓ κ μ} :
    {A : Type ℓ} {B : Type κ} {C : Type μ} {P : B → Type 0} (R : A → C → Type 0) (m : Outcome A)
    (m' : Outcome B) (g : B → Outcome C)
    → Returns P m'
    → ((b : B) → P b → Simulates R m (g b))
    → Simulates R m (m' >>= g)
Simulates-right R m (ok b) g h k = k b h
Simulates-right R m abort g h k = absurd h
Simulates-right R m exit g h k = absurd h
Simulates-right R m fault g h k = absurd h
Simulates-right R m unfinished g h k = absurd h

-- What holds of every pair of values.
pub Simulates-map {ℓ κ} :
    {A : Type ℓ} {B : Type κ} {Q : A → B → Type 0} (R : A → B → Type 0) (m : Outcome A)
    (m' : Outcome B)
    → Simulates Q m m'
    → ((a : A) (b : B) → Q a b → R a b)
    → Simulates R m m'
Simulates-map R (ok a) (ok b) h k = k a b h
Simulates-map R abort abort h k = tt
Simulates-map R exit exit h k = tt
Simulates-map R fault fault h k = tt
Simulates-map R unfinished unfinished h k = tt
Simulates-map R _ _ h k = absurd h

-- Where a part of the second value is the first value, it is computed alike.
pub Simulates-eq {κ} :
    {A : Type 0} {B : Type κ} (f : B → A) (m : Outcome A) (m' : Outcome B)
    → Simulates (λ a b. f b ≡ a) m m'
    → (m' >>= λ b. ok (f b)) ≡ m
Simulates-eq f (ok a) (ok b) h = λ i. ok (h i)
Simulates-eq f abort abort h = refl
Simulates-eq f exit exit h = refl
Simulates-eq f fault fault h = refl
Simulates-eq f unfinished unfinished h = refl
Simulates-eq f _ _ h = absurd h

-- Where the first side is defined, the second is.
pub Simulates-IsDefined {ℓ κ} :
    {A : Type ℓ} {B : Type κ} (R : A → B → Type 0) (m : Outcome A) (m' : Outcome B)
    → Simulates R m m'
    → IsDefined m
    → IsDefined m'
Simulates-IsDefined R fault m' h d = absurd d
Simulates-IsDefined R unfinished m' h d = absurd d
Simulates-IsDefined R (ok a) (ok b) h d = tt
Simulates-IsDefined R abort abort h d = tt
Simulates-IsDefined R exit exit h d = tt
Simulates-IsDefined R _ _ h d = absurd h

-- Where the first side returns, the second does.
pub Simulates-Returns {ℓ κ} :
    {A : Type ℓ} {B : Type κ} (R : A → B → Type 0) (P : B → Type 0) (m : Outcome A) (m' : Outcome B)
    (a : A)
    → Simulates R m m'
    → m ≡ ok a
    → ((b : B) → R a b → P b)
    → Returns P m'
Simulates-Returns R P (ok c) (ok b) a h e k = k b (subst (λ t. R t b) (ok-injective e) h)
Simulates-Returns R P abort abort a h e k = absurd (cc)
Simulates-Returns R P exit exit a h e k = absurd (cc)
Simulates-Returns R P fault fault a h e k = absurd (cc)
Simulates-Returns R P unfinished unfinished a h e k = absurd (cc)
Simulates-Returns R P _ _ a h e k = absurd h
