-- ===== src/Prelude/Outcomes.antt =====
-- How a call of the program ends: with a value, or by one of the ways in which the process stops.
use mathlib.Core.Logic.{◌≢◌}
use mathlib.Core.Path.{◌≡◌, refl, ap}
use mathlib.Core.Bool.{Bool, true, false}
use mathlib.Core.Option.{Option, none, some}

pub data Fault : Type 0 where
  -- `ASSERT` or `FATAL` of common/macros.h: the process exits.
  assertion : Fault
  -- A null pointer is dereferenced.
  null_pointer : Fault
  -- `std::array::at` throws inside a `noexcept` function: the process terminates.
  out_of_range : Fault
  -- The model's own bound on a loop is used up.
  out_of_fuel : Fault

pub data Outcome {ℓ} (A : Type ℓ) : Type ℓ where
  ok : A → Outcome A
  failed : Fault → Outcome A

infixl 5 ◌>>=◌ ◌>>◌
abbrev pub ◌>>=◌ {ℓ κ} : {A : Type ℓ} {B : Type κ} → Outcome A → (A → Outcome B) → Outcome B
ok a >>= k = k a
failed fault >>= k = failed fault

abbrev pub ◌>>◌ {ℓ} : {B : Type ℓ} → Outcome (Unit {0}) → Outcome B → Outcome B
m >> k = m >>= λ _. k

-- `ASSERT(cond, msg)`
abbrev pub assert : Bool → Outcome (Unit {0})
assert true = ok tt
assert false = failed assertion

-- The bounds check of `std::array::at`.
abbrev pub in_range : Bool → Outcome (Unit {0})
in_range true = ok tt
in_range false = failed out_of_range

-- `*p`, or a member access `p->m`, of a pointer that may be null.
abbrev pub deref {ℓ} : {A : Type ℓ} → Option A → Outcome A
deref none = failed null_pointer
deref (some a) = ok a

-- A chain that succeeds: so does its first part, and its second on the result.
pub >>=-eq-ok {ℓ κ} :
    {A : Type ℓ} {B : Type κ} (first : Outcome A) (rest : A → Outcome B) {y : B}
    → (first >>= rest) ≡ ok y
    → (x : A) × (first ≡ ok x) × (rest x ≡ ok y)
>>=-eq-ok (ok x) rest e = (x, refl, e)
>>=-eq-ok (failed fault) rest e = cc

fault_of {ℓ} : {B : Type ℓ} (x y : Fault) → ◌≡◌ {A = Outcome B} (failed x) (failed y) → x ≡ y
fault_of x y e = cc

-- A chain has no fault that neither part has.
pub >>=-≢ {ℓ κ} :
    {A : Type ℓ} {B : Type κ} (fault : Fault) (m : Outcome A) (f : A → Outcome B)
    → m ≢ failed fault
    → ((a : A) → m ≡ ok a → f a ≢ failed fault)
    → (m >>= f) ≢ failed fault
>>=-≢ fault (ok a) f hm hf e = hf a refl e
>>=-≢ fault (failed e') f hm hf e = hm (ap (λ x. failed x) (fault_of e' fault e))

pub deref-fuel {ℓ} : {A : Type ℓ} (p : Option A) → deref p ≢ failed out_of_fuel
deref-fuel none e = cc
deref-fuel (some a) e = cc

pub >>=-cong {ℓ κ} :
    {A : Type ℓ} {B : Type κ} (first : Outcome A) (f g : A → Outcome B)
    → ((a : A) → f a ≡ g a)
    → (first >>= f) ≡ (first >>= g)
>>=-cong (ok a) f g h = h a
>>=-cong (failed fault) f g h = refl

pub >>=-assoc {ℓ κ ι} :
    {A : Type ℓ} {B : Type κ} {C : Type ι} (first : Outcome A) (f : A → Outcome B)
    (g : B → Outcome C)
    → ((first >>= f) >>= g) ≡ (first >>= λ a. f a >>= g)
>>=-assoc (ok a) f g = refl
>>=-assoc (failed fault) f g = refl
