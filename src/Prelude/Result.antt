-- ===== src/Prelude/Result.antt =====
-- What a call ends in: a value, an exception, a behaviour that C++ leaves undefined, or no end within
-- the fuel or at all. `Run R` adds the state `R` of the random generator, which every caller shares.
use Prim.Native.String.{String}
use mathlib.Core.Bool.{Bool, true, false}
use zkfactorization.Prelude.Tests.{if◌then◌else◌}
use mathlib.Core.Path.{◌≡◌, refl, sym, ap, ◌∙◌}

-- `protocol` is the class of protocol.h, `timed_protocol` the class of the same name in the
-- namespace `timed_commitment`; `standard` is a bare `std::exception`, and `divide_by_zero` is
-- `CryptoPP::Integer::DivideByZero`, `invalid_ciphertext` the exception of the padding.
pub data Exception : Type 0 where
  protocol timed_protocol sanity paillier : String → Exception
  standard divide_by_zero invalid_ciphertext : Exception

pub data Result {ℓ} (A : Type ℓ) : Type ℓ where
  ok : A → Result A
  throw : Exception → Result A
  undefined hangs : Result A

abbrev pub bind {ℓ κ} : {A : Type ℓ} {B : Type κ} → Result A → (A → Result B) → Result B
bind (ok a) f = f a
bind (throw e) f = throw e
bind undefined f = undefined
bind hangs f = hangs

pub ok-injective {ℓ} : {A : Type ℓ} {a b : A} → ok a ≡ ok b → a ≡ b
ok-injective h = cc

-- Inversion of a call that returned.
pub bind-eq-ok {ℓ κ} :
    {A : Type ℓ} {B : Type κ} (call : Result A) (next : A → Result B) {last : B}
    → bind call next ≡ ok last
    → (first : A) × (call ≡ ok first) × (next first ≡ ok last)
bind-eq-ok undefined next returns = cc
bind-eq-ok hangs next returns = cc
bind-eq-ok (throw e) next returns = cc
bind-eq-ok (ok first) next returns = (first, refl, returns)

abbrev pub Run : Type 0 → Type 0 → Type 0
Run R A = R → Result (A × R)

abbrev pub pure : {R A : Type 0} → A → Run R A
pure a s = ok (a, s)

-- Runs in sequence, for `do` blocks.
infixl 5 ◌>>=◌ ◌>>◌
abbrev pub ◌>>=◌ : {R A B : Type 0} → Run R A → (A → Run R B) → Run R B
◌>>=◌ first next rng = bind (first rng) λ done. next done.0 done.1

abbrev pub ◌>>◌ : {R B : Type 0} → Run R (Unit {0}) → Run R B → Run R B
first >> next = first >>= λ done. next

-- A call that only computes, and a check that throws unless it holds.
abbrev pub from_result : {R A : Type 0} → Result A → Run R A
from_result result rng = bind result λ a. ok (a, rng)

abbrev pub require : {R : Type 0} → Bool → Exception → Run R (Unit {0})
require holds why rng = if holds then ok (tt, rng) else throw why

-- A run on one half of the state.
abbrev pub on_first : {R W A : Type 0} → Run R A → Run (R × W) A
on_first run state = bind (run state.0) λ done. ok (done.0, (done.1, state.1))

abbrev pub on_second : {R W A : Type 0} → Run W A → Run (R × W) A
on_second run state = bind (run state.1) λ done. ok (done.0, (state.0, done.1))

pub on_first-eq-ok :
    {R W A : Type 0} (run : Run R A) (state : R × W) {done : A × (R × W)}
    → on_first run state ≡ ok done
    → run state.0 ≡ ok (done.0, done.1.0)
on_first-eq-ok run state h =
    let (first, e, rest) = bind-eq-ok (run state.0) _ h in
    e ∙ ap (λ x. ok (x.0, x.1.0)) (ok-injective rest)

pub on_second-eq-ok :
    {R W A : Type 0} (run : Run W A) (state : R × W) {done : A × (R × W)}
    → on_second run state ≡ ok done
    → run state.1 ≡ ok (done.0, done.1.1)
on_second-eq-ok run state h =
    let (first, e, rest) = bind-eq-ok (run state.1) _ h in
    e ∙ ap (λ x. ok (x.0, x.1.1)) (ok-injective rest)

pub from_result-eq-ok :
    {R A : Type 0} (result : Result A) (rng : R) {done : A × R}
    → from_result result rng ≡ ok done
    → result ≡ ok done.0
from_result-eq-ok result rng h =
    let (a, e, same) = bind-eq-ok result _ h in e ∙ ap (λ x. ok x.0) (ok-injective same)

pub require-holds :
    {R : Type 0} (holds : Bool) (why : Exception) (rng : R) {done : Unit {0} × R}
    → require holds why rng ≡ ok done
    → holds ≡ true
require-holds true why rng h = refl
require-holds false why rng h = cc

pub require-same :
    {R : Type 0} (holds : Bool) (why : Exception) (rng : R) {done : Unit {0} × R}
    → require holds why rng ≡ ok done
    → done.1 ≡ rng
require-same true why rng h = sym (ap (λ x. x.1) (ok-injective h))
require-same false why rng h = cc
