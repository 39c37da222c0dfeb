-- ===== src/Prelude/Tables.antt =====
-- A property of every byte, or of every number below a bound, settled by running its test on each.
use Prim.Native.Nat.{ℕ, zero, suc, ◌<◌}
use mathlib.Core.Path.{◌≡◌}
use mathlib.Core.Bool.{Bool, true, ◌&&◌}
use native.Mathlib.Omega.{arith}

unfoldable pub passes_to : (ℕ → Bool) → ℕ → Bool
passes_to test zero = true
passes_to test (suc bound) = passes_to test bound && test bound

-- A test that passes on all of them passes on each.
pub passes_at :
    (test : ℕ → Bool) {bound k : ℕ} → k < bound → passes_to test bound ≡ true → test k ≡ true
unfolding passes_to
passes_at test {bound = zero} below table = absurd (omega arith)
passes_at test {bound = suc bound} {k = k} below table =
    let earlier : k < bound → test k ≡ true = λ inside. passes_at test inside (ground arith) in
    ground (arith, earlier)
