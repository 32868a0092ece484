-- ===== src/Base/Order.antt =====
-- The order of texts by their characters' codes, as SQLite's binary collation has it.
use Prim.Native.Char.{code}
use Prim.Native.String.{String, [] as ε, ◌∷◌ as ◌◂◌}
use mathlib.Core.Path.{◌≡◌, refl}
use mathlib.Core.Bool.{Bool, true, false, ◌&&◌, ◌||◌}
use native.Mathlib.Omega.{arith}
use text.Mathlib.TextEquality.{codes_equal}
use symphonika.Base.Tests.{ltb, ◌==◌}

unfoldable pub precedes : String → String → Bool
precedes ε ε = false
precedes ε (d ◂ t) = true
precedes (c ◂ s) ε = false
precedes (c ◂ s) (d ◂ t) = ltb (code c) (code d) || (code c == code d && precedes s t)

pub precedes_irrefl : (s : String) → precedes s s ≡ false
unfolding precedes
precedes_irrefl ε = refl
precedes_irrefl (c ◂ s) = ground (arith, precedes_irrefl s)

-- Two texts of which neither comes first are one.
pub precedes_total : (s t : String) → precedes s t ≡ false → precedes t s ≡ false → s ≡ t
unfolding precedes
precedes_total ε ε h k = refl
precedes_total ε (d ◂ t) h k = absurd (ground arith)
precedes_total (c ◂ s) ε h k = absurd (ground arith)
precedes_total (c ◂ s) (d ◂ t) h k =
    let first : c ≡ d = codes_equal c d (ground arith) in
    let rest : s ≡ t = precedes_total s t (ground arith) (ground arith) in rw (first, rest) refl
