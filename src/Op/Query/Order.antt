-- ===== src/Op/Query/Order.antt =====
-- The order of `less?` (src/olvm.c).
use ol.Common.{ℕ, ◌≡◌, ◌⊎◌, arith, ltb, if◌then◌else◌}
use ol.Word.{is_value}
use ol.Word.Types.{itrue, ifalse}
use ol.Op.Query.{less}

-- `a` comes before `b`
abbrev pub Less : ℕ → ℕ → Type 0
Less a b = less a b ≡ itrue

-- The order of `less?` is irreflexive, transitive and total, and its answer is #true or #false; `get` orders keys as
-- numbers, which is the same among values and among references.
pub less-IsOrder :
    (a b c : ℕ)
    → (less a a ≡ ifalse)
      × (Less a b → Less b c → Less a c)
      × (Less a b ⊎ ((a ≡ b) ⊎ Less b a))
      × (is_value a ≡ is_value b → less a b ≡ (if ltb a b then itrue else ifalse))
unfolding less
less-IsOrder a b c = (ground arith, ground arith, ground arith, ground arith)
