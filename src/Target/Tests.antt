-- ===== src/Target/Tests.antt =====
-- Comparing a hash and a target of 32 bytes.
use cgminer.Base.{ℕ, ◌≡◌, refl, true, some, List, ◌∷◌, leb, replicate, arith}
use cgminer.Target.{fulltest}
use cgminer.Target.Compare.{number, fulltest-compare}

abbrev low_hash : List ℕ
low_hash = 0xff ∷ replicate 31 2

abbrev high_target : List ℕ
high_target = 0 ∷ 3 ∷ replicate 30 2

accepted : fulltest low_hash high_target ≡ some true
unfolding fulltest
accepted = refl

fulltest-compare_example :
    fulltest low_hash high_target ≡ some (leb (number low_hash) (number high_target))
fulltest-compare_example =
    fulltest-compare low_hash high_target (omega arith) (omega arith) refl refl
