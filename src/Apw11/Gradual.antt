-- ===== src/Apw11/Gradual.antt =====
-- The gradual change of the voltage, from any voltage to any other.
use cgminer.Base.{ℕ, ◌-◌, List, ltb, if◌then◌else◌}
use cgminer.Apw11.Steps.{upward, downward}

-- The voltages between two, those after the first up to the second.
abbrev pub voltages_between : ℕ → ℕ → List ℕ
voltages_between a b = if ltb a b then upward (b - a) a else downward (a - b) a
