-- ===== src/Coinbase/Tests.antt =====
-- A block number on concrete memory.
use cgminer.Base.{ℕ, ◌≡◌, some, List, arith, [], ◌∷◌, replicate}
use cgminer.Coinbase.{ser_number}
use cgminer.Coinbase.Height.{IsWritten, ser_number-IsWritten}

ser_number-IsWritten_example :
    (used : ℕ) × (m : List ℕ) × (ser_number (replicate 9 7) 300000 ≡ some (used, m))
    × IsWritten used m 300000 (7 ∷ 7 ∷ 7 ∷ 7 ∷ [])
ser_number-IsWritten_example =
    ser_number-IsWritten (replicate 9 7) 300000 (omega arith) (omega arith)
