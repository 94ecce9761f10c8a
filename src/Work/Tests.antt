-- ===== src/Work/Tests.antt =====
-- The time stamp theorems at one work item, and an offset of minus one.
use cgminer.Base.{ℕ, ◌%◌, ◌^◌, ◌+◌, ◌≡◌, refl, arith, some, List, [], ◌∷◌, ◌++◌, replicate, u32}
use cgminer.Hex.{bin2hex_into, hex2bin, hex, hex2bin_tbl}
use cgminer.Work.{WorkItem, Counters, htobe32, modify_ntime, offset_ntime, roll_work_ntime}
use cgminer.Work.Ntime.{stamp, spelled, offset_ntime-spelled}
use cgminer.Work.Roll.{IsStamped, IsRolled, roll_work_ntime-IsStamped}

abbrev garbage : List ℕ
garbage = 1 ∷ 2 ∷ 3 ∷ 4 ∷ []

-- "504e86b9" with an offset of -1, whose pattern is 2^32 - 1, is "504e86b8".
one_back :
    modify_ntime garbage
      (0x35 ∷ 0x30 ∷ 0x34 ∷ 0x65 ∷ 0x38 ∷ 0x36 ∷ 0x62 ∷ 0x39 ∷ 0 ∷ [])
      0xffff_ffff
    ≡ some (0x35 ∷ 0x30 ∷ 0x34 ∷ 0x65 ∷ 0x38 ∷ 0x36 ∷ 0x62 ∷ 0x38 ∷ 0 ∷ [])
unfolding modify_ntime bin2hex_into hex2bin hex hex2bin_tbl
one_back = refl

offset_ntime-spelled_example :
    offset_ntime garbage (spelled 0xffff_ffff ++ (0 ∷ 7 ∷ [])) 3
    ≡ some (spelled ((0xffff_ffff + 3) % 2 ^ 32) ++ (0 ∷ 0 ∷ 0 ∷ 0 ∷ []))
offset_ntime-spelled_example =
    offset_ntime-spelled garbage 0xffff_ffff 3 (7 ∷ []) refl (omega arith)

abbrev item : WorkItem
item = record {
  work_data = replicate 68 9 ++ htobe32 0x504e86b9 ++ replicate 56 8;
  ntime = some (stamp 0x504e86b9 []);
  rolls = 0;
  nonce = 77;
  id = 3;
}

abbrev counters : Counters
counters = record { total_work = 12; local_work = 5 }

item-IsStamped : IsStamped item 0x504e86b9 []
unfolding htobe32
item-IsStamped = record {
  header = record { size = refl; reads = refl; small = omega arith };
  text = refl;
}

roll_work_ntime-IsStamped_example :
    (new : WorkItem) × (c' : Counters) × (roll_work_ntime garbage item counters 1 ≡ some (new, c'))
    × IsStamped new (u32 (0x504e86b9 + 1)) []
    × IsRolled counters item new 1
    × (c'.total_work ≡ u32 (12 + 1))
roll_work_ntime-IsStamped_example =
    roll_work_ntime-IsStamped garbage item counters 0x504e86b9 1 [] refl item-IsStamped
