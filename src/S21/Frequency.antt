-- ===== src/S21/Frequency.antt =====
-- The clock of a chain is set from the table.
use cgminer.Base.{
  ℕ, ◌*◌, ◌/◌, ◌^◌, ◌<◌, ◌≡◌, refl, arith, Bool, true, false, some, [], ◌∷◌, ◌==◌, if◌then◌else◌,
  leb, length, length-set, set, get_elem?,
}
use cgminer.S21.{Miner, Board, set_frequency_by_index_on_chain}
use cgminer.S21.Pll.{PllFreq, freq_pll_1368, pll_setting_index_from_frequency}
use cgminer.S21.Pll.Search.{IsFirst, pll_setting_index-IsFirst}
use cgminer.S21.Sent.{tell, word, word-tell}

-- The result of a change: the board remembers whole MHz, and the word of the setting is sent to all its chips.
abbrev pub tuned : Miner → ℕ → Board → PllFreq → Miner
tuned miner n board s =
    if board.frequency == s.frequency / 4
    then miner
    else tell
        (record miner {
          boards = set miner.boards n (record board { frequency = s.frequency / 4 });
        })
        n (word 0x08 s.vilpll ∷ [])

both :
    (same : Bool) (a b : Miner) → (if same then some a else some b) ≡ some (if same then a else b)
both true a b = refl
both false a b = refl

-- For a chain that exists: setting the frequency by the index that was searched for `frequency` succeeds. The setting
-- is the first in the table with that frequency or more, or else the last. Where the board has its whole MHz nothing
-- changes; else the board has it then, and its word is sent to all the chips.
pub set_frequency-tuned :
    (miner : Miner) (n frequency : ℕ) (board : Board)
    → get_elem? miner.boards n ≡ some board
    → n < length miner.boards
    → (found : IsFirst
        (λ s. leb frequency (s.frequency * 2 ^ 18))
        freq_pll_1368
        (pll_setting_index_from_frequency frequency))
      × (set_frequency_by_index_on_chain miner n (pll_setting_index_from_frequency frequency)
          ≡ some (tuned miner n board found.setting))
unfolding set_frequency_by_index_on_chain
set_frequency-tuned miner n frequency board at lt =
    let found = (pll_setting_index-IsFirst frequency 0).0 in
    let s = found.setting in
    let miner' = record miner {
      boards = set miner.boards n (record board { frequency = s.frequency / 4 });
    } in
    let sent =
      word-tell miner' n 0x08 s.vilpll
        (omega (arith, length-set miner.boards n (record board { frequency = s.frequency / 4 })))
        (omega arith) in
    (found, rw (found.at, at, sent) (both (board.frequency == s.frequency / 4) miner _))
