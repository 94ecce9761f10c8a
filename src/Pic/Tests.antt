-- ===== src/Pic/Tests.antt =====
-- Instances of the theorems on the controllers of driver-s19xph/pic.c, with one that reports 45.5 degrees.
use cgminer.Base.{ℕ, ◌≡◌, refl, List, [], ◌∷◌, replicate, some, arith, ◌>>=◌}
use cgminer.Pic.{Pic, Board}
use cgminer.Pic.Requests.{IsSized, perform, report_temperature}
use cgminer.Pic.Report.{after, perform-told}

abbrev given : ℕ → List ℕ
given k = 7 ∷ 0x3c ∷ 74 ∷ 45 ∷ 0x80 ∷ 0 ∷ 0 ∷ []

abbrev board : Board
board = record { temperature = replicate 4 0; pic_software_version = replicate 8 0 }

abbrev pic : Pic
pic = record {
  packet_length = 0;
  packet_command = 0;
  packet_data = replicate 256 0;
  pic_reply = replicate 32 0;
  boards = replicate 4 board;
  calls = [];
  reads = 0;
}

pic-IsSized : IsSized pic
pic-IsSized = record {
  data_size = refl;
  reply_size = refl;
  boards_size = refl;
  board_sizes = ((refl, refl), ((refl, refl), ((refl, refl), ((refl, refl), _))));
}

perform-told_example :
    (perform given pic 2 (report_temperature 1)
      ≡ some (after given pic 2 board (report_temperature 1)))
    × IsSized (after given pic 2 board (report_temperature 1))
perform-told_example =
    perform-told given pic 2 board (report_temperature 1) (omega arith) refl (omega arith)
      pic-IsSized
