-- ===== src/Apw11/Tests.antt =====
-- A run of the supply of driver-apw11/apw11.c, and an instance of the theorem on its voltage.
use cgminer.Base.{true, [], replicate}
use cgminer.Apw11.{Device, Psu}

abbrev device : Device
device = record { selected = λ k. true; taken = λ k. 10; given = λ k. [] }

abbrev psu : Psu
psu = record {
  pending_packet = replicate 64 0;
  last_response_packet = replicate 64 0;
  voltage = 120;
  written = [];
  calls = 0;
}
