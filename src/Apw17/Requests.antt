-- ===== src/Apw17/Requests.antt =====
-- The supply hears the bytes of a request, one transfer for each.
use cgminer.Base.{
  ℕ, zero, suc, ◌+◌, ◌≤◌, ◌<◌, ◌≡◌, refl, sym, subst, append_assoc, append-nil, arith, Bool, false,
  Option, some, List, [], ◌∷◌, ◌++◌, ltb, length, take, drop, IsBytes, store, store-some,
  le→not-ltb, length-append, length-drop, ◌>>=◌, bind_of, u8, u16, ◌>>>◌,
}
use cgminer.Softi2c.{Bus, i2c_write_single_byte, i2c_start, i2c_stop}
use cgminer.Softi2c.Transfer.{IsQuiet, write_two-IsQuiet}
use cgminer.Apw17.{
  Psu, dev_addr, reg_addr, length_of, send_byte, send_bytes, send_packet, sum_bytes, set_check_summ,
  receive_packet, exchange, something_01, identification, measure_voltage, jump_from_loader_to_app,
  measure_power, something_0a, something_81,
}
use cgminer.Apw17.Receive.{
  answer, answers, reads, Answered, no_preamble, too_short, whole, overflow,
  receive_packet-Answered, length-answers,
}

-- The transfers that write these bytes to the register.
abbrev pub frames : List ℕ → List (List ℕ)
frames [] = []
frames (b ∷ bytes) = (0x20 ∷ 0x11 ∷ b ∷ []) ∷ frames bytes

send_bytes-IsQuiet :
    (n : ℕ) (bytes : List ℕ) (bus : Bus) (done : List (List ℕ))
    → IsBytes (take n bytes)
    → IsQuiet bus done
    → IsQuiet (send_bytes n bytes bus) (done ++ frames (take n bytes))
      × ((send_bytes n bytes bus).samples ≡ bus.samples)
unfolding send_bytes send_byte i2c_write_single_byte i2c_start i2c_stop
send_bytes-IsQuiet zero bytes bus done small q =
    (subst (IsQuiet bus) (sym (append-nil done)) q, refl)
send_bytes-IsQuiet (suc n) [] bus done small q =
    (subst (IsQuiet bus) (sym (append-nil done)) q, refl)
send_bytes-IsQuiet (suc n) (b ∷ bytes) bus done (lt, small) q =
    let one = write_two-IsQuiet bus done dev_addr reg_addr b (omega arith) (omega arith) lt q in
    let (rest, same) =
      send_bytes-IsQuiet n bytes (send_byte bus b) (done ++ frames (b ∷ [])) small one in
    (
      subst (IsQuiet (send_bytes n bytes (send_byte bus b)))
          (append_assoc done (frames (b ∷ [])) (frames (take n bytes))) rest,
      same,
    )

-- Both packets have 64 bytes, and the supply has heard the transfers `done`.
pub record IsReady (psu : Psu) (done : List (List ℕ)) : Type 0 where
  pub quiet : IsQuiet psu.bus done
  pub pending_size : length psu.pending_packet ≡ 64
  pub response_size : length psu.last_response_packet ≡ 64

-- A request is heard as these bytes, followed by the reads of the answer.
pub record IsHeard (result : Option Psu) (done : List (List ℕ)) (bytes : List ℕ) : Type 0 where
  pub psu : Psu
  pub returns : result ≡ some psu
  pub count : ℕ
  pub ready : IsReady psu (done ++ frames bytes ++ reads count)

-- The supply announces no more bytes than a packet has room for.
abbrev pub FitsPacket : (ℕ → Bool) → Psu → Type 0
FitsPacket sda_value psu = answer sda_value (psu.bus.samples + 16) ≤ 62

send_packet-IsQuiet :
    (packet : List ℕ) (n : ℕ) (bus : Bus) (done : List (List ℕ))
    → length_of packet + 2 ≡ n
    → n ≤ 64
    → IsBytes (take n packet)
    → IsQuiet bus done
    → IsQuiet (send_packet packet bus) (done ++ frames (take n packet))
      × ((send_packet packet bus).samples ≡ bus.samples)
unfolding send_packet
send_packet-IsQuiet packet n bus done total room small q =
    let no_cut : ltb 64 (length_of packet + 2) ≡ false = le→not-ltb _ _ (omega arith) in
    rw (no_cut, total) (send_bytes-IsQuiet n packet bus done small q)

answered-IsHeard :
    (sda_value : ℕ → Bool) (psu : Psu) (done : List (List ℕ)) (packet bytes : List ℕ) (bus : Bus)
    → length packet ≡ 64
    → length psu.last_response_packet ≡ 64
    → answer sda_value (bus.samples + 16) ≤ 62
    → Answered sda_value psu.last_response_packet bus (done ++ frames bytes)
    → IsHeard
        (receive_packet sda_value psu.last_response_packet bus >>= λ r.
          some (record psu { bus = r.2; pending_packet = packet; last_response_packet = r.1 }))
        done
        bytes
answered-IsHeard sda_value psu done packet bytes bus size old fits (no_preamble bus' at ne eq) =
    record {
      psu = record psu {
        bus = bus';
        pending_packet = packet;
        last_response_packet =
            answers sda_value 2 bus.samples ++ (0 ∷ 0 ∷ drop 4 psu.last_response_packet);
      };
      returns = rw eq refl;
      count = 2;
      ready = record {
        quiet = at.quiet;
        pending_size = size;
        response_size = omega (arith, length-drop 4 psu.last_response_packet);
      };
    }
answered-IsHeard sda_value psu done packet bytes bus size old fits (too_short bus' at le eq) =
    record {
      psu = record psu {
        bus = bus';
        pending_packet = packet;
        last_response_packet =
            answers sda_value 2 bus.samples ++ (0 ∷ 0 ∷ drop 4 psu.last_response_packet);
      };
      returns = rw eq refl;
      count = 3;
      ready = record {
        quiet = at.quiet;
        pending_size = size;
        response_size = omega (arith, length-drop 4 psu.last_response_packet);
      };
    }
answered-IsHeard sda_value psu done packet bytes bus size old fits (whole bus' n is_n at lt le eq) =
    record {
      psu = record psu {
        bus = bus';
        pending_packet = packet;
        last_response_packet =
            answers sda_value (n + 2) bus.samples ++ drop (n + 2) psu.last_response_packet;
      };
      returns = rw eq refl;
      count = n + 2;
      ready = record {
        quiet = at.quiet;
        pending_size = size;
        response_size = omega (
          arith,
          length-append (answers sda_value (n + 2) bus.samples)
              (drop (n + 2) psu.last_response_packet),
          length-answers sda_value (n + 2) bus.samples,
          length-drop (n + 2) psu.last_response_packet,
        );
      };
    }
answered-IsHeard sda_value psu done packet bytes bus size old fits (overflow lt eq) =
    absurd (omega arith)

exchange-IsHeard :
    (sda_value : ℕ → Bool) (psu : Psu) (done : List (List ℕ)) (fields packet : List ℕ) (n : ℕ)
    → (store psu.pending_packet 0 fields >>= set_check_summ) ≡ some packet
    → length packet ≡ 64
    → length_of packet + 2 ≡ n
    → n ≤ 64
    → IsBytes (take n packet)
    → IsReady psu done
    → FitsPacket sda_value psu
    → IsHeard (exchange sda_value psu fields) done (take n packet)
unfolding exchange
exchange-IsHeard sda_value psu done fields packet n filled size total room small ready fits =
    let (heard, same) = send_packet-IsQuiet packet n psu.bus done total room small ready.quiet in
    let bus = send_packet packet psu.bus in
    subst (λ r. IsHeard r done (take n packet))
      (sym (bind_of (store psu.pending_packet 0 fields) set_check_summ _ packet filled))
      (answered-IsHeard sda_value psu done packet (take n packet) bus size ready.response_size
        (rw same fits)
        (receive_packet-Answered sda_value psu.last_response_packet bus
          (done ++ frames (take n packet)) ready.response_size heard))

-- The requests without an argument.
pub data Request : Type 0 where
  ask_01 ask_identification ask_voltage jump_to_app ask_power ask_0a ask_81 : Request

pub make : Request → (ℕ → Bool) → Psu → Option Psu
make ask_01 sda_value psu = something_01 sda_value psu
make ask_identification sda_value psu = identification sda_value psu
make ask_voltage sda_value psu = do r ← measure_voltage sda_value psu; some r.1
make jump_to_app sda_value psu = jump_from_loader_to_app sda_value psu
make ask_power sda_value psu = do r ← measure_power sda_value psu; some r.1
make ask_0a sda_value psu = something_0a sda_value psu
make ask_81 sda_value psu = something_81 sda_value psu

-- The bytes that the comments of the source list for a request.
abbrev pub documented : Request → List ℕ
documented ask_01 = 0x55 ∷ 0xaa ∷ 0x04 ∷ 0x01 ∷ 0x05 ∷ 0x00 ∷ []
documented ask_identification = 0x55 ∷ 0xaa ∷ 0x04 ∷ 0x02 ∷ 0x06 ∷ 0x00 ∷ []
documented ask_voltage = 0x55 ∷ 0xaa ∷ 0x04 ∷ 0x04 ∷ 0x08 ∷ 0x00 ∷ []
documented jump_to_app = 0x55 ∷ 0xaa ∷ 0x06 ∷ 0x06 ∷ 0x00 ∷ 0x20 ∷ 0x2c ∷ 0x00 ∷ []
documented ask_power = 0x55 ∷ 0xaa ∷ 0x04 ∷ 0x08 ∷ 0x0c ∷ 0x00 ∷ []
documented ask_0a = 0x55 ∷ 0xaa ∷ 0x04 ∷ 0x0a ∷ 0x0e ∷ 0x00 ∷ []
documented ask_81 = 0x55 ∷ 0xaa ∷ 0x06 ∷ 0x81 ∷ 0x00 ∷ 0x00 ∷ 0x87 ∷ 0x00 ∷ []

-- A request of four bytes behind the preamble.
four-IsHeard :
    (sda_value : ℕ → Bool) (psu : Psu) (done : List (List ℕ)) (command : ℕ)
    → command < 256
    → IsReady psu done
    → FitsPacket sda_value psu
    → IsHeard
        (exchange sda_value psu (0x55 ∷ 0xaa ∷ 4 ∷ command ∷ 0 ∷ 0 ∷ 0 ∷ 0 ∷ []))
        done
        (0x55 ∷ 0xaa ∷ 4 ∷ command ∷ u8 (4 + command) ∷ u8 ((4 + command) >>> 8) ∷ [])
unfolding set_check_summ sum_bytes
four-IsHeard sda_value psu done command small ready fits =
    let tail = drop 8 psu.pending_packet in
    let tail_size : length tail ≡ 56 =
      omega (arith, length-drop 8 psu.pending_packet, ready.pending_size) in
    let filled =
      store-some psu.pending_packet 0 (0x55 ∷ 0xaa ∷ 4 ∷ command ∷ 0 ∷ 0 ∷ 0 ∷ 0 ∷ [])
        (omega (arith, ready.pending_size)) in
    let checked =
      store-some (0x55 ∷ 0xaa ∷ 4 ∷ command ∷ 0 ∷ 0 ∷ 0 ∷ 0 ∷ tail) 4
        (u8 (u16 (4 + command)) ∷ u8 (u16 (4 + command) >>> 8) ∷ []) (omega (arith, tail_size)) in
    let sum : u16 (4 + command) ≡ 4 + command = omega arith in
    exchange-IsHeard sda_value psu done _
      (0x55 ∷ 0xaa ∷ 4 ∷ command ∷ u8 (4 + command) ∷ u8 ((4 + command) >>> 8) ∷ 0 ∷ 0 ∷ tail) 6
      (rw (filled, checked, sum) refl) (omega (arith, tail_size)) refl (omega arith) (omega arith)
      ready fits

-- A request of six bytes, with what the packet holds behind them.
six-IsHeard :
    (sda_value : ℕ → Bool) (psu : Psu) (done : List (List ℕ)) (command d0 d1 : ℕ) (fields : List ℕ)
    → command < 256
    → d0 < 256
    → d1 < 256
    → (rest : List ℕ)
    → store psu.pending_packet 0 fields ≡ some (0x55 ∷ 0xaa ∷ 6 ∷ command ∷ d0 ∷ d1 ∷ rest)
    → length rest ≡ 58
    → IsReady psu done
    → FitsPacket sda_value psu
    → IsHeard (exchange sda_value psu fields) done (
        0x55
        ∷ 0xaa
        ∷ 6
        ∷ command
        ∷ d0
        ∷ d1
        ∷ u8 (6 + command + d0 + d1)
        ∷ u8 ((6 + command + d0 + d1) >>> 8)
        ∷ [])
unfolding set_check_summ sum_bytes
six-IsHeard sda_value psu done command d0 d1 fields c_lt d0_lt d1_lt rest filled size ready fits =
    let checked =
      store-some (0x55 ∷ 0xaa ∷ 6 ∷ command ∷ d0 ∷ d1 ∷ rest) 6
        (u8 (u16 (u16 (u16 (6 + command) + d0) + d1))
          ∷ u8 (u16 (u16 (u16 (6 + command) + d0) + d1) >>> 8)
          ∷ [])
        (omega (arith, size)) in
    let sum : u16 (u16 (u16 (6 + command) + d0) + d1) ≡ 6 + command + d0 + d1 = omega arith in
    exchange-IsHeard sda_value psu done fields
      (0x55
        ∷ 0xaa
        ∷ 6
        ∷ command
        ∷ d0
        ∷ d1
        ∷ u8 (6 + command + d0 + d1)
        ∷ u8 ((6 + command + d0 + d1) >>> 8)
        ∷ drop 2 rest)
      8 (rw (filled, checked, sum) refl) (omega (arith, size, length-drop 2 rest)) refl
      (omega arith) (omega arith) ready fits

abbrev with_value : (Psu → ℕ) → Psu → Option (ℕ × Psu)
with_value f psu = some (f psu, psu)

abbrev psu_of : ℕ × Psu → Option Psu
psu_of r = some r.1

-- A measurement makes its request, and reads its result off the answer.
measured-IsHeard :
    (f : Psu → ℕ) (result : Option Psu) (done : List (List ℕ)) (bytes : List ℕ)
    → IsHeard result done bytes
    → IsHeard ((result >>= with_value f) >>= psu_of) done bytes
measured-IsHeard f result done bytes h = record {
  psu = h.psu;
  returns = rw h.returns refl;
  count = h.count;
  ready = h.ready;
}

-- On a quiet bus, with packets of 64 bytes, and if the supply announces no more than 62 bytes, every
-- request without an argument succeeds. The supply hears the bytes that the source documents, each in
-- a transfer of its own, then reads of its answer; the bus is quiet again and the packets keep their size.
pub make-IsHeard :
    (request : Request) (sda_value : ℕ → Bool) (psu : Psu) (done : List (List ℕ))
    → IsReady psu done
    → FitsPacket sda_value psu
    → IsHeard (make request sda_value psu) done (documented request)
unfolding make something_01 identification measure_voltage jump_from_loader_to_app measure_power
    something_0a something_81
make-IsHeard ask_01 sda_value psu done ready fits =
    four-IsHeard sda_value psu done 0x01 (omega arith) ready fits
make-IsHeard ask_identification sda_value psu done ready fits =
    four-IsHeard sda_value psu done 0x02 (omega arith) ready fits
make-IsHeard ask_voltage sda_value psu done ready fits =
    measured-IsHeard _ _ done _ (four-IsHeard sda_value psu done 0x04 (omega arith) ready fits)
make-IsHeard jump_to_app sda_value psu done ready fits =
    six-IsHeard sda_value psu done 0x06 0x00 0x20 (0x55 ∷ 0xaa ∷ 6 ∷ 0x06 ∷ 0x00 ∷ 0x20 ∷ [])
      (omega arith) (omega arith) (omega arith) (drop 6 psu.pending_packet)
      (store-some psu.pending_packet 0 (0x55 ∷ 0xaa ∷ 6 ∷ 0x06 ∷ 0x00 ∷ 0x20 ∷ [])
        (omega (arith, ready.pending_size)))
      (omega (arith, length-drop 6 psu.pending_packet, ready.pending_size)) ready fits
make-IsHeard ask_power sda_value psu done ready fits =
    measured-IsHeard _ _ done _ (four-IsHeard sda_value psu done 0x08 (omega arith) ready fits)
make-IsHeard ask_0a sda_value psu done ready fits =
    four-IsHeard sda_value psu done 0x0a (omega arith) ready fits
make-IsHeard ask_81 sda_value psu done ready fits =
    six-IsHeard sda_value psu done 0x81 0 0 (0x55 ∷ 0xaa ∷ 6 ∷ 0x81 ∷ 0 ∷ 0 ∷ 0 ∷ 0 ∷ [])
      (omega arith) (omega arith) (omega arith) (0 ∷ 0 ∷ drop 8 psu.pending_packet)
      (store-some psu.pending_packet 0 (0x55 ∷ 0xaa ∷ 6 ∷ 0x81 ∷ 0 ∷ 0 ∷ 0 ∷ 0 ∷ [])
        (omega (arith, ready.pending_size)))
      (omega (arith, length-drop 8 psu.pending_packet, ready.pending_size)) ready fits
