-- ===== src/Pic/Frame.antt =====
-- The packets to a controller, and their checksums.
use cgminer.Base.{
  ℕ, zero, suc, ◌+◌, ◌-◌, ◌/◌, ◌%◌, ◌^◌, ◌≤◌, ◌<◌, ◌≡◌, refl, sym, ap, ◌∙◌, arith, some, List, [],
  ◌∷◌, ◌++◌, length, take, drop, store, store_front, drop-next, drop-add, le→leb, length-drop,
  length-append, take-append_eq, drop-append_eq, le→not-ltb, ◌>>=◌, bind_of,
}
use cgminer.Pic.{
  Pic, send, sum_data, folded, pic_refresh_packet_check_summ, write_packet, transmit, call,
}

unfoldable pub total : List ℕ → ℕ
total [] = 0
total (b ∷ bytes) = b + total bytes

-- The last byte of a packet whose other bytes have this sum: the sum less its second byte.
abbrev pub check : ℕ → ℕ
check sum = (sum + 2 ^ 8 - sum / 2 ^ 8 % 2 ^ 8) % 2 ^ 8

abbrev pub check_of : ℕ → List ℕ → ℕ
check_of command payload = check (length payload + 3 + command + total payload)

-- A packet as it is sent: the preamble, the length of what follows it, the command, the payload, the check.
abbrev pub frame : ℕ → List ℕ → List ℕ
frame command payload =
    0x55 ∷ 0xaa ∷ (length payload + 3) ∷ command ∷ payload ++ (check_of command payload ∷ [])

folded-check : (sum : ℕ) → folded (sum % 2 ^ 32) ≡ check sum
unfolding folded
folded-check sum = ground arith

sum_data-total :
    (n i : ℕ) (bytes : List ℕ) (acc : ℕ)
    → i + n ≤ length bytes
    → acc < 2 ^ 32
    → sum_data n i bytes acc ≡ some ((acc + total (take n (drop i bytes))) % 2 ^ 32)
unfolding sum_data total
sum_data-total zero i bytes acc le small =
    let same : acc ≡ (acc + 0) % 2 ^ 32 = omega arith in ap some same
sum_data-total (suc n) i bytes acc le small =
    let (x, at, next) = drop-next i bytes (omega arith) in
    let same : ((acc + x) % 2 ^ 32 + total (take n (drop (i + 1) bytes))) % 2 ^ 32
        ≡ (acc + (x + total (take n (drop (i + 1) bytes)))) % 2 ^ 32 =
      omega arith in
    rw (at, next)
      (sum_data-total n (i + 1) bytes ((acc + x) % 2 ^ 32) (omega arith) (omega arith)
        ∙ ap some same)

-- The packet after the checksum of this payload was made.
abbrev pub filled : Pic → ℕ → List ℕ → Pic
filled pic command payload = record pic {
  packet_length = length payload + 3;
  packet_command = command;
  packet_data =
      payload ++ (check_of command payload ∷ []) ++ drop (length payload + 1) pic.packet_data;
}

pub refresh-filled :
    (pic : Pic) (command : ℕ) (payload : List ℕ)
    → length payload < 256
    → command < 256
    → length pic.packet_data ≡ 256
    → (store pic.packet_data 0 payload >>= λ packet_data.
        pic_refresh_packet_check_summ (record pic {
          packet_length = length payload + 3;
          packet_command = command;
          packet_data = packet_data;
        }))
      ≡ some (filled pic command payload)
unfolding pic_refresh_packet_check_summ
refresh-filled pic command payload short small size =
    let n = length payload in
    let rest = drop n pic.packet_data in
    let stored = store_front pic.packet_data payload (omega arith) in
    let long : length (payload ++ rest) ≡ 256 =
      omega (arith, length-append payload rest, length-drop n pic.packet_data) in
    let count : n + 3 - 3 ≡ n = omega arith in
    let summed =
      sum_data-total n 0 (payload ++ rest) (n + 3 + command) (omega arith) (omega arith) in
    let front = take-append_eq n payload rest refl in
    let room = le→leb (n + 1) (length (payload ++ rest)) (omega arith) in
    let behind : drop (n + 1) (payload ++ rest) ≡ drop (n + 1) pic.packet_data =
      drop-add n 1 (payload ++ rest)
      ∙ ap (drop 1) (drop-append_eq n payload rest refl)
      ∙ sym (drop-add n 1 pic.packet_data) in
    rw
      (
        stored,
        le→not-ltb (n + 3) 3 (omega arith),
        count,
        summed,
        front,
        folded-check (n + 3 + command + total payload),
        room,
        behind,
      )
      refl

-- A packet of this payload is written, and nothing else is done.
abbrev pub sent : Pic → ℕ → List ℕ → Pic
sent pic command payload = call (filled pic command payload) (send (frame command payload))

-- What write sends is the packet up to its check.
pub write-filled :
    (pic : Pic) (command : ℕ) (payload : List ℕ)
    → write_packet (filled pic command payload) ≡ sent pic command payload
unfolding write_packet
write-filled pic command payload =
    let n = length payload in
    let rest = drop (n + 1) pic.packet_data in
    let size : n + 3 + 2 ≡ suc (suc (suc (suc (n + 1)))) = omega arith in
    let front =
      take-append_eq (n + 1) (payload ++ (check_of command payload ∷ [])) rest
        (omega (arith, length-append payload (check_of command payload ∷ []))) in
    rw (size, front) refl

-- Sending a payload of no more than 252 bytes succeeds, and writes its packet.
pub transmit-sent :
    (pic : Pic) (command : ℕ) (payload : List ℕ)
    → length payload < 256
    → command < 256
    → length pic.packet_data ≡ 256
    → transmit pic (length payload + 3) command payload ≡ some (sent pic command payload)
unfolding transmit
transmit-sent pic command payload short small size =
    bind_of (store pic.packet_data 0 payload)
      (λ packet_data. pic_refresh_packet_check_summ (record pic {
        packet_length = length payload + 3;
        packet_command = command;
        packet_data = packet_data;
      }))
      (λ refreshed. some (write_packet refreshed)) (filled pic command payload)
      (refresh-filled pic command payload short small size)
    ∙ ap some (write-filled pic command payload)
