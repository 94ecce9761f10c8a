-- ===== src/S21/Command.antt =====
-- The commands to the chips of a chain, as bytes with a checksum, and a chip that reads them.
use cgminer.Base.{
  ℕ, ◌+◌, ◌*◌, ◌≡◌, refl, ap, ◌∙◌, arith, true, Option, none, some, List, [], ◌∷◌, ◌++◌, ◌==◌,
  if◌then◌else◌, length, IsBytes, take-length, ◌>>=◌,
}
use cgminer.Crc.{crc5}
use cgminer.Crc.Lfsr.{shift_in, run, bytes_high}
use cgminer.Crc.Five.{usb}
use cgminer.Crc.FiveRun.{crc5-run}
use cgminer.S21.{with_crc5}

-- Whom a command is for: all the chips, or the one with this address.
pub data Target : Type 0 where
  every : Target
  chip : ℕ → Target

pub data Command : Type 0 where
  configure : Target → ℕ → ℕ → ℕ → ℕ → ℕ → Command
  ask : Target → ℕ → Command
  assign : ℕ → Command
  deactivate : Command

abbrev pub all_digit : Target → ℕ
all_digit every = 0x10
all_digit (chip a) = 0

-- `ask` goes to all the chips with the address that it was given.
abbrev pub address_of : Target → ℕ
address_of every = 0
address_of (chip a) = a

-- The bytes of a command without its preamble and checksum.
abbrev pub body : Command → List ℕ
body (configure t reg a b c d) = (0x41 + all_digit t) ∷ 9 ∷ address_of t ∷ reg ∷ a ∷ b ∷ c ∷ d ∷ []
body (ask t reg) = (0x42 + all_digit t) ∷ 5 ∷ address_of t ∷ reg ∷ []
body (assign a) = 0x40 ∷ 5 ∷ a ∷ 0 ∷ []
body deactivate = 0x53 ∷ 5 ∷ 0 ∷ 0 ∷ []

-- The checksum: the register of the reference over all the digits.
pub register : List ℕ → ℕ
register bytes = run (shift_in 4 usb) 0x1f (bytes_high bytes)

pub encode : Command → List ℕ
encode command = 0x55 ∷ 0xaa ∷ body command ++ (register (body command) ∷ [])

-- What a chip reads in a packet: its checksum must be right, and its header known.
abbrev target_at : ℕ → ℕ → Target
target_at digit a = if digit == 0 then chip a else every

pub decode_body : List ℕ → Option Command
decode_body (h ∷ n ∷ a ∷ reg ∷ []) =
    if h == 0x40
    then some (assign a)
    else if h == 0x53
    then some deactivate
    else if h == 0x42
    then some (ask (chip a) reg)
    else if h == 0x52
    then some (ask every reg)
    else none
decode_body (h ∷ n ∷ a ∷ reg ∷ b0 ∷ b1 ∷ b2 ∷ b3 ∷ []) =
    if h == 0x41
    then some (configure (chip a) reg b0 b1 b2 b3)
    else if h == 0x51
    then some (configure every reg b0 b1 b2 b3)
    else none
decode_body bytes = none

pub checked_body : List ℕ → Option (List ℕ)
checked_body (h ∷ n ∷ a ∷ reg ∷ crc ∷ []) =
    if register (h ∷ n ∷ a ∷ reg ∷ []) == crc then some (h ∷ n ∷ a ∷ reg ∷ []) else none
checked_body (h ∷ n ∷ a ∷ reg ∷ b0 ∷ b1 ∷ b2 ∷ b3 ∷ crc ∷ []) =
    if register (h ∷ n ∷ a ∷ reg ∷ b0 ∷ b1 ∷ b2 ∷ b3 ∷ []) == crc
    then some (h ∷ n ∷ a ∷ reg ∷ b0 ∷ b1 ∷ b2 ∷ b3 ∷ [])
    else none
checked_body bytes = none

pub decode : List ℕ → Option Command
unfolding decode_body checked_body
decode (p0 ∷ p1 ∷ bytes) =
    if p0 == 0x55 then if p1 == 0xaa then (checked_body bytes >>= decode_body) else none else none
decode bytes = none

length-bytes_high : (bytes : List ℕ) → length (bytes_high bytes) ≡ 8 * length bytes
length-bytes_high [] = refl
length-bytes_high (b ∷ bytes) = let more = length-bytes_high bytes in omega arith

crc5-register :
    (bytes : List ℕ) (bits : ℕ)
    → IsBytes bytes
    → 8 * length bytes ≡ bits
    → crc5 bytes bits ≡ some (register bytes)
unfolding register
crc5-register bytes bits small size =
    crc5-run bytes bits small (omega arith)
    ∙ ap (λ ds. some (run (shift_in 4 usb) 0x1f ds))
        (take-length bits (bytes_high bytes) (omega (arith, length-bytes_high bytes)))

-- A packet that the code builds is the packet of its command.
pub with_crc5-encode :
    (command : Command) (bits : ℕ)
    → IsBytes (body command)
    → 8 * length (body command) ≡ bits
    → with_crc5 (body command) bits ≡ some (encode command)
unfolding with_crc5 encode
with_crc5-encode command bits small size = rw (crc5-register (body command) bits small size) refl

eq_self : (n : ℕ) → (n == n) ≡ true
eq_self n = ground arith

-- A chip reads the command back from its packet.
pub decode-encode : (command : Command) → decode (encode command) ≡ some command
unfolding decode encode decode_body checked_body
decode-encode (configure every reg a b c d) =
    rw (eq_self (register (body (configure every reg a b c d)))) refl
decode-encode (configure (chip n) reg a b c d) =
    rw (eq_self (register (body (configure (chip n) reg a b c d)))) refl
decode-encode (ask every reg) = rw (eq_self (register (body (ask every reg)))) refl
decode-encode (ask (chip n) reg) = rw (eq_self (register (body (ask (chip n) reg)))) refl
decode-encode (assign n) = rw (eq_self (register (body (assign n)))) refl
decode-encode deactivate = rw (eq_self (register (body deactivate))) refl
