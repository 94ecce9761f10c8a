-- ===== src/Work.antt =====
-- The time stamp of a work item in cgminer.c: the four bytes at 68 of its header, kept also as a
-- hexadecimal string for stratum. An `int` offset is its 32-bit pattern. A fault is `none`.
pub mod Ntime
pub mod Roll
mod Tests
use cgminer.Base.{
  ◌>>=◌, int_lt, ℕ, zero, suc, ◌+◌, ◌*◌, ◌%◌, ◌^◌, Bool, Option, none, some, List, [], ◌∷◌, ◌++◌,
  leb, if◌then◌else◌, get_or, length, take, drop, u8, u32, ◌>>>◌,
}
use cgminer.Hex.{bin2hex, bin2hex_into, hex2bin}

-- be32toh of the four bytes at a pointer, and htobe32.
pub be32toh : List ℕ → ℕ
be32toh bin =
    get_or bin 0 0 * 2 ^ 24 + get_or bin 1 0 * 2 ^ 16 + get_or bin 2 0 * 2 ^ 8 + get_or bin 3 0

pub htobe32 : ℕ → List ℕ
htobe32 x = u8 (x >>> 24) ∷ u8 (x >>> 16) ∷ u8 (x >>> 8) ∷ u8 x ∷ []

-- The four bytes of `bin` after the call of `hex2bin`, whose result is not looked at. `bin` is not
-- initialised: `garbage` is what it holds.
pub read_ntime : List ℕ → List ℕ → Option (List ℕ)
read_ntime garbage ntime = do r ← hex2bin 4 ntime; some (r.1 ++ drop (length r.1) garbage)

pub shift_bin : List ℕ → ℕ → List ℕ
unfolding be32toh htobe32
shift_bin bin noffset = htobe32 (u32 (be32toh bin + noffset))

-- The new string is written over the old one: eight characters and the end.
pub modify_ntime : List ℕ → List ℕ → ℕ → Option (List ℕ)
unfolding read_ntime shift_bin
modify_ntime garbage ntime noffset = do
  bin ← read_ntime garbage ntime
  s ← bin2hex_into (shift_bin bin noffset) 4
  if leb (length s) (length ntime) then some (s ++ drop (length s) ntime) else none

pub offset_ntime : List ℕ → List ℕ → ℕ → Option (List ℕ)
unfolding read_ntime shift_bin
offset_ntime garbage ntime noffset = do
  bin ← read_ntime garbage ntime
  bin2hex (shift_bin bin noffset) 4

-- The fields of `struct work` that these functions read or write.
pub record WorkItem : Type 0 where
  pub work_data : List ℕ
  pub ntime : Option (List ℕ)
  pub rolls : ℕ
  pub nonce : ℕ
  pub id : ℕ

pub record Counters : Type 0 where
  pub total_work : ℕ
  pub local_work : ℕ

pub total_work_inc : Counters → ℕ × Counters
total_work_inc c = (c.total_work, record c { total_work = u32 (c.total_work + 1) })

-- The bytes at 68 of the header, moved on by an offset.
pub roll_data : List ℕ → ℕ → List ℕ
unfolding shift_bin
roll_data work_data noffset =
    take 68 work_data ++ shift_bin (take 4 (drop 68 work_data)) noffset ++ drop 72 work_data

pub roll_string : List ℕ → Option (List ℕ) → ℕ → Option (Option (List ℕ))
unfolding modify_ntime
roll_string garbage none noffset = some none
roll_string garbage (some ntime) noffset = do s ← modify_ntime garbage ntime noffset; some (some s)

pub roll_work_ntime : List ℕ → WorkItem → Counters → ℕ → Option (WorkItem × Counters)
unfolding roll_data roll_string total_work_inc
roll_work_ntime garbage work c noffset = do
  s ← roll_string garbage work.ntime noffset
  let taken = total_work_inc (record c { local_work = u32 (c.local_work + 1) })
  some (
    record {
      work_data = roll_data work.work_data noffset;
      ntime = s;
      rolls = u32 (work.rolls + noffset);
      nonce = 0;
      id = taken.0;
    },
    taken.1,
  )

-- The same with an offset of one.
pub roll_work : List ℕ → WorkItem → Counters → Option (WorkItem × Counters)
unfolding roll_data roll_string total_work_inc
roll_work garbage work c = do
  s ← roll_string garbage work.ntime 1
  let taken = total_work_inc (record c { local_work = u32 (c.local_work + 1) })
  some (
    record {
      work_data = roll_data work.work_data 1;
      ntime = s;
      rolls = u32 (work.rolls + 1);
      nonce = 0;
      id = taken.0;
    },
    taken.1,
  )
