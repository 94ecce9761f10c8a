-- ===== src/Work/Roll.antt =====
-- A work item is rolled by moving its time stamp on: in the header and, for stratum, in the string.
use cgminer.Base.{
  ℕ, ◌+◌, ◌^◌, ◌<◌, ◌≡◌, refl, ap, ◌∙◌, arith, some, List, ◌++◌, length, take, drop, u32,
  length-append, length-take, length-drop, take-append_eq, drop-append_eq, append_assoc,
}
use cgminer.Work.{
  htobe32, shift_bin, WorkItem, Counters, roll_data, roll_string, roll_work, roll_work_ntime,
  total_work_inc,
}
use cgminer.Work.Ntime.{stamp, length-htobe32, shift_bin-htobe32, modify_ntime-stamp}

-- The header of a work item whose time stamp is `x`.
pub record HasStamp (work_data : List ℕ) (x : ℕ) : Type 0 where
  pub size : length work_data ≡ 128
  pub reads : take 4 (drop 68 work_data) ≡ htobe32 x
  pub small : x < 2 ^ 32

module _ (d : List ℕ) (x noffset : ℕ) (s : HasStamp d x) where
  abbrev moved : ℕ
  moved = u32 (x + noffset)

  length-before : length (take 68 d) ≡ 68
  length-before = omega (arith, length-take 68 d, s.size)

  roll_data-parts : roll_data d noffset ≡ take 68 d ++ htobe32 moved ++ drop 72 d
  unfolding roll_data
  roll_data-parts =
      ap (λ m. take 68 d ++ m ++ drop 72 d)
        (ap (λ b. shift_bin b noffset) s.reads ∙ shift_bin-htobe32 x noffset s.small)

  roll_data-HasStamp : HasStamp (roll_data d noffset) moved
  roll_data-HasStamp = rw roll_data-parts (record {
    size = omega (
      arith,
      length-append (take 68 d ++ htobe32 moved) (drop 72 d),
      length-append (take 68 d) (htobe32 moved),
      length-before,
      length-htobe32 moved,
      length-drop 72 d,
      s.size,
    );
    reads =
        ap (λ t. take 4 (drop 68 t)) (append_assoc (take 68 d) (htobe32 moved) (drop 72 d))
        ∙ ap (take 4) (
            drop-append_eq 68 (take 68 d) (htobe32 moved ++ drop 72 d)
              (omega (arith, length-before)))
        ∙ take-append_eq 4 (htobe32 moved) (drop 72 d) (omega (arith, length-htobe32 moved));
    small = omega arith;
  })

  roll_data-same :
      (take 68 (roll_data d noffset) ≡ take 68 d) × (drop 72 (roll_data d noffset) ≡ drop 72 d)
  roll_data-same = rw roll_data-parts (
    ap (take 68) (append_assoc (take 68 d) (htobe32 moved) (drop 72 d))
        ∙ take-append_eq 68 (take 68 d) (htobe32 moved ++ drop 72 d) (omega (arith, length-before)),
    drop-append_eq 72 (take 68 d ++ htobe32 moved) (drop 72 d) (
        omega
          (arith, length-append (take 68 d) (htobe32 moved), length-before, length-htobe32 moved)),
  )

-- The header and the string of a stratum work item show the same time stamp.
pub record IsStamped (work : WorkItem) (x : ℕ) (rest : List ℕ) : Type 0 where
  pub header : HasStamp work.work_data x
  pub text : work.ntime ≡ some (stamp x rest)

-- What a work item keeps, and what it gets, when it is rolled.
pub record IsRolled (c : Counters) (old new : WorkItem) (noffset : ℕ) : Type 0 where
  pub front : take 68 new.work_data ≡ take 68 old.work_data
  pub back : drop 72 new.work_data ≡ drop 72 old.work_data
  pub rolls : new.rolls ≡ u32 (old.rolls + noffset)
  pub nonce : new.nonce ≡ 0
  pub id : new.id ≡ c.total_work

-- Rolling a stratum work item by an offset succeeds: the stamps of header and string both move on by
-- the offset in 32 bits, the rest of the header stays, the nonce is zero, the rolls are counted, and
-- the item has the next number, which is then used up.
pub roll_work_ntime-IsStamped :
    (garbage : List ℕ) (work : WorkItem) (c : Counters) (x noffset : ℕ) (rest : List ℕ)
    → length garbage ≡ 4
    → IsStamped work x rest
    → (new : WorkItem) × (c' : Counters) × (roll_work_ntime garbage work c noffset ≡ some (new, c'))
      × IsStamped new (u32 (x + noffset)) rest
      × IsRolled c work new noffset
      × (c'.total_work ≡ u32 (c.total_work + 1))
unfolding roll_work_ntime roll_string total_work_inc
roll_work_ntime-IsStamped garbage work c x noffset rest h s =
    let keep = roll_data-same work.work_data x noffset s.header in
    (
      record {
        work_data = roll_data work.work_data noffset;
        ntime = some (stamp (u32 (x + noffset)) rest);
        rolls = u32 (work.rolls + noffset);
        nonce = 0;
        id = c.total_work;
      },
      record { total_work = u32 (c.total_work + 1); local_work = u32 (c.local_work + 1) },
      rw (s.text, modify_ntime-stamp garbage x noffset rest h s.header.small),
      record { header = roll_data-HasStamp work.work_data x noffset s.header; text = refl },
      record { front = keep.0; back = keep.1; rolls = refl; nonce = refl; id = refl },
      refl,
    )

-- `roll_work` is the same with an offset of one.
pub roll_work-eq :
    (garbage : List ℕ) (work : WorkItem) (c : Counters)
    → roll_work garbage work c ≡ roll_work_ntime garbage work c 1
unfolding roll_work roll_work_ntime
roll_work-eq garbage work c = refl
