-- ===== src/S21/Nonce/Overflow.antt =====
-- The ring after it overflows.
use cgminer.Base.{
  ℕ, ◌+◌, ◌-◌, ◌%◌, ◌≤◌, ◌≡◌, ◌≢◌, refl, ap, ap₂, ◌∙◌, arith, some, [], ◌∷◌, get_or, set,
  length-set, store_one, le→not-ltb, lt→ltb, ◌>>=◌,
}
use cgminer.S21.Nonce.{NonceResult, NonceFifo, max_nonce_number, next, push_nonce, s21_scanwork}
use cgminer.S21.Nonce.Fifo.{
  IsRing, IsInStep, unread, window, window-first, window-set, blank, drained, submit_all,
  s21_scanwork-drained, drained-IsRing, next-lt, get-set_same, get-set_other, next-mod,
}

-- A push that finds the ring full or not, with the count that follows.
abbrev after : NonceFifo → NonceResult → ℕ → NonceFifo
after fifo result count = record fifo {
  p_wr = next fifo.p_wr;
  nonce_num = count;
  nonce_data = set fifo.nonce_data fifo.p_wr result;
}

after-IsRing :
    (fifo : NonceFifo) (result : NonceResult) (count : ℕ)
    → count ≤ max_nonce_number
    → IsRing fifo
    → IsRing (after fifo result count)
after-IsRing fifo result count le ring = record {
  size = length-set fifo.nonce_data fifo.p_wr result ∙ ring.size;
  write_in = next-lt fifo.p_wr ring.write_in;
  read_in = ring.read_in;
  count_in = le;
}

push_full :
    (fifo : NonceFifo) (result : NonceResult)
    → IsRing fifo
    → fifo.nonce_num ≡ max_nonce_number
    → push_nonce fifo result ≡ some (after fifo result max_nonce_number)
unfolding push_nonce
push_full fifo result ring full =
    let there =
      store_one fifo.nonce_data fifo.p_wr result (omega (arith, ring.size, ring.write_in)) in
    rw (there, le→not-ltb fifo.nonce_num max_nonce_number (omega arith), full) refl

push_empty :
    (fifo : NonceFifo) (result : NonceResult)
    → IsRing fifo
    → fifo.nonce_num ≡ 0
    → push_nonce fifo result ≡ some (after fifo result 1)
unfolding push_nonce
push_empty fifo result ring empty =
    let there =
      store_one fifo.nonce_data fifo.p_wr result (omega (arith, ring.size, ring.write_in)) in
    rw (there, lt→ltb fifo.nonce_num max_nonce_number (omega arith))
      (let one : fifo.nonce_num + 1 ≡ 1 = omega arith in rw one refl)

-- One nonce more than the ring in step can hold, then a nonce once all was read: the second reading gives the first
-- of these two again, and the second is not read.
pub overflow-repeats :
    {S : Type 0} (submit : NonceResult → S → S) (fifo : NonceFifo) (one two : NonceResult) (s t : S)
    → IsRing fifo
    → IsInStep fifo
    → fifo.nonce_num ≡ max_nonce_number
    → (empty : NonceFifo) × (later : NonceFifo) × ((push_nonce fifo one >>= λ full.
          s21_scanwork submit full s)
        ≡ some (
          empty,
          submit_all submit
              (one ∷ window (max_nonce_number - 1) (next fifo.p_rd) fifo.nonce_data)
              s,
        ))
      × ((push_nonce empty two >>= λ again. s21_scanwork submit again t)
          ≡ some (later, submit one t))
unfolding window
overflow-repeats submit fifo one two s t ring in_step full =
    let i = fifo.p_rd in
    let met : fifo.p_wr ≡ i = omega (arith, in_step, ring.read_in) in
    let crowded = after fifo one max_nonce_number in
    let crowded_ring = after-IsRing fifo one max_nonce_number (omega arith) ring in
    let empty = drained crowded in
    let empty_ring = drained-IsRing crowded crowded_ring in
    let last = after empty two 1 in
    let last_ring = after-IsRing empty two 1 (omega arith) empty_ring in
    let back : (i + max_nonce_number) % max_nonce_number ≡ i = omega (arith, ring.read_in) in
    let cell : get_or (set fifo.nonce_data fifo.p_wr one) i blank ≡ one =
      ap (λ j. get_or (set fifo.nonce_data j one) i blank) met
      ∙ get-set_same fifo.nonce_data i one (omega (arith, ring.size, ring.read_in)) in
    let others =
      window-set (max_nonce_number - 1) (next i) fifo.p_wr fifo.nonce_data one
        (next-lt i ring.read_in) ring.write_in (omega (arith, next-mod i ring.read_in)) in
    let cells = set fifo.nonce_data fifo.p_wr one in
    let apart : i ≢ next fifo.p_wr =
      λ same. omega (arith, same, met, next-mod fifo.p_wr ring.write_in) in
    let again : unread last ≡ one ∷ [] =
      window-first 1 0 empty.p_rd (set cells (next fifo.p_wr) two) refl
      ∙ ap (λ r. r ∷ [])
          (ap (λ j. get_or (set cells (next fifo.p_wr) two) j blank) back
            ∙ get-set_other cells i (next fifo.p_wr) two apart
            ∙ cell) in
    (
      empty,
      drained last,
      rw (push_full fifo one ring full) (
          s21_scanwork-drained submit crowded s crowded_ring
          ∙ ap (λ rs. some (empty, submit_all submit rs s))
              (window-first max_nonce_number (max_nonce_number - 1) i
                  (set fifo.nonce_data fifo.p_wr one) refl
                ∙ ap₂ ◌∷◌ cell others)),
      rw (push_empty empty two empty_ring refl) (
          s21_scanwork-drained submit last t last_ring
          ∙ ap (λ rs. some (drained last, submit_all submit rs t)) again),
    )
