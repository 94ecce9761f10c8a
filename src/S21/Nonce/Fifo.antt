-- ===== src/S21/Nonce/Fifo.antt =====
-- The ring of nonces as a queue.
use cgminer.Base.{
  ℕ, zero, suc, ◌+◌, ◌-◌, ◌%◌, ◌≤◌, ◌<◌, ◌≡◌, ◌≢◌, refl, sym, ap, ap₂, ◌∙◌, append_assoc,
  append-nil, arith, Option, some, List, [], ◌∷◌, ◌++◌, length, get_or, get_elem?-get_or, set,
  length-set, store_one, lt→ltb, ≢→not-==, ◌>>=◌,
}
use cgminer.S21.Nonce.{
  NonceResult, NonceFifo, max_nonce_number, next, push_nonce, scan_loop, s21_scanwork,
}

abbrev pub blank : NonceResult
blank = record {
  nonce = 0;
  unknown_field1 = 0;
  unknown_field2 = 0;
  version = 0;
  crc = 0;
  board_id = 0;
}

-- `n` cells of the ring from the index `i` on.
unfoldable pub window : ℕ → ℕ → List NonceResult → List NonceResult
window zero i cells = []
window (suc n) i cells = get_or cells i blank ∷ window n (next i) cells

-- What waits to be read.
abbrev pub unread : NonceFifo → List NonceResult
unread fifo = window fifo.nonce_num fifo.p_rd fifo.nonce_data

pub record IsRing (fifo : NonceFifo) : Type 0 where
  pub size : length fifo.nonce_data ≡ max_nonce_number
  pub write_in : fifo.p_wr < max_nonce_number
  pub read_in : fifo.p_rd < max_nonce_number
  pub count_in : fifo.nonce_num ≤ max_nonce_number

-- The next write is right behind what waits to be read.
abbrev pub IsInStep : NonceFifo → Type 0
IsInStep fifo = fifo.p_wr ≡ (fifo.p_rd + fifo.nonce_num) % max_nonce_number

pub get-set_other :
    (cells : List NonceResult) (i j : ℕ) (r : NonceResult)
    → i ≢ j
    → get_or (set cells j r) i blank ≡ get_or cells i blank
get-set_other [] i j r ne = refl
get-set_other (c ∷ cells) zero zero r ne = absurd (ne refl)
get-set_other (c ∷ cells) zero (suc j) r ne = refl
get-set_other (c ∷ cells) (suc i) zero r ne = refl
get-set_other (c ∷ cells) (suc i) (suc j) r ne =
    get-set_other cells i j r (λ same. ne (ap suc same))

pub get-set_same :
    (cells : List NonceResult) (i : ℕ) (r : NonceResult)
    → i < length cells
    → get_or (set cells i r) i blank ≡ r
get-set_same [] i r lt = absurd (omega arith)
get-set_same (c ∷ cells) zero r lt = refl
get-set_same (c ∷ cells) (suc i) r lt = get-set_same cells i r (omega arith)

pub next-lt : (i : ℕ) → i < max_nonce_number → next i < max_nonce_number
next-lt i lt = ground arith

pub next-mod : (i : ℕ) → i < max_nonce_number → next i ≡ (i + 1) % max_nonce_number
next-mod i lt = ground arith

pub window-first :
    (n m i : ℕ) (cells : List NonceResult)
    → n ≡ suc m
    → window n i cells ≡ get_or cells i blank ∷ window m (next i) cells
unfolding window
window-first n m i cells is = rw is refl

-- A write at a cell that is no nearer than `n` changes nothing in the window.
pub window-set :
    (n i j : ℕ) (cells : List NonceResult) (r : NonceResult)
    → i < max_nonce_number
    → j < max_nonce_number
    → n ≤ (j + max_nonce_number - i) % max_nonce_number
    → window n i (set cells j r) ≡ window n i cells
unfolding window
window-set zero i j cells r i_lt j_lt far = refl
window-set (suc n) i j cells r i_lt j_lt far =
    let ne : i ≢ j = λ same. omega (arith, same) in
    rw (get-set_other cells i j r ne) (
      ap (λ rs. get_or cells i blank ∷ rs)
        (window-set n (next i) j cells r (next-lt i i_lt) j_lt (omega (arith, next-mod i i_lt))))

-- A longer window.
window-snoc :
    (n i : ℕ) (cells : List NonceResult)
    → i < max_nonce_number
    → window (n + 1) i cells
      ≡ window n i cells ++ (get_or cells ((i + n) % max_nonce_number) blank ∷ [])
unfolding window
window-snoc zero i cells lt =
    let here : (i + 0) % max_nonce_number ≡ i = omega arith in rw here refl
window-snoc (suc n) i cells lt =
    let more : suc n + 1 ≡ suc (n + 1) = omega arith in
    let same : (next i + n) % max_nonce_number ≡ (i + suc n) % max_nonce_number =
      omega (arith, next-mod i lt) in
    rw more (
      ap (λ rs. get_or cells i blank ∷ rs)
        (window-snoc n (next i) cells (next-lt i lt)
          ∙ ap (λ k. window n (next i) cells ++ (get_or cells k blank ∷ [])) same))

-- A ring in step that is not full takes a nonce behind the others.
pub record IsPushed (fifo : NonceFifo) (result : NonceResult) : Type 0 where
  pub fifo' : NonceFifo
  pub returns : push_nonce fifo result ≡ some fifo'
  pub ring : IsRing fifo'
  pub in_step : IsInStep fifo'
  pub count : fifo'.nonce_num ≡ fifo.nonce_num + 1
  pub contents : unread fifo' ≡ unread fifo ++ (result ∷ [])

pub push_nonce-IsPushed :
    (fifo : NonceFifo) (result : NonceResult)
    → IsRing fifo
    → IsInStep fifo
    → fifo.nonce_num < max_nonce_number
    → IsPushed fifo result
unfolding push_nonce
push_nonce-IsPushed fifo result ring in_step room =
    let cells = set fifo.nonce_data fifo.p_wr result in
    let wr_in : fifo.p_wr < length fifo.nonce_data = omega (arith, ring.size, ring.write_in) in
    let there = store_one fifo.nonce_data fifo.p_wr result wr_in in
    let fifo' : NonceFifo = record fifo {
      p_wr = next fifo.p_wr;
      nonce_num = fifo.nonce_num + 1;
      nonce_data = cells;
    } in
    record {
      fifo' = fifo';
      returns = rw (there, lt→ltb fifo.nonce_num max_nonce_number room) refl;
      ring = record {
        size = length-set fifo.nonce_data fifo.p_wr result ∙ ring.size;
        write_in = next-lt fifo.p_wr ring.write_in;
        read_in = ring.read_in;
        count_in = omega arith;
      };
      in_step = next-mod fifo.p_wr ring.write_in ∙ omega (arith, in_step);
      count = refl;
      contents =
          window-snoc fifo.nonce_num fifo.p_rd cells ring.read_in
          ∙ ap₂ (λ rs r. rs ++ (r ∷ []))
              (window-set fifo.nonce_num fifo.p_rd fifo.p_wr fifo.nonce_data result ring.read_in
                ring.write_in (omega (arith, in_step)))
              (ap (λ i. get_or cells i blank) (sym in_step)
                ∙ get-set_same fifo.nonce_data fifo.p_wr result wr_in);
    }

-- The nonces that are submitted one after the other.
abbrev pub submit_all {ℓ} : {S : Type ℓ} → (NonceResult → S → S) → List NonceResult → S → S
submit_all submit [] s = s
submit_all submit (r ∷ results) s = submit_all submit results (submit r s)

-- The ring after all was read.
abbrev pub drained : NonceFifo → NonceFifo
drained fifo = record fifo { p_rd = (fifo.p_rd + fifo.nonce_num) % max_nonce_number; nonce_num = 0 }

scan-drained {ℓ} :
    {S : Type ℓ} (submit : NonceResult → S → S) (fuel n p_wr p_rd : ℕ) (cells : List NonceResult)
    (s : S)
    → n < fuel
    → p_rd < max_nonce_number
    → length cells ≡ max_nonce_number
    → scan_loop fuel submit
        (record { p_wr = p_wr; p_rd = p_rd; nonce_num = n; nonce_data = cells })
        s
      ≡ some (
        record {
          p_wr = p_wr;
          p_rd = (p_rd + n) % max_nonce_number;
          nonce_num = 0;
          nonce_data = cells;
        },
        submit_all submit (window n p_rd cells) s,
      )
unfolding scan_loop window
scan-drained submit zero n p_wr p_rd cells s enough lt size = absurd (omega arith)
scan-drained submit (suc fuel) zero p_wr p_rd cells s enough lt size =
    let here : p_rd ≡ (p_rd + 0) % max_nonce_number = omega arith in
    ap (λ i. some (record { p_wr = p_wr; p_rd = i; nonce_num = 0; nonce_data = cells }, s)) here
scan-drained submit (suc fuel) (suc n) p_wr p_rd cells s enough lt size =
    let same : (next p_rd + n) % max_nonce_number ≡ (p_rd + suc n) % max_nonce_number =
      omega (arith, next-mod p_rd lt) in
    let less : suc n - 1 ≡ n = omega arith in
    rw
      (
        scan_loop,
        ≢→not-== (suc n) 0 (ground arith),
        get_elem?-get_or cells p_rd blank (omega arith),
        less,
      )
      (scan-drained submit fuel n p_wr (next p_rd) cells (submit (get_or cells p_rd blank) s)
          (omega arith) (next-lt p_rd lt) size
        ∙ ap
            (λ i. some (
              record { p_wr = p_wr; p_rd = i; nonce_num = 0; nonce_data = cells },
              submit_all submit (window n (next p_rd) cells) (submit (get_or cells p_rd blank) s),
            ))
            same)

-- A ring is read empty: its nonces are submitted in order.
pub s21_scanwork-drained {ℓ} :
    {S : Type ℓ} (submit : NonceResult → S → S) (fifo : NonceFifo) (s : S)
    → IsRing fifo
    → s21_scanwork submit fifo s ≡ some (drained fifo, submit_all submit (unread fifo) s)
unfolding s21_scanwork
s21_scanwork-drained submit fifo s ring =
    scan-drained submit (max_nonce_number + 1) fifo.nonce_num fifo.p_wr fifo.p_rd fifo.nonce_data s
      (omega (arith, ring.count_in)) ring.read_in ring.size

pub drained-IsRing : (fifo : NonceFifo) → IsRing fifo → IsRing (drained fifo)
drained-IsRing fifo ring = record {
  size = ring.size;
  write_in = ring.write_in;
  read_in = omega arith;
  count_in = omega arith;
}

-- The nonces that are received one after the other.
abbrev pub push_all : NonceFifo → List NonceResult → Option NonceFifo
push_all fifo [] = some fifo
push_all fifo (r ∷ results) = push_nonce fifo r >>= λ fifo'. push_all fifo' results

-- A ring in step has room for these nonces: they are all taken, and then all that was there and they are submitted
-- in the order in which they came; the ring is empty then, and in step again.
pub push_all-s21_scanwork :
    {S : Type 0} (submit : NonceResult → S → S) (fifo : NonceFifo) (results : List NonceResult)
    (s : S)
    → IsRing fifo
    → IsInStep fifo
    → fifo.nonce_num + length results ≤ max_nonce_number
    → (empty : NonceFifo) × ((push_all fifo results >>= λ full. s21_scanwork submit full s)
        ≡ some (empty, submit_all submit (unread fifo ++ results) s))
      × IsRing empty
      × IsInStep empty
      × (empty.nonce_num ≡ 0)
push_all-s21_scanwork submit fifo [] s ring in_step room = (
  drained fifo,
  s21_scanwork-drained submit fifo s ring
      ∙ ap (λ rs. some (drained fifo, submit_all submit rs s)) (sym (append-nil (unread fifo))),
  drained-IsRing fifo ring,
  omega (arith, in_step),
  refl,
)
push_all-s21_scanwork submit fifo (r ∷ results) s ring in_step room =
    let one = push_nonce-IsPushed fifo r ring in_step (omega arith) in
    let (empty, run, empty_ring, empty_step, none_left) =
      push_all-s21_scanwork submit one.fifo' results s one.ring one.in_step
        (omega (arith, one.count)) in
    (
      empty,
      rw one.returns (
          run
          ∙ ap (λ rs. some (empty, submit_all submit rs s))
              (ap (λ rs. rs ++ results) one.contents
                ∙ append_assoc (unread fifo) (r ∷ []) results)),
      empty_ring,
      empty_step,
      none_left,
    )
