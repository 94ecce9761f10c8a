-- ===== src/Sha2/Update.antt =====
-- `sha256_update` takes in its bytes, however the message is cut into calls.
use cgminer.Base.{
  ℕ, ◌+◌, ◌-◌, ◌*◌, ◌/◌, ◌%◌, ◌^◌, ◌≤◌, ◌<◌, ◌≡◌, refl, sym, ap, ap₂, ◌∙◌, arith, some, List, [],
  ◌++◌, ltb, lt→ltb, le→not-ltb, ltb→lt, not-ltb→le, length, take, drop, length-drop, length-take,
  length-append, take-add, take-append-drop, take-length, append_assoc, u32, Bool-cases, inl, inr,
}
use native.Mathlib.Nat.{mul_comm}
use cgminer.Sha2.{Sha256Ctx, sha256_h0, compress, sha256_init, sha256_full, sha256_update}
use cgminer.Sha2.Copy.{memcpy-some, length-memcpy, take-memcpy}
use cgminer.Sha2.Blocks.{fold_blocks, transf-fold, fold-append, Holds}

-- A context that has just been set up has taken in nothing.
pub init-Holds : (ctx : Sha256Ctx) → length ctx.block ≡ 128 → Holds (sha256_init ctx) []
unfolding sha256_init
init-Holds ctx h = record {
  blocks = 0;
  whole = [];
  pending = [];
  split = refl;
  whole_length = refl;
  pending_length = omega arith;
  len = refl;
  tot_len = refl;
  size = h;
  kept = refl;
  hashed = refl;
}

module _ (ctx : Sha256Ctx) (pre message : List ℕ) (len : ℕ) (fits : len ≤ length message) where
  small-Holds :
      (c : Holds ctx pre)
      → ctx.len + len < 64
      → Holds
          (record ctx {
            len = ctx.len + len;
            block = take ctx.len ctx.block ++ take len message ++ drop (ctx.len + len) ctx.block;
          })
          (pre ++ take len message)
  small-Holds c small =
      let room : ctx.len + len ≤ length ctx.block = omega (arith, c.size) in
      let pending_size : length (c.pending ++ take len message) ≡ ctx.len + len =
        omega (arith, length-append c.pending (take len message), length-take len message, c.len) in
      record {
        blocks = c.blocks;
        whole = c.whole;
        pending = c.pending ++ take len message;
        split =
            ap (λ t. t ++ take len message) c.split
            ∙ append_assoc c.whole c.pending (take len message);
        whole_length = c.whole_length;
        pending_length = omega (arith, pending_size);
        len = omega (arith, pending_size);
        tot_len = c.tot_len;
        size = length-memcpy ctx.block ctx.len message len fits room ∙ c.size;
        kept =
            take-memcpy ctx.block ctx.len message len (ctx.len + len) fits room refl
            ∙ ap (λ t. t ++ take len message) c.kept;
        hashed = c.hashed;
      }

  -- The block is filled up by `room` bytes, and `shifted` are the bytes behind those.
  module _ (c : Holds ctx pre) (room : ℕ) (fill : ctx.len + room ≡ 64) (enough : room ≤ len)
      (small : len ≤ 2 ^ 31) where
    abbrev shifted : List ℕ
    shifted = drop room message

    abbrev first : List ℕ
    first = c.pending ++ take room message

    abbrev count : ℕ
    count = (len - room) / 64

    abbrev left : ℕ
    left = (len - room) % 64

    abbrev whole' : List ℕ
    whole' = c.whole ++ first ++ take (64 * count) shifted

    abbrev pending' : List ℕ
    pending' = take left (drop (64 * count) shifted)

    length-shifted : length shifted ≡ length message - room
    length-shifted = length-drop room message

    length-first : length first ≡ 64
    length-first =
        omega (arith, length-append c.pending (take room message), length-take room message, c.len)

    whole_length' : length whole' ≡ 64 * (c.blocks + (1 + count))
    whole_length' = omega (
      arith,
      length-append (c.whole ++ first) (take (64 * count) shifted),
      length-append c.whole first,
      length-take (64 * count) shifted,
      length-shifted,
      length-first,
      c.whole_length,
    )

    split' : pre ++ take len message ≡ whole' ++ pending'
    split' =
        ap₂ (λ s t. s ++ t) c.split
          (take-add room (len - room) len message (omega arith)
            ∙ ap (λ t. take room message ++ t)
                (take-add (64 * count) left (len - room) shifted (omega arith)))
        ∙ simp append_assoc

    hashed' :
        fold_blocks count (compress ctx.h first) shifted
        ≡ fold_blocks (c.blocks + (1 + count)) sha256_h0 whole'
    hashed' =
        let tail = take (64 * count) shifted in
        let before = c.whole ++ first in
        let tail_length : length tail ≡ 64 * count =
          omega (arith, length-take (64 * count) shifted, length-shifted) in
        let before_length : length before ≡ 64 * (c.blocks + 1) =
          omega (arith, length-append c.whole first, length-first, c.whole_length) in
        ap (fold_blocks count (compress ctx.h first)) (sym (take-append-drop (64 * count) shifted))
        ∙ fold-append count 0 count (compress ctx.h first) tail (drop (64 * count) shifted)
            (omega arith) tail_length
        ∙ ap₂ (λ h m. fold_blocks count (compress h m) tail) c.hashed
            (sym (take-length 64 first (omega (arith, length-first))))
        ∙ sym (
            ap (λ h. fold_blocks count h tail)
              (fold-append c.blocks 1 (c.blocks + 1) sha256_h0 c.whole first refl c.whole_length))
        ∙ sym (
            fold-append (c.blocks + 1) count (c.blocks + (1 + count)) sha256_h0 before tail
              (omega arith) before_length)

    -- The block after the first copy, and after the second.
    abbrev filled : List ℕ
    filled = take ctx.len ctx.block ++ take room message ++ drop (ctx.len + room) ctx.block

    abbrev refilled : List ℕ
    refilled = take 0 filled ++ take left (drop (64 * count) shifted) ++ drop (0 + left) filled

    abbrev result : Sha256Ctx
    result = record {
      tot_len = u32 (ctx.tot_len + u32 ((count + 1) * 64));
      len = left;
      block = refilled;
      h = fold_blocks count (compress ctx.h first) shifted;
    }

    filled_size : length filled ≡ 128
    filled_size =
        length-memcpy ctx.block ctx.len message room (omega arith) (omega (arith, c.size)) ∙ c.size

    take-filled : take 64 filled ≡ first
    take-filled =
        take-memcpy ctx.block ctx.len message room 64 (omega arith) (omega (arith, c.size))
          (sym fill)
        ∙ ap (λ t. t ++ take room message) c.kept

    rest_length : left ≤ length (drop (64 * count) shifted)
    rest_length = omega (arith, length-drop (64 * count) shifted, length-shifted)

    full-some : sha256_full ctx filled shifted (len - room) ≡ some result
    unfolding sha256_full
    full-some = rw (
      transf-fold 1 ctx.h filled (omega arith) (omega (arith, filled_size)),
      take-filled,
      transf-fold count (compress ctx.h first) shifted (omega arith)
          (omega (arith, length-shifted)),
      mul_comm count 64,
      memcpy-some filled 0 (drop (64 * count) shifted) left rest_length
          (omega (arith, filled_size)),
    )

    full-Holds : Holds result (pre ++ take len message)
    full-Holds = record {
      blocks = c.blocks + (1 + count);
      whole = whole';
      pending = pending';
      split = split';
      whole_length = whole_length';
      pending_length = omega (arith, length-take left (drop (64 * count) shifted), rest_length);
      len = omega (arith, length-take left (drop (64 * count) shifted), rest_length);
      tot_len = omega (arith, c.tot_len);
      size =
          length-memcpy filled 0 (drop (64 * count) shifted) left rest_length
            (omega (arith, filled_size))
          ∙ filled_size;
      kept =
          take-memcpy filled 0 (drop (64 * count) shifted) left left rest_length
            (omega (arith, filled_size)) (omega arith);
      hashed = hashed';
    }

-- Taking in `len` bytes of the caller's message succeeds and is remembered, whatever was taken in
-- before. The length is at most 2^31, so that an `int` counts the bytes of the blocks.
pub update-Holds :
    (ctx : Sha256Ctx) (pre message : List ℕ) (len : ℕ)
    → Holds ctx pre
    → len ≤ length message
    → len ≤ 2 ^ 31
    → (ctx' : Sha256Ctx) × (sha256_update ctx message len ≡ some ctx')
      × Holds ctx' (pre ++ take len message)
unfolding sha256_update
update-Holds ctx pre message len c fits small =
    let below : ctx.len < 64 = omega (arith, c.len, c.pending_length) in
    let room = 64 - ctx.len in
    let room_eq : u32 (64 + 2 ^ 32 - ctx.len) ≡ room = omega arith in
    let sum_eq : u32 (ctx.len + len) ≡ ctx.len + len = omega arith in
    elim (Bool-cases (ltb len room)) [
      | inl few ↦
          let h : ctx.len + len < 64 = omega (arith, ltb→lt len room few) in
          (
            _,
            rw (
              room_eq,
              few,
              memcpy-some ctx.block ctx.len message len fits (omega (arith, c.size)),
              sum_eq,
              lt→ltb (ctx.len + len) 64 h,
            ),
            small-Holds ctx pre message len fits c h,
          )
      | inr many ↦
          let enough : room ≤ len = omega (arith, not-ltb→le len room many) in
          let h : 64 ≤ ctx.len + len = omega arith in
          (
            _,
            rw
                (
                  room_eq,
                  many,
                  memcpy-some ctx.block ctx.len message room (omega arith) (omega (arith, c.size)),
                  sum_eq,
                  le→not-ltb (ctx.len + len) 64 h,
                )
                (full-some ctx pre message len fits c room (omega arith) enough small),
            full-Holds ctx pre message len fits c room (omega arith) enough small,
          )
    ]
