-- ===== src/Noncedup/Checked.antt =====
-- What the test for duplicates answers, and what it remembers.
use cgminer.Base.{
  ℕ, zero, suc, ◌+◌, ◌*◌, ◌%◌, ◌^◌, ◌<◌, ◌≡◌, inl, inr, refl, ap, ◌∙◌, arith, true, false,
  Bool-cases, not, none, some, List, [], ◌∷◌, length, All, le→not-ltb,
}
use cgminer.Klist.{Memory, KList, put}
use cgminer.Klist.Segment.{last, Without, AreApart, last-All, apart-first, put_same}
use cgminer.Klist.Ends.{Holds, add_head-Holds, unlink_head-Holds}
use cgminer.Klist.Apart.{unlink_head-IsKept, add_head-IsKept}
use cgminer.Noncedup.{Nonces, DupData, search_loop, outlasts, expire_loop, remember, isdupnonce}
use cgminer.Noncedup.Search.{seen, search_loop-seen}

-- Nothing is given back while the last item does not outlast the limit.
expire-nothing :
    (fuel : ℕ) (m : Memory) (nonces : Nonces) (dup : DupData) (now : ℕ) (xs : List ℕ)
    → dup.nonce_list.tail ≡ last none xs
    → All (λ item. outlasts dup nonces now item ≡ false) xs
    → 0 < fuel
    → expire_loop fuel m nonces dup now ≡ some (m, dup)
unfolding expire_loop
expire-nothing zero m nonces dup now xs tail young enough = absurd (omega arith)
expire-nothing (suc fuel) m nonces dup now [] tail young enough = simp (expire_loop, tail) refl
expire-nothing (suc fuel) m nonces dup now (x ∷ xs) tail young enough =
    let (c, is_last, fresh) = last-All (λ item. outlasts dup nonces now item ≡ false) x xs young in
    simp (expire_loop, tail, is_last, fresh) refl

-- The search in a list that keeps its tail.
searched :
    (m : Memory) (nonces : Nonces) (l : KList) (work_id nonce : ℕ) (xs : List ℕ)
    → Holds m l xs
    → l.do_tail ≡ true
    → length xs < 2 ^ 32
    → search_loop (l.count + 1) m nonces work_id nonce l.tail
      ≡ some (not (seen nonces work_id nonce xs))
searched m nonces l work_id nonce xs h do_tail few =
    ap (search_loop (l.count + 1) m nonces work_id nonce) (h.tail do_tail)
    ∙ search_loop-seen (l.count + 1) m nonces work_id nonce xs none h.linked
        (omega (arith, h.count))

-- A duplicate is counted, and nothing else changes.
duplicate-counted :
    (m : Memory) (nonces : Nonces) (dup : DupData) (now work_id nonce : ℕ) (xs : List ℕ)
    → Holds m dup.nonce_list xs
    → dup.nonce_list.do_tail ≡ true
    → length xs < 2 ^ 32
    → All (λ item. outlasts dup nonces now item ≡ false) xs
    → seen nonces work_id nonce xs ≡ true
    → isdupnonce m nonces dup now work_id nonce
      ≡ some (
        true,
        m,
        nonces,
        record dup { checked = (dup.checked + 1) % 2 ^ 64; dups = (dup.dups + 1) % 2 ^ 64 },
      )
unfolding isdupnonce
duplicate-counted m nonces dup now work_id nonce xs h do_tail few young again =
    let fuel_is : dup.nonce_list.count + 1 ≡ length xs + 1 = omega (arith, h.count) in
    let dup' : DupData = record dup { checked = (dup.checked + 1) % 2 ^ 64 } in
    let found =
      searched m nonces dup.nonce_list work_id nonce xs h do_tail few
      ∙ ap (λ b. some (not b)) again in
    let kept =
      expire-nothing (dup.nonce_list.count + 1) m nonces dup' now xs (h.tail do_tail) young
        (omega arith) in
    rw (found, kept) refl

-- The item `a` is the first of the free ones and gets the nonce.
record IsRemembered (m : Memory) (nonces : Nonces) (dup : DupData) (now work_id nonce a : ℕ)
    (xs fs : List ℕ) : Type 0 where
  m' : Memory
  nonce_list : KList
  nfree_list : KList
  returns :
      remember m nonces dup now work_id nonce
      ≡ some (
        m',
        record {
          work_id = put nonces.work_id a work_id;
          nonce = put nonces.nonce a nonce;
          when = put nonces.when a now;
        },
        record dup { nfree_list = nfree_list; nonce_list = nonce_list },
      )
  remembered : Holds m' nonce_list (a ∷ xs)
  free : Holds m' nfree_list fs
  keeps_tail : nonce_list.do_tail ≡ dup.nonce_list.do_tail

apart_tail : (xs ys : List ℕ) (b : ℕ) → AreApart xs (b ∷ ys) → AreApart xs ys
apart_tail [] ys b apart = tt
apart_tail (x ∷ xs) ys b (out, apart) = (out.1, apart_tail xs ys b apart)

apart_flip : (xs ys : List ℕ) → AreApart xs ys → AreApart ys xs
apart_flip xs [] apart = tt
apart_flip xs (b ∷ ys) apart =
    (apart-first xs ys b apart, apart_flip xs ys (apart_tail xs ys b apart))

remember-IsRemembered :
    (m : Memory) (nonces : Nonces) (dup : DupData) (now work_id nonce a : ℕ) (xs fs : List ℕ)
    → Holds m dup.nonce_list xs
    → Holds m dup.nfree_list (a ∷ fs)
    → AreApart (a ∷ fs) xs
    → m.name a ≡ dup.nonce_list.list_name
    → IsRemembered m nonces dup now work_id nonce a xs fs
unfolding remember
remember-IsRemembered m nonces dup now work_id nonce a xs fs h free apart named =
    let (m1, f1, taken, free1) = unlink_head-Holds m dup.nfree_list a fs free in
    let k1 = unlink_head-IsKept m m1 dup.nfree_list f1 dup.nonce_list a fs xs free h apart taken in
    let named1 : m1.name a ≡ dup.nonce_list.list_name = ap (λ name. name a) k1.names ∙ named in
    let (m2, n1, added, full) = add_head-Holds m1 dup.nonce_list a xs k1.kept named1 apart.0 in
    let k2 =
      add_head-IsKept m1 m2 dup.nonce_list n1 f1 a xs fs k1.kept named1 free1
        (free.distinct.0, apart_flip fs xs apart.1) added in
    record {
      m' = m2;
      nonce_list = n1;
      nfree_list = f1;
      returns = simp (remember, taken, added) refl;
      remembered = full;
      free = k2.kept;
      keeps_tail = k2.do_tail;
    }

-- The nonces after the item `a` got one.
abbrev pub with_nonce : Nonces → ℕ → ℕ → ℕ → ℕ → Nonces
with_nonce nonces a now work_id nonce = record {
  work_id = put nonces.work_id a work_id;
  nonce = put nonces.nonce a nonce;
  when = put nonces.when a now;
}

still-young :
    (nonces : Nonces) (dup : DupData) (now work_id nonce a : ℕ) (xs : List ℕ)
    → Without a xs
    → All (λ item. outlasts dup nonces now item ≡ false) xs
    → All (λ item. outlasts dup (with_nonce nonces a now work_id nonce) now item ≡ false) xs
still-young nonces dup now work_id nonce a [] out young = tt
still-young nonces dup now work_id nonce a (x ∷ xs) (other, out) (fresh, young) =
    (rw other fresh, still-young nonces dup now work_id nonce a xs out young)

-- The answer is that the nonce was seen, and it is counted; or that it was not, and then it is at the head of the list,
-- in an item that was free.
pub data Checked (m : Memory) (nonces : Nonces) (dup : DupData) (now work_id nonce : ℕ)
    (xs fs : List ℕ) (a : ℕ) : Type 0 where
  duplicate :
      seen nonces work_id nonce xs ≡ true
      → isdupnonce m nonces dup now work_id nonce
        ≡ some (
          true,
          m,
          nonces,
          record dup { checked = (dup.checked + 1) % 2 ^ 64; dups = (dup.dups + 1) % 2 ^ 64 },
        )
      → Checked m nonces dup now work_id nonce xs fs a
  unique :
      seen nonces work_id nonce xs ≡ false
      → (m' : Memory) (dup' : DupData)
      → isdupnonce m nonces dup now work_id nonce
        ≡ some (false, m', with_nonce nonces a now work_id nonce, dup')
      → Holds m' dup'.nonce_list (a ∷ xs)
      → Holds m' dup'.nfree_list fs
      → dup'.dups ≡ dup.dups
      → Checked m nonces dup now work_id nonce xs fs a

unique-Checked :
    (m : Memory) (nonces : Nonces) (dup : DupData) (now work_id nonce : ℕ) (xs fs : List ℕ) (a : ℕ)
    → Holds m dup.nonce_list xs
    → Holds m dup.nfree_list (a ∷ fs)
    → AreApart (a ∷ fs) xs
    → m.name a ≡ dup.nonce_list.list_name
    → dup.nonce_list.do_tail ≡ true
    → length xs + 1 < 2 ^ 32
    → All (λ item. outlasts dup nonces now item ≡ false) xs
    → seen nonces work_id nonce xs ≡ false
    → Checked m nonces dup now work_id nonce xs fs a
unfolding isdupnonce
unique-Checked m nonces dup now work_id nonce xs fs a h free apart named do_tail few young new =
    let dup' : DupData = record dup { checked = (dup.checked + 1) % 2 ^ 64 } in
    let r = remember-IsRemembered m nonces dup' now work_id nonce a xs fs h free apart named in
    let dup1 : DupData = record dup' { nfree_list = r.nfree_list; nonce_list = r.nonce_list } in
    let found =
      searched m nonces dup.nonce_list work_id nonce xs h do_tail (omega arith)
      ∙ ap (λ b. some (not b)) new in
    let own : outlasts dup1 (with_nonce nonces a now work_id nonce) now a ≡ false =
      rw (put_same nonces.when a now)
        (le→not-ltb (now + dup.timelimit * 1000000) now (omega arith)) in
    let kept =
      expire-nothing (r.nonce_list.count + 1) r.m' (with_nonce nonces a now work_id nonce) dup1 now
        (a ∷ xs) (r.remembered.tail (r.keeps_tail ∙ do_tail))
        (own, still-young nonces dup1 now work_id nonce a xs apart.0 young) (omega arith) in
    unique new r.m' dup1 (rw (found, r.returns, kept) refl) r.remembered r.free refl

-- The two lists hold items that differ, with a free one, of the same name; the list of nonces keeps its tail and
-- has fewer than 2^32 - 1 items, and none of them outlasts the limit at `now`, as a time that is past does not. Then
-- isdupnonce answers whether a nonce of the list has this work and number. If so, the two counters go up by one; if
-- not, the free item has the nonce and is the head of the list, and the other free items stay.
pub isdupnonce-Checked :
    (m : Memory) (nonces : Nonces) (dup : DupData) (now work_id nonce : ℕ) (xs fs : List ℕ) (a : ℕ)
    → Holds m dup.nonce_list xs
    → Holds m dup.nfree_list (a ∷ fs)
    → AreApart (a ∷ fs) xs
    → m.name a ≡ dup.nonce_list.list_name
    → dup.nonce_list.do_tail ≡ true
    → length xs + 1 < 2 ^ 32
    → All (λ item. outlasts dup nonces now item ≡ false) xs
    → Checked m nonces dup now work_id nonce xs fs a
isdupnonce-Checked m nonces dup now work_id nonce xs fs a h free apart named do_tail few young =
    elim (Bool-cases (seen nonces work_id nonce xs)) [
      | inl again ↦
          duplicate again (
            duplicate-counted m nonces dup now work_id nonce xs h do_tail (omega arith) young again)
      | inr new ↦
          unique-Checked m nonces dup now work_id nonce xs fs a h free apart named do_tail few young
            new
    ]
