-- ===== src/Noncedup/Tests.antt =====
-- An instance of the theorem on duplicates: three free items, and one with a nonce.
use cgminer.Base.{refl, arith, true, false, none, some, [], ◌∷◌}
use cgminer.Klist.{Memory, KList, put}
use cgminer.Klist.Ends.{Holds}
use cgminer.Noncedup.{Nonces, DupData}
use cgminer.Noncedup.Checked.{Checked, isdupnonce-Checked}

abbrev memory : Memory
memory = record {
  name = λ a. 0;
  prev = put (put (λ a. none) 2 (some 1)) 3 (some 2);
  next = put (put (λ a. none) 1 (some 2)) 2 (some 3);
  unused = 9;
  grants = 8;
}

abbrev free_list : KList
free_list = record {
  list_name = 0;
  is_store = false;
  head = some 1;
  tail = some 3;
  total = 4;
  count = 3;
  count_up = 4;
  allocate = 4;
  limit = 0;
  do_tail = true;
}

abbrev dup : DupData
dup = record {
  timelimit = 60;
  nfree_list = free_list;
  nonce_list = record free_list { is_store = true; head = some 4; tail = some 4; count = 1 };
  checked = 1;
  dups = 0;
}

abbrev nonces : Nonces
nonces = record { work_id = λ a. 7; nonce = λ a. 100; when = λ a. 50 }

nonce_list-Holds : Holds memory dup.nonce_list (4 ∷ [])
nonce_list-Holds = record {
  head = refl;
  tail = λ do_tail. refl;
  linked = (refl, refl, tt);
  distinct = (tt, tt);
  count = refl;
}

free_list-Holds : Holds memory free_list (1 ∷ 2 ∷ 3 ∷ [])
free_list-Holds = record {
  head = refl;
  tail = λ do_tail. refl;
  linked = (refl, refl, (refl, refl, (refl, refl, tt)));
  distinct = ((refl, (refl, tt)), ((refl, tt), (tt, tt)));
  count = refl;
}

isdupnonce-Checked_example : Checked memory nonces dup 1000 7 101 (4 ∷ []) (2 ∷ 3 ∷ []) 1
isdupnonce-Checked_example =
    isdupnonce-Checked memory nonces dup 1000 7 101 (4 ∷ []) (2 ∷ 3 ∷ []) 1 nonce_list-Holds
      free_list-Holds ((refl, tt), ((refl, tt), ((refl, tt), tt))) refl refl (omega arith)
      (refl, tt)
