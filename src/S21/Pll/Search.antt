-- ===== src/S21/Pll/Search.antt =====
-- What the searches in the table of settings find.
use cgminer.Base.{
  ℕ, suc, ◌+◌, ◌-◌, ◌*◌, ◌^◌, ◌≡◌, ◌⊎◌, inl, inr, refl, ◌∙◌, arith, Bool, true, false, Bool-cases,
  some, List, [], ◌∷◌, leb, length, get_elem?, take, All, subst,
}
use cgminer.S21.Pll.{
  PllFreq, freq_pll_1368, search_from, pll_setting_index_from_frequency,
  pll_setting_index_from_hashrate,
}

-- The setting at this index will do or is the last one, and none before it will do.
pub record IsFirst (will_do : PllFreq → Bool) (settings : List PllFreq) (i : ℕ) : Type 0 where
  pub setting : PllFreq
  pub at : get_elem? settings i ≡ some setting
  pub does : (will_do setting ≡ true) ⊎ (i + 1 ≡ length settings)
  pub before : All (λ s. will_do s ≡ false) (take i settings)

record IsFirstFrom (will_do : PllFreq → Bool) (settings : List PllFreq) (start i : ℕ) : Type 0 where
  k : ℕ
  is : i ≡ start + k
  found : IsFirst will_do settings k

search_from-IsFirst :
    (will_do : PllFreq → Bool) (s : PllFreq) (settings : List PllFreq) (start : ℕ)
    → IsFirstFrom will_do (s ∷ settings) start (search_from will_do (s ∷ settings) start)
unfolding search_from
search_from-IsFirst will_do s [] start =
    let back : start + 1 - 1 ≡ start + 0 = omega arith in
    let here : start ≡ start + 0 = omega arith in
    record {
      k = 0;
      is = elim (Bool-cases (will_do s)) [ inl good ↦ rw good here | inr bad ↦ rw bad back ];
      found = record { setting = s; at = refl; does = inr refl; before = _ };
    }
search_from-IsFirst will_do s (t ∷ settings) start = elim (Bool-cases (will_do s)) [
  | inl good ↦ record {
    k = 0;
    is = let here : start ≡ start + 0 = omega arith in rw (search_from, good) here;
    found = record { setting = s; at = refl; does = inl good; before = _ };
  }
  | inr bad ↦
      let rest = search_from-IsFirst will_do t settings (start + 1) in
      record {
        k = suc rest.k;
        is =
            rw (search_from, bad)
              (let add : start + 1 + rest.k ≡ start + suc rest.k = omega arith in rest.is ∙ add);
        found = record {
          setting = rest.found.setting;
          at = rest.found.at;
          does = elim rest.found.does [
            | inl good ↦ inl good
            | inr last ↦ inr (omega (arith, last))
          ];
          before = (bad, rest.found.before);
        };
      }
]

from_start :
    (will_do : PllFreq → Bool) (settings : List PllFreq) (i : ℕ)
    → IsFirstFrom will_do settings 0 i
    → IsFirst will_do settings i
from_start will_do settings i f =
    let same : f.k ≡ i = omega (arith, f.is) in subst (IsFirst will_do settings) same f.found

-- The search for a frequency finds the first setting in the table with that frequency or more, or else the last
-- setting; so does the search for a hash rate.
pub pll_setting_index-IsFirst :
    (frequency hashrate : ℕ)
    → IsFirst
        (λ s. leb frequency (s.frequency * 2 ^ 18))
        freq_pll_1368
        (pll_setting_index_from_frequency frequency)
      × IsFirst
          (λ s. leb hashrate s.hashrate)
          freq_pll_1368
          (pll_setting_index_from_hashrate hashrate)
unfolding pll_setting_index_from_frequency pll_setting_index_from_hashrate freq_pll_1368
pll_setting_index-IsFirst frequency hashrate = (
  from_start _ _ _ (search_from-IsFirst (λ s. leb frequency (s.frequency * 2 ^ 18)) _ _ 0),
  from_start _ _ _ (search_from-IsFirst (λ s. leb hashrate s.hashrate) _ _ 0),
)
