-- ===== src/S21/Pll.antt =====
-- The settings of the clock in driver-s21/driver-s21.c, and the search in them. A frequency in the table is in
-- quarters of a MHz, and the one that is looked for is any number of 2^-20 MHz.
pub mod Search
use cgminer.Base.{
  ℕ, zero, suc, ◌+◌, ◌-◌, ◌*◌, ◌^◌, Bool, true, false, List, [], ◌∷◌, leb, length, if◌then◌else◌,
}

pub record PllFreq : Type 0 where
  pub frequency : ℕ
  pub hashrate : ℕ
  pub vilpll : ℕ

abbrev pub pll : ℕ → ℕ → ℕ → PllFreq
pll frequency hashrate vilpll = record {
  frequency = frequency;
  hashrate = hashrate;
  vilpll = vilpll;
}

unfoldable pub freq_pll_1368 : List PllFreq
freq_pll_1368 =
    pll 200 20000 0x40a80265
    ∷ pll 225 22500 0x40a20255
    ∷ pll 250 25000 0x40af0264
    ∷ pll 275 27500 0x40a50254
    ∷ pll 300 30000 0x40a80263
    ∷ pll 325 32500 0x40b60263
    ∷ pll 350 35000 0x40a80253
    ∷ pll 375 37500 0x40b40253
    ∷ pll 400 40000 0x40a80262
    ∷ pll 425 42500 0x40aa0243
    ∷ pll 450 45000 0x40a20252
    ∷ pll 475 47500 0x40ab0252
    ∷ pll 500 50000 0x40b40252
    ∷ pll 525 52500 0x40bd0252
    ∷ pll 550 55000 0x40a50242
    ∷ pll 575 57500 0x40a10261
    ∷ pll 600 60000 0x40a80261
    ∷ pll 625 62500 0x40af0261
    ∷ pll 650 65000 0x40b60261
    ∷ pll 675 67500 0x40a20251
    ∷ pll 700 70000 0x40a80251
    ∷ pll 725 72500 0x40ae0251
    ∷ pll 750 75000 0x40b40251
    ∷ pll 775 77500 0x40ba0251
    ∷ pll 800 80000 0x40a00241
    ∷ pll 825 82500 0x40a50241
    ∷ pll 850 85000 0x40aa0241
    ∷ pll 875 87500 0x40af0241
    ∷ pll 900 90000 0x40b40241
    ∷ pll 925 92500 0x40b90241
    ∷ pll 950 95000 0x40be0241
    ∷ pll 975 97500 0x50c30241
    ∷ pll 1000 100000 0x40a00231
    ∷ pll 1025 102500 0x40a40231
    ∷ pll 1050 105000 0x40a80231
    ∷ pll 1075 107500 0x40ac0231
    ∷ pll 1100 110000 0x40b00231
    ∷ pll 1125 112500 0x40b40231
    ∷ pll 1150 115000 0x40a10260
    ∷ pll 1175 117500 0x40bc0231
    ∷ pll 1200 120000 0x40a80260
    ∷ pll 1225 122500 0x50c40231
    ∷ pll 1250 125000 0x40af0260
    ∷ pll 1275 127500 0x50cc0231
    ∷ pll 1300 130000 0x40b60260
    ∷ pll 1325 132500 0x50d40231
    ∷ pll 1350 135000 0x40a20250
    ∷ pll 1375 137500 0x40a50250
    ∷ pll 1400 140000 0x40a80250
    ∷ pll 1425 142500 0x40ab0250
    ∷ pll 1450 145000 0x40ae0250
    ∷ pll 1475 147500 0x40b10250
    ∷ pll 1500 150000 0x40b40250
    ∷ pll 1525 152500 0x40b70250
    ∷ pll 1550 155000 0x40ba0250
    ∷ pll 1575 157500 0x40bd0250
    ∷ pll 1600 160000 0x40a00240
    ∷ pll 1625 162500 0x50c30250
    ∷ pll 1650 165000 0x40a50240
    ∷ pll 1675 167500 0x50c90250
    ∷ pll 1700 170000 0x40aa0240
    ∷ pll 1725 172500 0x50cf0250
    ∷ pll 1750 175000 0x40af0240
    ∷ pll 1775 177500 0x50d50250
    ∷ pll 1800 180000 0x40b40240
    ∷ pll 1825 182500 0x50db0250
    ∷ pll 1850 185000 0x40b90240
    ∷ pll 1875 187500 0x50e10250
    ∷ pll 1900 190000 0x40be0240
    ∷ pll 1925 192500 0x50e70250
    ∷ pll 1950 195000 0x50c30240
    ∷ pll 1975 197500 0x50c60240
    ∷ pll 2000 200000 0x40a00230
    ∷ pll 2025 202500 0x40a20230
    ∷ pll 2050 205000 0x40a40230
    ∷ pll 2075 207500 0x40a60230
    ∷ pll 2100 210000 0x40a80230
    ∷ pll 2125 212500 0x40aa0230
    ∷ pll 2150 215000 0x40ac0230
    ∷ pll 2175 217500 0x40ae0230
    ∷ pll 2200 220000 0x40b00230
    ∷ pll 2225 222500 0x40b20230
    ∷ pll 2250 225000 0x40b40230
    ∷ pll 2275 227500 0x40b60230
    ∷ pll 2300 230000 0x40b80230
    ∷ pll 2325 232500 0x40ba0230
    ∷ pll 2350 235000 0x40bc0230
    ∷ pll 2375 237500 0x40be0230
    ∷ pll 2400 240000 0x50c00230
    ∷ pll 2425 242500 0x50c20230
    ∷ pll 2450 245000 0x50c40230
    ∷ pll 2475 247500 0x50c60230
    ∷ pll 2500 250000 0x50c80230
    ∷ pll 2525 252500 0x50ca0230
    ∷ pll 2550 255000 0x50cc0230
    ∷ pll 2575 257500 0x50ce0230
    ∷ pll 2600 260000 0x50d00230
    ∷ []

-- The loops of the searches: the first setting that will do, or else the last of all.
pub search_from : (PllFreq → Bool) → List PllFreq → ℕ → ℕ
search_from will_do [] i = i - 1
search_from will_do (s ∷ settings) i =
    let rest = search_from will_do settings (i + 1) in if will_do s then i else rest

pub pll_setting_index_from_frequency : ℕ → ℕ
unfolding search_from
pll_setting_index_from_frequency frequency =
    search_from (λ s. leb frequency (s.frequency * 2 ^ 18)) freq_pll_1368 0

pub pll_setting_index_from_hashrate : ℕ → ℕ
unfolding search_from
pll_setting_index_from_hashrate hashrate =
    search_from (λ s. leb hashrate s.hashrate) freq_pll_1368 0
