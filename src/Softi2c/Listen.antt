-- ===== src/Softi2c/Listen.antt =====
-- A device on the bus, which knows nothing but the levels of the two lines: it sees a start when sda
-- falls and a stop when sda rises while scl is high, and takes a digit when scl rises.
use cgminer.Base.{
  ℕ, ◌+◌, ◌*◌, ◌≡◌, refl, sym, ap, ap₂, ◌∙◌, append_assoc, Bool, true, false, List, [], ◌∷◌, ◌++◌,
  ◌==◌, if◌then◌else◌,
}
use cgminer.Softi2c.{LineEvent, scl, sda, sda_input, sda_output}

pub data Seen : Type 0 where
  begin end : Seen
  digit : Bool → Seen

-- The levels of scl and sda.
pub record Levels : Type 0 where
  pub clock : Bool
  pub line : Bool

abbrev pub idle : Levels
idle = record { clock = true; line = true }

-- What the device sees when sda changes from one level to another.
abbrev pub on_line : Bool → Bool → Bool → List Seen
on_line true true false = begin ∷ []
on_line true false true = end ∷ []
on_line clock old new = []

abbrev pub on_clock : Bool → Bool → Bool → List Seen
on_clock false true line = digit line ∷ []
on_clock old new line = []

abbrev pub level_after : LineEvent → Levels → Levels
level_after (scl v) l = record l { clock = v }
level_after (sda v) l = record l { line = v }
level_after sda_input l = record l { line = true }
level_after (sda_output v) l = record l { line = v }

abbrev pub seen_at : LineEvent → Levels → List Seen
seen_at (scl v) l = on_clock l.clock v l.line
seen_at (sda v) l = on_line l.clock l.line v
seen_at sda_input l = []
seen_at (sda_output v) l = []

unfoldable pub levels : List LineEvent → Levels → Levels
levels [] l = l
levels (e ∷ events) l = levels events (level_after e l)

unfoldable pub listen : List LineEvent → Levels → List Seen
listen [] l = []
listen (e ∷ events) l = seen_at e l ++ listen events (level_after e l)

-- The digits as numbers: eight of them, the highest first, and one for the answer.
pub record Decoder : Type 0 where
  pub value : ℕ
  pub digits : ℕ
  pub bytes : List ℕ
  pub transfers : List (List ℕ)

abbrev pub fresh : List (List ℕ) → Decoder
fresh done = record { value = 0; digits = 0; bytes = []; transfers = done }

abbrev pub take_digit : Bool → Decoder → Decoder
take_digit b d =
    if d.digits == 8
    then record d { value = 0; digits = 0; bytes = d.bytes ++ (d.value ∷ []) }
    else record d { value = d.value * 2 + (if b then 1 else 0); digits = d.digits + 1 }

-- The bytes of each transfer between a start and a stop.
unfoldable pub decode : List Seen → Decoder → Decoder
decode [] d = d
decode (begin ∷ seen) d = decode seen (fresh d.transfers)
decode (end ∷ seen) d = decode seen (fresh (d.transfers ++ (d.bytes ∷ [])))
decode (digit b ∷ seen) d = decode seen (take_digit b d)

pub listen-append :
    (xs ys : List LineEvent) (l : Levels)
    → listen (xs ++ ys) l ≡ listen xs l ++ listen ys (levels xs l)
unfolding listen levels
listen-append [] ys l = refl
listen-append (x ∷ xs) ys l =
    ap (◌++◌ (seen_at x l)) (listen-append xs ys (level_after x l))
    ∙ sym (
        append_assoc (seen_at x l) (listen xs (level_after x l))
          (listen ys (levels xs (level_after x l))))

pub levels-append :
    (xs ys : List LineEvent) (l : Levels) → levels (xs ++ ys) l ≡ levels ys (levels xs l)
unfolding levels
levels-append [] ys l = refl
levels-append (x ∷ xs) ys l = levels-append xs ys (level_after x l)

pub decode-append :
    (xs ys : List Seen) (d : Decoder) → decode (xs ++ ys) d ≡ decode ys (decode xs d)
unfolding decode
decode-append [] ys d = refl
decode-append (begin ∷ xs) ys d = decode-append xs ys (fresh d.transfers)
decode-append (end ∷ xs) ys d = decode-append xs ys (fresh (d.transfers ++ (d.bytes ∷ [])))
decode-append (digit b ∷ xs) ys d = decode-append xs ys (take_digit b d)

-- What the device makes of a piece of the trace: the decoder and the levels after it.
abbrev pub hears : List LineEvent → Levels × Decoder → Levels × Decoder
hears events s = (levels events s.0, decode (listen events s.0) s.1)

pub hears-append :
    (xs ys : List LineEvent) (s : Levels × Decoder) → hears (xs ++ ys) s ≡ hears ys (hears xs s)
hears-append xs ys s =
    ap₂ (λ l d. (l, d)) (levels-append xs ys s.0)
      (ap (λ seen. decode seen s.1) (listen-append xs ys s.0)
        ∙ decode-append (listen xs s.0) (listen ys (levels xs s.0)) s.1)
