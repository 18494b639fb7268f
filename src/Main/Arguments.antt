-- ===== src/Main/Arguments.antt =====
-- The command line.
use modern_cpp_room_server.Prelude.{
  ℕ, ◌-◌, ◌^◌, ◌≤◌, ◌≡◌, refl, ap, ◌∙◌, ◌↔◌, Bool, true, false, not, ◌&&◌, some, List, [], ◌∷◌, All,
  arith,
}
use modern_cpp_room_server.Prelude.Text.{
  span_digits, span_digits_all, span_digits_whole, span_digits-IsDigit, IsDigit, value, decimal,
  decimal-IsDigit, value-decimal, is_empty-decimal, is_empty,
}
use modern_cpp_room_server.Main.{
  Text, no_error, Parsed, from_digits, from_chars, is_error, parse_port, parse_interval, read_port,
  read_interval, read_arguments,
}

-- A text of digits only, at least one, that spell `n`.
abbrev pub Spells : Text → ℕ → Type 0
Spells text n = (is_empty text ≡ false) × All IsDigit text × (value text 0 ≡ n)

-- `std::from_chars` took the whole text.
abbrev is_whole : Parsed → Bool
is_whole parsed = not (is_error parsed.error) && is_empty parsed.rest

empty_text : (s : Text) → is_empty s ≡ true → s ≡ []
empty_text [] h = refl
empty_text (c ∷ s) h = ground (arith, h)

from_chars-Spells :
    (largest : ℕ) (text : Text) (output : ℕ)
    → is_whole (from_chars largest text output) ≡ true
    → Spells text (from_chars largest text output).output
      × ((from_chars largest text output).output ≤ largest)
unfolding from_chars from_digits
from_chars-Spells largest text output h =
    ground
      (arith, h, empty_text (span_digits text).1, span_digits_whole text, span_digits-IsDigit text)

from_chars_whole :
    (largest : ℕ) (text : Text) (output n : ℕ)
    → Spells text n
    → n ≤ largest
    → from_chars largest text output ≡ record { rest = []; error = no_error; output = n }
unfolding from_chars
from_chars_whole largest text output n (full, digits, spelt) few =
    ap (from_digits largest text output) (span_digits_all text digits) ∙ ground (arith, full, spelt)

-- What a port and an interval are on the command line.
abbrev pub IsPort : Text → ℕ → Type 0
IsPort text p = Spells text p × (1 ≤ p) × (p ≤ 65535)

abbrev pub IsInterval : Text → ℕ → Type 0
IsInterval text i = Spells text i × (i ≤ 60000)

parse_port-IsPort :
    (text : Text) (output p : ℕ) → parse_port text output ≡ (true, p) → IsPort text p
unfolding parse_port
parse_port-IsPort text output p h = ground (arith, h, from_chars-Spells (2 ^ 32 - 1) text 0)

parse_port_port : (text : Text) (output p : ℕ) → IsPort text p → parse_port text output ≡ (true, p)
unfolding parse_port
parse_port_port text output p (spelt, low, high) =
    rw (from_chars_whole (2 ^ 32 - 1) text 0 p spelt (omega arith)) (ground (arith, low, high))

parse_interval-IsInterval :
    (text : Text) (output i : ℕ) → parse_interval text output ≡ (true, i) → IsInterval text i
unfolding parse_interval
parse_interval-IsInterval text output i h =
    ground (arith, h, from_chars-Spells (2 ^ 32 - 1) text output)

parse_interval_interval :
    (text : Text) (output i : ℕ) → IsInterval text i → parse_interval text output ≡ (true, i)
unfolding parse_interval
parse_interval_interval text output i (spelt, high) =
    rw (from_chars_whole (2 ^ 32 - 1) text output i spelt (omega arith)) (ground (arith, high))

-- The command lines, the name of the program first, and the port and the interval they give.
abbrev pub IsCommandLine : List Text → ℕ → ℕ → Type 0
IsCommandLine [] p i = (p ≡ 7777) × (i ≡ 0)
IsCommandLine (program ∷ []) p i = (p ≡ 7777) × (i ≡ 0)
IsCommandLine (program ∷ port ∷ []) p i = IsPort port p × (i ≡ 0)
IsCommandLine (program ∷ port ∷ interval ∷ []) p i = IsPort port p × IsInterval interval i
IsCommandLine (program ∷ port ∷ interval ∷ more ∷ rest) p i = ⊥

-- The command line gives a port and an interval exactly if it has at most two arguments, and the
-- port is 7777 where there is no argument and otherwise the number between 1 and 65535 that the
-- first argument spells in digits only, and the interval is 0 where there is no second argument
-- and otherwise the number up to 60000 that the second one spells in digits only; every other
-- command line is refused.
pub read_arguments-IsCommandLine :
    (argv : List Text) (p i : ℕ) → (read_arguments argv ≡ some (p, i)) ↔ IsCommandLine argv p i
unfolding read_arguments read_port read_interval
read_arguments-IsCommandLine [] p i = ground arith
read_arguments-IsCommandLine (program ∷ []) p i = ground arith
read_arguments-IsCommandLine (program ∷ port ∷ []) p i =
    ground (arith, parse_port-IsPort port 7777 p, parse_port_port port 7777 p)
read_arguments-IsCommandLine (program ∷ port ∷ interval ∷ []) p i = ground (
  arith,
  parse_port-IsPort port 7777 p,
  parse_port_port port 7777 p,
  parse_interval-IsInterval interval 0 i,
  parse_interval_interval interval 0 i,
)
read_arguments-IsCommandLine (program ∷ port ∷ interval ∷ more ∷ rest) p i = ground arith

-- Prints
pub parse_port-decimal :
    (p output : ℕ) → 1 ≤ p → p ≤ 65535 → parse_port (decimal p) output ≡ (true, p)
parse_port-decimal p output low high =
    parse_port_port (decimal p) output p
      ((is_empty-decimal p, decimal-IsDigit p, value-decimal p), low, high)
