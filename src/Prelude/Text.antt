-- ===== src/Prelude/Text.antt =====
-- Text as a list of character codes, and numbers in decimal.
use Prim.Native.Char.{code}
use Prim.Native.String.{String}
use mathlib.Core.List.{append-nil}
use modern_cpp_room_server.Prelude.{
  ℕ, zero, suc, ◌+◌, ◌-◌, ◌*◌, ◌/◌, ◌%◌, ◌≤◌, ◌<◌, ◌≡◌, refl, subst, Bool, true, false, ◌&&◌, List,
  [], ◌∷◌, ◌++◌, All, All-append, ltb, leb, ◌==◌, if◌then◌else◌, arith,
}

-- The codes of a literal; these are its bytes when the text is ASCII.
abbrev pub codes : String → List ℕ
codes String.[] = []
codes (String.◌∷◌ c s) = code c ∷ codes s

abbrev pub is_digit : ℕ → Bool
is_digit c = leb b'0' c && leb c b'9'

-- The number that digits spell behind `n`.
abbrev pub value : List ℕ → ℕ → ℕ
value [] n = n
value (c ∷ s) n = value s (n * 10 + (c - b'0'))

-- The digits at the front, and what follows them.
unfoldable pub span_digits : List ℕ → List ℕ × List ℕ
span_digits [] = ([], [])
span_digits (c ∷ s) =
    let (digits, rest) = span_digits s in if is_digit c then (c ∷ digits, rest) else ([], c ∷ s)

decimal_on : ℕ → ℕ → List ℕ
decimal_on zero n = []
decimal_on (suc fuel) n = elim (ltb n 10) [
  | true ↦ (b'0' + n) ∷ []
  | false ↦ decimal_on fuel (n / 10) ++ ((b'0' + n % 10) ∷ [])
]

-- An unsigned number as `operator<<` writes it.
unfoldable pub decimal : ℕ → List ℕ
unfolding decimal_on
decimal n = decimal_on (suc n) n

decimal_7777 : decimal 7777 ≡ codes "7777"
unfolding decimal
decimal_7777 = refl

abbrev pub IsDigit : ℕ → Type 0
IsDigit c = (b'0' ≤ c) × (c ≤ b'9')

-- A text that does not begin with a digit.
abbrev pub Stops : List ℕ → Type 0
Stops [] = Unit {0}
Stops (c ∷ s) = is_digit c ≡ false

quoted : codes "\"a" ≡ 34 ∷ 97 ∷ []
quoted = refl

pub span_digits-append :
    (digits rest : List ℕ)
    → All IsDigit digits
    → Stops rest
    → span_digits (digits ++ rest) ≡ (digits, rest)
unfolding span_digits
span_digits-append [] [] h stops = refl
span_digits-append [] (c ∷ s) h stops = ground (arith, stops)
span_digits-append (c ∷ digits) rest (d, h) stops =
    ground (arith, d, span_digits-append digits rest h stops)

pub span_digits-IsDigit : (s : List ℕ) → All IsDigit (span_digits s).0
unfolding span_digits
span_digits-IsDigit [] = tt
span_digits-IsDigit (c ∷ s) = ground (arith, span_digits-IsDigit s)

value-append : (s : List ℕ) (c n : ℕ) → value (s ++ (c ∷ [])) n ≡ value s n * 10 + (c - b'0')
value-append [] c n = refl
value-append (d ∷ s) c n = value-append s c (n * 10 + (d - b'0'))

remainder-IsDigit : (n : ℕ) → IsDigit (b'0' + n % 10)
remainder-IsDigit n = (omega arith, omega arith)

-- One digit, or the digits of a tenth and one more.
decimal_on-split {ℓ} :
    (P : List ℕ → Type ℓ) (fuel n : ℕ)
    → (n < 10 → P ((b'0' + n) ∷ []))
    → (10 ≤ n → P (decimal_on fuel (n / 10) ++ ((b'0' + n % 10) ∷ [])))
    → P (decimal_on (suc fuel) n)
unfolding decimal_on
decimal_on-split P fuel n small large = by_size (ltb n 10) refl
  where
    by_size :
        (b : Bool)
        → ltb n 10 ≡ b
        → P (elim b [
          | true ↦ (b'0' + n) ∷ []
          | false ↦ decimal_on fuel (n / 10) ++ ((b'0' + n % 10) ∷ [])
        ])
    by_size true h = small (ground (arith, h))
    by_size false h = large (ground (arith, h))

decimal_on-IsDigit : (fuel n : ℕ) → All IsDigit (decimal_on fuel n)
unfolding decimal_on
decimal_on-IsDigit zero n = tt
decimal_on-IsDigit (suc fuel) n =
    decimal_on-split (All IsDigit) fuel n (λ h. ((omega arith, omega arith), tt))
      (λ h.
        All-append IsDigit (decimal_on fuel (n / 10)) ((b'0' + n % 10) ∷ [])
          (decimal_on-IsDigit fuel (n / 10)) (remainder-IsDigit n, tt))

pub decimal-IsDigit : (n : ℕ) → All IsDigit (decimal n)
unfolding decimal
decimal-IsDigit n = decimal_on-IsDigit (suc n) n

value-decimal_on : (fuel n : ℕ) → n < fuel → value (decimal_on fuel n) 0 ≡ n
value-decimal_on zero n few = absurd (omega arith)
value-decimal_on (suc fuel) n few =
    decimal_on-split (λ s. value s 0 ≡ n) fuel n (λ h. omega arith)
      (λ h. omega (
        arith,
        value-append (decimal_on fuel (n / 10)) (b'0' + n % 10) 0,
        value-decimal_on fuel (n / 10) (omega arith),
      ))

pub value-decimal : (n : ℕ) → value (decimal n) 0 ≡ n
unfolding decimal
value-decimal n = value-decimal_on (suc n) n (omega arith)

-- A number of more than one digit that begins with 0.
abbrev pub is_padded : List ℕ → Bool
is_padded [] = false
is_padded (c ∷ []) = false
is_padded (c ∷ d ∷ s) = c == b'0'

abbrev begins_zero : List ℕ → Bool
begins_zero [] = true
begins_zero (c ∷ s) = c == b'0'

begins_zero-behind :
    (s : List ℕ) (c : ℕ) → begins_zero s ≡ false → begins_zero (s ++ (c ∷ [])) ≡ false
begins_zero-behind [] c h = ground (arith, h)
begins_zero-behind (d ∷ s) c h = h

begins_zero-decimal_on : (fuel n : ℕ) → 1 ≤ n → n < fuel → begins_zero (decimal_on fuel n) ≡ false
begins_zero-decimal_on zero n some_value few = absurd (omega arith)
begins_zero-decimal_on (suc fuel) n some_value few =
    decimal_on-split (λ s. begins_zero s ≡ false) fuel n (λ h. ground (arith, some_value))
      (λ h.
        begins_zero-behind (decimal_on fuel (n / 10)) (b'0' + n % 10)
          (begins_zero-decimal_on fuel (n / 10) (omega (arith, h)) (omega (arith, h))))

is_padded-behind : (s : List ℕ) (c : ℕ) → begins_zero s ≡ false → is_padded (s ++ (c ∷ [])) ≡ false
is_padded-behind [] c h = refl
is_padded-behind (d ∷ []) c h = h
is_padded-behind (d ∷ e ∷ s) c h = h

pub is_padded-decimal : (n : ℕ) → is_padded (decimal n) ≡ false
unfolding decimal
is_padded-decimal n =
    decimal_on-split (λ s. is_padded s ≡ false) n n (λ h. refl)
      (λ h.
        is_padded-behind (decimal_on n (n / 10)) (b'0' + n % 10)
          (begins_zero-decimal_on n (n / 10) (omega (arith, h)) (omega (arith, h))))

abbrev pub is_empty : List ℕ → Bool
is_empty [] = true
is_empty (c ∷ s) = false

is_empty-behind : (s : List ℕ) (c : ℕ) → is_empty (s ++ (c ∷ [])) ≡ false
is_empty-behind [] c = refl
is_empty-behind (d ∷ s) c = refl

pub is_empty-decimal : (n : ℕ) → is_empty (decimal n) ≡ false
unfolding decimal
is_empty-decimal n =
    decimal_on-split (λ s. is_empty s ≡ false) n n (λ h. refl)
      (λ h. is_empty-behind (decimal_on n (n / 10)) (b'0' + n % 10))

pub span_digits_all : (s : List ℕ) → All IsDigit s → span_digits s ≡ (s, [])
span_digits_all s h =
    subst (λ t. span_digits t ≡ (s, [])) (append-nil s) (span_digits-append s [] h tt)

-- Where nothing follows the digits, the text is the digits.
pub span_digits_whole : (s : List ℕ) → (span_digits s).1 ≡ [] → (span_digits s).0 ≡ s
unfolding span_digits
span_digits_whole [] h = refl
span_digits_whole (c ∷ s) h = ground (arith, h, span_digits_whole s)
