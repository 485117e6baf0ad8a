-- ===== src/Base/Decimals.antt =====
-- Python's `str(n)` and `int(s)` for integers. The digits are ASCII: the other decimal digits of
-- Unicode, which `int` takes too, are refused here.
use Prim.Native.Nat.{ℕ, zero, suc, ◌+◌, ◌-◌, ◌*◌, ◌/◌, ◌%◌, ◌<◌, ◌≤◌}
use Prim.Native.Char.{Char, code}
use Prim.Native.String.{String, [], ◌∷◌}
use mathlib.Core.Path.{◌≡◌, refl, ap, ◌∙◌}
use mathlib.Core.Logic.{inl, inr}
use mathlib.Core.Bool.{Bool, true, false, ◌&&◌, ◌||◌}
use mathlib.Core.Option
use mathlib.Core.Option.{Option, none, some}
use native.Mathlib.Omega.{arith}
use text.Mathlib.Text.{◌==◌}
use obsidian_sync.Base.Tests.{leb, eqb, if◌then◌else◌, Bool-cases, le→leb}
use obsidian_sync.Base.Ints.{ℤ, pos, negsuc}

digit : ℕ → Char
digit zero = "0"
digit (suc zero) = "1"
digit (suc (suc zero)) = "2"
digit (suc (suc (suc zero))) = "3"
digit (suc (suc (suc (suc zero)))) = "4"
digit (suc (suc (suc (suc (suc zero))))) = "5"
digit (suc (suc (suc (suc (suc (suc zero)))))) = "6"
digit (suc (suc (suc (suc (suc (suc (suc zero))))))) = "7"
digit (suc (suc (suc (suc (suc (suc (suc (suc zero)))))))) = "8"
digit _ = "9"

-- The digits of `n` in front of `rest`; the fuel `suc n` is enough.
print_from : ℕ → ℕ → String → String
unfolding digit
print_from zero n rest = rest
print_from (suc fuel) n rest =
    let longer = print_from fuel (n / 10) (digit (n % 10) ∷ rest) in
    if eqb (n / 10) 0 then digit (n % 10) ∷ rest else longer

unfoldable pub text_of_int : ℤ → String
unfolding print_from
text_of_int (pos n) = print_from (suc n) n []
text_of_int (negsuc n) = "-" ∷ print_from (suc (suc n)) (suc n) []

is_digit : ℕ → Bool
is_digit c = leb 48 c && leb c 57

-- the characters that `str.strip` takes off
is_space : ℕ → Bool
is_space c =
    (leb 9 c && leb c 13)
    || (leb 28 c && leb c 32)
    || eqb c 133
    || eqb c 160
    || eqb c 5760
    || (leb 8192 c && leb c 8202)
    || eqb c 8232
    || eqb c 8233
    || eqb c 8239
    || eqb c 8287
    || eqb c 12288

strip_left : String → String
unfolding is_space
strip_left [] = []
strip_left (c ∷ s) = if is_space (code c) then strip_left s else c ∷ s

strip_right : String → String
unfolding is_space
strip_right [] = []
strip_right (c ∷ s) =
    let kept = strip_right s in if is_space (code c) && kept == "" then [] else c ∷ kept

-- Digits, with single underscores between them; `after_digit` says that a digit was just read.
digits_from : Bool → ℕ → String → Option ℕ
unfolding is_digit
digits_from after_digit n [] = if after_digit then some n else none
digits_from after_digit n (c ∷ s) =
    let next = digits_from true (n * 10 + (code c - 48)) s in
    let skip = digits_from false n s in
    if is_digit (code c) then next else if after_digit && eqb (code c) 95 then skip else none

abbrev negate : ℕ → ℤ
negate zero = pos 0
negate (suc n) = negsuc n

signed : String → Option ℤ
unfolding digits_from
signed [] = none
signed (c ∷ s) =
    if eqb (code c) 45
    then Option.map negate (digits_from false 0 s)
    else if eqb (code c) 43
    then Option.map pos (digits_from false 0 s)
    else Option.map pos (digits_from false 0 (c ∷ s))

-- `int(s)`; `none` stands for `ValueError`
unfoldable pub int_of_text : String → Option ℤ
unfolding strip_left strip_right signed
int_of_text s = signed (strip_right (strip_left s))

code-digit : (n : ℕ) → n < 10 → code (digit n) ≡ 48 + n
unfolding digit
code-digit zero h = refl
code-digit (suc zero) h = refl
code-digit (suc (suc zero)) h = refl
code-digit (suc (suc (suc zero))) h = refl
code-digit (suc (suc (suc (suc zero)))) h = refl
code-digit (suc (suc (suc (suc (suc zero))))) h = refl
code-digit (suc (suc (suc (suc (suc (suc zero)))))) h = refl
code-digit (suc (suc (suc (suc (suc (suc (suc zero))))))) h = refl
code-digit (suc (suc (suc (suc (suc (suc (suc (suc zero)))))))) h = refl
code-digit (suc (suc (suc (suc (suc (suc (suc (suc (suc n))))))))) h = omega arith

digits_from-digit :
    (after_digit : Bool) (n d : ℕ) (s : String)
    → d < 10
    → digits_from after_digit n (digit d ∷ s) ≡ digits_from true (n * 10 + d) s
unfolding digits_from is_digit
digits_from-digit after_digit n d s h =
    let e : 48 + d - 48 ≡ d = omega arith in
    let low = le→leb 48 (48 + d) (omega arith) in
    let high = le→leb (48 + d) 57 (omega arith) in rw (code-digit d h, low, high, e)

digits_from-print_from :
    (fuel n : ℕ) (rest : String)
    → n < fuel
    → digits_from false 0 (print_from fuel n rest) ≡ digits_from true n rest
unfolding print_from
digits_from-print_from zero n rest h = elim h [ ]
digits_from-print_from (suc fuel) n rest h = elim (Bool-cases (eqb (n / 10) 0)) [
  | inl last ↦
      let e : 0 * 10 + n % 10 ≡ n = ground arith in
      rw last (rw (digits_from-digit false 0 (n % 10) rest (omega arith), e))
  | inr more ↦
      let e : n / 10 * 10 + n % 10 ≡ n = omega arith in
      rw (more, digits_from-print_from fuel (n / 10) (digit (n % 10) ∷ rest) (ground arith))
        (rw (digits_from-digit true (n / 10) (n % 10) rest (omega arith), e))
]

-- Printed digits begin with a digit and hold no space.
AllDigits : String → Type 0
AllDigits [] = Unit
AllDigits (c ∷ s) = (48 ≤ code c) × (code c ≤ 57) × AllDigits s

print_from-AllDigits :
    (fuel n : ℕ) (rest : String) → AllDigits rest → AllDigits (print_from fuel n rest)
unfolding print_from AllDigits
print_from-AllDigits zero n rest h = h
print_from-AllDigits (suc fuel) n rest h =
    let e = code-digit (n % 10) (omega arith) in
    let more : AllDigits (digit (n % 10) ∷ rest) = (omega arith, omega arith, h) in
    elim (Bool-cases (eqb (n / 10) 0)) [
      | inl last ↦ rw last more
      | inr next ↦ rw next (print_from-AllDigits fuel (n / 10) (digit (n % 10) ∷ rest) more)
    ]

not_space : (c : ℕ) → 48 ≤ c → c ≤ 57 → is_space c ≡ false
unfolding is_space
not_space c low high = ground arith

strip_left-digits : (s : String) → AllDigits s → strip_left s ≡ s
unfolding strip_left AllDigits
strip_left-digits [] h = refl
strip_left-digits (c ∷ s) h = rw (not_space (code c) h.0 h.1)

strip_right-digits : (s : String) → AllDigits s → strip_right s ≡ s
unfolding strip_right AllDigits
strip_right-digits [] h = refl
strip_right-digits (c ∷ s) h = rw (not_space (code c) h.0 h.1, strip_right-digits s h.2)

signed-digits : (s : String) → AllDigits s → signed s ≡ Option.map pos (digits_from false 0 s)
unfolding signed digits_from AllDigits
signed-digits [] h = refl
signed-digits (c ∷ s) h = ground arith

print-AllDigits : (fuel n : ℕ) → AllDigits (print_from fuel n [])
unfolding AllDigits
print-AllDigits fuel n = print_from-AllDigits fuel n [] tt

int_of_text-digits :
    (d : String)
    → AllDigits d
    → (int_of_text d ≡ Option.map pos (digits_from false 0 d))
      × (int_of_text ("-" ∷ d) ≡ Option.map negate (digits_from false 0 d))
unfolding int_of_text
int_of_text-digits d h = (
  rw (strip_left-digits d h, strip_right-digits d h) (signed-digits d h),
  rw (strip_right-digits d h),
)

-- Reading back a printed integer gives the integer.
pub int_of_text-text_of_int : (n : ℤ) → int_of_text (text_of_int n) ≡ some n
unfolding text_of_int digits_from
int_of_text-text_of_int (pos n) =
    (int_of_text-digits (print_from (suc n) n []) (print-AllDigits (suc n) n)).0
    ∙ ap (Option.map pos) (digits_from-print_from (suc n) n [] (omega arith))
int_of_text-text_of_int (negsuc n) =
    (int_of_text-digits (print_from (suc (suc n)) (suc n) [])
      (print-AllDigits (suc (suc n)) (suc n))).1
    ∙ ap (Option.map negate) (digits_from-print_from (suc (suc n)) (suc n) [] (omega arith))

int_of_text_tests :
    (int_of_text " 1_000 " ≡ some (pos 1000))
    × (int_of_text "-5" ≡ some (negsuc 4))
    × (int_of_text "1__0" ≡ none)
    × (int_of_text "12ms" ≡ none)
    × (text_of_int (pos 1713) ≡ "1713")
unfolding int_of_text text_of_int
int_of_text_tests = (refl, refl, refl, refl, refl)
