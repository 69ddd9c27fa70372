-- ===== src/Py/Number.antt =====
-- Python's `int(text)` in base ten: white space round it, one sign, single underscores between
-- the digits. Decimal digits other than the ASCII ones are not read.
use media_shuttle.Prelude.{
  ℕ, zero, suc, ◌≡◌, refl, ◌+◌, ◌-◌, ◌*◌, ◌/◌, ◌%◌, ◌++◌, ltb, Bool, true, false, not, ◌&&◌, Option,
  none, some, [], ◌∷◌, ◌==◌, ℤ, pos, negsuc, if◌then◌else◌, map_option,
}
use media_shuttle.Py.Text.{Text, str, strip, in_range}
use media_shuttle.Py.Exec.{Result, ok, err}

-- The digits after the first; `gap` says that an underscore came just before.
read_digits : ℕ → Bool → Text → Option ℕ
read_digits n true [] = none
read_digits n false [] = some n
read_digits n gap (c ∷ s) =
    let more = read_digits (10 * n + (c - b'0')) false s in
    let skip = read_digits n true s in
    if in_range b'0' b'9' c then more else if c == b'_' && not gap then skip else none

-- A digit has to come first.
read_number : Text → Option ℕ
unfolding read_digits
read_number s = read_digits 0 true s

-- `-n`
unfoldable pub negate : ℕ → ℤ
negate zero = pos 0
negate (suc n) = negsuc n

read_signed : Text → Option ℤ
unfolding read_number negate
read_signed [] = none
read_signed (c ∷ s) =
    if c == b'-'
    then map_option negate (read_number s)
    else if c == b'+'
    then map_option pos (read_number s)
    else map_option pos (read_number (c ∷ s))

-- `none` stands for the `ValueError`.
unfoldable pub parse_int : Text → Option ℤ
unfolding read_signed strip
parse_int s = read_signed (strip s)

parse_int_test : parse_int (str " -1_0 ") ≡ some (negsuc 9)
unfolding parse_int
parse_int_test = refl

-- `int(text)`, with the text of its `ValueError`.
abbrev pub int_or_error : Text → Option ℤ → Result ℤ
int_or_error shown (some n) = ok n
int_or_error shown none = err (str "invalid literal for int() with base 10: " ++ shown)

-- The digits of a number, for at most so many.
digits : ℕ → ℕ → Text
digits zero n = []
digits (suc more) n =
    let last = (b'0' + n % 10) ∷ [] in
    let front = digits more (n / 10) in if ltb n 10 then last else front ++ last

-- `str(n)`: a number has fewer digits than its successor counts.
unfoldable pub show_nat : ℕ → Text
unfolding digits
show_nat n = digits (suc n) n

unfoldable pub show_int : ℤ → Text
unfolding show_nat
show_int (pos n) = show_nat n
show_int (negsuc n) = str "-" ++ show_nat (suc n)

show_int_test : show_int (negsuc 136) ≡ str "-137"
unfolding show_int
show_int_test = refl
