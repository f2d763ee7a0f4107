-- ===== src/Value.antt =====
-- The untyped values that a configuration holds, as the program reads them by int() and str().
-- A float is read as a whole number, as a number with a fraction (of which only its truncation is
-- read), or as NaN. An infinite float is left out: int() raises OverflowError on it, which no
-- modelled code catches.
use Prim.Native.String.{◌++◌ as join}
use pg_limiter.Prelude.{
  ℕ, zero, suc, ◌/◌, ◌%◌, String, ◌≡◌, ◌↔◌, Bool, true, false, Option, none, some, arith, Equality,
  ◌==◌, string_eq, eq_iff, ltb, nat_beq, if◌then◌else◌,
}
use pg_limiter.Prelude.Int.{ℤ, pos, negsuc, int_beq, int_beq_iff}
use pg_limiter.Text.{int_of_text}

pub data Value : Type 0 where
  none_value : Value
  bool : Bool → Value
  int : ℤ → Value
  whole_float : ℤ → Value
  fraction_float : ℤ → Value
  nan : Value
  str : String → Value
  container : Value

-- `int(v)`, where `none` is ValueError or TypeError.
unfoldable pub int_of : Value → Option ℤ
unfolding int_of_text
int_of none_value = none
int_of (bool true) = some (pos 1)
int_of (bool false) = some (pos 0)
int_of (int n) = some n
int_of (whole_float n) = some n
int_of (fraction_float n) = some n
int_of nan = none
int_of (str s) = int_of_text s
int_of container = none

digit_text : ℕ → String
digit_text n =
    if nat_beq n 0
    then "0"
    else if nat_beq n 1
    then "1"
    else if nat_beq n 2
    then "2"
    else if nat_beq n 3
    then "3"
    else if nat_beq n 4
    then "4"
    else if nat_beq n 5
    then "5"
    else if nat_beq n 6
    then "6"
    else if nat_beq n 7
    then "7"
    else if nat_beq n 8
    then "8"
    else "9"

-- Decimal digits; a number is below its own successor, so as many rounds are enough.
decimal : ℕ → ℕ → String
unfolding digit_text
decimal zero n = ""
decimal (suc fuel) n =
    let front = decimal fuel (n / 10) in
    if ltb n 10 then digit_text n else join front (digit_text (n % 10))

-- `str(n)` of an int.
unfoldable pub text_of_int : ℤ → String
unfolding decimal
text_of_int (pos n) = decimal (suc n) n
text_of_int (negsuc n) = join "-" (decimal (suc (suc n)) (suc n))

-- A group id: panels store an int or a text.
pub data GroupId : Type 0 where
  number : ℤ → GroupId
  name : String → GroupId

abbrev pub group_beq : GroupId → GroupId → Bool
group_beq (number m) (number n) = int_beq m n
group_beq (number m) (name t) = false
group_beq (name s) (number n) = false
group_beq (name s) (name t) = s == t

pub group_beq_iff : (a b : GroupId) → (group_beq a b ≡ true) ↔ (a ≡ b)
group_beq_iff (number m) (number n) = ground (arith, int_beq_iff m n)
group_beq_iff (number m) (name t) = ground arith
group_beq_iff (name s) (number n) = ground arith
group_beq_iff (name s) (name t) = ground (arith, eq_iff s t)

instance abbrev pub group_eq : Equality GroupId
group_eq = record { beq = group_beq; beq_iff = group_beq_iff }

-- `int(gid)`
unfoldable pub group_int : GroupId → Option ℤ
unfolding int_of_text
group_int (number n) = some n
group_int (name s) = int_of_text s

-- `str(gid)`
unfoldable pub group_text : GroupId → String
unfolding text_of_int
group_text (number n) = text_of_int n
group_text (name s) = s
