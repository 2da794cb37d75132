-- ===== src/Base/Decimals.antt =====
-- strconv.FormatInt and strconv.ParseInt in base 10.
use Prim.Native.Nat.{ℕ, zero, suc, ◌+◌, ◌-◌, ◌*◌, ◌/◌, ◌%◌, ◌^◌, ◌<◌, ◌≤◌}
use mathlib.Core.Path.{◌≡◌}
use mathlib.Core.Bool.{Bool, true, false, ◌&&◌}
use mathlib.Core.Option
use mathlib.Core.Option.{Option, none, some}
use mathlib.Core.Logic.{inl, inr}
use mathlib.Core.List.{[], ◌∷◌}
use native.Mathlib.Omega.{arith}
use inventory_api.Base.Tests.{ltb, leb, if◌then◌else◌, Bool-cases}
use inventory_api.Base.Equality.{◌==◌, nat_eq}
use inventory_api.Base.Strings.{Text}

-- Digits of `n` in front of `tail`; `n + 1` rounds are enough.
unfoldable pub put_digits : ℕ → ℕ → Text → Text
put_digits zero n tail = tail
put_digits (suc f) n tail =
    let more = put_digits f (n / 10) ((48 + n % 10) ∷ tail) in
    if ltb n 10 then (48 + n) ∷ tail else more

unfoldable pub format_int : ℕ → Text
unfolding put_digits
format_int n = put_digits (suc n) n []

unfoldable pub read_digits : ℕ → Text → Option ℕ
read_digits n [] = some n
read_digits n (c ∷ cs) =
    let rest = read_digits (n * 10 + (c - 48)) cs in if leb 48 c && leb c 57 then rest else none

-- Digits, at least one, that stand for a number of at most `limit`.
unfoldable pub parse_magnitude : ℕ → Text → Option ℕ
parse_magnitude limit [] = none
parse_magnitude limit (c ∷ cs) = elim (read_digits 0 (c ∷ cs)) [
  | none ↦ none
  | some n ↦ if leb n limit then some n else none
]

-- An int64 by its sign, true for a minus, and its magnitude.
unfoldable pub parse_int : Text → Option (Bool × ℕ)
unfolding parse_magnitude
parse_int [] = none
parse_int (c ∷ cs) =
    if c == b'-'
    then Option.map (λ n. (true, n)) (parse_magnitude (2 ^ 63) cs)
    else Option.map (λ n. (false, n))
        (parse_magnitude (2 ^ 63 - 1) (if c == b'+' then cs else c ∷ cs))

read_digits-put_digits :
    (f n : ℕ) (tail : Text) → n < f → read_digits 0 (put_digits f n tail) ≡ read_digits n tail
unfolding put_digits read_digits
read_digits-put_digits zero n tail h = elim h [ ]
read_digits-put_digits (suc f) n tail h =
    ground (arith, read_digits-put_digits f (n / 10) ((48 + n % 10) ∷ tail))

-- The digits begin with a digit, so with no sign.
put_digits_head :
    (f n : ℕ) (tail : Text)
    → n < f
    → (c : ℕ) × (cs : Text) × (put_digits f n tail ≡ c ∷ cs) × (48 ≤ c)
unfolding put_digits
put_digits_head zero n tail h = elim h [ ]
put_digits_head (suc f) n tail h = elim (Bool-cases (ltb n 10)) [
  | inl small ↦ (48 + n, tail, rw small, omega arith)
  | inr large ↦
      let (c, cs, e, k) = put_digits_head f (n / 10) ((48 + n % 10) ∷ tail) (ground arith) in
      (c, cs, rw large e, k)
]

parse_int_of_digits :
    (c : ℕ) (cs : Text) (n : ℕ)
    → 48 ≤ c
    → read_digits 0 (c ∷ cs) ≡ some n
    → n < 2 ^ 63
    → parse_int (c ∷ cs) ≡ some (false, n)
unfolding parse_int
parse_int_of_digits c cs n k e h = ground arith

read_digits-format_int : (n : ℕ) → read_digits 0 (format_int n) ≡ some n
unfolding format_int read_digits
read_digits-format_int n = read_digits-put_digits (suc n) n [] (omega arith)

-- What is printed is read back, for every int64 that is not negative.
pub parse_int-format_int : (n : ℕ) → n < 2 ^ 63 → parse_int (format_int n) ≡ some (false, n)
parse_int-format_int n h =
    let (c, cs, e, k) = put_digits_head (suc n) n [] (omega arith) in
    let e' : format_int n ≡ c ∷ cs = unfold format_int in e in
    rw e' (parse_int_of_digits c cs n k (rw e' at (read_digits-format_int n)) h)

-- An int64 is the number of int64 values below it, so that the two orders are the same; this one is 0.
abbrev pub zero_int64 : ℕ
zero_int64 = 2 ^ 63

abbrev pub int64_mod : ℕ
int64_mod = 2 ^ 64

-- strconv.FormatInt
unfoldable pub format_int64 : ℕ → Text
unfolding format_int
format_int64 v =
    if leb zero_int64 v then format_int (v - zero_int64) else b'-' ∷ format_int (zero_int64 - v)

abbrev of_sign : Bool × ℕ → ℕ
of_sign (true, n) = zero_int64 - n
of_sign (false, n) = zero_int64 + n

-- strconv.ParseInt
unfoldable pub parse_int64 : Text → Option ℕ
unfolding parse_int
parse_int64 cs = Option.map of_sign (parse_int cs)

parse_int_minus : (n : ℕ) → 0 < n → n ≤ 2 ^ 63 → parse_int (b'-' ∷ format_int n) ≡ some (true, n)
unfolding parse_int parse_magnitude
parse_int_minus n positive h =
    let (c, cs, e, k) = put_digits_head (suc n) n [] (omega arith) in
    let e' : format_int n ≡ c ∷ cs = unfold format_int in e in
    let digits : read_digits 0 (c ∷ cs) ≡ some n = rw e' at (read_digits-format_int n) in
    rw e' (ground (arith, digits, h))

-- What is printed of an int64 is read back.
pub parse_int64-format_int64 : (v : ℕ) → v < int64_mod → parse_int64 (format_int64 v) ≡ some v
unfolding parse_int64 format_int64
parse_int64-format_int64 v h = elim (Bool-cases (leb zero_int64 v)) [
  | inl e ↦ rw (e, parse_int-format_int (v - 2 ^ 63) (ground (arith, e, h))) (ground (arith, e))
  | inr e ↦
      rw (e, parse_int_minus (2 ^ 63 - v) (ground (arith, e)) (omega arith)) (ground (arith, e))
]
