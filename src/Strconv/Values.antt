-- ===== src/Strconv/Values.antt =====
-- The value of a run of digits, its bounds and its order; printing and reading back.
use native.Mathlib.Nat.{pow-suc}
use cell_router_operator.Base.{
  ℕ, zero, suc, ◌+◌, ◌-◌, ◌*◌, ◌/◌, ◌^◌, ◌≤◌, ◌<◌, ◌≡◌, refl, Bool, true, false, ◌&&◌, some, List,
  [], ◌∷◌, ◌++◌, arith, ltb, Bool-cases, inl, inr, all, length, is_empty, Text,
}
use cell_router_operator.Strconv.{
  is_digit, value_from, value, parse_uint, print_from, print_nat, quote_meta, string_of_byte,
}

pub value_from-eq : (acc : ℕ) (s : Text) → value_from acc s ≡ acc * 10 ^ length s + value s
unfolding value_from value
value_from-eq acc [] = omega arith
value_from-eq acc (c ∷ s) =
    rw pow-suc
      (omega (arith, value_from-eq (acc * 10 + (c - b'0')) s, value_from-eq (0 + (c - b'0')) s))

pub value-cons : (c : ℕ) (s : Text) → value (c ∷ s) ≡ (c - b'0') * 10 ^ length s + value s
unfolding value_from value
value-cons c s = omega (arith, value_from-eq (0 + (c - b'0')) s)

pub value-lt : (s : Text) → all is_digit s ≡ true → value s < 10 ^ length s
unfolding is_digit value value_from
value-lt [] h = omega arith
value-lt (c ∷ s) h =
    let tail_digits : all is_digit s ≡ true = ground arith in
    let digit : c - b'0' ≤ 9 = ground arith in
    rw (value-cons c s, pow-suc) (grind (arith, value-lt s tail_digits, digit))

pub quote_meta-digits : (s : Text) → all is_digit s ≡ true → quote_meta s ≡ s
unfolding quote_meta is_digit
quote_meta-digits [] h = refl
quote_meta-digits (c ∷ s) h = ground (arith, quote_meta-digits s)

pub string_of_byte-digit : (c : ℕ) → is_digit c ≡ true → string_of_byte c ≡ c ∷ []
unfolding string_of_byte is_digit
string_of_byte-digit c h = ground arith

value_from-append :
    (acc : ℕ) (s t : Text) → value_from acc (s ++ t) ≡ value_from (value_from acc s) t
unfolding value_from
value_from-append acc [] t = refl
value_from-append acc (c ∷ s) t = value_from-append (acc * 10 + (c - b'0')) s t

print_from-value : (f n : ℕ) → n < f → value_from 0 (print_from f n) ≡ n
unfolding print_from value_from
print_from-value zero n h = elim h [ ]
print_from-value (suc f) n h = elim (Bool-cases (ltb n 10)) [
  | inl one ↦ rw one (omega arith)
  | inr more ↦
      rw more (rw value_from-append (rw (print_from-value f (n / 10) (ground arith)) (omega arith)))
]

all-append {ℓ} : {A : Type ℓ} (p : A → Bool) (s t : List A) → all p (s ++ t) ≡ (all p s && all p t)
all-append p [] t = refl
all-append p (x ∷ s) t = ground (arith, all-append p s t)

print_from-digits : (f n : ℕ) → all is_digit (print_from f n) ≡ true
unfolding print_from is_digit
print_from-digits zero n = refl
print_from-digits (suc f) n = elim (Bool-cases (ltb n 10)) [
  | inl one ↦ rw one (ground arith)
  | inr more ↦ rw more (rw all-append (rw (print_from-digits f (n / 10)) (ground arith)))
]

-- Printing a number and reading it back gives the number.
pub value-print_nat : (n : ℕ) → value (print_nat n) ≡ n
unfolding print_nat value
value-print_nat n = print_from-value (n + 1) n (omega arith)

pub print_nat-digits : (n : ℕ) → all is_digit (print_nat n) ≡ true
unfolding print_nat
print_nat-digits n = print_from-digits (n + 1) n

-- A run of digits that fits 64 bits is read as its value.
pub parse_uint-digits :
    (s : Text)
    → is_empty s ≡ false
    → all is_digit s ≡ true
    → value s < 2 ^ 64
    → parse_uint s ≡ some (value s)
unfolding parse_uint
parse_uint-digits s p h fits = ground arith
