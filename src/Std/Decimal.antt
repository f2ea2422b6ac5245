-- ===== src/Std/Decimal.antt =====
-- `%d` and `strconv.Atoi` on Go's 64-bit `int`.
use mqtt_tunnel.Base.{
  ℕ, zero, suc, ◌+◌, ◌-◌, ◌*◌, ◌/◌, ◌%◌, ◌^◌, ◌≤◌, ◌<◌, ◌≡◌, refl, ◌∙◌, ap, Bool, true, false, ◌&&◌,
  inl, inr, Bool-cases, [], ◌∷◌, arith, ltb, leb, ◌==◌, if◌then◌else◌, Text, ℤ, pos, negsuc, all_of,
}

-- The digits of `n`, in front of `acc`. Each round takes one digit off, so `suc n` rounds suffice.
digits_onto : ℕ → ℕ → Text → Text
digits_onto zero n acc = acc
digits_onto (suc f) n acc =
    let more = digits_onto f (n / 10) ((b'0' + n % 10) ∷ acc) in
    if ltb n 10 then (b'0' + n) ∷ acc else more

unfoldable pub show_ℕ : ℕ → Text
unfolding digits_onto
show_ℕ n = digits_onto (suc n) n []

-- `fmt.Sprintf("%d", z)`
unfoldable pub show_ℤ : ℤ → Text
unfolding show_ℕ
show_ℤ (pos n) = show_ℕ n
show_ℤ (negsuc n) = b'-' ∷ show_ℕ (suc n)

abbrev pub is_decimal : ℕ → Bool
is_decimal c = leb b'0' c && leb c b'9'

-- The number that the digits spell behind those of `acc`.
pub spell : ℕ → Text → ℕ
spell acc [] = acc
spell acc (c ∷ s) = spell (acc * 10 + (c - b'0')) s

-- What `Atoi` returns: a number, a syntax error (with 0) or a range error (with the bound).
pub data Atoi : Type 0 where
  number : ℤ → Atoi
  bad_syntax : Atoi
  out_of_range : ℤ → Atoi

abbrev pub int_max : ℕ
int_max = 2 ^ 63 - 1

abbrev unsigned : Bool → ℕ → Atoi
unsigned false n = if leb n int_max then number (pos n) else out_of_range (pos int_max)
unsigned true n =
    if n == 0
    then number (pos 0)
    else if leb n (suc int_max)
    then number (negsuc (n - 1))
    else out_of_range (negsuc int_max)

digits_of : Bool → Text → Atoi
unfolding spell
digits_of minus [] = bad_syntax
digits_of minus (c ∷ s) =
    if all_of is_decimal (c ∷ s) then unsigned minus (spell 0 (c ∷ s)) else bad_syntax

unfoldable pub atoi : Text → Atoi
unfolding digits_of
atoi [] = bad_syntax
atoi (c ∷ s) =
    if c == b'-'
    then digits_of true s
    else if c == b'+'
    then digits_of false s
    else digits_of false (c ∷ s)

-- The first result of `Atoi`, with the error ignored.
abbrev pub value : Atoi → ℤ
value (number z) = z
value bad_syntax = pos 0
value (out_of_range z) = z

spell-digits_onto : (f n : ℕ) (acc : Text) → n < f → spell 0 (digits_onto f n acc) ≡ spell n acc
unfolding digits_onto spell
spell-digits_onto zero n acc h = absurd (omega arith)
spell-digits_onto (suc f) n acc h =
    let same : n / 10 * 10 + (b'0' + n % 10 - b'0') ≡ n = omega arith in
    let ih = spell-digits_onto f (n / 10) ((b'0' + n % 10) ∷ acc) in
    elim (Bool-cases (ltb n 10)) [
      | inl small ↦ rw small (ap (λ m. spell m acc) (omega arith))
      | inr large ↦ rw large (ih (ground arith) ∙ ap (λ m. spell m acc) same)
    ]

-- The digits are decimal, and there is at least one.
digits_onto-all_of :
    (f n : ℕ) (acc : Text)
    → n < f
    → all_of is_decimal acc ≡ true
    → (c : ℕ) × (s : Text) × (digits_onto f n acc ≡ c ∷ s) × (all_of is_decimal (c ∷ s) ≡ true)
unfolding digits_onto
digits_onto-all_of zero n acc h d = absurd (omega arith)
digits_onto-all_of (suc f) n acc h d = elim (Bool-cases (ltb n 10)) [
  | inl small ↦ (b'0' + n, acc, rw small, ground arith)
  | inr large ↦
      let (c, s, e, a) =
        digits_onto-all_of f (n / 10) ((b'0' + n % 10) ∷ acc) (ground arith) (ground arith) in
      (c, s, rw large e, a)
]

-- `Atoi` reads back what `%d` prints for any number that an `int` can hold.
pub atoi-show_ℕ : (n : ℕ) → n ≤ int_max → atoi (show_ℕ n) ≡ number (pos n)
unfolding atoi show_ℕ
atoi-show_ℕ n h =
    let (c, s, e, a) = digits_onto-all_of (suc n) n [] (omega arith) refl in
    let v : spell 0 (c ∷ s) ≡ n = rw e at (spell-digits_onto (suc n) n [] (omega arith)) in
    rw e (ground arith)
