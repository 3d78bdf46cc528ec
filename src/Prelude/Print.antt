-- ===== src/Prelude/Print.antt =====
-- The text that `format!` makes of a number: decimal, and hexadecimal of a fixed width.
use Prim.Native.Nat.{ℕ, zero, suc, ◌+◌, ◌-◌, ◌*◌, ◌/◌, ◌%◌, ◌^◌, ◌<◌}
use mathlib.Core.Path.{◌≡◌, refl, sym, ap, ◌∙◌}
use mathlib.Core.Logic.{inl, inr}
use mathlib.Core.List.{List, [], ◌∷◌, ◌++◌}
use native.Mathlib.Omega.{arith}
use native.Mathlib.Nat.{pow-suc}
use fedimint_wallets.Prelude.Tests.{ltb, ltb→lt, Bool-cases, if◌then◌else◌}
use fedimint_wallets.Prelude.Lists.{length}
use fedimint_wallets.Prelude.Int.{ℤ, pos, negsuc}

-- `{}` of a `u64`, with fuel for its digits, and `{:02x}` of each byte in turn.
unfoldable pub decimal_digits : ℕ → ℕ → List ℕ
decimal_digits zero n = []
decimal_digits (suc f) n =
    let front = decimal_digits f (n / 10) ++ ((n % 10 + 48) ∷ []) in
    if ltb n 10 then (n + 48) ∷ [] else front

unfoldable pub decimal : ℕ → List ℕ
unfolding decimal_digits
decimal n = decimal_digits 20 n

abbrev pub hex_char : ℕ → ℕ
hex_char d = if ltb d 10 then d + 48 else d + 87

unfoldable pub hex : ℕ → ℕ → List ℕ
hex zero n = []
hex (suc w) n = hex w (n / 16) ++ (hex_char (n % 16) ∷ [])

-- Reading back.
read_digit : ℕ → ℕ
read_digit c = if ltb c 58 then c - 48 else c - 87

read_number : ℕ → ℕ → List ℕ → ℕ
read_number base acc [] = acc
read_number base acc (c ∷ cs) = read_number base (acc * base + read_digit c) cs

read_number-append :
    (base acc : ℕ) (xs : List ℕ) (c : ℕ)
    → read_number base acc (xs ++ (c ∷ [])) ≡ read_number base acc xs * base + read_digit c
unfolding read_number
read_number-append base acc [] c = refl
read_number-append base acc (x ∷ xs) c = read_number-append base (acc * base + read_digit x) xs c

read_digit-decimal : (d : ℕ) → d < 10 → read_digit (d + 48) ≡ d
unfolding read_digit
read_digit-decimal d h = ground arith

read_digit-hex_char : (d : ℕ) → d < 16 → read_digit (hex_char d) ≡ d
unfolding read_digit
read_digit-hex_char d h = ground arith

read-decimal_digits : (f n : ℕ) → n < 10 ^ f → read_number 10 0 (decimal_digits f n) ≡ n
unfolding decimal_digits read_number
read-decimal_digits zero n h = omega arith
read-decimal_digits (suc f) n h = elim (Bool-cases (ltb n 10)) [
  | inl small ↦ rw small (omega (arith, ltb→lt n 10 small, read_digit-decimal n))
  | inr large ↦ rw large (
      read_number-append 10 0 (decimal_digits f (n / 10)) (n % 10 + 48)
      ∙ omega (
        arith,
        read-decimal_digits f (n / 10) (omega (arith, pow-suc 10 f)),
        read_digit-decimal (n % 10) (omega arith),
      ))
]

read-hex : (w n : ℕ) → n < 16 ^ w → read_number 16 0 (hex w n) ≡ n
unfolding hex read_number
read-hex zero n h = omega arith
read-hex (suc w) n h =
    read_number-append 16 0 (hex w (n / 16)) (hex_char (n % 16))
    ∙ omega (
      arith,
      read-hex w (n / 16) (omega (arith, pow-suc 16 w)),
      read_digit-hex_char (n % 16) (omega arith),
    )

pub decimal-injective : (m n : ℕ) → m < 10 ^ 20 → n < 10 ^ 20 → decimal m ≡ decimal n → m ≡ n
unfolding decimal
decimal-injective m n hm hn e =
    sym (read-decimal_digits 20 m hm) ∙ ap (read_number 10 0) e ∙ read-decimal_digits 20 n hn

pub hex-injective : (w m n : ℕ) → m < 16 ^ w → n < 16 ^ w → hex w m ≡ hex w n → m ≡ n
hex-injective w m n hm hn e = sym (read-hex w m hm) ∙ ap (read_number 16 0) e ∙ read-hex w n hn

length-append_one : (xs : List ℕ) (c : ℕ) → length (xs ++ (c ∷ [])) ≡ suc (length xs)
length-append_one [] c = refl
length-append_one (x ∷ xs) c = ap suc (length-append_one xs c)

pub length-hex : (w n : ℕ) → length (hex w n) ≡ w
unfolding hex
length-hex zero n = refl
length-hex (suc w) n =
    length-append_one (hex w (n / 16)) (hex_char (n % 16)) ∙ ap suc (length-hex w (n / 16))

-- Two texts that agree after fronts of one length agree in both parts.
pub append_cancel :
    (xs ys us vs : List ℕ) → length xs ≡ length ys → xs ++ us ≡ ys ++ vs → (xs ≡ ys) × (us ≡ vs)
append_cancel [] [] us vs h e = (refl, e)
append_cancel [] (y ∷ ys) us vs h e = absurd (omega arith)
append_cancel (x ∷ xs) [] us vs h e = absurd (omega arith)
append_cancel (x ∷ xs) (y ∷ ys) us vs h e = ground (arith, append_cancel xs ys us vs)

-- The pieces of a message, put together, and `{}` of a signed number.
unfoldable pub concat : List (List ℕ) → List ℕ
concat [] = []
concat (x ∷ xs) = x ++ concat xs

unfoldable pub signed : ℤ → List ℕ
unfolding decimal
signed (pos n) = decimal n
signed (negsuc n) = 45 ∷ decimal (suc n)
