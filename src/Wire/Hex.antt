-- ===== src/Wire/Hex.antt =====
-- `{:x}` of an unsigned integer: lower-case digits, with no leading zero.
use touche.Base.{
  ℕ, zero, suc, ◌+◌, ◌-◌, ◌*◌, ◌/◌, ◌%◌, ◌<◌, ◌≡◌, ◌≢◌, refl, [], ◌∷◌, Bytes, arith, ltb, lf, ◌==◌,
  if◌then◌else◌, All, Bool-cases, inl, inr, Bool, ◌&&◌, leb, true, codes,
}

unfoldable pub hex_digit : ℕ → ℕ
hex_digit d = if ltb d 10 then 48 + d else 87 + d

-- The digits of n, most significant first, in front of `acc`.
unfoldable pub hex_onto : ℕ → ℕ → Bytes → Bytes
hex_onto zero n acc = acc
hex_onto (suc fuel) n acc =
    let longer = hex_onto fuel (n / 16) (hex_digit (n % 16) ∷ acc) in
    if n / 16 == 0 then hex_digit (n % 16) ∷ acc else longer

unfoldable pub hex : ℕ → Bytes
unfolding hex_onto hex_digit
hex n = hex_onto (suc n) n []

-- The number that a byte stands for as a hexadecimal digit, in either case.
unfoldable pub digit_value : ℕ → ℕ
digit_value b = if ltb b 58 then b - 48 else if ltb b 71 then b - 55 else b - 87

unfoldable pub is_hex : ℕ → Bool
is_hex b = if ltb b 58 then leb 48 b else if ltb b 71 then leb 65 b else leb 97 b && leb b 102

unfoldable pub hex_value : ℕ → Bytes → ℕ
hex_value v [] = v
hex_value v (d ∷ ds) = hex_value (v * 16 + digit_value d) ds

abbrev pub IsHex : Bytes → Type 0
IsHex = All (λ b. is_hex b ≡ true)

hex_digit-is_hex : (d : ℕ) → d < 16 → is_hex (hex_digit d) ≡ true
unfolding hex_digit is_hex
hex_digit-is_hex d h = ground arith

digit_value-hex_digit : (d : ℕ) → d < 16 → digit_value (hex_digit d) ≡ d
unfolding hex_digit digit_value
digit_value-hex_digit d h = ground arith

pub hex_ne_lf : (b : ℕ) → is_hex b ≡ true → b ≢ lf
unfolding is_hex
hex_ne_lf b h = ground arith

hex_onto-IsHex : (fuel n : ℕ) (acc : Bytes) → IsHex acc → IsHex (hex_onto fuel n acc)
unfolding hex_onto
hex_onto-IsHex zero n acc h = h
hex_onto-IsHex (suc fuel) n acc h = elim (Bool-cases (n / 16 == 0)) [
  | inl e ↦ rw e (hex_digit-is_hex (n % 16) (omega arith), h)
  | inr e ↦ rw e (hex_onto-IsHex fuel (n / 16) _ (hex_digit-is_hex (n % 16) (omega arith), h))
]

pub hex-IsHex : (n : ℕ) → IsHex (hex n)
unfolding hex
hex-IsHex n = hex_onto-IsHex (suc n) n [] tt

hex_value-onto :
    (fuel n : ℕ) (acc : Bytes) → n < fuel → hex_value 0 (hex_onto fuel n acc) ≡ hex_value n acc
unfolding hex_onto hex_value
hex_value-onto zero n acc h = elim h [ ]
hex_value-onto (suc fuel) n acc h =
    ground (
      arith,
      digit_value-hex_digit (n % 16),
      hex_value-onto fuel (n / 16) (hex_digit (n % 16) ∷ acc),
    )

-- Reading the digits back gives the number.
pub hex_value-hex : (n : ℕ) → hex_value 0 (hex n) ≡ n
unfolding hex hex_value
hex_value-hex n = hex_value-onto (suc n) n [] (omega arith)

hex_8192 : hex 8192 ≡ codes "2000"
unfolding hex
hex_8192 = refl
