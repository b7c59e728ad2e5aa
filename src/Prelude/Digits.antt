-- ===== src/Prelude/Digits.antt =====
-- Fixed-width big-endian digits in a base: `u32::to_be_bytes`, `u64::to_be_bytes` and the
-- zero-padded decimals of `{:08}`.
use Prim.Native.Nat.{ℕ, zero, suc, ◌+◌, ◌*◌, ◌/◌, ◌%◌, ◌^◌, ◌<◌}
use mathlib.Core.Path.{◌≡◌, refl}
use mathlib.Core.List.{List, [], ◌∷◌, ◌++◌}
use native.Mathlib.Nat.{pow-suc}
use native.Mathlib.Omega.{arith}
use free_box.Prelude.Lists.{length, length-append}

-- The `width` lowest digits of `n`, the highest first.
unfoldable pub digits_be : ℕ → ℕ → ℕ → List ℕ
digits_be base zero n = []
digits_be base (suc width) n = digits_be base width (n / base) ++ (n % base) ∷ []

unfoldable pub value_from : ℕ → ℕ → List ℕ → ℕ
value_from base acc [] = acc
value_from base acc (d ∷ ds) = value_from base (acc * base + d) ds

value_from-concat :
    (base acc : ℕ) (ds : List ℕ) (d : ℕ)
    → value_from base acc (ds ++ d ∷ []) ≡ value_from base acc ds * base + d
unfolding value_from
value_from-concat base acc [] d = refl
value_from-concat base acc (e ∷ ds) d = value_from-concat base (acc * base + e) ds d

pub length-digits_be : (base width n : ℕ) → length (digits_be base width n) ≡ width
unfolding digits_be
length-digits_be base zero n = refl
length-digits_be base (suc width) n = omega (
  arith,
  length-append (digits_be base width (n / base)) ((n % base) ∷ []),
  length-digits_be base width (n / base),
)

-- Reading the bytes of a number that fits gives the number back.
pub value-bytes : (width n : ℕ) → n < 256 ^ width → value_from 256 0 (digits_be 256 width n) ≡ n
unfolding digits_be value_from
value-bytes zero n h = omega arith
value-bytes (suc width) n h =
    rw (value_from-concat 256 0 (digits_be 256 width (n / 256)) (n % 256))
      (omega (arith, value-bytes width (n / 256) (omega (arith, pow-suc 256 width))))

pub value-decimals : (width n : ℕ) → n < 10 ^ width → value_from 10 0 (digits_be 10 width n) ≡ n
unfolding digits_be value_from
value-decimals zero n h = omega arith
value-decimals (suc width) n h =
    rw (value_from-concat 10 0 (digits_be 10 width (n / 10)) (n % 10))
      (omega (arith, value-decimals width (n / 10) (omega (arith, pow-suc 10 width))))
