-- ===== src/Floats/Toy.antt =====
-- An instance of the floating-point parameter for the examples: the integers with two infinities and
-- a NaN. No theorem is about it.
use omle_runtime.Prelude.{ℕ, Bool, true, false, not, ◌||◌, if◌then◌else◌}
use omle_runtime.Prelude.Int.{ℤ, pos, ◌+ℤ◌, ◌-ℤ◌, ◌*ℤ◌, eqb_ℤ, leb_ℤ, ltb_ℤ, pos_part, neg_part}
use omle_runtime.Floats.{Float, Floats, Math1, abs}

pub data Number : Type 0 where
  not_a_number : Number
  infinite : Bool → Number
  finite : ℤ → Number

abbrev opposite : Number → Number
opposite not_a_number = not_a_number
opposite (infinite b) = infinite (not b)
opposite (finite z) = finite (pos 0 -ℤ z)

abbrev sum : Number → Number → Number
sum not_a_number y = not_a_number
sum (infinite b) not_a_number = not_a_number
sum (infinite true) (infinite false) = not_a_number
sum (infinite false) (infinite true) = not_a_number
sum (infinite b) y = infinite b
sum (finite a) not_a_number = not_a_number
sum (finite a) (infinite b) = infinite b
sum (finite a) (finite b) = finite (a +ℤ b)

abbrev product : Number → Number → Number
product (finite a) (finite b) = finite (a *ℤ b)
product x y = not_a_number

abbrev less : Number → Number → Bool
less not_a_number y = false
less (infinite true) y = false
less (infinite false) (infinite true) = true
less (infinite false) (finite b) = true
less (infinite false) y = false
less (finite a) (infinite b) = b
less (finite a) (finite b) = ltb_ℤ a b
less (finite a) not_a_number = false

abbrev same_number : Number → Number → Bool
same_number (infinite true) (infinite true) = true
same_number (infinite false) (infinite false) = true
same_number (finite a) (finite b) = eqb_ℤ a b
same_number x y = false

abbrev size : Number → Number
size (infinite b) = infinite true
size (finite a) = finite (pos (if leb_ℤ (pos 0) a then pos_part a else neg_part a))
size not_a_number = not_a_number

abbrev of_function : Math1 → Number → Number
of_function abs x = size x
of_function _ x = x

-- The bytes tell just the NaN, in a type whose largest number below the NaNs is `top`.
abbrev bytes : ℕ → Number → ℕ
bytes top not_a_number = top
bytes top x = 0

abbrev integer : Number → ℤ
integer (finite a) = a
integer x = pos 0

abbrev toy_float : ℕ → Float
toy_float top = record {
  Carrier = Number;
  bits = bytes top;
  literal = λ m e. finite m;
  of_int = λ z. finite z;
  to_int = λ signed w x. integer x;
  nan = not_a_number;
  infinity = infinite true;
  eq = same_number;
  lt = less;
  le = λ x y. less x y || same_number x y;
  add = sum;
  sub = λ x y. sum x (opposite y);
  mul = product;
  div = product;
  neg = opposite;
  math1 = of_function;
  math2 = λ f x y. x;
}

instance abbrev pub toy : Floats
toy = record {
  f32 = toy_float 0x7FFFFFFF;
  f64 = toy_float 0x7FFFFFFFFFFFFFFF;
  widen = λ x. x;
  narrow = λ x. x;
}
