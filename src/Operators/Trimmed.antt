-- ===== src/Operators/Trimmed.antt =====
-- src/operator_registry.cpp: what Trim and NormalizeWhitespace leave.
use Prim.Native.Char.{Char}
use Prim.Native.String.{String, [], ◌∷◌}
use mathlib.Core.Path.{subst}
use omle_runtime.Prelude.{◌≡◌, ◌↔◌, refl, false, Bool-cases, inl, inr}
use omle_runtime.Operators.Strings.{is_space, trim_start, keep_char, trim_end, str_trim}

-- The text does not begin with white space.
abbrev pub StartsInk : String → Type 0
StartsInk [] = Unit
StartsInk (c ∷ s) = is_space c ≡ false

-- The text does not end with white space.
abbrev pub EndsInk : String → Type 0
EndsInk [] = Unit
EndsInk (c ∷ []) = is_space c ≡ false
EndsInk (c ∷ d ∷ s) = EndsInk (d ∷ s)

trim_start-StartsInk : (s : String) → StartsInk (trim_start s)
unfolding trim_start
trim_start-StartsInk [] = tt
trim_start-StartsInk (c ∷ s) = elim (Bool-cases (is_space c)) [
  | inl e ↦ rw e (trim_start-StartsInk s)
  | inr e ↦ rw e e
]

keep_char-EndsInk : (c : Char) (s : String) → EndsInk s → EndsInk (keep_char c s)
unfolding keep_char
keep_char-EndsInk c [] h = elim (Bool-cases (is_space c)) [ inl e ↦ rw e tt | inr e ↦ rw e e ]
keep_char-EndsInk c (d ∷ s) h = h

trim_end-EndsInk : (s : String) → EndsInk (trim_end s)
unfolding trim_end
trim_end-EndsInk [] = tt
trim_end-EndsInk (c ∷ s) = keep_char-EndsInk c (trim_end s) (trim_end-EndsInk s)

keep_char-StartsInk : (c : Char) (s : String) → is_space c ≡ false → StartsInk (keep_char c s)
unfolding keep_char
keep_char-StartsInk c [] h = rw h h
keep_char-StartsInk c (d ∷ s) h = h

trim_end-StartsInk : (s : String) → StartsInk s → StartsInk (trim_end s)
unfolding trim_end
trim_end-StartsInk [] h = tt
trim_end-StartsInk (c ∷ s) h = keep_char-StartsInk c (trim_end s) h

trim_start-id : (s : String) → StartsInk s → trim_start s ≡ s
unfolding trim_start
trim_start-id [] h = refl
trim_start-id (c ∷ s) h = rw h refl

keep_char-id : (c : Char) (s : String) → EndsInk (c ∷ s) → keep_char c s ≡ c ∷ s
unfolding keep_char
keep_char-id c [] h = rw h refl
keep_char-id c (d ∷ s) h = refl

trim_end-id : (s : String) → EndsInk s → trim_end s ≡ s
unfolding trim_end
trim_end-id [] h = refl
trim_end-id (c ∷ []) h = keep_char-id c [] h
trim_end-id (c ∷ d ∷ s) h = rw (trim_end-id (d ∷ s) h) (keep_char-id c (d ∷ s) h)

-- str_trim leaves no white space at either end of a text, leaves a text as it is exactly if it has
-- none there, and changes nothing when it is applied again.
pub str_trim-clean :
    (s : String)
    → StartsInk (str_trim s)
      × EndsInk (str_trim s)
      × ((str_trim s ≡ s) ↔ (StartsInk s × EndsInk s))
      × (str_trim (str_trim s) ≡ str_trim s)
unfolding str_trim
str_trim-clean s =
    let start = trim_end-StartsInk (trim_start s) (trim_start-StartsInk s) in
    let end = trim_end-EndsInk (trim_start s) in
    let fixed : (t : String) → StartsInk t → EndsInk t → trim_end (trim_start t) ≡ t =
      λ t a b. rw (trim_start-id t a) (trim_end-id t b) in
    (
      start,
      end,
      (λ e. (subst StartsInk e start, subst EndsInk e end), λ (a, b). fixed s a b),
      fixed (trim_end (trim_start s)) start end,
    )
