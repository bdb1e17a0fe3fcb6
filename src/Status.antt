-- ===== src/Status.antt =====
-- include/omle/status.h: ErrorCode, Status and StatusOr, and the exceptions that the library throws.
use omle_runtime.Prelude.{
  ℕ, zero, suc, ◌≡◌, ◌∙◌, refl, Bool, true, false, Option, none, some, List, [], ◌∷◌, String,
  length, ap, ◌+◌, ◌<◌, replicate, arith,
}

-- ErrorCode
pub data ErrorCode : Type 0 where
  file_not_found file_read_error parse_error invalid_graph verification_failed missing_input
        output_not_produced output_not_found unknown_operator invalid_argument :
      ErrorCode

-- The values of the enumeration.
unfoldable pub error_number : ErrorCode → ℕ
error_number file_not_found = 1
error_number file_read_error = 2
error_number parse_error = 3
error_number invalid_graph = 4
error_number verification_failed = 5
error_number missing_input = 10
error_number output_not_produced = 11
error_number output_not_found = 12
error_number unknown_operator = 13
error_number invalid_argument = 14

-- Status::Payload
pub record Payload : Type 0 where
  pub code : ErrorCode
  pub message : String

-- What a call gives back: the value of a StatusOr, its error, an exception (its `what()`), or
-- `undefined` where the source reads outside an object, so that C++ gives the call no meaning;
-- `terminates` is a call of std::terminate, as of an exception that leaves a thread's function.
-- A function that returns a plain Status is one into `Result Unit`.
pub data Result {ℓ} (A : Type ℓ) : Type ℓ where
  ok : A → Result A
  error : Payload → Result A
  throws : String → Result A
  terminates : Result A
  undefined : Result A

-- ASSIGN_OR_RETURN, and the way of an exception up the stack.
module _ {ℓ κ} {A : Type ℓ} {B : Type κ} where
  infixl 5 ◌>>=◌
  abbrev pub ◌>>=◌ : Result A → (A → Result B) → Result B
  undefined >>= next = undefined
  terminates >>= next = terminates
  throws what >>= next = throws what
  error payload >>= next = error payload
  ok given >>= next = next given

  -- A successful call was successful in both its parts.
  pub >>=-eq-ok :
      (call : Result A) (next : A → Result B) {got : B}
      → (call >>= next) ≡ ok got
      → (given : A) × (call ≡ ok given) × (next given ≡ ok got)
  >>=-eq-ok undefined next h = cc
  >>=-eq-ok terminates next h = cc
  >>=-eq-ok (throws what) next h = cc
  >>=-eq-ok (error payload) next h = cc
  >>=-eq-ok (ok given) next h = (given, refl, h)

module _ {ℓ κ} {A : Type ℓ} {B : Type κ} where
  pub >>=-cong :
      (call : Result A) (f g : A → Result B) → ((a : A) → f a ≡ g a) → (call >>= f) ≡ (call >>= g)
  >>=-cong undefined f g h = refl
  >>=-cong terminates f g h = refl
  >>=-cong (throws what) f g h = refl
  >>=-cong (error payload) f g h = refl
  >>=-cong (ok given) f g h = h given

pub >>=-ok {ℓ} : {A : Type ℓ} (call : Result A) → (call >>= λ a. ok a) ≡ call
>>=-ok undefined = refl
>>=-ok terminates = refl
>>=-ok (throws what) = refl
>>=-ok (error payload) = refl
>>=-ok (ok given) = refl

module _ {ℓ κ μ} {A : Type ℓ} {B : Type κ} {C : Type μ} where
  pub >>=-assoc :
      (call : Result A) (f : A → Result B) (g : B → Result C)
      → (call >>= f >>= g) ≡ (call >>= λ a. f a >>= g)
  >>=-assoc undefined f g = refl
  >>=-assoc terminates f g = refl
  >>=-assoc (throws what) f g = refl
  >>=-assoc (error payload) f g = refl
  >>=-assoc (ok given) f g = refl

-- An error Status from a code and a message.
abbrev pub fail {ℓ} : {A : Type ℓ} → ErrorCode → String → Result A
fail c m = error (record { code = c; message = m })

-- A read that is outside the object for `none`.
abbrev pub defined {ℓ} : {A : Type ℓ} → Option A → Result A
defined none = undefined
defined (some a) = ok a

-- Status::ok, StatusOr::ok
unfoldable pub is_ok {ℓ} : {A : Type ℓ} → Result A → Bool
is_ok (ok a) = true
is_ok _ = false

-- StatusOr::value: the checked access throws the error's message.
unfoldable pub value {ℓ} : {A : Type ℓ} → Result A → Result A
value (error e) = throws e.message
value r = r

-- An exception that leaves a noexcept function, or the function of a thread.
unfoldable pub no_escape {ℓ} : {A : Type ℓ} → Result A → Result A
no_escape (throws what) = terminates
no_escape r = r

module _ {ℓ κ} {A : Type ℓ} {B : Type κ} where
  -- A loop that computes one value for each element, in order.
  abbrev pub map_result : (A → Result B) → List A → Result (List B)
  map_result f [] = ok []
  map_result f (x ∷ xs) = f x >>= λ y. map_result f xs >>= λ ys. ok (y ∷ ys)

module _ {ℓ} {B : Type ℓ} where
  -- for (int i = start; i < start + n; ++i) out.push_back(f(i))
  abbrev pub tabulate : (ℕ → Result B) → ℕ → ℕ → Result (List B)
  tabulate f start zero = ok []
  tabulate f start (suc n) = f start >>= λ y. tabulate f (suc start) n >>= λ ys. ok (y ∷ ys)

module _ {ℓ} {S : Type ℓ} where
  -- for (int i = start; i < start + n; ++i) step(i), on the state that the loop changes
  abbrev pub fold_range : (ℕ → S → Result S) → ℕ → ℕ → S → Result S
  fold_range step start zero s = ok s
  fold_range step start (suc n) s = step start s >>= fold_range step (suc start) n

module _ {ℓ κ} {A : Type ℓ} {S : Type κ} where
  -- for (const auto& x : xs) step(x)
  abbrev pub fold_list : (A → S → Result S) → List A → S → Result S
  fold_list step [] s = ok s
  fold_list step (x ∷ xs) s = step x s >>= fold_list step xs

pub ok-injective {ℓ} : {A : Type ℓ} {a b : A} → ok a ≡ ok b → a ≡ b
ok-injective h = cc

pub length-tabulate {ℓ} :
    {B : Type ℓ} (f : ℕ → Result B) (start n : ℕ) {ys : List B}
    → tabulate f start n ≡ ok ys
    → length ys ≡ n
length-tabulate f start zero h = rw (← ok-injective h)
length-tabulate f start (suc n) h =
    let (y, e, h') = >>=-eq-ok (f start) (λ y. tabulate f (suc start) n >>= λ ys. ok (y ∷ ys)) h in
    let (ys, e', h'') = >>=-eq-ok (tabulate f (suc start) n) (λ ys. ok (y ∷ ys)) h' in
    rw (← ok-injective h'') (ap suc (length-tabulate f (suc start) n e'))

module _ {ℓ} {B : Type ℓ} where
  -- g start ∷ … ∷ g (start + n - 1)
  abbrev pub rows : (ℕ → B) → ℕ → ℕ → List B
  rows g start zero = []
  rows g start (suc n) = g start ∷ rows g (suc start) n

  -- A loop whose every round succeeds gives the values of its rounds.
  pub tabulate-rows :
      (f : ℕ → Result B) (g : ℕ → B) (start n : ℕ)
      → ((i : ℕ) → i < start + n → f i ≡ ok (g i))
      → tabulate f start n ≡ ok (rows g start n)
  tabulate-rows f g start zero h = refl
  tabulate-rows f g start (suc n) h =
      rw (h start (omega arith), tabulate-rows f g (suc start) n (λ i b. h i (omega arith)))

  pub length-rows : (g : ℕ → B) (start n : ℕ) → length (rows g start n) ≡ n
  length-rows g start zero = refl
  length-rows g start (suc n) = ap suc (length-rows g (suc start) n)

  pub replicate-eq-rows : (b : B) (start n : ℕ) → replicate n b ≡ rows (λ _. b) start n
  replicate-eq-rows b start zero = refl
  replicate-eq-rows b start (suc n) = ap (◌∷◌ b) (replicate-eq-rows b (suc start) n)

-- What each round of a loop keeps, the loop keeps.
pub fold_range-keeps {ℓ κ} :
    {S : Type ℓ} (P : S → Type κ) (step : ℕ → S → Result S) (start n : ℕ) {s end : S}
    → ((i : ℕ) (s end : S) → step i s ≡ ok end → P s → P end)
    → fold_range step start n s ≡ ok end
    → P s
    → P end
fold_range-keeps P step start zero keep h p = rw (ok-injective h) at p
fold_range-keeps P step start (suc n) {s = s} keep h p =
    let (mid, e, h') = >>=-eq-ok (step start s) (fold_range step (suc start) n) h in
    fold_range-keeps P step (suc start) n keep h' (keep start s mid e p)

-- Loops with equal rounds are equal.
pub fold_range-cong {ℓ} :
    {S : Type ℓ} (f g : ℕ → S → Result S) (start n : ℕ) (s : S)
    → ((i : ℕ) (s : S) → f i s ≡ g i s)
    → fold_range f start n s ≡ fold_range g start n s
fold_range-cong f g start zero s h = refl
fold_range-cong f g start (suc n) s h =
    ap (λ c. c >>= fold_range f (suc start) n) (h start s)
    ∙ >>=-cong (g start s) _ _ (λ s'. fold_range-cong f g (suc start) n s' h)
