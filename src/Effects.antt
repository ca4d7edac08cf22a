-- ===== src/Effects.antt =====
-- What the program does to its surroundings, as a monad: calls of the language model and of the
-- web search are written to a log, and a Python exception is a value with its message.
use flowxrag.Prelude.{ℕ, suc, ◌+◌, List, [], ◌∷◌, ◌++◌, ◌≡◌, ◌⊎◌, inl, inr, refl, arith}
use flowxrag.Text.{Text}

pub data Result {ℓ} (A : Type ℓ) : Type ℓ where
  ok : A → Result A
  raise : Text → Result A

-- `slept n` is a pause of n tenths of a second.
pub data Event : Type 0 where
  llm_called : Text → Event
  slept : ℕ → Event
  web_called : Text → Event

-- The events so far, the oldest first.
abbrev pub Log : Type 0
Log = List Event

abbrev pub M : Type 0 → Type 0
M A = Log → Result A × Log

abbrev pub pure : {A : Type 0} → A → M A
pure a log = (ok a, log)

abbrev pub fail : {A : Type 0} → Text → M A
fail e log = (raise e, log)

abbrev pub emit : Event → M (Unit {0})
emit e log = (ok tt, log ++ e ∷ [])

abbrev pub continue : {A B : Type 0} → Result A → (A → M B) → M B
continue (ok a) f log = f a log
continue (raise e) f log = (raise e, log)

infixl 5 ◌>>=◌ ◌>>◌
abbrev pub ◌>>=◌ : {A B : Type 0} → M A → (A → M B) → M B
◌>>=◌ m f log = let (r, log') = m log in continue r f log'

abbrev pub ◌>>◌ : {B : Type 0} → M (Unit {0}) → M B → M B
m >> k = m >>= λ _. k

abbrev pub recover : {A : Type 0} → Result A → (Text → M A) → M A
recover (ok a) handler log = (ok a, log)
recover (raise e) handler log = handler e log

-- `try: m except Exception as exc: handler(exc)`
abbrev pub attempt : {A : Type 0} → M A → (Text → M A) → M A
attempt m handler log = let (r, log') = m log in recover r handler log'

pub Result-cases {ℓ} :
    {A : Type ℓ} (r : Result A) → ((a : A) × (r ≡ ok a)) ⊎ ((e : Text) × (r ≡ raise e))
Result-cases (ok a) = inl (a, refl)
Result-cases (raise e) = inr (e, refl)

-- The number of calls of the language model, and the tenths of seconds slept.
abbrev pub calls : Log → ℕ
calls [] = 0
calls (llm_called p ∷ log) = suc (calls log)
calls (slept n ∷ log) = calls log
calls (web_called q ∷ log) = calls log

abbrev pub rests : Log → ℕ
rests [] = 0
rests (llm_called p ∷ log) = rests log
rests (slept n ∷ log) = n + rests log
rests (web_called q ∷ log) = rests log

pub calls-append : (a b : Log) → calls (a ++ b) ≡ calls a + calls b
calls-append [] b = omega arith
calls-append (llm_called p ∷ a) b = omega (arith, calls-append a b)
calls-append (slept n ∷ a) b = calls-append a b
calls-append (web_called q ∷ a) b = calls-append a b

pub rests-append : (a b : Log) → rests (a ++ b) ≡ rests a + rests b
rests-append [] b = omega arith
rests-append (llm_called p ∷ a) b = rests-append a b
rests-append (slept n ∷ a) b = omega (arith, rests-append a b)
rests-append (web_called q ∷ a) b = rests-append a b

-- An outcome whose value, if there is one, has the property.
abbrev pub Yields : {A : Type 0} → (A → Type 0) → Result A → Type 0
Yields P (ok a) = P a
Yields P (raise e) = Unit

-- Two blocks are equal if they go on alike behind every value that the first part can give.
pub bind_cong :
    {A B : Type 0} (P : A → Type 0) (m : M A) (f g : A → M B) (log : Log)
    → Yields P (m log).0
    → ((a : A) (log' : Log) → P a → f a log' ≡ g a log')
    → (m >>= f) log ≡ (m >>= g) log
bind_cong P m f g log y h = both P f g (m log).0 (m log).1 y h
  where
    both :
        {A B : Type 0} (P : A → Type 0) (f g : A → M B) (r : Result A) (log' : Log)
        → Yields P r
        → ((a : A) (log'' : Log) → P a → f a log'' ≡ g a log'')
        → continue r f log' ≡ continue r g log'
    both P f g (ok a) log' y h = h a log' y
    both P f g (raise e) log' y h = refl

-- A property of a block's outcome, from what its first part can give.
pub continue-Yields :
    {A B : Type 0} (P : A → Type 0) (Q : B → Type 0) (r : Result A) (f : A → M B) (log : Log)
    → Yields P r
    → ((a : A) (log' : Log) → P a → Yields Q (f a log').0)
    → Yields Q (continue r f log).0
continue-Yields P Q (ok a) f log y h = h a log y
continue-Yields P Q (raise e) f log y h = tt

pub Yields-all : {A : Type 0} (r : Result A) → Yields (λ _. Unit {0}) r
Yields-all (ok a) = tt
Yields-all (raise e) = tt

pub recover-Yields :
    {A : Type 0} (P : A → Type 0) (r : Result A) (handler : Text → M A) (log : Log)
    → Yields P r
    → ((e : Text) (log' : Log) → Yields P (handler e log').0)
    → Yields P (recover r handler log).0
recover-Yields P (ok a) handler log y h = y
recover-Yields P (raise e) handler log y h = h e log
