-- ===== src/Outcome.antt =====
-- What a run of C code over a state can end in, and commands as state passing.
--   ok a s       the code returns `a` in the state `s`
--   exited c s   it called exit(c), as the macro DIE of util.h does with EXIT_FAILURE
--   fault        undefined behaviour: NULL, a freed address, an overrun buffer
--   starved      the rounds or the answers of the environment that were handed to it ran out
use tcp_udp_client_server.Base.{ℕ, ◌≡◌, refl, Bool, true, false, if◌then◌else◌}

pub data Outcome (S A : Type 0) : Type 0 where
  ok : A → S → Outcome S A
  exited : ℕ → S → Outcome S A
  fault : Outcome S A
  starved : Outcome S A

abbrev pub Cmd : Type 0 → Type 0 → Type 0
Cmd S A = S → Outcome S A

module _ {S A : Type 0} where
  abbrev pub pure : A → Cmd S A
  pure = ok

module _ {S A B : Type 0} where
  abbrev pub then_run : Outcome S A → (A → Cmd S B) → Outcome S B
  then_run (ok a s) k = k a s
  then_run (exited c s) k = exited c s
  then_run fault k = fault
  then_run starved k = starved

  infixl 5 ◌>>=◌ ◌>>◌
  abbrev pub ◌>>=◌ : Cmd S A → (A → Cmd S B) → Cmd S B
  m >>= k = λ s. then_run (m s) k

  abbrev pub ◌>>◌ : Cmd S A → Cmd S B → Cmd S B
  m >> n = m >>= λ _. n

-- Total correctness: the run returns, and what it returns satisfies `P`.
pub data Ends {S A : Type 0} (P : A → S → Type 0) : Outcome S A → Type 0 where
  ends : {a : A} {s : S} → P a s → Ends P (ok a s)

module _ {S A : Type 0} {P : A → S → Type 0} where
  pub Ends-bind :
      {B : Type 0} {Q : B → S → Type 0} {r : Outcome S A} {k : A → Cmd S B}
      → Ends P r
      → ((a : A) (s : S) → P a s → Ends Q (k a s))
      → Ends Q (then_run r k)
  Ends-bind (ends p) rest = rest _ _ p

  pub Ends-mono :
      {Q : A → S → Type 0} {r : Outcome S A}
      → Ends P r
      → ((a : A) (s : S) → P a s → Q a s)
      → Ends Q r
  Ends-mono (ends p) weaken = ends (weaken _ _ p)

  pub Ends-eq : {r : Outcome S A} {a : A} {s : S} → r ≡ ok a s → P a s → Ends P r
  Ends-eq e p = rw e (ends p)

-- The continuation of a run may be taken in two parts.
pub then_run_assoc :
    {S A B C : Type 0} (r : Outcome S A) (f : A → Cmd S B) (g : B → Cmd S C)
    → then_run r (λ a s. then_run (f a s) g) ≡ then_run (then_run r f) g
then_run_assoc (ok a s) f g = refl
then_run_assoc (exited c s) f g = refl
then_run_assoc fault f g = refl
then_run_assoc starved f g = refl

-- Partial correctness: whatever state the run ends in, by a return or by exit(), satisfies `P`.
module _ {S : Type 0} (P : S → Type 0) where
  abbrev pub Holds : {A : Type 0} → Outcome S A → Type 0
  Holds (ok a s) = P s
  Holds (exited c s) = P s
  Holds fault = Unit {0}
  Holds starved = Unit {0}

  abbrev pub Keeps : {A : Type 0} → Cmd S A → Type 0
  Keeps m = (s : S) → P s → Holds (m s)

  Holds-then :
      {A B : Type 0} (r : Outcome S A) (k : A → Cmd S B)
      → Holds r
      → ((a : A) → Keeps (k a))
      → Holds (then_run r k)
  Holds-then (ok a s) k h rest = rest a s h
  Holds-then (exited c s) k h rest = h
  Holds-then fault k h rest = tt
  Holds-then starved k h rest = tt

  pub Keeps-bind :
      {A B : Type 0} (m : Cmd S A) (k : A → Cmd S B)
      → Keeps m
      → ((a : A) → Keeps (k a))
      → Keeps (m >>= k)
  Keeps-bind m k first rest s p = Holds-then (m s) k (first s p) rest

  pub Keeps-if :
      {A : Type 0} (b : Bool) (m n : Cmd S A) → Keeps m → Keeps n → Keeps (if b then m else n)
  Keeps-if true m n t e = t
  Keeps-if false m n t e = e

  pub Holds-if :
      {A : Type 0} (b : Bool) (m n : Outcome S A) → Holds m → Holds n → Holds (if b then m else n)
  Holds-if true m n t e = t
  Holds-if false m n t e = e

pub Holds-mono :
    {S A : Type 0} {P Q : S → Type 0} (r : Outcome S A)
    → ((s : S) → P s → Q s)
    → Holds P r
    → Holds Q r
Holds-mono (ok a s) weaken h = weaken s h
Holds-mono (exited c s) weaken h = weaken s h
Holds-mono fault weaken h = tt
Holds-mono starved weaken h = tt

-- Partial correctness of the runs that return.
pub data Yields {S A : Type 0} (P : A → S → Type 0) : Outcome S A → Type 0 where
  returns : {a : A} {s : S} → P a s → Yields P (ok a s)
  exits : {c : ℕ} {s : S} → Yields P (exited c s)
  faults : Yields P fault
  starves : Yields P starved

module _ {S A : Type 0} {P : A → S → Type 0} where
  pub Yields-bind :
      {B : Type 0} {Q : B → S → Type 0} {r : Outcome S A} {k : A → Cmd S B}
      → Yields P r
      → ((a : A) (s : S) → P a s → Yields Q (k a s))
      → Yields Q (then_run r k)
  Yields-bind (returns p) rest = rest _ _ p
  Yields-bind exits rest = exits
  Yields-bind faults rest = faults
  Yields-bind starves rest = starves

  pub Ends-Yields : {r : Outcome S A} → Ends P r → Yields P r
  Ends-Yields (ends p) = returns p

  pub Yields-if :
      (b : Bool) (m n : Cmd S A) (s : S)
      → ((b ≡ true) → Yields P (m s))
      → ((b ≡ false) → Yields P (n s))
      → Yields P ((if b then m else n) s)
  Yields-if true m n s t e = t refl
  Yields-if false m n s t e = e refl

  pub Yields-either :
      (b : Bool) (r t : Outcome S A)
      → ((b ≡ true) → Yields P r)
      → ((b ≡ false) → Yields P t)
      → Yields P (if b then r else t)
  Yields-either true r t h k = h refl
  Yields-either false r t h k = k refl

pub Yields-any : {S A : Type 0} (r : Outcome S A) → Yields (λ _ _. Unit {0}) r
Yields-any (ok a s) = returns tt
Yields-any (exited c s) = exits
Yields-any fault = faults
Yields-any starved = starves

pub Yields-and :
    {S A : Type 0} {P Q : A → S → Type 0} {r : Outcome S A}
    → Yields P r
    → Yields Q r
    → Yields (λ a s. P a s × Q a s) r
Yields-and (returns p) (returns q) = returns (p, q)
Yields-and exits y = exits
Yields-and faults y = faults
Yields-and starves y = starves

module _ {S A : Type 0} where
  pub returned : {P : A → S → Type 0} {a : A} {s : S} → Yields P (ok a s) → P a s
  returned (returns p) = p

  -- Two continuations of one run, where what holds after the first tells of the second.
  pub Yields-beside :
      {B : Type 0} {I : A → S → Type 0} {P Q : B → S → Type 0} {r : Outcome S A} {k l : A → Cmd S B}
      → Yields I r
      → Yields Q (then_run r k)
      → ((a : A) (s : S) → I a s → Yields Q (k a s) → Yields P (l a s))
      → Yields P (then_run r l)
  Yields-beside (returns i) y h = h _ _ i y
  Yields-beside exits y h = exits
  Yields-beside faults y h = faults
  Yields-beside starves y h = starves
