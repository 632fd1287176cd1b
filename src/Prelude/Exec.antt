-- ===== src/Prelude/Exec.antt =====
-- Methods of an object: they change its state, and return or raise. An exception keeps the state
-- that was reached.
use mathlib.Core.Bool.{Bool, true, false}
use mathlib.Core.List.{List, [], ◌∷◌}
use mathlib.Core.Option.{Option, none, some}
use mathlib.Core.Path.{◌≡◌, refl, ap}
use object_database.Prelude.Tests.{if◌then◌else◌}

-- `wrong_kind` is a use of a stored value as what it is not, for which Python raises a TypeError, an
-- AttributeError or an AssertionError by the value; `transaction_error` is the exception that the
-- server raises itself.
pub data Error : Type 0 where
  assertion_error attribute_error key_error type_error wrong_kind transaction_error : Error

pub data Outcome (S A : Type 0) : Type 0 where
  ok : A → S → Outcome S A
  raised : Error → S → Outcome S A

abbrev pub Exec : Type 0 → Type 0 → Type 0
Exec S A = S → Outcome S A

infixl 5 ◌>>=◌ ◌>>◌
abbrev pub ◌>>=◌ : {S A B : Type 0} → Exec S A → (A → Exec S B) → Exec S B
◌>>=◌ m f s = elim (m s) [ ok a s' ↦ f a s' | raised e s' ↦ raised e s' ]

abbrev pub ◌>>◌ : {S A B : Type 0} → Exec S A → Exec S B → Exec S B
m >> k = m >>= λ _. k

abbrev pub pure : {S A : Type 0} → A → Exec S A
pure a s = ok a s

abbrev pub raise : {S A : Type 0} → Error → Exec S A
raise e s = raised e s

-- assert b
abbrev pub ensure : {S : Type 0} → Bool → Error → Exec S (Unit {0})
ensure true e s = ok tt s
ensure false e s = raised e s

abbrev pub state_of : {S A : Type 0} → Outcome S A → S
state_of (ok a s) = s
state_of (raised e s) = s

-- for a in l: f(a)
unfoldable pub for_each : {S A : Type 0} → List A → (A → Exec S (Unit {0})) → Exec S (Unit {0})
for_each [] f s = ok tt s
for_each (a ∷ l) f s = elim (f a s) [ ok _ s' ↦ for_each l f s' | raised e s' ↦ raised e s' ]

-- What holds of the result, if there is one.
abbrev pub Returns : {S A : Type 0} → (A → Type 0) → Outcome S A → Type 0
Returns P (ok a s) = P a
Returns P (raised e s) = Unit {0}

pub record Yields {S A : Type 0} (P : A → Type 0) (m : Exec S A) : Type 0 where
  pub holds : (s : S) → Returns P (m s)

pub bind-Yields :
    {S A B : Type 0} {Q : A → Type 0} {P : B → Type 0} (m : Exec S A) (f : A → Exec S B)
    → Yields Q m
    → ((a : A) → Q a → Yields P (f a))
    → Yields P (m >>= f)
bind-Yields {S} {A} {B} {Q} {P} m f h k = record { holds = λ s. go (m s) (h.holds s) }
  where
    go :
        (o : Outcome S A)
        → Returns Q o
        → Returns P (elim o [ ok a s' ↦ f a s' | raised e s' ↦ raised e s' ])
    go (ok a s') q = (k a q).holds s'
    go (raised e s') q = tt

abbrev pub Any : {A : Type 0} → A → Type 0
Any a = Unit {0}

pub Any-Yields : {S A : Type 0} (m : Exec S A) → Yields Any m
Any-Yields {S} {A} m = record { holds = λ s. go (m s) }
  where
    go : (o : Outcome S A) → Returns Any o
    go (ok a s) = tt
    go (raised e s) = tt

-- What holds of the state before holds of the state after, exceptions included.
pub record Preserves {S A : Type 0} (P : S → Type 0) (m : Exec S A) : Type 0 where
  pub kept : (s : S) → P s → P (state_of (m s))

pub bind-Preserves :
    {S A B : Type 0} {P : S → Type 0} (m : Exec S A) (f : A → Exec S B)
    → Preserves P m
    → ((a : A) → Preserves P (f a))
    → Preserves P (m >>= f)
bind-Preserves {S} {A} {B} {P} m f h k = record { kept = λ s p. go (m s) (h.kept s p) }
  where
    go :
        (o : Outcome S A)
        → P (state_of o)
        → P (state_of (elim o [ ok a s' ↦ f a s' | raised e s' ↦ raised e s' ]))
    go (ok a s') q = (k a).kept s' q
    go (raised e s') q = q

-- A loop preserves what each of its rounds does.
pub for_each-Preserves :
    {S A : Type 0} {P : S → Type 0} (l : List A) (f : A → Exec S (Unit {0}))
    → ((a : A) → Preserves P (f a))
    → Preserves P (for_each l f)
unfolding for_each
for_each-Preserves [] f h = record { kept = λ s p. p }
for_each-Preserves {S} {A} {P} (a ∷ l) f h = record {
  kept = (bind-Preserves (f a) (λ _. for_each l f) (h a) (λ _. for_each-Preserves l f h)).kept;
}

-- A method that looks at its state first.
pub look-Preserves :
    {S A : Type 0} {P : S → Type 0} (m : S → Exec S A)
    → ((s : S) → Preserves P (m s))
    → Preserves P (λ s. m s s)
look-Preserves m h = record { kept = λ s p. (h s).kept s p }

-- A first step that preserves `P`, and a second that leads from `P` to `Q`.
pub state_of-bind :
    {S A B : Type 0} {P Q : S → Type 0} (m : Exec S A) (f : A → Exec S B)
    → Preserves P m
    → ((s : S) → P s → Q s)
    → ((a : A) (s : S) → P s → Q (state_of (f a s)))
    → (s : S) → P s
    → Q (state_of ((m >>= f) s))
state_of-bind {S} {A} {B} {P} {Q} m f h weaken k s p = go (m s) (h.kept s p)
  where
    go :
        (o : Outcome S A)
        → P (state_of o)
        → Q (state_of (elim o [ ok a s' ↦ f a s' | raised e s' ↦ raised e s' ]))
    go (ok a s') q = k a s' q
    go (raised e s') q = weaken s' q

-- A first step that leads to `Q`, and a second that preserves it.
pub state_of-then :
    {S A B : Type 0} {Q : S → Type 0} (m : Exec S A) (f : A → Exec S B) (s : S)
    → Q (state_of (m s))
    → ((a : A) → Preserves Q (f a))
    → Q (state_of ((m >>= f) s))
state_of-then {S} {A} {B} {Q} m f s p k = go (m s) p
  where
    go :
        (o : Outcome S A)
        → Q (state_of o)
        → Q (state_of (elim o [ ok a s' ↦ f a s' | raised e s' ↦ raised e s' ]))
    go (ok a s') q = (k a).kept s' q
    go (raised e s') q = q

-- A test, and a lookup, on whose result the rest of a method depends.
pub state_of-if :
    {S A : Type 0} (Q : S → Type 0) (b : Bool) (o o' : Outcome S A)
    → (b ≡ true → Q (state_of o))
    → (b ≡ false → Q (state_of o'))
    → Q (state_of (if b then o else o'))
state_of-if Q true o o' h k = h refl
state_of-if Q false o o' h k = k refl

pub state_of-lookup :
    {S A B : Type 0} (Q : S → Type 0) (x : Option B) (o : Outcome S A) (f : B → Outcome S A)
    → (x ≡ none → Q (state_of o))
    → ((b : B) → x ≡ some b → Q (state_of (f b)))
    → Q (state_of (elim x [ none ↦ o | some b ↦ f b ]))
state_of-lookup Q none o f h k = h refl
state_of-lookup Q (some b) o f h k = k b refl

pub bind-ok :
    {S A B : Type 0} (m : Exec S A) (f : A → Exec S B) (s t : S) (a : A)
    → m s ≡ ok a t
    → (m >>= f) s ≡ f a t
bind-ok m f s t a e = ap (λ o. elim o [ ok b s' ↦ f b s' | raised x s' ↦ raised x s' ]) e
