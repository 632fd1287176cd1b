-- ===== src/Prelude/Equality.antt =====
-- Types whose values the program compares, hashes or sorts by `==`: an instance decides equality.
use Prim.Native.Nat.{ℕ}
use Prim.Native.String.{String}
use mathlib.Core.Path.{◌≡◌, refl, ap}
use mathlib.Core.Logic.{◌↔◌, ite}
use mathlib.Core.Bool.{Bool, true, false}
use mathlib.Core.List.{List}
use native.Mathlib.Decide.{ℕ_discrete}
use text.Mathlib.Text.{◌==◌ as str_eq}
use text.Mathlib.TextEquality.{eq_iff}

pub record Eq {ℓ} (A : Type ℓ) : Type ℓ where
  pub decide : Discrete A

abbrev pub dec_eq {ℓ} : {A : Type ℓ} ⦃e : Eq A⦄ → Discrete A
dec_eq ⦃e⦄ = e.decide

-- `a == b` as a Boolean.
abbrev pub beq {ℓ} : {A : Type ℓ} ⦃e : Eq A⦄ → A → A → Bool
beq a b = ite (dec_eq a b) true false

instance abbrev pub nat_eq : Eq ℕ
nat_eq = record { decide = ℕ_discrete }

dec_of_bool {ℓ} : {P : Type ℓ} (b : Bool) → (b ≡ true) ↔ P → Dec P
dec_of_bool true h = yes (h.0 refl)
dec_of_bool false h = no (λ p. let e : false ≡ true = h.1 p in cc)

unfoldable pub string_discrete : Discrete String
unfolding dec_of_bool
string_discrete s t = dec_of_bool (str_eq s t) (eq_iff s t)

instance abbrev pub string_eq : Eq String
string_eq = record { decide = string_discrete }

discrete_of_list {ℓ} : {A : Type ℓ} → Discrete A → Discrete (List A)
discrete_of_list d = hlevel d

unfoldable pub list_discrete {ℓ} : {A : Type ℓ} → Discrete A → Discrete (List A)
unfolding discrete_of_list
list_discrete d = discrete_of_list d

instance abbrev pub list_eq {ℓ} : {A : Type ℓ} ⦃e : Eq A⦄ → Eq (List A)
list_eq ⦃e⦄ = record { decide = list_discrete e.decide }

decide_pair {ℓ} :
    {A B : Type ℓ} (a c : A) (b d : B)
    → Dec (a ≡ c)
    → Dec (b ≡ d)
    → Dec (◌≡◌ {A = A × B} (a, b) (c, d))
decide_pair a c b d (yes p) (yes q) = yes (λ i. (p i, q i))
decide_pair a c b d (yes p) (no n) = no (λ e. n (ap (λ x. x.1) e))
decide_pair a c b d (no n) q = no (λ e. n (ap (λ x. x.0) e))

unfoldable pub pair_discrete {ℓ} : {A B : Type ℓ} → Discrete A → Discrete B → Discrete (A × B)
unfolding decide_pair
pair_discrete d e (a, b) (c, f) = decide_pair a c b f (d a c) (e b f)

instance abbrev pub pair_eq {ℓ} : {A B : Type ℓ} ⦃a : Eq A⦄ ⦃b : Eq B⦄ → Eq (A × B)
pair_eq ⦃a⦄ ⦃b⦄ = record { decide = pair_discrete a.decide b.decide }
