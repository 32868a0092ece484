-- ===== src/Base/Lists.antt =====
-- Lists measured by native numbers, membership in a list of texts, and predicates by recursion.
use Prim.Native.Nat.{ℕ, suc, ◌+◌, ◌≤◌}
use Prim.Native.String.{String}
use mathlib.Core.Path.{◌≡◌, refl}
use mathlib.Core.Logic.{◌⊎◌, inl, inr}
use mathlib.Core.Bool.{Bool, true, false, ◌||◌, ◌&&◌, not}
use mathlib.Core.List.{List, [], ◌∷◌, ◌++◌}
use mathlib.Core.Option.{Option, none, some}
use native.Mathlib.Omega.{arith}
use text.Mathlib.Text.{◌==◌ as str_eq}
use text.Mathlib.TextEquality.{eq_iff}
use symphonika.Base.Tests.{if◌then◌else◌, Bool-cases}

module _ {ℓ} {A : Type ℓ} where
  abbrev pub length : List A → ℕ
  length [] = 0
  length (x ∷ xs) = suc (length xs)

  pub length-append : (xs ys : List A) → length (xs ++ ys) ≡ length xs + length ys
  length-append [] ys = omega arith
  length-append (x ∷ xs) ys = omega (arith, length-append xs ys)

  -- A predicate by recursion computes to tuples, which the tactics read and build.
  abbrev pub All {κ} : (A → Type κ) → List A → Type κ
  All P [] = Unit
  All P (x ∷ xs) = P x × All P xs

  -- `Array.prototype.filter` on a Boolean test.
  abbrev pub filter : (A → Bool) → List A → List A
  filter p [] = []
  filter p (x ∷ xs) = let rest = filter p xs in if p x then x ∷ rest else rest

  pub length-filter-le : (p : A → Bool) (xs : List A) → length (filter p xs) ≤ length xs
  length-filter-le p [] = omega arith
  length-filter-le p (x ∷ xs) = ground (arith, length-filter-le p xs)

  -- `Array.prototype.some` and `find`.
  abbrev pub any : (A → Bool) → List A → Bool
  any p [] = false
  any p (x ∷ xs) = p x || any p xs

  abbrev pub find : (A → Bool) → List A → Option A
  find p [] = none
  find p (x ∷ xs) = let rest = find p xs in if p x then some x else rest

abbrev pub member : String → List String → Bool
member k [] = false
member k (j ∷ js) = str_eq j k || member k js

-- No text stands twice in the list.
abbrev pub Unique : List String → Type 0
Unique [] = Unit
Unique (k ∷ ks) = (member k ks ≡ false) × Unique ks

-- `Set.prototype.add` and `delete`, in insertion order.
abbrev pub add : String → List String → List String
add k ks = if member k ks then ks else ks ++ k ∷ []

abbrev pub remove : String → List String → List String
remove k [] = []
remove k (j ∷ js) = let rest = remove k js in if str_eq j k then rest else j ∷ rest

pub member-append :
    (k : String) (xs ys : List String) → member k (xs ++ ys) ≡ (member k xs || member k ys)
member-append k [] ys = refl
member-append k (x ∷ xs) ys = ground (arith, member-append k xs ys)

pub Unique-append :
    (k : String) (xs : List String) → Unique xs → member k xs ≡ false → Unique (xs ++ k ∷ [])
Unique-append k [] u h = (refl, tt)
Unique-append k (x ∷ xs) u h = (
  ground (arith, member-append x xs (k ∷ []), eq_iff x k, eq_iff k x),
  Unique-append k xs u.1 (ground arith),
)

pub remove_absent : (k : String) (xs : List String) → member k xs ≡ false → remove k xs ≡ xs
remove_absent k [] h = refl
remove_absent k (x ∷ xs) h = ground (arith, remove_absent k xs)

pub member-remove :
    (j k : String) (xs : List String) → member j (remove k xs) ≡ (member j xs && not (str_eq k j))
member-remove j k [] = refl
member-remove j k (x ∷ xs) =
    ground (arith, member-remove j k xs, eq_iff x j, eq_iff x k, eq_iff k j)

pub Unique-remove : (k : String) (xs : List String) → Unique xs → Unique (remove k xs)
Unique-remove k [] u = tt
Unique-remove k (x ∷ xs) u = ground (arith, member-remove x k xs, Unique-remove k xs u.1)

-- A place of the element in the list.
pub data Occurs {A : Type 0} (x : A) : List A → Type 0 where
  here : {ys : List A} → Occurs x (x ∷ ys)
  there : {y : A} {ys : List A} → Occurs x ys → Occurs x (y ∷ ys)

pub Occurs-append_left :
    {A : Type 0} {x : A} {xs : List A} (ys : List A) → Occurs x xs → Occurs x (xs ++ ys)
Occurs-append_left ys here = here
Occurs-append_left ys (there h) = there (Occurs-append_left ys h)

pub Occurs-append_right :
    {A : Type 0} {x : A} (xs : List A) {ys : List A} → Occurs x ys → Occurs x (xs ++ ys)
Occurs-append_right [] h = h
Occurs-append_right (y ∷ xs) h = there (Occurs-append_right xs h)

pub Occurs-append :
    {A : Type 0} {x : A} (xs : List A) {ys : List A}
    → Occurs x (xs ++ ys)
    → Occurs x xs ⊎ Occurs x ys
Occurs-append [] o = inr o
Occurs-append (y ∷ xs) here = inl here
Occurs-append (y ∷ xs) (there o) = elim (Occurs-append xs o) [
  | inl h ↦ inl (there h)
  | inr h ↦ inr h
]

-- Under a first element.
pub Occurs-under :
    {A : Type 0} {x y : A} {xs ys : List A}
    → (Occurs x xs → Occurs x ys)
    → Occurs x (y ∷ xs)
    → Occurs x (y ∷ ys)
Occurs-under f here = here
Occurs-under f (there o) = there (f o)

-- Two first elements change places.
pub Occurs-swap :
    {A : Type 0} {x y z : A} {xs : List A} → Occurs x (y ∷ (z ∷ xs)) → Occurs x (z ∷ (y ∷ xs))
Occurs-swap here = there here
Occurs-swap (there here) = here
Occurs-swap (there (there o)) = there (there o)

-- What a filter keeps.
pub Occurs-filter :
    {A : Type 0} {x : A} (p : A → Bool) (xs : List A)
    → Occurs x (filter p xs)
    → Occurs x xs × (p x ≡ true)
Occurs-filter p [] o = elim o [ ]
Occurs-filter p (y ∷ ys) o = elim (Bool-cases (p y)) [
  | inl k ↦ under p k (Occurs-filter p ys) (rw k at o)
  | inr k ↦ let later = Occurs-filter p ys (rw k at o) in (there later.0, later.1)
]
  where
    under :
        {A : Type 0} {x y : A} {xs ys : List A} (p : A → Bool)
        → p y ≡ true
        → (Occurs x xs → Occurs x ys × (p x ≡ true))
        → Occurs x (y ∷ xs)
        → Occurs x (y ∷ ys) × (p x ≡ true)
    under p k f here = (here, k)
    under p k f (there o) = (there (f o).0, (f o).1)

pub filter-Occurs :
    {A : Type 0} {x : A} (p : A → Bool) (xs : List A)
    → Occurs x xs
    → p x ≡ true
    → Occurs x (filter p xs)
filter-Occurs p [] o e = elim o [ ]
filter-Occurs p (y ∷ ys) here e = rw e here
filter-Occurs p (y ∷ ys) (there o) e = elim (Bool-cases (p y)) [
  | inl k ↦ rw k (there (filter-Occurs p ys o e))
  | inr k ↦ rw k (filter-Occurs p ys o e)
]
