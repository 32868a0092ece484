-- ===== src/Base/Maps.antt =====
-- A JavaScript `Map` with text keys: an association list in insertion order. `put` on a key that
-- is there keeps the key's place, as `Map.prototype.set` does.
use Prim.Native.String.{String}
use mathlib.Core.Path.{◌≡◌, refl, ap}
use mathlib.Core.Bool.{true, false}
use mathlib.Core.List.{List, [], ◌∷◌, ◌++◌}
use mathlib.Core.Logic.{◌⊎◌, inl, inr}
use mathlib.Core.Option.{Option, none, some}
use native.Mathlib.Omega.{arith}
use text.Mathlib.Text.{◌==◌ as str_eq}
use text.Mathlib.TextEquality.{eq_iff}
use symphonika.Base.Tests.{if◌then◌else◌, Bool-cases}
use symphonika.Base.Lists.{member, Unique, remove, Unique-append}

abbrev pub Dict {ℓ} : Type ℓ → Type ℓ
Dict V = List (String × V)

module _ {ℓ} {V : Type ℓ} where
  abbrev pub lookup : String → Dict V → Option V
  lookup k [] = none
  lookup k ((j, v) ∷ m) = let rest = lookup k m in if str_eq j k then some v else rest

  abbrev pub put : String → V → Dict V → Dict V
  put k v [] = (k, v) ∷ []
  put k v ((j, w) ∷ m) = let rest = put k v m in if str_eq j k then (j, v) ∷ m else (j, w) ∷ rest

  abbrev pub delete : String → Dict V → Dict V
  delete k [] = []
  delete k ((j, w) ∷ m) = let rest = delete k m in if str_eq j k then rest else (j, w) ∷ rest

  abbrev pub keys : Dict V → List String
  keys [] = []
  keys ((j, w) ∷ m) = j ∷ keys m

  abbrev pub values : Dict V → List V
  values [] = []
  values ((j, w) ∷ m) = w ∷ values m

  pub lookup-put :
      (k j : String) (v : V) (m : Dict V)
      → lookup j (put k v m) ≡ (if str_eq k j then some v else lookup j m)
  lookup-put k j v [] = refl
  lookup-put k j v ((key, u) ∷ tail) =
      ground (lookup-put k j v tail, eq_iff key j, eq_iff key k, eq_iff k j, arith)

  pub lookup-delete :
      (k j : String) (m : Dict V)
      → lookup j (delete k m) ≡ (if str_eq k j then none else lookup j m)
  lookup-delete k j [] = ground arith
  lookup-delete k j ((i, w) ∷ m) =
      ground (arith, eq_iff k j, eq_iff i k, eq_iff i j, lookup-delete k j m)

  pub keys-delete : (k : String) (m : Dict V) → keys (delete k m) ≡ remove k (keys m)
  keys-delete k [] = refl
  keys-delete k ((j, w) ∷ m) = ground (arith, keys-delete k m)

  pub lookup-eq-none : (k : String) (m : Dict V) → member k (keys m) ≡ false → lookup k m ≡ none
  lookup-eq-none k [] h = refl
  lookup-eq-none k ((j, w) ∷ m) h = ground (arith, lookup-eq-none k m)

  pub member_of_lookup :
      (k : String) (m : Dict V) {v : V} → lookup k m ≡ some v → member k (keys m) ≡ true
  member_of_lookup k [] h = cc
  member_of_lookup k ((j, w) ∷ m) {v} h = ground (arith, member_of_lookup k m {v = v})

  pub member_of_lookup-none :
      (k : String) (m : Dict V) → lookup k m ≡ none → member k (keys m) ≡ false
  member_of_lookup-none k [] h = refl
  member_of_lookup-none k ((j, w) ∷ m) h = ground (arith, member_of_lookup-none k m)

  -- A new key goes to the end.
  pub put_new : (k : String) (v : V) (m : Dict V) → lookup k m ≡ none → put k v m ≡ m ++ (k, v) ∷ []
  put_new k v [] h = refl
  put_new k v ((j, w) ∷ m) h = ground (arith, put_new k v m)

  pub keys-put_old :
      (k : String) (v : V) (m : Dict V) {u : V} → lookup k m ≡ some u → keys (put k v m) ≡ keys m
  keys-put_old k v [] h = cc
  keys-put_old k v ((j, w) ∷ m) {u} h = elim (Bool-cases (str_eq j k)) [
    | inl e ↦ rw e
    | inr e ↦ rw e (ap (λ (ks : List String). j ∷ ks) (keys-put_old k v m (rw e at h)))
  ]

  -- What stands after a common beginning decides.
  pub lookup-append_same :
      (k : String) (m n o : Dict V)
      → lookup k n ≡ lookup k o
      → lookup k (m ++ n) ≡ lookup k (m ++ o)
  lookup-append_same k [] n o h = h
  lookup-append_same k ((j, w) ∷ m) n o h = ground (arith, lookup-append_same k m n o h)

  pub keys-append : (m n : Dict V) → keys (m ++ n) ≡ keys m ++ keys n
  keys-append [] n = refl
  keys-append ((j, w) ∷ m) n = ground (arith, keys-append m n)

  pub Unique-put : (k : String) (v : V) (m : Dict V) → Unique (keys m) → Unique (keys (put k v m))
  Unique-put k v m u = elim (lookup_cases (lookup k m) refl) [
    | inl h ↦
        rw (put_new k v m h, keys-append m ((k, v) ∷ []))
          (Unique-append k (keys m) u (member_of_lookup-none k m h))
    | inr h ↦ rw (keys-put_old k v m h.1) u
  ]
    where
      lookup_cases :
          (o : Option V) → lookup k m ≡ o → (lookup k m ≡ none) ⊎ ((w : V) × (lookup k m ≡ some w))
      lookup_cases none e = inl e
      lookup_cases (some w) e = inr (w, e)
