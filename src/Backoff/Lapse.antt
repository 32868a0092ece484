-- ===== src/Backoff/Lapse.antt =====
-- The end of every window.
use symphonika.Base.{
  ℕ, ◌+◌, ◌≤◌, true, Option, none, some, String, List, [], ◌∷◌, ◌≡◌, refl, sym, ◌∙◌, inl, inr,
  arith, str_eq,
}
use mathlib.Core.Option.{some-injective}
use symphonika.Base.Tests.{leb, le→leb, Bool-cases, Option-cases}
use symphonika.Base.Maps.{Dict, lookup, put, delete, lookup-put, lookup-delete}
use symphonika.Backoff.{
  Polled, Ledger, resolve_env_backed_value, is_active, is_pollable, pollable_with, pollable,
  engage_each, engage, backoff_until, rate_limited_tokens,
}
use symphonika.Backoff.Window.{Call, asks, asks_all, engages, time, call, calls}

-- No window lasts longer than the time.
abbrev pub Limited : ℕ → Ledger → Type 0
Limited limit l = (token : String) (u : ℕ) → lookup token l ≡ some u → u ≤ limit

-- The calls are not later than the time.
abbrev pub Until : ℕ → List Call → Type 0
Until last [] = Unit
Until last (c ∷ cs) = (time c ≤ last) × Until last cs

Limited-delete :
    (limit : ℕ) (k : String) (l : Ledger) → Limited limit l → Limited limit (delete k l)
Limited-delete limit k l h token u e = elim (Bool-cases (str_eq k token)) [
  | inl same ↦
      let no : none ≡ some u = sym (lookup-delete k token l ∙ rw same refl) ∙ e in absurd (cc)
  | inr differs ↦ h token u (sym (lookup-delete k token l ∙ rw differs refl) ∙ e)
]

Limited-put :
    (limit v : ℕ) (k : String) (l : Ledger)
    → v ≤ limit
    → Limited limit l
    → Limited limit (put k v l)
Limited-put limit v k l b h token u e = elim (Bool-cases (str_eq k token)) [
  | inl same ↦
      let equal : v ≡ u = some-injective v u (sym (lookup-put k token v l ∙ rw same refl) ∙ e) in
      omega (arith, b, equal)
  | inr differs ↦ h token u (sym (lookup-put k token v l ∙ rw differs refl) ∙ e)
]

Limited-is_active :
    (limit now : ℕ) (k : String) (l : Ledger)
    → Limited limit l
    → Limited limit (is_active now k l).0
unfolding is_active
Limited-is_active limit now k l h = elim (Option-cases (lookup k l)) [
  | inl n ↦ rw n h
  | inr (v, n) ↦ elim (Bool-cases (leb v now)) [
    | inl past ↦ rw (n, past) (Limited-delete limit k l h)
    | inr ahead ↦ rw (n, ahead) h
  ]
]

Limited-pollable_with :
    (limit now : ℕ) (o : Option String) (l : Ledger)
    → Limited limit l
    → Limited limit (pollable_with now l o).0
Limited-pollable_with limit now none l h = h
Limited-pollable_with limit now (some k) l h = Limited-is_active limit now k l h

Limited-pollable :
    (env : Dict String) (limit : ℕ) (ps : List Polled) (now : ℕ) (l : Ledger)
    → Limited limit l
    → Limited limit (pollable env ps now l).0
unfolding pollable is_pollable
Limited-pollable env limit [] now l h = h
Limited-pollable env limit (p ∷ ps) now l h =
    Limited-pollable env limit ps now (is_pollable env p now l).0
      (Limited-pollable_with limit now (resolve_env_backed_value p.tracker.token env) l h)

Limited-engage_each :
    (limit now : ℕ) (tokens : List String) (l : Ledger)
    → now + 300000 ≤ limit
    → Limited limit l
    → Limited limit (engage_each now tokens l).0
unfolding engage_each backoff_until
Limited-engage_each limit now [] l b h = h
Limited-engage_each limit now (k ∷ ks) l b h =
    Limited-engage_each limit now ks (put k (backoff_until now) (is_active now k l).0) b (
      Limited-put limit (backoff_until now) k (is_active now k l).0 b
        (Limited-is_active limit now k l h))

Limited-call :
    (env : Dict String) (last : ℕ) (c : Call) (l : Ledger)
    → time c ≤ last
    → Limited (last + 300000) l
    → Limited (last + 300000) (call env c l)
unfolding call is_pollable engage
Limited-call env last (asks p now) l b h =
    Limited-pollable_with (last + 300000) now (resolve_env_backed_value p.tracker.token env) l h
Limited-call env last (asks_all ps now) l b h = Limited-pollable env (last + 300000) ps now l h
Limited-call env last (engages reports ps now) l b h =
    Limited-engage_each (last + 300000) now (rate_limited_tokens reports ps env) l
      (omega (arith, b)) h

Limited-calls :
    (env : Dict String) (last : ℕ) (cs : List Call) (l : Ledger)
    → Until last cs
    → Limited (last + 300000) l
    → Limited (last + 300000) (calls env cs l)
unfolding calls
Limited-calls env last [] l b h = h
Limited-calls env last (c ∷ cs) l b h =
    Limited-calls env last cs (call env c l) b.1 (Limited-call env last c l b.0 h)

lapsed :
    (limit now : ℕ) (o : Option String) (l : Ledger)
    → Limited limit l
    → limit ≤ now
    → (pollable_with now l o).1 ≡ true
unfolding is_active
lapsed limit now none l h b = refl
lapsed limit now (some k) l h b = elim (Option-cases (lookup k l)) [
  | inl n ↦ rw n refl
  | inr (v, n) ↦ let below = h k v n in rw (n, le→leb v now (omega (arith, below, b))) refl
]

-- Five minutes after the last call, whatever the calls were, every project is polled again.
pub polled_again :
    (env : Dict String) (cs : List Call) (last now : ℕ) (p : Polled)
    → Until last cs
    → last + 300000 ≤ now
    → (is_pollable env p now (calls env cs [])).1 ≡ true
unfolding is_pollable
polled_again env cs last now p b h =
    lapsed (last + 300000) now (resolve_env_backed_value p.tracker.token env) (calls env cs [])
      (Limited-calls env last cs [] b (λ token u e. let no : none ≡ some u = e in absurd (cc))) h
