-- ===== src/Backoff/Window.antt =====
-- How long a credential is kept from polling.
use symphonika.Base.{
  ℕ, ◌+◌, ◌≤◌, ◌<◌, true, false, Option, none, some, String, List, [], ◌∷◌, ◌++◌, ◌≡◌, refl, sym,
  ◌∙◌, inl, inr, arith, str_eq, eq_iff,
}
use mathlib.Core.Option.{some-injective}
use symphonika.Base.Tests.{leb, lt→leb, Bool-cases, Option-cases}
use symphonika.Base.Lists.{
  member, add, member-append, Occurs, here, there, Occurs-append_left, Occurs-append_right,
}
use symphonika.Base.Maps.{Dict, lookup, put, delete, lookup-put, lookup-delete}
use symphonika.Backoff.{
  PollReport, Polled, Ledger, resolve_env_backed_value, is_active, is_pollable, pollable_with,
  pollable, engage_each, engage, backoff_until, rate_limited_tokens, by_identity, or_nil,
  add_resolved, add_tokens, is_limited, tokens_of, project_poll_identity_key,
}

-- A call of the ledger, with the time that it reads.
pub data Call : Type 0 where
  asks : Polled → ℕ → Call
  asks_all : List Polled → ℕ → Call
  engages : List PollReport → List Polled → ℕ → Call

abbrev pub time : Call → ℕ
time (asks p now) = now
time (asks_all ps now) = now
time (engages reports ps now) = now

unfoldable pub call : Dict String → Call → Ledger → Ledger
unfolding is_pollable pollable engage
call env (asks p now) l = (is_pollable env p now l).0
call env (asks_all ps now) l = (pollable env ps now l).0
call env (engages reports ps now) l = (engage env reports ps now l).0

unfoldable pub calls : Dict String → List Call → Ledger → Ledger
unfolding call
calls env [] l = l
calls env (c ∷ cs) l = calls env cs (call env c l)

-- The calls' times lie in the interval, with no order among them.
abbrev pub Between : ℕ → ℕ → List Call → Type 0
Between first past [] = Unit
Between first past (c ∷ cs) = (first ≤ time c) × (time c < past) × Between first past cs

-- The token has a window that lasts until the time, or longer.
abbrev pub Backed : ℕ → String → Ledger → Type 0
Backed until token l = (u : ℕ) × (lookup token l ≡ some u) × (until ≤ u)

is_active-Backed :
    (now until : ℕ) (k token : String) (l : Ledger)
    → now < until
    → Backed until token l
    → Backed until token (is_active now k l).0
unfolding is_active
is_active-Backed now until k token l h (u, e, le) = elim (Option-cases (lookup k l)) [
  | inl n ↦ rw n (u, e, le)
  | inr (v, n) ↦ elim (Bool-cases (leb v now)) [
    | inl past ↦ rw (n, past) (u, still k v n past, le)
    | inr ahead ↦ rw (n, ahead) (u, e, le)
  ]
]
  where
    other : (k : String) (v : ℕ) → lookup k l ≡ some v → leb v now ≡ true → str_eq k token ≡ false
    other k v n past = elim (Bool-cases (str_eq k token)) [
      | inl same ↦
          let key : k ≡ token = (eq_iff k token).0 same in
          let both : some v ≡ some u = sym n ∙ rw key e in
          let equal : v ≡ u = some-injective v u both in absurd (ground arith)
      | inr differs ↦ differs
    ]

    still :
        (k : String) (v : ℕ)
        → lookup k l ≡ some v
        → leb v now ≡ true
        → lookup token (delete k l) ≡ some u
    still k v n past = lookup-delete k token l ∙ rw (other k v n past) e

put-Backed :
    (until v : ℕ) (k token : String) (l : Ledger)
    → until ≤ v
    → Backed until token l
    → Backed until token (put k v l)
put-Backed until v k token l h (u, e, le) = elim (Bool-cases (str_eq k token)) [
  | inl same ↦ (v, lookup-put k token v l ∙ rw same refl, h)
  | inr differs ↦ (u, lookup-put k token v l ∙ rw differs e, le)
]

engage_each-Backed :
    (now until : ℕ) (token : String) (tokens : List String) (l : Ledger)
    → now < until
    → until ≤ backoff_until now
    → Backed until token l
    → Backed until token (engage_each now tokens l).0
unfolding engage_each
engage_each-Backed now until token [] l h k b = b
engage_each-Backed now until token (t ∷ ts) l h k b =
    engage_each-Backed now until token ts (put t (backoff_until now) (is_active now t l).0) h k (
      put-Backed until (backoff_until now) t token (is_active now t l).0 k
        (is_active-Backed now until t token l h b))

engage_each-engages :
    (now : ℕ) (token : String) (tokens : List String) (l : Ledger)
    → member token tokens ≡ true
    → Backed (backoff_until now) token (engage_each now tokens l).0
unfolding engage_each
engage_each-engages now token [] l m = absurd (ground arith)
engage_each-engages now token (t ∷ ts) l m =
    let after = put t (backoff_until now) (is_active now t l).0 in
    elim (Bool-cases (str_eq t token)) [
      | inl same ↦
          engage_each-Backed now (backoff_until now) token ts after (omega arith) (omega arith) (
            backoff_until now,
            lookup-put t token (backoff_until now) (is_active now t l).0 ∙ rw same refl,
            omega arith,
          )
      | inr differs ↦ engage_each-engages now token ts after (rw differs at m)
    ]

pollable_with-Backed :
    (now until : ℕ) (token : String) (o : Option String) (l : Ledger)
    → now < until
    → Backed until token l
    → Backed until token (pollable_with now l o).0
pollable_with-Backed now until token none l h b = b
pollable_with-Backed now until token (some k) l h b = is_active-Backed now until k token l h b

pollable-Backed :
    (env : Dict String) (ps : List Polled) (now until : ℕ) (token : String) (l : Ledger)
    → now < until
    → Backed until token l
    → Backed until token (pollable env ps now l).0
unfolding pollable is_pollable
pollable-Backed env [] now until token l h b = b
pollable-Backed env (p ∷ ps) now until token l h b =
    pollable-Backed env ps now until token (is_pollable env p now l).0 h
      (pollable_with-Backed now until token (resolve_env_backed_value p.tracker.token env) l h b)

call-Backed :
    (env : Dict String) (first until : ℕ) (token : String) (c : Call) (l : Ledger)
    → until ≤ first + 300000
    → first ≤ time c
    → time c < until
    → Backed until token l
    → Backed until token (call env c l)
unfolding call is_pollable engage backoff_until
call-Backed env first until token (asks p now) l h f k b =
    pollable_with-Backed now until token (resolve_env_backed_value p.tracker.token env) l k b
call-Backed env first until token (asks_all ps now) l h f k b =
    pollable-Backed env ps now until token l k b
call-Backed env first until token (engages reports ps now) l h f k b =
    engage_each-Backed now until token (rate_limited_tokens reports ps env) l k
      (omega (arith, h, f)) b

calls-Backed :
    (env : Dict String) (first until : ℕ) (token : String) (cs : List Call) (l : Ledger)
    → until ≤ first + 300000
    → Between first until cs
    → Backed until token l
    → Backed until token (calls env cs l)
unfolding calls
calls-Backed env first until token [] l h b k = k
calls-Backed env first until token (c ∷ cs) l h b k =
    calls-Backed env first until token cs (call env c l) h b.2
      (call-Backed env first until token c l h b.0 b.1 k)

refused :
    (env : Dict String) (p : Polled) (now until : ℕ) (token : String) (l : Ledger)
    → resolve_env_backed_value p.tracker.token env ≡ some token
    → now < until
    → Backed until token l
    → (is_pollable env p now l).1 ≡ false
unfolding is_pollable is_active
refused env p now until token l r h (u, e, le) = rw (r, e, lt→leb now u (omega (arith, h, le))) refl

-- The report's error is a rate limit, and the project's declaration has the report's identity and
-- resolves to the token.
pub record Names (env : Dict String) (token : String) (r : PollReport) (p : Polled) : Type 0 where
  pub is_limit : is_limited r.error ≡ true
  pub same_key :
      project_poll_identity_key r.name r.repository
      ≡ project_poll_identity_key p.name p.tracker.repository
  pub resolves : resolve_env_backed_value p.tracker.token env ≡ some token

member-add : (k j : String) (ks : List String) → member j ks ≡ true → member j (add k ks) ≡ true
member-add k j ks h = ground (arith, member-append j ks (k ∷ []))

member-add_self : (k : String) (ks : List String) → member k (add k ks) ≡ true
member-add_self k ks = ground (arith, member-append k ks (k ∷ []), eq_iff k k)

member-add_resolved :
    (o : Option String) (j : String) (ks : List String)
    → member j ks ≡ true
    → member j (add_resolved o ks) ≡ true
member-add_resolved none j ks h = h
member-add_resolved (some k) j ks h = member-add k j ks h

member-add_tokens :
    (env : Dict String) (ps : List Polled) (j : String) (ks : List String)
    → member j ks ≡ true
    → member j (add_tokens env ps ks) ≡ true
unfolding add_tokens
member-add_tokens env [] j ks h = h
member-add_tokens env (p ∷ ps) j ks h =
    member-add_tokens env ps j (add_resolved (resolve_env_backed_value p.tracker.token env) ks)
      (member-add_resolved (resolve_env_backed_value p.tracker.token env) j ks h)

member-tokens_of :
    (env : Dict String) (d : Dict (List Polled)) (rs : List PollReport) (j : String)
    (ks : List String)
    → member j ks ≡ true
    → member j (tokens_of env d rs ks) ≡ true
unfolding tokens_of
member-tokens_of env d [] j ks h = h
member-tokens_of env d (r ∷ rs) j ks h =
    let found = or_nil (lookup (project_poll_identity_key r.name r.repository) d) in
    elim (Bool-cases (is_limited r.error)) [
      | inl e ↦ rw e (
          member-tokens_of env d rs j (add_tokens env found ks)
            (member-add_tokens env found j ks h))
      | inr e ↦ rw e (member-tokens_of env d rs j ks h)
    ]

adds_token :
    (env : Dict String) (ps : List Polled) (p : Polled) (token : String) (ks : List String)
    → Occurs p ps
    → resolve_env_backed_value p.tracker.token env ≡ some token
    → member token (add_tokens env ps ks) ≡ true
unfolding add_tokens
adds_token env [] p token ks o e = elim o [ ]
adds_token env (p ∷ ps) _ token ks here e =
    member-add_tokens env ps token (add_resolved (resolve_env_backed_value p.tracker.token env) ks)
      (rw e (member-add_self token ks))
adds_token env (p ∷ ps) q token ks (there o) e =
    adds_token env ps q token (add_resolved (resolve_env_backed_value p.tracker.token env) ks) o e

by_identity-keeps :
    (ps : List Polled) (d : Dict (List Polled)) (key : String) (p : Polled)
    → Occurs p (or_nil (lookup key d))
    → Occurs p (or_nil (lookup key (by_identity ps d)))
unfolding by_identity
by_identity-keeps [] d key p o = o
by_identity-keeps (q ∷ ps) d key p o =
    let k = project_poll_identity_key q.name q.tracker.repository in
    by_identity-keeps ps (put k (or_nil (lookup k d) ++ q ∷ []) d) key p (
      rw (lookup-put k key (or_nil (lookup k d) ++ q ∷ []) d) (elim (Bool-cases (str_eq k key)) [
        | inl same ↦ rw (same, (eq_iff k key).0 same) (Occurs-append_left (q ∷ []) o)
        | inr differs ↦ rw differs o
      ]))

by_identity-finds :
    (ps : List Polled) (d : Dict (List Polled)) (p : Polled)
    → Occurs p ps
    → Occurs p
        (or_nil (lookup (project_poll_identity_key p.name p.tracker.repository) (by_identity ps d)))
unfolding by_identity
by_identity-finds [] d p o = elim o [ ]
by_identity-finds (p ∷ ps) d _ here =
    let k = project_poll_identity_key p.name p.tracker.repository in
    by_identity-keeps ps (put k (or_nil (lookup k d) ++ p ∷ []) d) k p (
      rw (lookup-put k k (or_nil (lookup k d) ++ p ∷ []) d, (eq_iff k k).1 refl)
        (Occurs-append_right (or_nil (lookup k d)) here))
by_identity-finds (q ∷ ps) d p (there o) =
    let k = project_poll_identity_key q.name q.tracker.repository in
    by_identity-finds ps (put k (or_nil (lookup k d) ++ q ∷ []) d) p o

finds_token :
    (env : Dict String) (d : Dict (List Polled)) (rs : List PollReport) (r : PollReport)
    (p : Polled) (token : String) (ks : List String)
    → Occurs r rs
    → Names env token r p
    → Occurs p (or_nil (lookup (project_poll_identity_key p.name p.tracker.repository) d))
    → member token (tokens_of env d rs ks) ≡ true
unfolding tokens_of
finds_token env d [] r p token ks o n f = elim o [ ]
finds_token env d (r ∷ rs) _ p token ks here n o =
    let found = or_nil (lookup (project_poll_identity_key r.name r.repository) d) in
    let ours : Occurs p found = rw (n.same_key) o in
    rw (n.is_limit) (
      member-tokens_of env d rs token (add_tokens env found ks)
        (adds_token env found p token ks ours (n.resolves)))
finds_token env d (x ∷ rs) r p token ks (there o) n f = finds_token env d rs r p token _ o n f

-- While a window of five minutes runs, no project with the credential is polled, whatever other
-- polls report and whatever is asked meanwhile: after a report of a rate limit, for a project whose
-- declaration resolves to the credential.
pub refused_in_window :
    (env : Dict String) (reports : List PollReport) (polled : List Polled) (now : ℕ) (l : Ledger)
    (r : PollReport) (p q : Polled) (token : String) (cs : List Call) (later : ℕ)
    → Occurs r reports
    → Occurs p polled
    → Names env token r p
    → resolve_env_backed_value q.tracker.token env ≡ some token
    → Between now (now + 300000) cs
    → later < now + 300000
    → (is_pollable env q later (calls env cs (engage env reports polled now l).0)).1 ≡ false
unfolding engage rate_limited_tokens backoff_until
refused_in_window env reports polled now l r p q token cs later o i n e b h =
    let named =
      finds_token env (by_identity polled []) reports r p token [] o n
        (by_identity-finds polled [] p i) in
    refused env q later (now + 300000) token (calls env cs (engage env reports polled now l).0) e h
      (calls-Backed env now (now + 300000) token cs (engage env reports polled now l).0
        (omega arith) b
        (engage_each-engages now token (rate_limited_tokens reports polled env) l named))
