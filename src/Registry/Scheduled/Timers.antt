-- ===== src/Registry/Scheduled/Timers.antt =====
-- Every scheduled item has its one armed timer and every armed timer its item.
use symphonika.Base.{
  ℕ, suc, ◌<◌, String, true, false, none, some, List, [], ◌∷◌, ◌++◌, ◌≡◌, refl, arith, str_eq,
  eq_iff, ◌≢◌, inl, inr,
}
use symphonika.Base.Tests.{◌==◌, Bool-cases}
use symphonika.Base.Lists.{member, length}
use symphonika.Base.Maps.{Dict, lookup, delete, keys, put_new, member_of_lookup-none}
use symphonika.Registry.Scheduled.{
  ScheduledWorkInput, ScheduledItem, Timer, Registry, accepted, item_of, input_key,
  schedule_delayed, disarm, find_timer, is_current, timer_fired, clear_timers, cancel_all,
}

-- The timers' names are below `n`, and those after the first differ from it.
abbrev Fresh : ℕ → List Timer → Type 0
Fresh n [] = Unit
Fresh n (x ∷ xs) = (x.name ≢ n) × Fresh n xs

abbrev pub Below : ℕ → List Timer → Type 0
Below n [] = Unit
Below n (x ∷ xs) = (x.name < n) × Below n xs

-- Item and timer lists agree place by place, and no key and no name stands twice.
abbrev pub Paired : Dict ScheduledItem → List Timer → Type 0
Paired [] [] = Unit
Paired [] (x ∷ xs) = ⊥
Paired ((k, i) ∷ m) [] = ⊥
Paired ((k, i) ∷ m) (x ∷ xs) =
    (k ≡ x.key)
    × (i.timeout ≡ x.name)
    × (member k (keys m) ≡ false)
    × (Fresh x.name xs)
    × Paired m xs

pub record IsPaired (r : Registry) : Type 0 where
  pub paired : Paired r.scheduled r.armed
  pub below : Below r.next_timer r.armed

Below-mono : (n : ℕ) (xs : List Timer) → Below n xs → Below (suc n) xs
Below-mono n [] h = tt
Below-mono n (x ∷ xs) h = (omega arith, Below-mono n xs h.1)

Below-append :
    (n : ℕ) (x : Timer) (xs : List Timer) → Below n xs → x.name < n → Below n (xs ++ x ∷ [])
Below-append n x [] h p = (p, tt)
Below-append n x (y ∷ ys) h p = (h.0, Below-append n x ys h.1 p)

Below-disarm : (n t : ℕ) (xs : List Timer) → Below n xs → Below n (disarm t xs)
Below-disarm n t [] h = tt
Below-disarm n t (x ∷ xs) h = ground (arith, Below-disarm n t xs h.1)

Fresh-append :
    (n : ℕ) (x : Timer) (xs : List Timer) → Fresh n xs → x.name ≢ n → Fresh n (xs ++ x ∷ [])
Fresh-append n x [] h p = (p, tt)
Fresh-append n x (y ∷ ys) h p = (h.0, Fresh-append n x ys h.1 p)

Fresh-disarm : (n t : ℕ) (xs : List Timer) → Fresh n xs → Fresh n (disarm t xs)
Fresh-disarm n t [] h = tt
Fresh-disarm n t (x ∷ xs) h = ground (arith, Fresh-disarm n t xs h.1)

disarm-Fresh : (t : ℕ) (xs : List Timer) → Fresh t xs → disarm t xs ≡ xs
disarm-Fresh t [] h = refl
disarm-Fresh t (x ∷ xs) h = ground (arith, disarm-Fresh t xs h.1)

delete_absent : (k : String) (m : Dict ScheduledItem) → member k (keys m) ≡ false → delete k m ≡ m
delete_absent k [] h = refl
delete_absent k ((j, w) ∷ m) h = ground (arith, delete_absent k m)

member-delete :
    (j k : String) (m : Dict ScheduledItem)
    → member j (keys m) ≡ false
    → member j (keys (delete k m)) ≡ false
member-delete j k [] h = refl
member-delete j k ((i, w) ∷ m) h = ground (arith, member-delete j k m)

member-append :
    (j k : String) (i : ScheduledItem) (m : Dict ScheduledItem)
    → member j (keys m) ≡ false
    → str_eq k j ≡ false
    → member j (keys (m ++ (k, i) ∷ [])) ≡ false
member-append j k i [] h p = ground arith
member-append j k i ((l, w) ∷ m) h p = ground (arith, member-append j k i m)

Paired-append :
    (m : Dict ScheduledItem) (xs : List Timer) (k : String) (i : ScheduledItem) (x : Timer)
    → Paired m xs
    → member k (keys m) ≡ false
    → Below x.name xs
    → k ≡ x.key
    → i.timeout ≡ x.name
    → Paired (m ++ (k, i) ∷ []) (xs ++ x ∷ [])
Paired-append [] [] k i x h f b p q = (p, q, refl, tt, tt)
Paired-append [] (y ∷ ys) k i x h f b p q = elim h [ ]
Paired-append ((j, w) ∷ m) [] k i x h f b p q = elim h [ ]
Paired-append ((j, w) ∷ m) (y ∷ ys) k i x h f b p q = (
  h.0,
  h.1,
  member-append j k i m h.2 (ground (arith, eq_iff j k, eq_iff k j)),
  Fresh-append y.name x ys h.3 (omega (arith, b.0)),
  Paired-append m ys k i x h.4 (ground arith) b.1 p q,
)

current-member :
    (t : ℕ) (k : String) (m : Dict ScheduledItem)
    → is_current t (lookup k m) ≡ true
    → member k (keys m) ≡ true
current-member t k [] h = cc
current-member t k ((j, w) ∷ m) h = ground (arith, current-member t k m)

find_timer-name : (t : ℕ) (xs : List Timer) (x : Timer) → find_timer t xs ≡ some x → x.name ≡ t
find_timer-name t [] x h = cc
find_timer-name t (y ∷ ys) x h = ground (arith, find_timer-name t ys x)

other_key :
    (t : ℕ) (j : String) (x : Timer) (m : Dict ScheduledItem)
    → member j (keys m) ≡ false
    → is_current t (lookup x.key m) ≡ true
    → str_eq j x.key ≡ false
other_key t j x m h e = ground (arith, current-member t x.key m, eq_iff j x.key)

-- The closure of an armed timer finds its own item, and the two leave together.
pub Paired-fire :
    (m : Dict ScheduledItem) (xs : List Timer) (t : ℕ) (x : Timer)
    → Paired m xs
    → find_timer t xs ≡ some x
    → (is_current t (lookup x.key m) ≡ true) × Paired (delete x.key m) (disarm t xs)
Paired-fire [] [] t x h e = cc
Paired-fire [] (y ∷ ys) t x h e = elim h [ ]
Paired-fire ((j, w) ∷ m) [] t x h e = elim h [ ]
Paired-fire ((j, w) ∷ m) (y ∷ ys) t x h e = elim (Bool-cases (y.name == t)) [
  | inl hit ↦
      let same : y ≡ x = ground arith in
      let key : str_eq j x.key ≡ true = ground (arith, eq_iff j x.key) in
      let gone : delete x.key m ≡ m = ground (arith, delete_absent j m, eq_iff j x.key) in
      let left : disarm t ys ≡ ys = ground (arith, disarm-Fresh t ys) in
      rw (hit, key, gone, left) (ground arith, h.4)
  | inr miss ↦
      let (now, rest) = Paired-fire m ys t x h.4 (rw miss at e) in
      let apart : str_eq j x.key ≡ false = other_key t j x m h.2 now in
      rw (miss, apart)
        (now, (h.0, h.1, member-delete j x.key m h.2, Fresh-disarm y.name t ys h.3, rest))
]

clear_timers_all : (m : Dict ScheduledItem) (xs : List Timer) → Paired m xs → clear_timers m xs ≡ []
clear_timers_all [] [] h = refl
clear_timers_all [] (y ∷ ys) h = elim h [ ]
clear_timers_all ((j, w) ∷ m) [] h = elim h [ ]
clear_timers_all ((j, w) ∷ m) (y ∷ ys) h =
    rw (clear_first, disarm-Fresh w.timeout ys (rw h.1 h.3)) (clear_timers_all m ys h.4)
  where
    clear_first : disarm w.timeout (y ∷ ys) ≡ disarm w.timeout ys
    clear_first = ground arith

abbrev pub new_timer : Registry → ScheduledWorkInput → Timer
new_timer r input = record { name = r.next_timer; key = input_key input; fire = input.fire }

pub schedule_delayed-IsPaired :
    (r s : Registry) (now : ℕ) (input : ScheduledWorkInput)
    → IsPaired r
    → schedule_delayed r now input ≡ accepted s
    → IsPaired s
unfolding schedule_delayed
schedule_delayed-IsPaired r s now input v h = ground (
  arith,
  put_new (input_key input) (item_of now r.next_timer input) r.scheduled,
  member_of_lookup-none (input_key input) r.scheduled,
  Paired-append r.scheduled r.armed (input_key input) (item_of now r.next_timer input)
      (new_timer r input) v.paired,
  Below-append (suc r.next_timer) (new_timer r input) r.armed,
  Below-mono r.next_timer r.armed v.below,
)

pub timer_fired_idle :
    (r : Registry) (t : ℕ) → find_timer t r.armed ≡ none → timer_fired r t ≡ (r, none)
unfolding timer_fired
timer_fired_idle r t h = ground arith

-- An armed timer calls its callback, and takes its own item and itself away.
pub timer_fired_armed :
    (r : Registry) (t : ℕ) (x : Timer)
    → IsPaired r
    → find_timer t r.armed ≡ some x
    → timer_fired r t
      ≡ (record r { scheduled = delete x.key r.scheduled; armed = disarm t r.armed }, some x.fire)
unfolding timer_fired
timer_fired_armed r t x v h = ground (arith, Paired-fire r.scheduled r.armed t x v.paired h)

pub fired-IsPaired :
    (r : Registry) (t : ℕ) (x : Timer)
    → IsPaired r
    → find_timer t r.armed ≡ some x
    → IsPaired (record r { scheduled = delete x.key r.scheduled; armed = disarm t r.armed })
fired-IsPaired r t x v h = record {
  paired = (Paired-fire r.scheduled r.armed t x v.paired h).1;
  below = Below-disarm r.next_timer t r.armed v.below;
}

pub armed-schedule_delayed :
    (r s : Registry) (now : ℕ) (input : ScheduledWorkInput)
    → schedule_delayed r now input ≡ accepted s
    → s.armed ≡ r.armed ++ new_timer r input ∷ []
unfolding schedule_delayed
armed-schedule_delayed r s now input h = ground arith

-- Shutdown clears every timer that was armed, and every item.
pub cancel_all_clears :
    (r : Registry) → IsPaired r → ((cancel_all r).0.scheduled ≡ []) × ((cancel_all r).0.armed ≡ [])
unfolding cancel_all
cancel_all_clears r v = (refl, clear_timers_all r.scheduled r.armed v.paired)

-- One timer goes off at a time.
pub length-disarm :
    (m : Dict ScheduledItem) (xs : List Timer) (t : ℕ) (x : Timer)
    → Paired m xs
    → find_timer t xs ≡ some x
    → length xs ≡ suc (length (disarm t xs))
length-disarm [] [] t x h e = cc
length-disarm [] (y ∷ ys) t x h e = elim h [ ]
length-disarm ((j, w) ∷ m) [] t x h e = elim h [ ]
length-disarm ((j, w) ∷ m) (y ∷ ys) t x h e =
    ground (arith, length-disarm m ys t x h.4, disarm-Fresh t ys)

pub length-Paired : (m : Dict ScheduledItem) (xs : List Timer) → Paired m xs → length m ≡ length xs
length-Paired [] [] h = refl
length-Paired [] (y ∷ ys) h = elim h [ ]
length-Paired ((j, w) ∷ m) [] h = elim h [ ]
length-Paired ((j, w) ∷ m) (y ∷ ys) h = omega (arith, length-Paired m ys h.4)
