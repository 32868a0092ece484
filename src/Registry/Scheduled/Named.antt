-- ===== src/Registry/Scheduled/Named.antt =====
-- Each scheduled item stands under the key of its own issue.
use symphonika.Base.{String, List, [], ◌∷◌, ◌≡◌, refl, arith, inl, inr, eq_iff}
use symphonika.Base.Tests.{Option-cases}
use symphonika.Base.Maps.{Dict, put, delete}
use symphonika.Registry.InFlight.{issue_key}
use symphonika.Registry.Scheduled.{
  ScheduledItem, schedule_delayed, timer_fired, find_timer, cancel_all, item_of, input_key,
}
use symphonika.Registry.Scheduled.Account.{Event, schedule, elapse, stop, History, begin, step, run}

abbrev pub Keyed : Dict ScheduledItem → Type 0
Keyed [] = Unit
Keyed ((k, i) ∷ m) = (k ≡ issue_key i.project_name i.issue_number) × Keyed m

Keyed-put :
    (k : String) (i : ScheduledItem) (m : Dict ScheduledItem)
    → k ≡ issue_key i.project_name i.issue_number
    → Keyed m
    → Keyed (put k i m)
Keyed-put k i [] p h = (p, tt)
Keyed-put k i ((j, w) ∷ m) p h = ground (arith, eq_iff j k, Keyed-put k i m p h.1)

Keyed-delete : (k : String) (m : Dict ScheduledItem) → Keyed m → Keyed (delete k m)
Keyed-delete k [] h = tt
Keyed-delete k ((j, w) ∷ m) h = ground (arith, Keyed-delete k m h.1)

step-Keyed :
    (h : History) (e : Event) → Keyed h.registry.scheduled → Keyed (step h e).registry.scheduled
unfolding step schedule_delayed timer_fired cancel_all
step-Keyed h (schedule now input) v = ground (
  arith,
  Keyed-put (input_key input) (item_of now h.registry.next_timer input) h.registry.scheduled refl v,
)
step-Keyed h (elapse t) v = elim (Option-cases (find_timer t h.registry.armed)) [
  | inl e ↦ ground arith
  | inr (x, e) ↦ ground (arith, Keyed-delete x.key h.registry.scheduled v)
]
step-Keyed h stop v = tt

run-Keyed :
    (h : History) (es : List Event)
    → Keyed h.registry.scheduled
    → Keyed (run h es).registry.scheduled
unfolding run
run-Keyed h [] v = v
run-Keyed h (e ∷ es) v = run-Keyed (step h e) es (step-Keyed h e v)

-- So it is after every history.
pub begin-Keyed : (es : List Event) → Keyed (run begin es).registry.scheduled
begin-Keyed es = run-Keyed begin es tt
