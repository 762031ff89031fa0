-- ===== src/Task/Scheduler/Reload.antt =====
-- What is scheduled after a reload.
use mathlib.Core.Path.{subst}
use mathlib.Core.Bool.{false≢true}
use cogitator.Base.{
  ℕ, ◌≡◌, ◌≢◌, refl, sym, ap, ◌∙◌, inl, inr, Bool, true, false, not, ◌&&◌, List, [], ◌∷◌, ◌++◌,
  none, some, ◌==◌, anyb, filterb, map, All, All-append, All-weaken, if_both, arith, Bool-cases,
}
use cogitator.Base.Assoc
use cogitator.Base.Eqs.{nat_eq, string_eq}
use cogitator.Task.Scheduler.{
  Job, without, Cron, ScheduledTask, list_scheduled_tasks, Scheduler, remove_entries, with_entry,
  add_task, add_tasks, cleared, reload,
}

-- The entry of the job is known.
abbrev pub IsKnown : List (ℕ × ℕ) → Job → Type 0
IsKnown entries j = anyb (λ e. e.1 == j.0) entries ≡ true

without-IsKnown :
    (task id : ℕ) (entries : List (ℕ × ℕ)) (jobs : List Job)
    → All (IsKnown ((task, id) ∷ entries)) jobs
    → All (IsKnown entries) (without id jobs)
without-IsKnown task id entries [] h = tt
without-IsKnown task id entries (j ∷ jobs) h = elim (Bool-cases (j.0 == id)) [
  | inl gone ↦ rw gone (without-IsKnown task id entries jobs h.1)
  | inr kept ↦ rw kept (ground (arith, h.0, kept), without-IsKnown task id entries jobs h.1)
]

no_jobs : (jobs : List Job) → All (IsKnown []) jobs → jobs ≡ []
no_jobs [] h = refl
no_jobs (j ∷ jobs) h = absurd (false≢true h.0)

removed :
    (L : Cron) (c : L.State) (entries : List (ℕ × ℕ))
    → All (IsKnown entries) (L.jobs c)
    → L.jobs (remove_entries L c entries) ≡ []
unfolding remove_entries
removed L c [] h = no_jobs (L.jobs c) h
removed L c ((task, id) ∷ entries) h =
    removed L (L.remove c id) entries
      (rw (L.jobs-remove c id) (without-IsKnown task id entries (L.jobs c) h))

-- A new key's value is known after its insertion, and no value is lost.
insert_known :
    (p : ℕ × ℕ → Bool) (k v : ℕ) (m : List (ℕ × ℕ))
    → Assoc.lookup k m ≡ none
    → anyb p m ≡ true
    → anyb p (Assoc.insert k v m) ≡ true
unfolding Assoc.lookup Assoc.insert
insert_known p k v [] new h = absurd (false≢true h)
insert_known p k v ((j, w) ∷ m) new h = elim (Bool-cases (j == k)) [
  | inl same ↦ absurd (ground (arith, new, same))
  | inr other ↦ elim (Bool-cases (p (j, w))) [
    | inl here ↦ rw (other, here) refl
    | inr later ↦
        rw (other, later)
          (insert_known p k v m (ground (arith, new, other)) (ground (arith, h, later)))
  ]
]

insert_new : (k v : ℕ) (m : List (ℕ × ℕ)) → anyb (λ e. e.1 == v) (Assoc.insert k v m) ≡ true
unfolding Assoc.insert
insert_new k v [] = ground arith
insert_new k v ((j, w) ∷ m) = ground (arith, insert_new k v m)

-- The tasks are new to the entries, and different from each other.
abbrev AllNew : List (ℕ × ℕ) → List ScheduledTask → Type 0
AllNew entries [] = Unit
AllNew entries (t ∷ ts) = (Assoc.lookup t.id entries ≡ none) × AllNew entries ts

abbrev pub DistinctIds : List ScheduledTask → Type 0
DistinctIds [] = Unit
DistinctIds (t ∷ ts) = All (λ (u : ScheduledTask). t.id ≢ u.id) ts × DistinctIds ts

AllNew-insert :
    (entries : List (ℕ × ℕ)) (k v : ℕ) (ts : List ScheduledTask)
    → All (λ (u : ScheduledTask). k ≢ u.id) ts
    → AllNew entries ts
    → AllNew (Assoc.insert k v entries) ts
AllNew-insert entries k v [] ne h = tt
AllNew-insert entries k v (t ∷ ts) ne h = (
  ground (arith, Assoc.lookup-insert k t.id v entries, ne.0, h.0),
  AllNew-insert entries k v ts ne.1 h.1,
)

abbrev pub tasks_of : List Job → List ℕ
tasks_of = map (λ j. j.1)

tasks_of-snoc :
    (jobs : List Job) (id task : ℕ)
    → tasks_of (jobs ++ (id, task) ∷ []) ≡ tasks_of jobs ++ task ∷ []
tasks_of-snoc [] id task = refl
tasks_of-snoc (j ∷ jobs) id task = rw (tasks_of-snoc jobs id task)

append_assoc : (a b c : List ℕ) → (a ++ b) ++ c ≡ a ++ (b ++ c)
append_assoc [] b c = refl
append_assoc (x ∷ a) b c = rw (append_assoc a b c)

append_nil : (a : List ℕ) → a ++ [] ≡ a
append_nil [] = refl
append_nil (x ∷ a) = rw (append_nil a)

-- The ids of the tasks whose expression parses.
abbrev pub parsing : Cron → List ScheduledTask → List ℕ
parsing L ts = map (λ t. t.id) (filterb (λ t. L.parses t.cron_expr) ts)

IsKnown-after :
    (entries : List (ℕ × ℕ)) (task id : ℕ) (jobs : List Job)
    → Assoc.lookup task entries ≡ none
    → All (IsKnown entries) jobs
    → All (IsKnown (Assoc.insert task id entries)) (jobs ++ (id, task) ∷ [])
IsKnown-after entries task id jobs new h =
    All-append (IsKnown (Assoc.insert task id entries)) jobs ((id, task) ∷ [])
      (All-weaken (IsKnown entries) (IsKnown (Assoc.insert task id entries)) jobs
        (λ j. insert_known (λ e. e.1 == j.0) task id entries new) h)
      (insert_new task id entries, tt)

parsing_good :
    (L : Cron) (t : ScheduledTask) (ts : List ScheduledTask)
    → L.parses t.cron_expr ≡ true
    → parsing L (t ∷ ts) ≡ t.id ∷ parsing L ts
parsing_good L t ts good = rw good refl

parsing_bad :
    (L : Cron) (t : ScheduledTask) (ts : List ScheduledTask)
    → L.parses t.cron_expr ≡ false
    → parsing L (t ∷ ts) ≡ parsing L ts
parsing_bad L t ts bad = rw bad refl

listed_All :
    (P : ScheduledTask → Type 0) (ts : List ScheduledTask)
    → All P ts
    → All P (list_scheduled_tasks ts)
listed_All P [] h = tt
listed_All P (t ∷ ts) h =
    if_both (All P) (t.enabled && not (string_eq.beq t.cron_expr "")) (t ∷ list_scheduled_tasks ts)
      (list_scheduled_tasks ts) (λ listed. (h.0, listed_All P ts h.1))
      (λ dropped. listed_All P ts h.1)

empty-AllNew : (ts : List ScheduledTask) → AllNew [] ts
unfolding Assoc.lookup
empty-AllNew [] = tt
empty-AllNew (t ∷ ts) = (refl, empty-AllNew ts)

listed-Distinct : (ts : List ScheduledTask) → DistinctIds ts → DistinctIds (list_scheduled_tasks ts)
listed-Distinct [] d = tt
listed-Distinct (t ∷ ts) d =
    if_both DistinctIds (t.enabled && not (string_eq.beq t.cron_expr ""))
      (t ∷ list_scheduled_tasks ts) (list_scheduled_tasks ts)
      (λ listed. (listed_All (λ u. t.id ≢ u.id) ts d.0, listed-Distinct ts d.1))
      (λ dropped. listed-Distinct ts d.1)

module _ {L : Cron} where
  -- Every job of the cron is one that the scheduler knows.
  abbrev pub IsValid : Scheduler L → Type 0
  IsValid s = All (IsKnown s.entries) (L.jobs s.cron)

  add_task_good :
      (s : Scheduler L) (t : ScheduledTask) (c : L.State) (id : ℕ)
      → L.add_func s.cron t.cron_expr t.id ≡ some (c, id)
      → add_task s t ≡ record { cron = c; entries = Assoc.insert t.id id s.entries }
  unfolding add_task
  add_task_good s t c id added = ap (with_entry s t.id) added

  add_task_bad :
      (s : Scheduler L) (t : ScheduledTask)
      → L.add_func s.cron t.cron_expr t.id ≡ none
      → add_task s t ≡ s
  unfolding add_task
  add_task_bad s t refused = ap (with_entry s t.id) refused

  abbrev Goes : Scheduler L → ScheduledTask → List ScheduledTask → Scheduler L → Type 0
  Goes s t ts u =
      IsValid (add_tasks u ts)
      × (tasks_of (L.jobs (add_tasks u ts).cron) ≡ tasks_of (L.jobs s.cron) ++ parsing L (t ∷ ts))

  add_tasks-Scheduled :
      (s : Scheduler L) (ts : List ScheduledTask)
      → IsValid s
      → AllNew s.entries ts
      → DistinctIds ts
      → IsValid (add_tasks s ts)
        × (tasks_of (L.jobs (add_tasks s ts).cron) ≡ tasks_of (L.jobs s.cron) ++ parsing L ts)
  unfolding add_tasks
  add_tasks-Scheduled s [] v new d = (v, sym (append_nil (tasks_of (L.jobs s.cron))))
  add_tasks-Scheduled s (t ∷ ts) v new d = elim (Bool-cases (L.parses t.cron_expr)) [
    | inl good ↦
        let (c, id, added, jobs) = L.add_func-parses s.cron t.cron_expr t.id good in
        let s' : Scheduler L = record { cron = c; entries = Assoc.insert t.id id s.entries } in
        let (v', rest) =
          add_tasks-Scheduled s' ts
            (rw jobs (IsKnown-after s.entries t.id id (L.jobs s.cron) new.0 v))
            (AllNew-insert s.entries t.id id ts d.0 new.1) d.1 in
        subst (Goes s t ts) (sym (add_task_good s t c id added)) (
          v',
          rest
              ∙ ap (λ (js : List Job). tasks_of js ++ parsing L ts) jobs
              ∙ ap (λ js. js ++ parsing L ts) (tasks_of-snoc (L.jobs s.cron) id t.id)
              ∙ append_assoc (tasks_of (L.jobs s.cron)) (t.id ∷ []) (parsing L ts)
              ∙ ap (λ js. tasks_of (L.jobs s.cron) ++ js) (sym (parsing_good L t ts good)),
        )
    | inr bad ↦
        let (v', rest) = add_tasks-Scheduled s ts v new.1 d.1 in
        subst (Goes s t ts) (sym (add_task_bad s t (L.add_func-fails s.cron t.cron_expr t.id bad)))
          (v', rest ∙ ap (λ js. tasks_of (L.jobs s.cron) ++ js) (sym (parsing_bad L t ts bad)))
  ]

  -- After a reload that succeeds, from any scheduler that knows all jobs of its cron, the jobs run
  -- exactly the enabled tasks with an expression that parses, each once and in the order of the table,
  -- and nothing of the schedule before; the scheduler knows all jobs again. A reload whose query fails
  -- leaves no job.
  pub reload-Scheduled :
      (s : Scheduler L) (tasks : List ScheduledTask)
      → IsValid s
      → DistinctIds tasks
      → IsValid (reload s (some tasks)).0
        × (tasks_of (L.jobs (reload s (some tasks)).0.cron)
            ≡ parsing L (list_scheduled_tasks tasks))
        × (L.jobs (reload s none).0.cron ≡ [])
  unfolding reload
  reload-Scheduled s tasks v d =
      let gone = removed L s.cron s.entries v in
      let (v', jobs) =
        add_tasks-Scheduled (cleared s) (list_scheduled_tasks tasks) (rw gone tt)
          (empty-AllNew (list_scheduled_tasks tasks)) (listed-Distinct tasks d) in
      (
        v',
        jobs ∙ ap (λ (js : List Job). tasks_of js ++ parsing L (list_scheduled_tasks tasks)) gone,
        gone,
      )
