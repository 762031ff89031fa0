-- ===== src/Task/Runs/Rows.antt =====
-- The table of the runs: what its updates do to the count of the running ones, and to other rows.
use cogitator.Base.{
  ℕ, suc, ◌+◌, ◌<◌, ◌≡◌, refl, false, All-append, ◌&&◌, List, [], ◌∷◌, ◌++◌, Option, some, ◌==◌,
  All, arith, if◌then◌else◌,
}
use cogitator.Task.Runs.{
  Trigger, Run, Runs, is_of, is_running, count_running, new_run, create_run, update_row, find_row,
  IsValid,
}

-- What an update of the row `id` does to the count, where the row is running and of the task.
count_running-append :
    (xs ys : List Run) (task : ℕ)
    → count_running (xs ++ ys) task ≡ count_running xs task + count_running ys task
unfolding count_running
count_running-append [] ys task = omega arith
count_running-append (r ∷ xs) ys task = ground (arith, count_running-append xs ys task)

-- A run that was just created counts for its task and for no other.
pub count_running-create_run :
    (s : Runs) (task other : ℕ) (trigger : Trigger) (retry_of : Option ℕ) (now : ℕ)
    → count_running (create_run s task trigger retry_of now).0.rows other
      ≡ count_running s.rows other + (if task == other then 1 else 0)
unfolding create_run count_running
count_running-create_run s task other trigger retry_of now =
    rw (count_running-append s.rows (new_run s.next_id task trigger retry_of now ∷ []) other)
      (ground arith)

pub create_run-IsValid :
    (s : Runs) (task : ℕ) (trigger : Trigger) (retry_of : Option ℕ) (now : ℕ)
    → IsValid s
    → IsValid (create_run s task trigger retry_of now).0
unfolding create_run
create_run-IsValid s task trigger retry_of now v =
    All-append (λ r. r.id < suc s.next_id) s.rows (new_run s.next_id task trigger retry_of now ∷ [])
      (widen s.rows v) (omega arith, tt)
  where
    widen :
        (rows : List Run) → All (λ r. r.id < s.next_id) rows → All (λ r. r.id < suc s.next_id) rows
    widen [] h = tt
    widen (r ∷ rows) h = (omega (arith, h.0), widen rows h.1)

update_row_miss :
    (id : ℕ) (f : Run → Run) (rows : List Run)
    → All (λ r. r.id < id) rows
    → update_row id f rows ≡ rows
unfolding update_row
update_row_miss id f [] h = refl
update_row_miss id f (r ∷ rows) h =
    let miss : (r.id == id) ≡ false = ground (arith, h.0) in
    rw (miss, update_row_miss id f rows h.1)

update_row-append :
    (id : ℕ) (f : Run → Run) (xs ys : List Run)
    → update_row id f (xs ++ ys) ≡ update_row id f xs ++ update_row id f ys
unfolding update_row
update_row-append id f [] ys = refl
update_row-append id f (r ∷ xs) ys = rw (update_row-append id f xs ys)

-- Updating the newest row touches no other row.
pub update_row-last :
    (id : ℕ) (f : Run → Run) (rows : List Run) (r : Run)
    → All (λ q. q.id < id) rows
    → r.id ≡ id
    → update_row id f (rows ++ r ∷ []) ≡ rows ++ f r ∷ []
unfolding update_row
update_row-last id f rows r below at =
    rw (update_row-append id f rows (r ∷ [])) (rw (update_row_miss id f rows below) (ground arith))

pub find_row-last :
    (id : ℕ) (rows : List Run) (r : Run)
    → All (λ q. q.id < id) rows
    → r.id ≡ id
    → find_row id (rows ++ r ∷ []) ≡ some r
unfolding find_row
find_row-last id [] r below at = ground arith
find_row-last id (q ∷ rows) r below at = ground (arith, find_row-last id rows r below.1 at, below.0)

pub count_running-snoc :
    (rows : List Run) (r : Run) (task : ℕ)
    → count_running (rows ++ r ∷ []) task
      ≡ count_running rows task + (if is_of task r && is_running r.status then 1 else 0)
unfolding count_running
count_running-snoc rows r task = rw (count_running-append rows (r ∷ []) task) (ground arith)
