-- ===== src/Execution/Ordered.antt =====
-- `ordered_parallel_map` (src/opencollate/execution.py) returns what a serial map returns, and never runs
-- an unsafe item beside another.
use Prim.Native.String.{String}
use mathlib.Core.List.{append_assoc, append-nil}
use open_collate.Common.{
  ℕ, ◌≡◌, refl, sym, ap, ◌∙◌, inl, inr, ℤ, Bool, true, ◌||◌, Option, List, [], ◌∷◌, ◌++◌, Result,
  ok, err, ◌>>=◌, length, ltb, ◌==◌, All, All-append, Bool-cases,
}
use open_collate.Execution.{
  ExecutionError, JobValue, Event, together, alone, parse_job_count, called, each_call,
  run_parallel_block, Run, flush, call_alone, then_do, map_blocks, all_alone, map_with,
  ordered_parallel_map,
}

module _ {ℓ κ μ} {I : Type ℓ} {O : Type κ} {E : Type μ} (function : I → Result E O) where
  -- Results, and those of the items after them.
  abbrev after : List O → Result (ExecutionError E) (List O) → Result (ExecutionError E) (List O)
  after results (err e) = err e
  after results (ok ys) = ok (results ++ ys)

  joined :
      Result (ExecutionError E) (List O)
      → Result (ExecutionError E) (List O)
      → Result (ExecutionError E) (List O)
  joined r s = r >>= λ xs. (s >>= λ ys. ok (xs ++ ys))

  joined-cons :
      (y : O) (r s : Result (ExecutionError E) (List O))
      → (joined r s >>= λ ys. ok (y ∷ ys)) ≡ joined (r >>= λ ys. ok (y ∷ ys)) s
  unfolding joined
  joined-cons y (err e) s = refl
  joined-cons y (ok xs) (err e) = refl
  joined-cons y (ok xs) (ok ys) = refl

  joined-nil : (s : Result (ExecutionError E) (List O)) → s ≡ joined (ok []) s
  unfolding joined
  joined-nil (err e) = refl
  joined-nil (ok ys) = refl

  each_call-append :
      (xs ys : List I)
      → each_call function (xs ++ ys) ≡ joined (each_call function xs) (each_call function ys)
  unfolding joined
  each_call-append [] ys = joined-nil (each_call function ys)
  each_call-append (x ∷ xs) ys = first (called function (function x)) (each_call-append xs ys)
    where
      first :
          (r : Result (ExecutionError E) O)
          → each_call function (xs ++ ys) ≡ joined (each_call function xs) (each_call function ys)
          → (r >>= λ y. (each_call function (xs ++ ys) >>= λ zs. ok (y ∷ zs)))
            ≡ joined
                (r >>= λ y. (each_call function xs >>= λ zs. ok (y ∷ zs)))
                (each_call function ys)
      first (err e) h = refl
      first (ok y) h =
          ap (λ (r : Result (ExecutionError E) (List O)). r >>= λ zs. ok (y ∷ zs)) h
          ∙ joined-cons y (each_call function xs) (each_call function ys)

  bind-ext :
      {A B : Type κ} (r : Result (ExecutionError E) A) (f g : A → Result (ExecutionError E) B)
      → ((x : A) → f x ≡ g x)
      → (r >>= f) ≡ (r >>= g)
  bind-ext (err e) f g h = refl
  bind-ext (ok x) f g h = h x

  run_parallel_block-each_call :
      (items : List I) → run_parallel_block function items ≡ each_call function items
  unfolding run_parallel_block
  run_parallel_block-each_call [] = refl
  run_parallel_block-each_call (x ∷ xs) = bind-ext (called function (function x)) _ _ λ y.
      ap (λ (r : Result (ExecutionError E) (List O)). r >>= λ ys. ok (y ∷ ys))
        (run_parallel_block-each_call xs)

  flush-after :
      (block : List I) (results : List O)
      → (flush function block results).1 ≡ after results (each_call function block)
  unfolding flush
  flush-after [] results = ap ok (sym (append-nil results))
  flush-after (x ∷ block) results =
      same (run_parallel_block function (x ∷ block))
      ∙ ap (after results) (run_parallel_block-each_call (x ∷ block))
    where
      same :
          (r : Result (ExecutionError E) (List O))
          → (r >>= λ ys. ok (results ++ ys)) ≡ after results r
      same (err e) = refl
      same (ok ys) = refl

  then_do-results :
      (r : Run function) (next : List O → Run function)
      → (then_do function r next).1 ≡ (r.1 >>= λ results. (next results).1)
  then_do-results (events, err e) next = refl
  then_do-results (events, ok results) next = refl

  -- A block, an item alone, and the items after it.
  assemble :
      (results : List O) (r : Result (ExecutionError E) (List O)) (s : Result (ExecutionError E) O)
      (t : Result (ExecutionError E) (List O))
      → (after results r >>= λ flushed.
          ((s >>= λ y. ok (flushed ++ y ∷ [])) >>= λ more. after more t))
        ≡ after results (joined r (s >>= λ y. (t >>= λ ys. ok (y ∷ ys))))
  unfolding joined
  assemble results (err e) s t = refl
  assemble results (ok xs) (err e) t = refl
  assemble results (ok xs) (ok y) (err e) = refl
  assemble results (ok xs) (ok y) (ok ys) =
      ap ok (append_assoc (results ++ xs) (y ∷ []) ys ∙ append_assoc results xs (y ∷ ys))

  map_blocks-each_call :
      (is_safe : I → Bool) (items block : List I) (results : List O)
      → (map_blocks function is_safe items block results).1
        ≡ after results (each_call function (block ++ items))
  unfolding map_blocks
  map_blocks-each_call is_safe [] block results =
      flush-after block results
      ∙ ap (λ (xs : List I). after results (each_call function xs)) (sym (append-nil block))
  map_blocks-each_call is_safe (item ∷ items) block results = elim (Bool-cases (is_safe item)) [
    | inl safe ↦
        rw (map_blocks, safe)
          (map_blocks-each_call is_safe items (block ++ item ∷ []) results
            ∙ ap (λ (xs : List I). after results (each_call function xs))
                (append_assoc block (item ∷ []) items))
    | inr unsafe ↦
        rw (map_blocks, unsafe) (barrier (λ more. map_blocks-each_call is_safe items [] more))
  ]
    where
      barrier :
          ((more : List O)
            → (map_blocks function is_safe items [] more).1 ≡ after more (each_call function items))
          → (then_do function (flush function block results) (λ flushed.
              then_do function
                (call_alone function item flushed)
                (λ more. map_blocks function is_safe items [] more))).1
            ≡ after results (each_call function (block ++ item ∷ items))
      barrier ih =
          then_do-results (flush function block results) (λ flushed.
            then_do function (call_alone function item flushed)
              (λ more. map_blocks function is_safe items [] more))
          ∙ bind-ext (flush function block results).1 _ _ (λ flushed.
            then_do-results (call_alone function item flushed)
              (λ more. map_blocks function is_safe items [] more)
            ∙ bind-ext (call_alone function item flushed).1 _ _ ih)
          ∙ ap
              (λ (r : Result (ExecutionError E) (List O)). r >>= λ flushed.
                ((call_alone function item flushed).1 >>= λ more.
                after more (each_call function items)))
              (flush-after block results)
          ∙ assemble results (each_call function block) (called function (function item))
              (each_call function items)
          ∙ ap (after results) (sym (each_call-append block (item ∷ items)))

  module _ (is_safe : I → Bool) where
    -- Workers are given safe items only.
    abbrev pub IsGuarded : Event I → Type 0
    IsGuarded (together xs) = All (λ x. is_safe x ≡ true) xs
    IsGuarded (alone x) = Unit

    flush-IsGuarded :
        (block : List I) (results : List O)
        → All (λ x. is_safe x ≡ true) block
        → All IsGuarded (flush function block results).0
    unfolding flush
    flush-IsGuarded [] results h = tt
    flush-IsGuarded (x ∷ block) results h = (h, tt)

    then_do-IsGuarded :
        (r : Run function) (next : List O → Run function)
        → All IsGuarded r.0
        → ((results : List O) → All IsGuarded (next results).0)
        → All IsGuarded (then_do function r next).0
    then_do-IsGuarded (events, err e) next h k = h
    then_do-IsGuarded (events, ok results) next h k =
        All-append IsGuarded events (next results).0 h (k results)

    map_blocks-IsGuarded :
        (items block : List I) (results : List O)
        → All (λ x. is_safe x ≡ true) block
        → All IsGuarded (map_blocks function is_safe items block results).0
    unfolding map_blocks
    map_blocks-IsGuarded [] block results h = flush-IsGuarded block results h
    map_blocks-IsGuarded (item ∷ items) block results h = elim (Bool-cases (is_safe item)) [
      | inl safe ↦
          rw (map_blocks, safe)
            (map_blocks-IsGuarded items (block ++ item ∷ []) results
              (All-append (λ x. is_safe x ≡ true) block (item ∷ []) h (safe, tt)))
      | inr unsafe ↦
          rw (map_blocks, unsafe)
            (then_do-IsGuarded (flush function block results)
              (λ flushed.
                then_do function (call_alone function item flushed)
                  (λ more. map_blocks function is_safe items [] more))
              (flush-IsGuarded block results h)
              (λ flushed.
                then_do-IsGuarded (call_alone function item flushed)
                  (λ more. map_blocks function is_safe items [] more) (tt, tt)
                  (λ more. map_blocks-IsGuarded items [] more tt)))
    ]

    all_alone-IsGuarded : (items : List I) → All IsGuarded (all_alone function items)
    all_alone-IsGuarded [] = tt
    all_alone-IsGuarded (x ∷ xs) =
        (tt, rest (called function (function x)) (all_alone-IsGuarded xs))
      where
        rest :
            (r : Result (ExecutionError E) O)
            → All IsGuarded (all_alone function xs)
            → All IsGuarded
                (elim r as (λ _. List (Event I)) [ err e ↦ [] | ok y ↦ all_alone function xs ])
        rest (err e) h = tt
        rest (ok y) h = h

    after-nil : (r : Result (ExecutionError E) (List O)) → after [] r ≡ r
    after-nil (err e) = refl
    after-nil (ok ys) = refl

    -- For a count of workers that is admitted, the map returns the results, or raises the first error, of one
    -- call after the other, and only safe items are called together.
    pub ordered_parallel_map-each_call :
        (int_of : String → Option ℤ) (jobs : JobValue) (items : List I) {workers : ℕ}
        → parse_job_count {E = E} int_of jobs ≡ ok workers
        → ((ordered_parallel_map function int_of jobs is_safe items).1 ≡ each_call function items)
          × All IsGuarded (ordered_parallel_map function int_of jobs is_safe items).0
    unfolding ordered_parallel_map map_with
    ordered_parallel_map-each_call int_of jobs items {workers} h =
        elim (Bool-cases (workers == 1 || ltb (length items) 2)) [
          | inl serial ↦ rw (h, serial) (refl, all_alone-IsGuarded items)
          | inr blocks ↦
              rw (h, blocks)
                (
                  map_blocks-each_call is_safe items [] [] ∙ after-nil (each_call function items),
                  map_blocks-IsGuarded items [] [] tt,
                )
        ]
