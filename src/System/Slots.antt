-- ===== src/System/Slots.antt =====
-- Changes of one slot of the process list of kernel/src/task/scheduler.rs, and of the parents of all.
use unit.Base.{
  ℕ, zero, suc, ◌+◌, ◌≤◌, ◌≡◌, ◌≢◌, Option, some, List, [], ◌∷◌, set, arith, ◌⊎◌, inl, inr, refl,
  ap, ◌∙◌, sym, length-set,
}
use unit.System.{Holds, IsProcess, AreProcesses, Alone}
use unit.Task.Process.{Process, running}

-- What a slot holds after a write to slot `i`.
Holds-set :
    (slots : List (Option Process)) (i j : ℕ) (q r : Process)
    → Holds (set slots i (some q)) j r
    → ((j ≡ i) × (r ≡ q)) ⊎ ((j ≢ i) × Holds slots j r)
Holds-set [] i j q r h = absurd (cc)
Holds-set (x ∷ slots) zero zero q r h = inl (refl, ground arith)
Holds-set (x ∷ slots) zero (suc j) q r h = inr (λ e. omega arith, h)
Holds-set (x ∷ slots) (suc i) zero q r h = inr (λ e. omega arith, h)
Holds-set (x ∷ slots) (suc i) (suc j) q r h = up (Holds-set slots i j q r h)
  where
    up :
        ((j ≡ i) × (r ≡ q)) ⊎ ((j ≢ i) × Holds slots j r)
        → ((suc j ≡ suc i) × (r ≡ q)) ⊎ ((suc j ≢ suc i) × Holds slots j r)
    up (inl (e, same)) = inl (ap suc e, same)
    up (inr (ne, at)) = inr (λ e. ne (omega arith), at)

IsProcess-weaken : (n m : ℕ) (p : Process) → n ≤ m → IsProcess n p → IsProcess m p
IsProcess-weaken n m p h v = record {
  number = omega (arith, v.number);
  stack = v.stack;
  table = v.table;
  heap = v.heap;
}

module _ (slots : List (Option Process)) (i : ℕ) (q : Process) where
  -- The process of a slot changed, but not its number.
  pub set-AreProcesses :
      (next : ℕ) (p : Process)
      → AreProcesses next slots
      → Holds slots i p
      → q.pid ≡ p.pid
      → IsProcess next q
      → AreProcesses next (set slots i (some q))
  set-AreProcesses next p v at number w = record {
    size = length-set slots i (some q) ∙ v.size;
    each = λ j r h. each j r (Holds-set slots i j q r h);
    distinct = λ j j' r r' h h' e.
        distinct j j' r r' (Holds-set slots i j q r h) (Holds-set slots i j' q r' h') e;
  }
    where
      each :
          (j : ℕ) (r : Process)
          → ((j ≡ i) × (r ≡ q)) ⊎ ((j ≢ i) × Holds slots j r)
          → IsProcess next r
      each j r (inl (e, same)) = rw same w
      each j r (inr (ne, here)) = v.each j r here

      distinct :
          (j j' : ℕ) (r r' : Process)
          → ((j ≡ i) × (r ≡ q)) ⊎ ((j ≢ i) × Holds slots j r)
          → ((j' ≡ i) × (r' ≡ q)) ⊎ ((j' ≢ i) × Holds slots j' r')
          → r.pid ≡ r'.pid
          → j ≡ j'
      distinct j j' r r' (inl (a, b)) (inl (a', b')) e = a ∙ sym a'
      distinct j j' r r' (inl (a, b)) (inr (ne, here)) e =
          a ∙ v.distinct i j' p r' at here (sym number ∙ sym (ap Process.pid b) ∙ e)
      distinct j j' r r' (inr (ne, here)) (inl (a', b')) e =
          v.distinct j i r p here at (e ∙ ap Process.pid b' ∙ number) ∙ sym a'
      distinct j j' r r' (inr (ne, here)) (inr (ne', here')) e = v.distinct j j' r r' here here' e

  -- A new process with the next number.
  pub add-AreProcesses :
      (next : ℕ)
      → AreProcesses next slots
      → q.pid ≡ next
      → IsProcess (next + 1) q
      → AreProcesses (next + 1) (set slots i (some q))
  add-AreProcesses next v number w = record {
    size = length-set slots i (some q) ∙ v.size;
    each = λ j r h. each j r (Holds-set slots i j q r h);
    distinct = λ j j' r r' h h' e.
        distinct j j' r r' (Holds-set slots i j q r h) (Holds-set slots i j' q r' h') e;
  }
    where
      each :
          (j : ℕ) (r : Process)
          → ((j ≡ i) × (r ≡ q)) ⊎ ((j ≢ i) × Holds slots j r)
          → IsProcess (next + 1) r
      each j r (inl (e, same)) = rw same w
      each j r (inr (ne, here)) = IsProcess-weaken next (next + 1) r (omega arith) (v.each j r here)

      distinct :
          (j j' : ℕ) (r r' : Process)
          → ((j ≡ i) × (r ≡ q)) ⊎ ((j ≢ i) × Holds slots j r)
          → ((j' ≡ i) × (r' ≡ q)) ⊎ ((j' ≢ i) × Holds slots j' r')
          → r.pid ≡ r'.pid
          → j ≡ j'
      distinct j j' r r' (inl (a, b)) (inl (a', b')) e = a ∙ sym a'
      distinct j j' r r' (inl (a, b)) (inr (ne, here)) e =
          absurd (omega (arith, (v.each j' r' here).number, ap Process.pid b))
      distinct j j' r r' (inr (ne, here)) (inl (a', b')) e =
          absurd (omega (arith, (v.each j r here).number, ap Process.pid b'))
      distinct j j' r r' (inr (ne, here)) (inr (ne', here')) e = v.distinct j j' r r' here here' e

  pub set-Alone :
      (cur : ℕ) → Alone cur slots → (q.state ≡ running → i ≡ cur) → Alone cur (set slots i (some q))
  set-Alone cur v w j r h = go (Holds-set slots i j q r h)
    where
      go : ((j ≡ i) × (r ≡ q)) ⊎ ((j ≢ i) × Holds slots j r) → r.state ≡ running → j ≡ cur
      go (inl (a, b)) e = a ∙ w (sym (ap Process.state b) ∙ e)
      go (inr (ne, here)) e = v j r here e

  -- The slot that was the current one, and is not marked as running any more, is left.
  pub leave-Alone :
      (cur : ℕ) (p : Process)
      → Alone cur slots
      → Holds slots cur p
      → p.state ≢ running
      → Alone i (set slots i (some q))
  leave-Alone cur p v at stopped j r h = go (Holds-set slots i j q r h)
    where
      go : ((j ≡ i) × (r ≡ q)) ⊎ ((j ≢ i) × Holds slots j r) → r.state ≡ running → j ≡ i
      go (inl (a, b)) e = a
      go (inr (ne, here)) e = absurd (stopped (same ∙ e))
        where
          same : p.state ≡ r.state
          same = let c = v j r here e in ground (arith, at)
