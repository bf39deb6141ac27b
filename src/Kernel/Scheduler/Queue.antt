-- ===== src/Kernel/Scheduler/Queue.antt =====
-- The linked ready queue of scheduler/round_robin.c as a list.
use ceblar.Prelude.{
  ℕ, zero, suc, ◌<◌, ◌≡◌, ◌≢◌, refl, ap, ◌∙◌, sym, subst, Bool, true, if◌then◌else◌, Option, none,
  some, List, [], ◌∷◌, ◌++◌, length, Every, update, update_self, Option-cases, inl, inr, Bool-cases,
  arith, ℕ_discrete,
}
use ceblar.Kernel.Pcb.{idle, Pcb, Machine}
use ceblar.Kernel.Scheduler.{
  set_next, append_at, queue_fuel, can_queue, link, enqueue, is_runnable, drop_head, next_from,
}

-- The pointers from `head` on lead through the processes of the list and end.
abbrev pub Chain : (ℕ → Pcb) → Option ℕ → List ℕ → Type 0
Chain ps head [] = head ≡ none
Chain ps head (p ∷ rest) = (head ≡ some p) × Chain ps (ps p).next rest

abbrev pub NotIn : ℕ → List ℕ → Type 0
NotIn p = Every (λ q. q ≢ p)

-- A chain looks at the `next` of its own processes only.
pub Chain-update :
    (ps : ℕ → Pcb) (p : ℕ) (v : Pcb) (head : Option ℕ) (xs : List ℕ)
    → NotIn p xs
    → Chain ps head xs
    → Chain (update ps p v) head xs
Chain-update ps p v head [] out c = c
Chain-update ps p v head (x ∷ xs) out c =
    let kept : update ps p v x ≡ ps x = ground (arith, out.0) in
    (c.0, rw kept (Chain-update ps p v (ps x).next xs out.1 c.1))

-- No process stands twice in the list.
abbrev pub Distinct : List ℕ → Type 0
Distinct [] = Unit {0}
Distinct (x ∷ xs) = NotIn x xs × Distinct xs

append_at_end :
    (n q p : ℕ) (m : Machine)
    → (m.processes q).next ≡ none
    → append_at (suc n) q p m ≡ set_next m q (some p)
unfolding append_at
append_at_end n q p m e = rw (e, append_at) refl

append_at_more :
    (n q p x : ℕ) (m : Machine)
    → (m.processes q).next ≡ some x
    → append_at (suc n) q p m ≡ append_at n x p m
unfolding append_at
append_at_more n q p x m e = rw (e, append_at) refl

-- The walk changes no process outside the queue.
append_at_keeps :
    (n q p i : ℕ) (m : Machine) (xs : List ℕ)
    → Chain m.processes (m.processes q).next xs
    → q ≢ i
    → NotIn i xs
    → (append_at n q p m).processes i ≡ m.processes i
append_at_keeps zero q p i m xs c ne out = unfold append_at in refl
append_at_keeps (suc n) q p i m [] c ne out = rw (append_at_end n q p m c) (ground arith)
append_at_keeps (suc n) q p i m (x ∷ xs) c ne out =
    rw (append_at_more n q p x m c.0) (append_at_keeps n x p i m xs c.1 out.0 out.1)

-- Walking to the end of the queue puts the process there.
append_at-Chain :
    (n q p : ℕ) (m : Machine) (xs : List ℕ)
    → length xs < n
    → Distinct (q ∷ xs)
    → NotIn p (q ∷ xs)
    → (m.processes p).next ≡ none
    → Chain m.processes (m.processes q).next xs
    → Chain (append_at n q p m).processes (some q) (q ∷ (xs ++ p ∷ []))
append_at-Chain zero q p m xs fuel apart out ends c = absurd (omega arith)
append_at-Chain (suc n) q p m [] fuel apart out ends c =
    rw (append_at_end n q p m c) (refl, (ground arith, ground (arith, ends, out.0)))
append_at-Chain (suc n) q p m (x ∷ xs) fuel apart out ends c =
    let moved = append_at_more n q p x m c.0 in
    let rest = append_at-Chain n x p m xs (omega arith) apart.1 out.1 ends c.1 in
    let kept = append_at_keeps n x p q m xs c.1 apart.0.0 apart.0.1 in
    subst (λ (m' : Machine). Chain m'.processes (some q) (q ∷ x ∷ (xs ++ p ∷ []))) (sym moved)
      (refl, (ap (λ (b : Pcb). b.next) kept ∙ c.0, rest.1))

-- What the walk leaves alone, whatever the queue: all but the `next` of each process.
abbrev pub SameButNext : Pcb → Pcb → Type 0
SameButNext a b = a ≡ record b { next = a.next }

set_next-SameButNext :
    (m : Machine) (q i : ℕ) (v : Option ℕ)
    → SameButNext ((set_next m q v).processes i) (m.processes i)
set_next-SameButNext m q i v = elim (ℕ_discrete q i) [
  | yes e ↦
      subst (λ j. SameButNext ((set_next m q v).processes j) (m.processes j)) e
        (rw (update_self m.processes q (record (m.processes q) { next = v })) refl)
  | no e ↦ let kept : (set_next m q v).processes i ≡ m.processes i = ground arith in rw kept refl
]

append_at-SameButNext :
    (n q p i : ℕ) (m : Machine) → SameButNext ((append_at n q p m).processes i) (m.processes i)
append_at-SameButNext zero q p i m = unfold append_at in refl
append_at-SameButNext (suc n) q p i m = elim (Option-cases (m.processes q).next) [
  | inl e ↦
      subst (λ (m' : Machine). SameButNext (m'.processes i) (m.processes i))
        (sym (append_at_end n q p m e)) (set_next-SameButNext m q i (some p))
  | inr (x, e) ↦
      subst (λ (m' : Machine). SameButNext (m'.processes i) (m.processes i))
        (sym (append_at_more n q p x m e)) (append_at-SameButNext n x p i m)
]

append_at-others :
    (n q p : ℕ) (m : Machine)
    → append_at n q p m ≡ record m { processes = (append_at n q p m).processes }
append_at-others zero q p m = unfold append_at in refl
append_at-others (suc n) q p m = elim (Option-cases (m.processes q).next) [
  | inl e ↦
      subst (λ (m' : Machine). m' ≡ record m { processes = m'.processes })
        (sym (append_at_end n q p m e)) refl
  | inr (x, e) ↦
      subst (λ (m' : Machine). m' ≡ record m { processes = m'.processes })
        (sym (append_at_more n q p x m e)) (append_at-others n x p m)
]

enqueue_first :
    (p : ℕ) (m : Machine)
    → can_queue (m.processes p) ≡ true
    → m.ready_head ≡ none
    → enqueue p m ≡ record (set_next m p none) { ready_head = some p }
unfolding enqueue
enqueue_first p m fit e =
    let queued : enqueue p m ≡ link m.ready_head p (set_next m p none) = rw fit in
    queued ∙ ap (λ h. link h p (set_next m p none)) e

enqueue_behind :
    (p h : ℕ) (m : Machine)
    → can_queue (m.processes p) ≡ true
    → m.ready_head ≡ some h
    → enqueue p m ≡ append_at queue_fuel h p (set_next m p none)
unfolding enqueue
enqueue_behind p h m fit e =
    let queued : enqueue p m ≡ link m.ready_head p (set_next m p none) = rw fit in
    queued ∙ ap (λ h'. link h' p (set_next m p none)) e

-- `enqueue` of a live process that is not in the queue puts it behind the others.
pub enqueue-Chain :
    (p : ℕ) (m : Machine) (xs : List ℕ)
    → Chain m.processes m.ready_head xs
    → Distinct xs
    → NotIn p xs
    → length xs < queue_fuel
    → can_queue (m.processes p) ≡ true
    → Chain (enqueue p m).processes (enqueue p m).ready_head (xs ++ p ∷ [])
enqueue-Chain p m [] c apart out few fit =
    subst (λ (r : Machine). Chain r.processes r.ready_head (p ∷ [])) (sym (enqueue_first p m fit c))
      (refl, ground arith)
enqueue-Chain p m (h ∷ t) c apart out few fit =
    let m₁ : Machine = set_next m p none in
    let c₁ =
      Chain-update m.processes p (record (m.processes p) { next = none }) m.ready_head (h ∷ t) out
        c in
    let last : (m₁.processes p).next ≡ none = ground arith in
    let walked = append_at-Chain queue_fuel h p m₁ t (omega arith) apart out last c₁.1 in
    let head : (append_at queue_fuel h p m₁).ready_head ≡ some h =
      ap (λ (x : Machine). x.ready_head) (append_at-others queue_fuel h p m₁) ∙ c.0 in
    subst (λ (r : Machine). Chain r.processes r.ready_head (h ∷ (t ++ p ∷ [])))
      (sym (enqueue_behind p h m fit c.0)) (head, walked.1)

-- The first process of the list that passes a test, with those behind it.
abbrev pub pick : (ℕ → Bool) → List ℕ → ℕ × List ℕ
pick test [] = (idle, [])
pick test (x ∷ xs) = if test x then (x, xs) else pick test xs

pick-ext : (f g : ℕ → Bool) (xs : List ℕ) → ((i : ℕ) → f i ≡ g i) → pick f xs ≡ pick g xs
pick-ext f g [] h = refl
pick-ext f g (x ∷ xs) h = ground (arith, h x, pick-ext f g xs h)

pub next_from_empty : (n : ℕ) (m : Machine) → m.ready_head ≡ none → next_from (suc n) m ≡ (idle, m)
unfolding next_from
next_from_empty n m e = ground (arith, e)

pub next_from_head :
    (n x : ℕ) (m : Machine)
    → m.ready_head ≡ some x
    → next_from (suc n) m
      ≡ (if is_runnable (m.processes x) then (x, drop_head x m) else next_from n (drop_head x m))
unfolding next_from
next_from_head n x m e = ground (arith, e)

-- What a search of the queue gives: a process, and the queue behind it.
abbrev pub Finds : ℕ × Machine → ℕ × List ℕ → Type 0
Finds r found = (r.0 ≡ found.0) × Chain r.1.processes r.1.ready_head found.1

drop_head-runnable :
    (x i : ℕ) (m : Machine)
    → is_runnable ((drop_head x m).processes i) ≡ is_runnable (m.processes i)
drop_head-runnable x i m = ground arith

-- `next_ready` finds the first process in the queue that is allocated and ready, and drops it with those
-- before it.
pub next_from-pick :
    (n : ℕ) (m : Machine) (xs : List ℕ)
    → length xs < n
    → Chain m.processes m.ready_head xs
    → Distinct xs
    → Finds (next_from n m) (pick (λ i. is_runnable (m.processes i)) xs)
next_from-pick zero m xs few c apart = absurd (omega arith)
next_from-pick (suc n) m [] few c apart =
    subst (λ r. Finds r (idle, [])) (sym (next_from_empty n m c)) (refl, c)
next_from-pick (suc n) m (x ∷ xs) few c apart =
    let rest =
      Chain-update m.processes x (record (m.processes x) { next = none }) (m.processes x).next xs
        apart.0 c.1 in
    let step = next_from_head n x m c.0 in
    elim (Bool-cases (is_runnable (m.processes x))) [
      | inl e ↦
          subst (λ r. Finds r (pick (λ i. is_runnable (m.processes i)) (x ∷ xs))) (sym step)
            (rw e (refl, rest))
      | inr e ↦
          subst (λ r. Finds r (pick (λ i. is_runnable (m.processes i)) (x ∷ xs))) (sym step)
            (rw e (
              subst (λ found. Finds (next_from n (drop_head x m)) found)
                (pick-ext _ _ xs (λ i. drop_head-runnable x i m))
                (next_from-pick n (drop_head x m) xs (omega arith) rest apart.1)))
    ]

-- `enqueue` changes the state of no process.
pub state-enqueue :
    (p i : ℕ) (m : Machine)
    → (((enqueue p m).processes i).state ≡ (m.processes i).state)
      × (((enqueue p m).processes i).allocated ≡ (m.processes i).allocated)
state-enqueue p i m = elim (Bool-cases (can_queue (m.processes p))) [
  | inl fit ↦ elim (Option-cases m.ready_head) [
    | inl e ↦ (
      ap (λ (r : Machine). (r.processes i).state) (enqueue_first p m fit e) ∙ ground arith,
      ap (λ (r : Machine). (r.processes i).allocated) (enqueue_first p m fit e) ∙ ground arith,
    )
    | inr (x, e) ↦
        let walked = append_at-SameButNext queue_fuel x p i (set_next m p none) in
        (
          ap (λ (r : Machine). (r.processes i).state) (enqueue_behind p x m fit e)
              ∙ ap (λ (b : Pcb). b.state) walked
              ∙ ground arith,
          ap (λ (r : Machine). (r.processes i).allocated) (enqueue_behind p x m fit e)
              ∙ ap (λ (b : Pcb). b.allocated) walked
              ∙ ground arith,
        )
  ]
  | inr unfit ↦ unfold enqueue in (rw unfit refl, rw unfit refl)
]
