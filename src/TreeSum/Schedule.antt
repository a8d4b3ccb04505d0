-- ===== src/TreeSum/Schedule.antt =====
-- Assignment_07/computesum.c: the threads can take their turns so that they use the mutex one after the other.
use os_lab_spr.Base.{
  ℕ, ◌<◌, ◌≡◌, ◌≢◌, refl, sym, ap, ◌∙◌, true, false, not, ◌&&◌, ◌||◌, ltb, ◌==◌, arith, inl, inr,
  Bool-cases, none, some, List, [], ◌∷◌, ◌++◌, store, store_self, dec_lt,
}
use mathlib.Core.Path.{subst}
use os_lab_spr.FooMutex.{
  Mutex, At, waiting, naming, marking, inside, releasing, unnaming, unmarking, moves, statement,
}
use os_lab_spr.TreeSum
use os_lab_spr.TreeSum.{Place, fresh, gathering, adding, summed, handing, finished, Work, node_work}
use os_lab_spr.TreeSum.Threads.{
  Program, is_adding, is_finished, is_waiting, is_inside, needs_mutex, follow, node_thread, turn,
  run,
}

abbrev free : Mutex
free = record { semaphore = 1; tid = none; status = false }

abbrev taken : Mutex
taken = record { semaphore = 0; tid = none; status = false }

abbrev named : ℕ → Mutex
named i = record { semaphore = 0; tid = some i; status = false }

abbrev held : ℕ → Mutex
held i = record { semaphore = 0; tid = some i; status = true }

-- Only thread `i` is within the mutex, before statement `a`.
record Using (i : ℕ) (a : At) (m : Mutex) (w : Work) (s : Program) : Type 0 where
  work : s.work ≡ w
  mutex : s.mutex ≡ m
  here : s.at i ≡ a
  others : (j : ℕ) → j ≢ i → s.at j ≡ waiting
  on : s.exited ≡ false

-- No thread is within the mutex.
pub record Quiet (w : Work) (s : Program) : Type 0 where
  pub work : s.work ≡ w
  pub mutex : s.mutex ≡ free
  pub outside : (j : ℕ) → s.at j ≡ waiting
  pub on : s.exited ≡ false

module _ (n i : ℕ) (low : i < n) where
  its_turn : (s : Program) → s.exited ≡ false → turn n s i ≡ node_thread n i s
  unfolding turn
  its_turn s on = let inside_n : ltb i n ≡ true = ground arith in rw (on, inside_n) refl

  -- A statement of the mutex.
  takes_statement :
      (a b : At) (m k : Mutex) (w : Work) (s : Program)
      → Using i a m w s
      → statement i m a ≡ moves k b
      → (needs_mutex i s && is_inside (s.at i)) ≡ false
      → (needs_mutex i s || not (is_waiting (s.at i))) ≡ true
      → Using i b k w (turn n s i)
  unfolding node_thread
  takes_statement a b m k w s u does body needs =
      let t : turn n s i ≡ record s { mutex = k; at = store s.at i b } =
        its_turn s u.on
        ∙ rw (body, needs)
            (ap (follow i s) (
              ap (λ z. statement i s.mutex z) u.here ∙ ap (λ z. statement i z a) u.mutex ∙ does)) in
      subst (Using i b k w) (sym t) (record {
        work = u.work;
        mutex = refl;
        here = store_self s.at i b;
        others = λ j ne. let old = u.others j ne in ground (arith, old, ne);
        on = u.on;
      })

  adds : (w : Work) (s : Program) → w.place i ≡ adding → s.work ≡ w → needs_mutex i s ≡ true
  adds w s at e =
      let here : s.work.place i ≡ adding = ap (λ (z : Work). z.place i) e ∙ at in rw here refl

  adds_not :
      (w : Work) (s : Program)
      → is_adding (w.place i) ≡ false
      → is_finished (w.place i) ≡ false
      → s.work ≡ w
      → needs_mutex i s ≡ false
  adds_not w s a f e =
      let here : s.work.place i ≡ w.place i = ap (λ (z : Work). z.place i) e in rw (here, a, f) refl

  lock_turn :
      (a b : At) (m k : Mutex) (w : Work) (s : Program)
      → w.place i ≡ adding
      → is_inside a ≡ false
      → statement i m a ≡ moves k b
      → Using i a m w s
      → Using i b k w (turn n s i)
  lock_turn a b m k w s at out does u =
      takes_statement a b m k w s u does (rw (adds w s at u.work, u.here) out)
        (rw (adds w s at u.work) refl)

  unlock_turn :
      (a b : At) (m k : Mutex) (w : Work) (s : Program)
      → is_adding (w.place i) ≡ false
      → is_finished (w.place i) ≡ false
      → is_waiting a ≡ false
      → statement i m a ≡ moves k b
      → Using i a m w s
      → Using i b k w (turn n s i)
  unlock_turn a b m k w s p q out does u =
      takes_statement a b m k w s u does (rw (adds_not w s p q u.work) refl)
        (rw (adds_not w s p q u.work, u.here, out) refl)

  body_turn :
      (w : Work) (s : Program)
      → w.place i ≡ adding
      → Using i inside (held i) w s
      → Using i inside (held i) (node_work n i adding w) (turn n s i)
  unfolding node_thread
  body_turn w s at u =
      let body : (needs_mutex i s && is_inside (s.at i)) ≡ true =
        rw (adds w s at u.work, u.here) refl in
      let here : s.work.place i ≡ adding = ap (λ (z : Work). z.place i) u.work ∙ at in
      let t : turn n s i ≡ record s { work = node_work n i adding s.work } =
        its_turn s u.on ∙ rw (body, here) refl in
      subst (Using i inside (held i) (node_work n i adding w)) (sym t) (record {
        work = ap (node_work n i adding) u.work;
        mutex = u.mutex;
        here = u.here;
        others = u.others;
        on = u.on;
      })

  -- Lock, add up, unlock.
  adding_turns :
      (w : Work) (s : Program)
      → w.place i ≡ adding
      → Quiet w s
      → (js : List ℕ) × Quiet (node_work n i adding w) (run n s js)
  unfolding run statement node_work
  adding_turns w s at q =
      let s1 : Program = turn n s i in
      let s2 : Program = turn n s1 i in
      let s3 : Program = turn n s2 i in
      let s4 : Program = turn n s3 i in
      let s5 : Program = turn n s4 i in
      let s6 : Program = turn n s5 i in
      let s7 : Program = turn n s6 i in
      let v : Work = node_work n i adding w in
      let next : v.place i ≡ summed = store_self w.place i summed in
      let a = ap is_adding next in
      let f = ap is_finished next in
      let u0 : Using i waiting free w s = record {
        work = q.work;
        mutex = q.mutex;
        here = q.outside i;
        others = λ j ne. q.outside j;
        on = q.on;
      } in
      let u1 = lock_turn waiting naming free taken w s at refl refl u0 in
      let u2 = lock_turn naming marking taken (named i) w s1 at refl refl u1 in
      let u3 = lock_turn marking inside (named i) (held i) w s2 at refl refl u2 in
      let u4 = body_turn w s3 at u3 in
      let owns : statement i (held i) inside ≡ moves (held i) releasing = ground arith in
      let u5 = unlock_turn inside releasing (held i) (held i) v s4 a f refl owns u4 in
      let u6 =
        unlock_turn releasing unnaming (held i) (record (held i) { semaphore = 1 }) v s5 a f refl
          refl u5 in
      let u7 =
        unlock_turn unnaming unmarking (record (held i) { semaphore = 1 })
          (record { semaphore = 1; tid = none; status = true }) v s6 a f refl refl u6 in
      let u8 =
        unlock_turn unmarking waiting (record { semaphore = 1; tid = none; status = true }) free v
          s7 a f refl refl u7 in
      (
        i ∷ i ∷ i ∷ i ∷ i ∷ i ∷ i ∷ i ∷ [],
        record {
          work = u8.work;
          mutex = u8.mutex;
          outside = λ j. elim (Bool-cases (i == j)) [
            | inl e ↦ ap (turn n s7 i).at (ground arith) ∙ u8.here
            | inr e ↦ u8.others j (λ z. absurd (ground arith))
          ];
          on = u8.on;
        },
      )

  plain_turn :
      (w : Work) (s : Program)
      → is_adding (w.place i) ≡ false
      → is_finished (w.place i) ≡ false
      → Quiet w s
      → Quiet (node_work n i (w.place i) w) (turn n s i)
  unfolding node_thread
  plain_turn w s a f q =
      let none_needed = adds_not w s a f q.work in
      let t : turn n s i ≡ record s { work = node_work n i (s.work.place i) s.work } =
        its_turn s q.on ∙ rw (none_needed, q.outside i) refl in
      subst (Quiet (node_work n i (w.place i) w)) (sym t) (record {
        work = ap (λ (z : Work). node_work n i (z.place i) z) q.work;
        mutex = q.mutex;
        outside = q.outside;
        on = q.on;
      })

  place_turns :
      (p : Place) (w : Work) (s : Program)
      → w.place i ≡ p
      → Quiet w s
      → (js : List ℕ) × Quiet (node_work n i p w) (run n s js)
  unfolding run node_work
  place_turns adding w s e q = adding_turns w s e q
  place_turns finished w s e q = ([], q)
  place_turns fresh w s e q = (
    i ∷ [],
    subst (λ p. Quiet (node_work n i p w) (turn n s i)) e
        (plain_turn w s (ap is_adding e) (ap is_finished e) q),
  )
  place_turns gathering w s e q = (
    i ∷ [],
    subst (λ p. Quiet (node_work n i p w) (turn n s i)) e
        (plain_turn w s (ap is_adding e) (ap is_finished e) q),
  )
  place_turns summed w s e q = (
    i ∷ [],
    subst (λ p. Quiet (node_work n i p w) (turn n s i)) e
        (plain_turn w s (ap is_adding e) (ap is_finished e) q),
  )
  place_turns handing w s e q = (
    i ∷ [],
    subst (λ p. Quiet (node_work n i p w) (turn n s i)) e
        (plain_turn w s (ap is_adding e) (ap is_finished e) q),
  )

-- A turn of the work without the mutex.
turn_turns :
    (n i : ℕ) (w : Work) (s : Program)
    → Quiet w s
    → (js : List ℕ) × Quiet (TreeSum.turn n w i) (run n s js)
unfolding run TreeSum.turn
turn_turns n i w s q = elim (dec_lt i n) [
  | yes low ↦
      let t : ltb i n ≡ true = ground arith in rw t (place_turns n i low (w.place i) w s refl q)
  | no ge ↦ let t : ltb i n ≡ false = ground arith in rw t ([], q)
]

run-append : (n : ℕ) (s : Program) (is js : List ℕ) → run n (run n s is) js ≡ run n s (is ++ js)
unfolding run
run-append n s [] js = refl
run-append n s (i ∷ is) js = run-append n (turn n s i) is js

-- Turns of the work without the mutex can be taken with it.
pub run_turns :
    (n : ℕ) (is : List ℕ) (w : Work) (s : Program)
    → Quiet w s
    → (js : List ℕ) × Quiet (TreeSum.run n w is) (run n s js)
unfolding TreeSum.run run
run_turns n [] w s q = ([], q)
run_turns n (i ∷ is) w s q =
    let (js, r) = turn_turns n i w s q in
    let (ks, end) = run_turns n is (TreeSum.turn n w i) (run n s js) r in
    (js ++ ks, subst (Quiet (TreeSum.run n (TreeSum.turn n w i) is)) (run-append n s js ks) end)
