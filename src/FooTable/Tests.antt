-- ===== src/FooTable/Tests.antt =====
-- Three threads of Assignment_07/foothread.c: the first creates a second, which creates a third, all of
-- them joinable. The first ends while the third still runs.
use os_lab_spr.Base.{ℕ, ◌≡◌, ◌≢◌, refl, true, false, store, arith, Option, some}
use os_lab_spr.FooTable.{
  Attr, Table, calling, asleep, Exiting, running, waiting, clearing, ended, System, creates, resets,
  leaves, sets, calls, passes, clears, Undisturbed, Reached, begins, goes_on, stays, turn, start,
  leave, exiting, pass, clear, foothread_create, first, count_of, joinable, default_stack_size,
}
use os_lab_spr.FooTable.Passing.{or_else}
use os_lab_spr.FooTable.Orphans.{Orphan, Orphan-waits}

abbrev joined : Option Attr
joined = some record { join_type = joinable; stack_size = default_stack_size }

abbrev after_create : ℕ → ℕ → System → System
after_create self tid s = record s {
  table = or_else s.table (foothread_create self tid joined s.table);
  phase = store s.phase tid running;
}

abbrev after_reset : System → System
after_reset s = record s { pop = 1 }

abbrev after_leave : ℕ → System → System
after_leave self s = record s {
  table = leave self s.table;
  phase = store s.phase self (waiting (exiting self s.table));
}

abbrev after_set : ℕ → Exiting → System → System
after_set self l s = record s {
  pop = l.count;
  phase = store s.phase self (waiting (record l { call = calling }));
}

abbrev after_call : ℕ → Exiting → System → System
after_call self l s = record s {
  phase = store s.phase self (waiting (record l { call = asleep s.pop }));
}

abbrev after_pass : ℕ → Exiting → System → System
after_pass self l s = record s {
  table = or_else s.table (pass l s.table);
  phase = store s.phase self (clearing l);
}

abbrev after_clear : ℕ → Exiting → System → System
after_clear self l s = record s { table = clear l s.table; phase = store s.phase self ended }

abbrev both_created : System
both_created = after_create 2 3 (after_create 1 2 (start 1))

abbrev second_exit : Exiting
second_exit = exiting 2 both_created.table

abbrev sleeping : Exiting → Exiting
sleeping l = record l { call = asleep l.count }

-- The second thread goes to its P.
abbrev second_leaves : System
second_leaves = after_leave 2 both_created

abbrev second_sets : System
second_sets = after_set 2 second_exit second_leaves

abbrev second_asleep : System
second_asleep = after_call 2 (record second_exit { call = calling }) second_sets

-- And so does the first.
abbrev first_leaves : System
first_leaves = after_leave 1 second_asleep

abbrev first_exit : Exiting
first_exit = exiting 1 second_asleep.table

abbrev first_sets : System
first_sets = after_set 1 first_exit first_leaves

abbrev first_asleep : System
first_asleep = after_call 1 (record first_exit { call = calling }) first_sets

abbrev first_passes : System
first_passes = after_pass 1 (sleeping first_exit) first_asleep

abbrev first_ends : System
first_ends = after_clear 1 (sleeping first_exit) first_passes

both_created-Reached : Reached 1 both_created
unfolding foothread_create first
both_created-Reached =
    goes_on (after_create 1 2 (start 1))
      (goes_on (start 1) begins
        (creates 1 2 joined (after_create 1 2 (start 1)).table refl refl refl))
      (creates 2 3 joined both_created.table refl refl refl)

second_asleep-Reached : Reached 1 second_asleep
unfolding foothread_create first count_of
second_asleep-Reached =
    goes_on second_sets
      (goes_on second_leaves (goes_on both_created both_created-Reached (leaves 2 refl refl))
        (sets 2 second_exit refl refl refl))
      (calls 2 (record second_exit { call = calling }) refl refl)

first_asleep-Reached : Reached 1 first_asleep
unfolding foothread_create first count_of
first_asleep-Reached =
    goes_on first_sets
      (goes_on first_leaves (goes_on second_asleep second_asleep-Reached (leaves 1 refl refl))
        (sets 1 first_exit refl refl refl))
      (calls 1 (record first_exit { call = calling }) refl refl)

first_asleep-Undisturbed : Undisturbed 1 first_asleep first_asleep-Reached
unfolding foothread_create first count_of both_created-Reached second_asleep-Reached
    first_asleep-Reached
first_asleep-Undisturbed = ((((((((tt, tt), tt), tt), tt), refl), tt), tt), refl)

first_passes-Reached : Reached 1 first_passes
unfolding foothread_create first count_of pass
first_passes-Reached =
    goes_on first_asleep first_asleep-Reached
      (passes 1 (sleeping first_exit) first_passes.table refl refl)

first_passes-Undisturbed : Undisturbed 1 first_passes first_passes-Reached
unfolding first_passes-Reached
first_passes-Undisturbed = (first_asleep-Undisturbed, tt)

first_ends-Reached : Reached 1 first_ends
unfolding foothread_create first count_of pass
first_ends-Reached = goes_on first_passes first_passes-Reached (clears 1 (sleeping first_exit) refl)

first_ends-Undisturbed : Undisturbed 1 first_ends first_ends-Reached
unfolding first_ends-Reached
first_ends-Undisturbed = (first_passes-Undisturbed, tt)

-- The entry of the second thread is gone now.
second_cleared : (first_ends.table.entries 1).valid ≡ false
unfolding foothread_create first count_of pass
second_cleared = refl

second_unlisted :
    (i : ℕ) → (first_ends.table.entries i).valid ≡ true → (first_ends.table.entries i).tid ≢ 2
unfolding foothread_create first count_of pass
second_unlisted i v e = ground arith

second_waits : Orphan first_ends.table first_ends.phase 2 (sleeping second_exit) 1
unfolding foothread_create first count_of pass
second_waits = (refl, refl, omega arith, (1, refl, omega arith), second_unlisted)

-- The third thread leaves, and the second still waits.
Orphan-waits_example : (after_leave 3 first_ends).phase 2 ≡ waiting (sleeping second_exit)
unfolding foothread_create first count_of pass
Orphan-waits_example =
    Orphan-waits 1 first_ends (after_leave 3 first_ends) 2 1 (sleeping second_exit)
      first_ends-Reached first_ends-Undisturbed second_waits
      (turn first_ends stays (leaves 3 refl refl)) (tt, tt)

-- The first thread creates two; one leaves, the first sets `pop` to 2, the other one's call sets it back, and
-- the P of the first goes through with 1 while that thread still runs.
abbrev two_created : System
two_created = after_create 1 3 (after_create 1 2 (start 1))

abbrev one_left : System
one_left = after_leave 2 two_created

abbrev both_exit : Exiting
both_exit = exiting 1 one_left.table

abbrev set_back : System
set_back = after_reset (after_set 1 both_exit (after_leave 1 one_left))

abbrev too_early : System
too_early = after_call 1 (record both_exit { call = calling }) set_back

too_early-Reached : Reached 1 too_early
unfolding foothread_create first count_of
too_early-Reached =
    goes_on set_back
      (goes_on (after_set 1 both_exit (after_leave 1 one_left))
        (goes_on (after_leave 1 one_left)
          (goes_on one_left
            (goes_on two_created
              (goes_on (after_create 1 2 (start 1))
                (goes_on (start 1) begins
                  (creates 1 2 joined (after_create 1 2 (start 1)).table refl refl refl))
                (creates 1 3 joined two_created.table refl refl refl))
              (leaves 2 refl refl))
            (leaves 1 refl refl))
          (sets 1 both_exit refl refl refl))
        (resets 3 refl))
      (calls 1 (record both_exit { call = calling }) refl refl)

child_still_runs :
    (both_exit.mychild 2 ≡ true)
    × (too_early.phase (too_early.table.entries 2).tid ≡ running)
    × (t : Table) × (pass (record both_exit { call = asleep 1 }) too_early.table ≡ some t)
unfolding foothread_create first count_of pass
child_still_runs = (
  refl,
  refl,
  or_else too_early.table (pass (record both_exit { call = asleep 1 }) too_early.table),
  refl,
)
