-- ===== src/Session/Lines.antt =====
-- The lines of Assignment_06/session.c: who is let in, and in what order.
use os_lab_spr.Base.{
  ℕ, ◌+◌, ◌≤◌, ◌<◌, ◌≡◌, ◌⊎◌, inl, inr, refl, Bool, true, false, Option, some, ltb, if◌then◌else◌,
  ℤ, pos, ◌+ℤ◌, ◌≤ℤ◌, ◌<ℤ◌, arith, Bool-cases,
}
use os_lab_spr.Event.{Event}
use os_lab_spr.Session.{
  max_reporters, max_patients, max_sales_reps, Line, Hall, joins, leaves, reporter_arrives,
  quota_arrives, advance, until, let_in, check_done,
}

abbrev pub least : ℕ → ℕ → ℕ
least a b = if ltb a b then a else b

-- Everyone who waits has a visit of some length.
abbrev pub Timed : Line → Type 0
Timed l = (i : ℕ) → l.current < i → i ≤ l.current + l.num → pos 0 <ℤ (l.waiting i).duration

-- A line with a quota: the first ones to arrive were taken, up to the quota, which is used up when
-- the session is done.
pub record Filled (quota : ℕ) (done : Bool) (l : Line) : Type 0 where
  pub timed : Timed l
  pub taken : l.current + l.num ≡ least quota l.token
  pub full : done ≡ true → quota ≤ l.token

-- The line without one: all were taken until the session is done.
pub record Open (done : Bool) (l : Line) : Type 0 where
  pub timed : Timed l
  pub taken : done ≡ false → l.current + l.num ≡ l.token

pub quota_arrives-Filled :
    (quota : ℕ) (done : Bool) (l : Line) (x : Event)
    → pos 0 <ℤ x.duration
    → Filled quota done l
    → let r = quota_arrives quota done l x in
      Filled quota done r × (r.token ≡ l.token + 1) × (r.num ≤ l.num + 1)
unfolding quota_arrives
quota_arrives-Filled quota true l x h f = (
  record {
    timed = f.timed;
    taken = ground (arith, f.taken, f.full refl);
    full = λ e. omega (arith, f.full refl);
  },
  refl,
  omega arith,
)
quota_arrives-Filled quota false l x h f = elim (Bool-cases (ltb quota (l.token + 1))) [
  | inl over ↦ rw over (
    record { timed = f.timed; taken = ground (arith, f.taken); full = λ e. absurd (ground arith) },
    refl,
    omega arith,
  )
  | inr within ↦ rw within (
    record {
      timed = λ i lo up. ground (arith, f.timed i, f.taken);
      taken = ground (arith, f.taken);
      full = λ e. absurd (ground arith);
    },
    refl,
    omega arith,
  )
]

-- A reporter finds room while fewer than 250 have come.
abbrev pub ReporterTaken : Bool → Line → Option Line → Type 0
ReporterTaken done l r =
    (t : Line) × (r ≡ some t) × Open done t × (t.token ≡ l.token + 1) × (t.num ≤ l.num + 1)

pub reporter_arrives-Open :
    (done : Bool) (l : Line) (x : Event)
    → pos 0 <ℤ x.duration
    → l.token + 1 ≤ max_reporters
    → Open done l
    → ReporterTaken done l (reporter_arrives done l x)
unfolding reporter_arrives
reporter_arrives-Open true l x h room o = (
  leaves l,
  refl,
  record { timed = o.timed; taken = λ e. absurd (ground arith) },
  refl,
  omega arith,
)
reporter_arrives-Open false l x h room o =
    let within : ltb max_reporters (l.token + 1) ≡ false = ground arith in
    (
      joins l x,
      rw within refl,
      record {
        timed = λ i lo up. ground (arith, o.timed i, o.taken refl);
        taken = λ e. omega (arith, o.taken refl);
      },
      refl,
      omega arith,
    )

-- The three lines, at a time that is not negative.
pub record Lines (h : Hall) : Type 0 where
  pub reporters : Open h.session_done h.reporters
  pub patients : Filled max_patients h.session_done h.patients
  pub sales_reps : Filled max_sales_reps h.session_done h.sales_reps

-- Who waits in all.
abbrev pub waiting_in : Hall → ℕ
waiting_in h = h.reporters.num + h.patients.num + h.sales_reps.num

advance-Timed : (l : Line) → 0 < l.num → Timed l → Timed (advance l)
advance-Timed l h t = λ i lo up. t i (omega arith) (omega arith)

advance-Filled :
    (quota : ℕ) (done : Bool) (l : Line)
    → 0 < l.num
    → Filled quota done l
    → Filled quota done (advance l)
advance-Filled quota done l h f = record {
  timed = advance-Timed l h f.timed;
  taken = omega (arith, f.taken);
  full = f.full;
}

advance-Open : (done : Bool) (l : Line) → 0 < l.num → Open done l → Open done (advance l)
advance-Open done l h o = record {
  timed = advance-Timed l h o.timed;
  taken = λ e. omega (arith, o.taken e);
}

later : (a b : ℤ) → pos 0 ≤ℤ a → pos 0 <ℤ b → pos 0 <ℤ (a +ℤ b)
unfolding ◌+ℤ◌
later a b h l = ground arith

-- One visitor less waits and is done after now; or nobody waits.
abbrev pub LetIn : Hall → Hall × ℤ → Type 0
LetIn h r =
    Lines r.0
    × (r.0.queue ≡ h.queue)
    × (r.0.reporters.token ≡ h.reporters.token)
    × (r.0.patients.token ≡ h.patients.token)
    × (r.0.sales_reps.token ≡ h.sales_reps.token)
    × (((waiting_in h ≡ waiting_in r.0 + 1) × (pos 0 <ℤ r.1))
        ⊎ ((waiting_in h ≡ 0) × (r.0 ≡ h) × (r.1 ≡ pos 0)))

until-later : (now : ℤ) (l : Line) → pos 0 ≤ℤ now → Timed l → 0 < l.num → pos 0 <ℤ until now l
until-later now l h t n =
    later now (l.waiting (l.current + 1)).duration h (t (l.current + 1) (omega arith) (omega arith))

pub let_in-LetIn : (h : Hall) → pos 0 ≤ℤ h.current_time → Lines h → LetIn h (let_in h)
unfolding let_in
let_in-LetIn h now k = elim (Bool-cases (ltb 0 h.reporters.num)) [
  | inl r ↦
      let n : 0 < h.reporters.num = ground arith in
      rw r (
        record {
          reporters = advance-Open h.session_done h.reporters n k.reporters;
          patients = k.patients;
          sales_reps = k.sales_reps;
        },
        refl,
        refl,
        refl,
        refl,
        inl (omega arith, until-later h.current_time h.reporters now k.reporters.timed n),
      )
  | inr no_r ↦ elim (Bool-cases (ltb 0 h.patients.num)) [
    | inl p ↦
        let n : 0 < h.patients.num = ground arith in
        rw (no_r, p)
          (
            record {
              reporters = k.reporters;
              patients = advance-Filled max_patients h.session_done h.patients n k.patients;
              sales_reps = k.sales_reps;
            },
            refl,
            refl,
            refl,
            refl,
            inl (omega arith, until-later h.current_time h.patients now k.patients.timed n),
          )
    | inr no_p ↦ elim (Bool-cases (ltb 0 h.sales_reps.num)) [
      | inl s ↦
          let n : 0 < h.sales_reps.num = ground arith in
          rw (no_r, no_p, s)
            (
              record {
                reporters = k.reporters;
                patients = k.patients;
                sales_reps =
                    advance-Filled max_sales_reps h.session_done h.sales_reps n k.sales_reps;
              },
              refl,
              refl,
              refl,
              refl,
              inl (omega arith, until-later h.current_time h.sales_reps now k.sales_reps.timed n),
            )
      | inr no_s ↦ rw (no_r, no_p, no_s) (k, refl, refl, refl, refl, inr (ground arith, refl, refl))
    ]
  ]
]

-- The session is done only with the quotas used up.
pub check_done-Lines : (h : Hall) → Lines h → Lines (check_done h)
unfolding check_done
check_done-Lines h k = record {
  reporters = record { timed = k.reporters.timed; taken = λ e. ground (arith, k.reporters.taken) };
  patients = record {
    timed = k.patients.timed;
    taken = k.patients.taken;
    full = λ e. ground (arith, k.patients.taken, k.patients.full);
  };
  sales_reps = record {
    timed = k.sales_reps.timed;
    taken = k.sales_reps.taken;
    full = λ e. ground (arith, k.sales_reps.taken, k.sales_reps.full);
  };
}

-- One visitor is let in, if any waits, and nobody is lost: a patient only when no reporter waits, and a
-- sales representative only when neither a reporter nor a patient does.
pub let_in_lem :
    (h : Hall)
    → let t = (let_in h).0 in
      ((t.patients.current ≡ h.patients.current) ⊎ (h.reporters.num ≡ 0))
      × ((t.sales_reps.current ≡ h.sales_reps.current)
          ⊎ ((h.reporters.num ≡ 0) × (h.patients.num ≡ 0)))
      × (waiting_in h ≡ waiting_in t + least 1 (waiting_in h))
      × (t.reporters.current + t.reporters.num ≡ h.reporters.current + h.reporters.num)
      × (t.patients.current + t.patients.num ≡ h.patients.current + h.patients.num)
      × (t.sales_reps.current + t.sales_reps.num ≡ h.sales_reps.current + h.sales_reps.num)
unfolding let_in
let_in_lem h = ground arith
