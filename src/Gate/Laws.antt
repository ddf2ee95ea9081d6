-- ===== src/Gate/Laws.antt =====
-- The permits of the two semaphores in every interleaving, and the progress of the gate.
use mathlib.Core.Path.{subst}
use teecryptor.Prelude.{
  ℕ, ◌+◌, ◌*◌, ◌⊎◌, ◌≤◌, ◌<◌, ◌≡◌, refl, sym, ap, ◌∙◌, inl, inr, true, Option, some, List, [], ◌∷◌,
  length, arith, ==_self, Bool-cases, Option-cases, ltb,
}
use teecryptor.Gate.{
  Semaphore, Server, has, remove, start_server, admit, park, grant, finish, leave, Work, Works,
  Step, Steps, worked, idle, and_then, arrived, shed, parked, granted, finished, left, none_yet,
  then_one,
}

length-remove : (id : ℕ) (xs : List ℕ) → has id xs ≡ true → length xs ≡ length (remove id xs) + 1
unfolding has remove
length-remove id [] h = cc
length-remove id (x ∷ xs) h = ground (arith, length-remove id xs)

has_self : (id : ℕ) (xs : List ℕ) → has id (id ∷ xs) ≡ true
unfolding has
has_self id xs = rw (==_self id) refl

list-cases : (xs : List ℕ) → (xs ≡ []) ⊎ ((x : ℕ) × (rest : List ℕ) × (xs ≡ x ∷ rest))
list-cases [] = inl refl
list-cases (x ∷ xs) = inr (x, xs, refl)

some_inj : {A : Type 0} (a b : A) → ◌≡◌ {A = Option A} (some a) (some b) → a ≡ b
some_inj a b e = cc

module _ {Sem : Type 0} (sem : Semaphore Sem) where
  admit-some :
      (id : ℕ) (st next : Server Sem)
      → admit sem id st ≡ some next
      → (s : Sem) × (sem.try_acquire st.admit_sem ≡ some s)
        × (record st { admit_sem = s; inflight = id ∷ st.inflight } ≡ next)
  unfolding admit
  admit-some id st next e = elim (Option-cases (sem.try_acquire st.admit_sem)) [
    | inl full ↦ let bad = rw (full, admit) at e in cc
    | inr taken ↦ (taken.0, taken.1, some_inj _ next (rw (taken.1, admit) at e))
  ]

  grant-some :
      (id : ℕ) (rest : List ℕ) (st next : Server Sem)
      → grant sem id rest st ≡ some next
      → (s : Sem) × (sem.try_acquire st.decrypt_sem ≡ some s)
        × (record st { decrypt_sem = s; waiting = rest; running = id ∷ st.running } ≡ next)
  unfolding grant
  grant-some id rest st next e = elim (Option-cases (sem.try_acquire st.decrypt_sem)) [
    | inl full ↦ let bad = rw (full, grant) at e in cc
    | inr taken ↦ (taken.0, taken.1, some_inj _ next (rw (taken.1, grant) at e))
  ]

module _ {Sem : Type 0} (sem : Semaphore Sem) where
  -- How many turns the gate has taken.
  abbrev pub turns : {st next : Server Sem} → Works sem st next → ℕ
  turns idle = 0
  turns (and_then works work) = turns works + 1

-- The turns that are left: two for a request that waits, and one for a closure that runs.
abbrev load : {Sem : Type 0} → Server Sem → ℕ
load st = 2 * length st.waiting + length st.running

module _ {Sem : Type 0} (sem : Semaphore Sem) (cap n : ℕ) where
  -- Every permit is free or held by exactly one request.
  abbrev pub IsBounded : Server Sem → Type 0
  IsBounded st =
      (sem.permits st.admit_sem + length st.inflight ≡ cap)
      × (sem.permits st.decrypt_sem + length st.running ≡ n)

  start_server-IsBounded : IsBounded (start_server sem n cap)
  unfolding start_server
  start_server-IsBounded = (omega (arith, sem.permits-new cap), omega (arith, sem.permits-new n))

  take_one : (s s' : Sem) → sem.try_acquire s ≡ some s' → sem.permits s ≡ sem.permits s' + 1
  take_one s s' e = elim (Bool-cases (ltb 0 (sem.permits s))) [
    | inl some_left ↦
        let (t, got, less) = sem.try_acquire-some s (ground arith) in
        let same : t ≡ s' = cc in less ∙ ap (λ x. sem.permits x + 1) same
    | inr empty ↦ let no = sem.try_acquire-none s (ground arith) in cc
  ]

  Step-IsBounded : {st next : Server Sem} → Step sem st next → IsBounded st → IsBounded next
  unfolding admit park grant finish leave
  Step-IsBounded {st} {next} (arrived id e) h =
      let (s, got, same) = admit-some sem id st next e in
      subst IsBounded same (omega (arith, take_one st.admit_sem s got, h.0), h.1)
  Step-IsBounded {st} (shed id e same) h = subst IsBounded (sym same) h
  Step-IsBounded {st} (parked id there same) h = subst IsBounded (sym same) h
  Step-IsBounded {st} {next} (worked (granted id rest e got)) h =
      let (s, taken, same) = grant-some sem id rest st next got in
      subst IsBounded same (h.0, omega (arith, take_one st.decrypt_sem s taken, h.1))
  Step-IsBounded {st} (worked (finished id there same)) h = subst IsBounded (sym same) (
    h.0,
    omega (arith, sem.permits-release st.decrypt_sem, length-remove id st.running there, h.1),
  )
  Step-IsBounded {st} (left id there same) h = subst IsBounded (sym same) (
    omega (arith, sem.permits-release st.admit_sem, length-remove id st.inflight there, h.0),
    h.1,
  )

  Steps-IsBounded : {st next : Server Sem} → Steps sem st next → IsBounded st → IsBounded next
  Steps-IsBounded none_yet h = h
  Steps-IsBounded (then_one steps step) h = Step-IsBounded step (Steps-IsBounded steps h)

  -- However the requests of a process interleave, and whichever clients go away in the meantime, no
  -- more than the admission cap are in flight, no more closures than the gate has permits run, and
  -- no permit is lost: each is free or held by one of them.
  pub Steps-start_server :
      (st : Server Sem)
      → Steps sem (start_server sem n cap) st
      → (length st.inflight ≤ cap)
        × (length st.running ≤ n)
        × (sem.permits st.admit_sem + length st.inflight ≡ cap)
        × (sem.permits st.decrypt_sem + length st.running ≡ n)
  Steps-start_server st steps =
      let (admitted, decrypting) = Steps-IsBounded steps start_server-IsBounded in
      (omega arith, omega arith, admitted, decrypting)

  Works-IsBounded : {st next : Server Sem} → Works sem st next → IsBounded st → IsBounded next
  Works-IsBounded idle h = h
  Works-IsBounded (and_then works work) h = Step-IsBounded (worked work) (Works-IsBounded works h)

  -- With a permit left the first waiter starts.
  grant_now :
      (id : ℕ) (rest : List ℕ) (st : Server Sem)
      → st.waiting ≡ id ∷ rest
      → 0 < sem.permits st.decrypt_sem
      → (next : Server Sem) × Work sem st next
        × (next.waiting ≡ rest)
        × (next.running ≡ id ∷ st.running)
  unfolding grant
  grant_now id rest st waits free =
      let (s, got, less) = sem.try_acquire-some st.decrypt_sem free in
      (
        record st { decrypt_sem = s; waiting = rest; running = id ∷ st.running },
        granted id rest waits (rw (got, grant) refl),
        refl,
        refl,
      )

  Work-load : {st next : Server Sem} → Work sem st next → load st ≡ load next + 1
  unfolding finish
  Work-load {st} {next} (granted id rest waits got) =
      let (s, taken, same) = grant-some sem id rest st next got in
      let shorter : length st.waiting ≡ length rest + 1 = ap length waits ∙ omega arith in
      subst (λ n. load st ≡ load n + 1) same (omega (arith, shorter))
  Work-load {st} (finished id there same) =
      subst (λ n. load st ≡ load n + 1) (sym same)
        (omega (arith, length-remove id st.running there))

  Works-load :
      {st next : Server Sem} (works : Works sem st next) → load st ≡ load next + turns sem works
  Works-load idle = omega arith
  Works-load (and_then works work) = omega (arith, Works-load works, Work-load work)

  -- While anybody waits or runs, the gate can go on.
  go_on :
      (st : Server Sem)
      → 0 < n
      → IsBounded st
      → ((st.waiting ≡ []) × (st.running ≡ [])) ⊎ ((next : Server Sem) × Work sem st next)
  go_on st some_permit h = elim (list-cases st.running) [
    | inr ran ↦
        let there : has ran.0 st.running ≡ true = ap (has ran.0) ran.2 ∙ has_self ran.0 ran.1 in
        inr (finish sem ran.0 st, finished ran.0 there refl)
    | inl still ↦ elim (list-cases st.waiting) [
      | inl nobody ↦ inl (nobody, still)
      | inr waits ↦
          let none_runs : length st.running ≡ 0 = ap length still in
          let (next, work, rest, runs) =
            grant_now waits.0 waits.1 st waits.2 (omega (arith, h.1, none_runs)) in
          inr (next, work)
    ]
  ]

  -- The gate gets everybody through, in whichever order the closures end. Let the permits add up and
  -- the gate have one at all, and count two turns for a request that waits and one for a closure that
  -- runs. Whatever turns the gate has taken by itself, they and those that are then left are as many
  -- as there were to take; and either nobody waits or runs any more, or the gate can take another
  -- turn. So it neither gets stuck before everybody has run and ended, nor goes on for ever.
  pub Works-drained :
      (st next : Server Sem) (works : Works sem st next)
      → 0 < n
      → IsBounded st
      → (turns sem works + (2 * length next.waiting + length next.running)
          ≡ 2 * length st.waiting + length st.running)
        × (((next.waiting ≡ []) × (next.running ≡ []))
            ⊎ ((after : Server Sem) × Work sem next after))
  Works-drained st next works some_permit h =
      (omega (arith, Works-load works), go_on next some_permit (Works-IsBounded works h))
