-- ===== src/Gate/Tests.antt =====
-- Semaphores that count, three requests at a gate of one permit, and the theorems at them.
use teecryptor.Prelude.{
  ℕ, zero, suc, ◌+◌, ◌*◌, ◌⊎◌, ◌≤◌, ◌<◌, ◌≡◌, refl, Option, none, some, [], ◌∷◌, length, arith,
}
use teecryptor.Gate.{
  Semaphore, Server, has, start_server, admit, park, grant, finish, remove, Work, Works, idle,
  and_then, finished, Steps, worked, arrived, parked, granted, none_yet, then_one,
}
use teecryptor.Gate.Laws.{Steps-start_server, turns, Works-drained}

abbrev take_permit : ℕ → Option ℕ
take_permit zero = none
take_permit (suc n) = some n

take_permit-none : (s : ℕ) → s ≡ 0 → take_permit s ≡ none
take_permit-none zero e = refl
take_permit-none (suc s) e = absurd (omega arith)

take_permit-some : (s : ℕ) → 0 < s → (s' : ℕ) × (take_permit s ≡ some s') × (s ≡ s' + 1)
take_permit-some zero h = absurd (omega arith)
take_permit-some (suc s) h = (s, refl, omega arith)

abbrev counting : Semaphore ℕ
counting = record {
  new = λ n. n;
  permits = λ s. s;
  try_acquire = take_permit;
  release = λ s. s + 1;
  permits-new = λ n. refl;
  try_acquire-none = take_permit-none;
  try_acquire-some = take_permit-some;
  permits-release = λ s. refl;
}

-- The request 7 runs, and 8 and 9 wait for it.
abbrev busy : Server ℕ
busy = record {
  admit_sem = 1;
  decrypt_sem = 0;
  inflight = 9 ∷ 8 ∷ 7 ∷ [];
  waiting = 8 ∷ 9 ∷ [];
  running = 7 ∷ [];
}

busy-Steps : Steps counting (start_server counting 1 4) busy
unfolding start_server admit park grant has
busy-Steps =
    then_one
      (then_one
        (then_one
          (then_one
            (then_one (then_one (then_one none_yet (arrived 7 refl)) (parked 7 refl refl))
              (worked (granted 7 [] refl refl)))
            (arrived 8 refl))
          (parked 8 refl refl))
        (arrived 9 refl))
      (parked 9 refl refl)

Steps-start_server_example :
    (length busy.inflight ≤ 4)
    × (length busy.running ≤ 1)
    × (counting.permits busy.admit_sem + length busy.inflight ≡ 4)
    × (counting.permits busy.decrypt_sem + length busy.running ≡ 1)
Steps-start_server_example = Steps-start_server counting 4 1 busy busy-Steps

-- 7 ends, and then 8 starts.
abbrev handed_over : Server ℕ
handed_over = record {
  admit_sem = 1;
  decrypt_sem = 0;
  inflight = 9 ∷ 8 ∷ 7 ∷ [];
  waiting = 9 ∷ [];
  running = 8 ∷ [];
}

abbrev two_turns : Works counting busy handed_over
unfolding finish grant has remove
two_turns = and_then (and_then idle (finished 7 refl refl)) (granted 8 (9 ∷ []) refl refl)

Works-drained_example :
    (turns counting two_turns + (2 * length handed_over.waiting + length handed_over.running)
      ≡ 2 * length busy.waiting + length busy.running)
    × (((handed_over.waiting ≡ []) × (handed_over.running ≡ []))
        ⊎ ((after : Server ℕ) × Work counting handed_over after))
Works-drained_example =
    Works-drained counting 4 1 busy handed_over two_turns (omega arith) (refl, refl)
