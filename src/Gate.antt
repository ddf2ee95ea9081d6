-- ===== src/Gate.antt =====
-- src/cpu.rs and the admission of src/http.rs: requests that run side by side, and the two semaphores
-- that bound them.
pub mod Laws
mod Tests
use teecryptor.Prelude.{
  ℕ, ◌+◌, ◌<◌, ◌≡◌, Bool, true, false, Option, none, some, List, [], ◌∷◌, ◌++◌, ◌||◌, ◌==◌,
  if◌then◌else◌,
}

-- `tokio::sync::Semaphore`, as far as its permits go.
pub record Semaphore (Sem : Type 0) : Type 0 where
  pub new : ℕ → Sem
  pub permits : Sem → ℕ
  pub try_acquire : Sem → Option Sem
  pub release : Sem → Sem
  pub permits-new : (n : ℕ) → permits (new n) ≡ n
  pub try_acquire-none : (s : Sem) → permits s ≡ 0 → try_acquire s ≡ none
  pub try_acquire-some :
      (s : Sem)
      → 0 < permits s
      → (s' : Sem) × (try_acquire s ≡ some s') × (permits s ≡ permits s' + 1)
  pub permits-release : (s : Sem) → permits (release s) ≡ permits s + 1

-- The requests in flight, those that wait for the gate in the order of their calls, and those whose
-- closure runs on the blocking pool.
pub record Server (Sem : Type 0) : Type 0 where
  pub admit_sem : Sem
  pub decrypt_sem : Sem
  pub inflight : List ℕ
  pub waiting : List ℕ
  pub running : List ℕ

unfoldable pub has : ℕ → List ℕ → Bool
has id [] = false
has id (x ∷ xs) = x == id || has id xs

-- The first occurrence goes.
unfoldable pub remove : ℕ → List ℕ → List ℕ
remove id [] = []
remove id (x ∷ xs) = if x == id then xs else x ∷ remove id xs

module _ {Sem : Type 0} (sem : Semaphore Sem) where
  unfoldable pub start_server : (decrypt admit : ℕ) → Server Sem
  start_server decrypt admit = record {
    admit_sem = sem.new admit;
    decrypt_sem = sem.new decrypt;
    inflight = [];
    waiting = [];
    running = [];
  }

  -- `try_acquire_owned` at the entry: `none` sheds the request.
  unfoldable pub admit : (id : ℕ) → Server Sem → Option (Server Sem)
  admit id st = elim (sem.try_acquire st.admit_sem) [
    | none ↦ none
    | some s ↦ some (record st { admit_sem = s; inflight = id ∷ st.inflight })
  ]

  -- `acquire_owned` in `run_gated`: the caller is parked behind the others.
  unfoldable pub park : (id : ℕ) → Server Sem → Server Sem
  park id st = record st { waiting = st.waiting ++ (id ∷ []) }

  -- The first waiter gets a permit, and its closure is spawned.
  unfoldable pub grant : (id : ℕ) (rest : List ℕ) → Server Sem → Option (Server Sem)
  grant id rest st = elim (sem.try_acquire st.decrypt_sem) [
    | none ↦ none
    | some s ↦ some (record st { decrypt_sem = s; waiting = rest; running = id ∷ st.running })
  ]

  -- The closure returns or panics, and drops the permit that it holds.
  unfoldable pub finish : (id : ℕ) → Server Sem → Server Sem
  finish id st = record st {
    decrypt_sem = sem.release st.decrypt_sem;
    running = remove id st.running;
  }

  -- The handler ends, with its response or because the client is gone: its future is dropped, and
  -- with it the admission permit and the place among the waiters; a closure that runs goes on.
  unfoldable pub leave : (id : ℕ) → Server Sem → Server Sem
  leave id st = record st {
    admit_sem = sem.release st.admit_sem;
    inflight = remove id st.inflight;
    waiting = remove id st.waiting;
  }

  -- What the gate does by itself.
  pub data Work (st : Server Sem) (next : Server Sem) : Type 0 where
    granted :
        (id : ℕ) (rest : List ℕ)
        → st.waiting ≡ id ∷ rest
        → grant id rest st ≡ some next
        → Work st next
    finished : (id : ℕ) → has id st.running ≡ true → next ≡ finish id st → Work st next

  pub data Works (st : Server Sem) : Server Sem → Type 0 where
    idle : Works st st
    and_then : {mid next : Server Sem} → Works st mid → Work mid next → Works st next

  -- What may happen next, in any interleaving of the requests.
  pub data Step (st : Server Sem) (next : Server Sem) : Type 0 where
    arrived : (id : ℕ) → admit id st ≡ some next → Step st next
    shed : (id : ℕ) → admit id st ≡ none → next ≡ st → Step st next
    parked : (id : ℕ) → has id st.inflight ≡ true → next ≡ park id st → Step st next
    worked : Work st next → Step st next
    left : (id : ℕ) → has id st.inflight ≡ true → next ≡ leave id st → Step st next

  pub data Steps (st : Server Sem) : Server Sem → Type 0 where
    none_yet : Steps st st
    then_one : {mid next : Server Sem} → Steps st mid → Step mid next → Steps st next
