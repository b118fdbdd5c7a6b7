-- ===== src/Tool/Schedule.antt =====
-- internal/tool/tool.go, Invoke under concurrent investigators: the budget is read and then
-- counted, in two atomic steps, and between them another thread may run.
use multi_agent_system_turbo.Base.{ℕ, zero, suc, ◌+◌, ◌-◌, ◌≤◌, ◌<◌, ◌≡◌, subst, arith}

-- What the threads share: the calls counted, and how many threads have passed the test of the
-- budget and not counted their call yet.
pub record Board : Type 0 where
  pub calls : ℕ
  pub passed : ℕ

abbrev pub new_board : Board
new_board = record { calls = 0; passed = 0 }

-- With `threads` threads and a budget of `max` calls: a thread that is not between the two steps
-- reads a count below the budget, or a thread between them counts its call.
pub data Step (threads max : ℕ) : Board → Board → Type 0 where
  pass :
      (b : Board)
      → b.passed < threads
      → b.calls < max
      → Step threads max b (record b { passed = b.passed + 1 })
  count :
      (b : Board)
      → 0 < b.passed
      → Step threads max b (record b { calls = b.calls + 1; passed = b.passed - 1 })

pub data Reach (threads max : ℕ) : Board → Type 0 where
  start : Reach threads max new_board
  next : {b c : Board} → Reach threads max b → Step threads max b c → Reach threads max c

record IsClose (threads max : ℕ) (b : Board) : Type 0 where
  few : b.passed ≤ threads
  close : b.calls + b.passed + 1 ≤ max + threads

Step-IsClose :
    {threads max : ℕ} {b c : Board}
    → Step threads max b c
    → IsClose threads max b
    → IsClose threads max c
Step-IsClose (pass b free below) v = omega arith
Step-IsClose (count b some_passed) v = omega arith

Reach-IsClose :
    {threads max : ℕ} {b : Board}
    → 0 < threads
    → 0 < max
    → Reach threads max b
    → IsClose threads max b
Reach-IsClose p q start = omega arith
Reach-IsClose p q (next r s) = Step-IsClose s (Reach-IsClose p q r)

board : ℕ → ℕ → Board
board calls passed = record { calls = calls; passed = passed }

-- Each call counted before the next is tested, up to the last one that the budget allows.
one_by_one : (threads max n : ℕ) → 0 < threads → n < max → Reach threads max (board n 0)
unfolding board
one_by_one threads max zero p h = start
one_by_one threads max (suc n) p h =
    let before = one_by_one threads max n p (omega arith) in
    let passes : Reach threads max (board n 1) = next before (pass (board n 0) p (omega arith)) in
    let counts : Reach threads max (board (n + 1) 0) =
      next passes (count (board n 1) (omega arith)) in
    subst (λ k. Reach threads max (board k 0)) (omega arith) counts

-- Then threads pass the test, one after the other, and none counts.
all_pass :
    (threads max n k : ℕ) → 0 < threads → n < max → k ≤ threads → Reach threads max (board n k)
unfolding board
all_pass threads max n zero p h le = one_by_one threads max n p h
all_pass threads max n (suc k) p h le =
    let before = all_pass threads max n k p h (omega arith) in
    let passes : Reach threads max (board n (k + 1)) = next before (pass (board n k) le h) in
    subst (λ j. Reach threads max (board n j)) (omega arith) passes

all_count :
    (threads max n k : ℕ) → Reach threads max (board n k) → Reach threads max (board (n + k) 0)
unfolding board
all_count threads max n zero r = subst (λ m. Reach threads max (board m 0)) (omega arith) r
all_count threads max n (suc k) r =
    let one : Reach threads max (board (n + 1) (suc k - 1)) =
      next r (count (board n (suc k)) (omega arith)) in
    subst (λ m. Reach threads max (board m 0)) (omega arith)
      (all_count threads max (n + 1) k
        (subst (λ j. Reach threads max (board (n + 1) j)) (omega arith) one))

-- Under concurrent threads the calls counted exceed the budget by at most one less than there are
-- threads, in every schedule; and some schedule exceeds it by exactly that.
pub Reach-overshoot :
    (threads max : ℕ) (b : Board)
    → 0 < threads
    → 0 < max
    → Reach threads max b
    → (b.calls + 1 ≤ max + threads)
      × ((c : Board) × Reach threads max c × (c.calls + 1 ≡ max + threads))
unfolding board
Reach-overshoot threads max b p q r = (
  (let v = Reach-IsClose p q r in omega (arith, v.close)),
  (
    board (max - 1 + threads) 0,
    all_count threads max (max - 1) threads
        (all_pass threads max (max - 1) threads p (omega arith) (omega arith)),
    omega arith,
  ),
)
