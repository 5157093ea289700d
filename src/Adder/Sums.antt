-- ===== src/Adder/Sums.antt =====
-- What the threads have added to the counter so far.
use cs111winter.Base.{
  ℕ, ◌+◌, ◌-◌, ◌*◌, ◌≤◌, ◌<◌, ◌≡◌, ◌≢◌, ap, ◌∙◌, arith, sum_to, sum_to-moves, sum_to-at,
  sum_to-bound,
}
use cs111winter.Adder.{Thread, Place, between, locked, stored, loaded, compared, next_round, put}

-- A thread behind its store has added the value of a round that is not over.
unfoldable pub share_at : Place → Thread → ℕ
share_at between t = t.downs - t.ups
share_at locked t = t.downs - t.ups
share_at (loaded sum) t = t.downs - t.ups
share_at (compared orig) t = t.downs - t.ups
share_at stored t = (next_round t).downs - (next_round t).ups

abbrev pub share : Thread → ℕ
share t = share_at t.place t

pub share_at-bound :
    (iterations : ℕ) (p : Place) (t : Thread)
    → (t.ups ≤ t.downs) × (t.downs ≤ iterations)
    → share_at p t ≤ iterations
unfolding share_at
share_at-bound iterations between t h = omega arith
share_at-bound iterations locked t h = omega arith
share_at-bound iterations (loaded sum) t h = omega arith
share_at-bound iterations stored t h = ground arith
share_at-bound iterations (compared orig) t h = omega arith

abbrev pub total : ℕ → (ℕ → Thread) → ℕ
total n threads = sum_to n (λ i. share (threads i))

put-same : (i j : ℕ) (t : Thread) (threads : ℕ → Thread) → j ≢ i → put i t threads j ≡ threads j
put-same i j t threads other = ground arith

put-there : (i : ℕ) (t : Thread) (threads : ℕ → Thread) → put i t threads i ≡ t
put-there i t threads = ground arith

pub total-put :
    (n i : ℕ) (t : Thread) (threads : ℕ → Thread)
    → i < n
    → total n (put i t threads) + share (threads i) ≡ total n threads + share t
total-put n i t threads less =
    sum_to-moves n i (λ j. share (threads j)) (λ j. share (put i t threads j)) less
      (λ j other. ap share (put-same i j t threads other))
    ∙ ap (λ u. total n threads + share u) (put-there i t threads)

pub share-total : (n i : ℕ) (threads : ℕ → Thread) → i < n → share (threads i) ≤ total n threads
share-total n i threads less = sum_to-at n i (λ j. share (threads j)) less

pub total-bound :
    (n iterations : ℕ) (threads : ℕ → Thread)
    → ((i : ℕ) → i < n → share (threads i) ≤ iterations)
    → total n threads ≤ n * iterations
total-bound n iterations threads h = sum_to-bound n iterations (λ j. share (threads j)) h
