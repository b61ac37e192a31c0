-- ===== src/Server/Tracker/Races/Limits.antt =====
-- What holds in every state that interleaved goroutines can reach.
use go_pkicmp_ng.Prelude.{◌+◌, ◌≡◌, refl, [], ◌∷◌, ◌++◌, Bytes, length, arith}
use go_pkicmp_ng.Prelude.Int.{ℤ, pos, ◌≤ℤ◌}
use go_pkicmp_ng.Prelude.Assoc.{lookup, count_where}
use go_pkicmp_ng.Server.Entry.{TransactionTracker, new_transaction_tracker}
use go_pkicmp_ng.Server.Tracker.{cred_count, compare_and_swap}
use go_pkicmp_ng.Server.Tracker.Invariant.{owned}
use go_pkicmp_ng.Server.Tracker.Races.{
  Phase, counted, run, reserve, load_and_delete, System, Next, begin, move, evict, swap, sum, holds,
}
use go_pkicmp_ng.Server.Tracker.Races.Safety.{
  IsSafe, over_threads, beside, around, IsWithin-threads, IsWithin-around, IsSafe-eq, sum-split,
  sum-append, reserve-IsSafe, run-IsSafe, load_and_delete-IsSafe, compare_and_swap-IsSafe,
}

pub Next-IsSafe :
    {s u : System}
    → Next s u
    → IsSafe s.tracker (over_threads s.threads)
    → IsSafe u.tracker (over_threads u.threads)
Next-IsSafe {s} (begin key ck now) v =
    IsSafe-eq (reserve key ck now s.tracker).0
      (beside ((reserve key ck now s.tracker).1 ∷ []) (over_threads s.threads))
      (over_threads ((reserve key ck now s.tracker).1 ∷ s.threads)) (λ f. unfold sum in omega arith)
      (reserve-IsSafe (over_threads s.threads) (IsWithin-threads s.threads) s.tracker key ck now v)
Next-IsSafe {s} (move before after p e) v =
    IsSafe-eq (run p s.tracker).0 (beside (run p s.tracker).1 (around before after))
      (over_threads (before ++ ((run p s.tracker).1 ++ after)))
      (λ f. omega (
        arith,
        sum-append f before ((run p s.tracker).1 ++ after),
        sum-append f (run p s.tracker).1 after,
      ))
      (run-IsSafe (around before after) (IsWithin-around before after) s.tracker p (
        IsSafe-eq s.tracker (over_threads s.threads) (beside (p ∷ []) (around before after))
          (λ f. rw e (unfold sum in omega (arith, sum-split f before p after))) v))
Next-IsSafe {s} (evict key) v =
    IsSafe-eq (load_and_delete key s.tracker).0
      (beside (load_and_delete key s.tracker).1 (over_threads s.threads))
      (over_threads ((load_and_delete key s.tracker).1 ++ s.threads))
      (λ f. omega (arith, sum-append f (load_and_delete key s.tracker).1 s.threads))
      (load_and_delete-IsSafe key s.tracker (over_threads s.threads) v)
Next-IsSafe {s} (swap key old e own h) v =
    compare_and_swap-IsSafe key old e s.tracker (over_threads s.threads) own h v

pub data Reach (s : System) : System → Type 0 where
  here : Reach s s
  next : {u v : System} → Reach s u → Next u v → Reach s v

-- No step touches the limits.
abbrev HasLimits : ℤ → ℤ → TransactionTracker → Type 0
HasLimits m p t = (t.max_transactions ≡ m) × (t.max_transactions_per_credential ≡ p)

HasLimits-run :
    (p : Phase) {m n : ℤ} (t : TransactionTracker) → HasLimits m n t → HasLimits m n (run p t).0
unfolding run
HasLimits-run (counted key ck now) t h = h
HasLimits-run _ t h = ground arith

HasLimits-Next :
    {m n : ℤ} {s u : System} → Next s u → HasLimits m n s.tracker → HasLimits m n u.tracker
unfolding reserve load_and_delete compare_and_swap
HasLimits-Next {s = s} (begin key ck now) h = h
HasLimits-Next {s = s} (move before after p e) h = HasLimits-run p s.tracker h
HasLimits-Next {s = s} (evict key) h = ground arith
HasLimits-Next {s = s} (swap key old e own found) h = ground arith

Reach-IsSafe :
    {m n : ℤ} {s u : System}
    → Reach s u
    → IsSafe s.tracker (over_threads s.threads) × HasLimits m n s.tracker
    → IsSafe u.tracker (over_threads u.threads) × HasLimits m n u.tracker
Reach-IsSafe here h = h
Reach-IsSafe (next r step) h =
    let (safe, limits) = Reach-IsSafe r h in (Next-IsSafe step safe, HasLimits-Next step limits)

IsSafe-new :
    (m n : ℤ) → pos 0 ≤ℤ m → pos 0 ≤ℤ n → IsSafe (new_transaction_tracker m n) (over_threads [])
unfolding new_transaction_tracker sum cred_count owned lookup count_where
IsSafe-new m n hm hn = record {
  counted = refl;
  total = hm;
  per_credential = λ ck. refl;
  each = λ ck. hn;
}

-- From a new tracker with limits that are not negative, however the starts, transitions and evictions
-- of goroutines interleave, where a transition keeps the credential of its entry: the table never holds more entries than the limit, nor a credential more
-- than its own, and the counter is the number of entries and of places still held in between.
pub interleaved_limits :
    (m n : ℤ) (u : System)
    → pos 0 ≤ℤ m
    → pos 0 ≤ℤ n
    → Reach (record { tracker = new_transaction_tracker m n; threads = [] }) u
    → (u.tracker.count ≡ pos (length u.tracker.transactions + sum holds u.threads))
      × (pos (length u.tracker.transactions) ≤ℤ m)
      × ((ck : Bytes) → pos (owned ck u.tracker.transactions) ≤ℤ n)
interleaved_limits m n u hm hn r =
    let (s, l) =
      Reach-IsSafe {m = m} {n = n} r
        (IsSafe-new m n hm hn, (unfold new_transaction_tracker in (refl, refl))) in
    (s.counted, ground (arith, s.total, l.0), λ ck. ground (arith, s.each ck, l.1))
