-- ===== src/Server/Tracker/Races/Safety.antt =====
-- Under every interleaving the table and the entries about to be stored stay within the limits.
use mathlib.Core.Path.{fun_ext}
use go_pkicmp_ng.Prelude.{
  ℕ, ◌+◌, ◌≤◌, ◌≡◌, true, none, some, List, [], ◌∷◌, ◌++◌, inl, inr, Bytes, bytes_eq_iff,
  bytes_eq_refl, length, subst, arith, Option-cases,
}
use go_pkicmp_ng.Prelude.Int.{pos, incr, decr, ◌≤ℤ◌}
use go_pkicmp_ng.Prelude.Assoc.{
  lookup, put, remove, lookup-put, count_where-put_new, count_where-put_old, count_where-remove,
  length-eq-count_where,
}
use go_pkicmp_ng.Pkicmp.Types.{Time}
use go_pkicmp_ng.Server.Entry.{active, TransactionEntry, blank, Cell, TransactionTracker}
use go_pkicmp_ng.Server.Tracker.{counter, cred_count, add_cred, store_entry, compare_and_swap}
use go_pkicmp_ng.Server.Tracker.Invariant.{owned, owned_by}
use go_pkicmp_ng.Server.Tracker.Races.{
  Phase, counted, reserved, release_credential, release_count, deleted, deleted_counted, run,
  reserve, load_and_delete, sum, holds, may_store, same, holds_for, may_store_for,
}

pub sum-split :
    (f : Phase → ℕ) (before : List Phase) (p : Phase) (after : List Phase)
    → sum f (before ++ (p ∷ after)) ≡ sum f before + f p + sum f after
unfolding sum
sum-split f [] p after = omega arith
sum-split f (q ∷ before) p after = omega (arith, sum-split f before p after)

pub sum-append : (f : Phase → ℕ) (ps qs : List Phase) → sum f (ps ++ qs) ≡ sum f ps + sum f qs
unfolding sum
sum-append f [] qs = omega arith
sum-append f (p ∷ ps) qs = omega (arith, sum-append f ps qs)

sum_mono : (f g : Phase → ℕ) → ((p : Phase) → f p ≤ g p) → (ps : List Phase) → sum f ps ≤ sum g ps
unfolding sum
sum_mono f g h [] = omega arith
sum_mono f g h (p ∷ ps) = omega (arith, h p, sum_mono f g h ps)

may_store-le-holds : (p : Phase) → may_store p ≤ holds p
may_store-le-holds (counted _ _ _) = omega arith
may_store-le-holds p = ground arith

may_store_for-le : (ck : Bytes) (p : Phase) → may_store_for ck p ≤ holds_for ck p
may_store_for-le ck (counted _ _ _) = omega arith
may_store_for-le ck p = ground arith

-- The limits hold of what is stored together with what may yet be stored. `over f` stands for the
-- sum of `f` over the goroutines.
pub record IsSafe (t : TransactionTracker) (over : (Phase → ℕ) → ℕ) : Type 0 where
  pub counted : t.count ≡ pos (length t.transactions + over holds)
  pub total : pos (length t.transactions + over may_store) ≤ℤ t.max_transactions
  pub per_credential :
      (ck : Bytes) → cred_count ck t ≡ pos (owned ck t.transactions + over (holds_for ck))
  pub each :
      (ck : Bytes)
      → pos (owned ck t.transactions + over (may_store_for ck)) ≤ℤ t.max_transactions_per_credential

abbrev pub over_threads : List Phase → (Phase → ℕ) → ℕ
over_threads ps f = sum f ps

abbrev pub beside : List Phase → ((Phase → ℕ) → ℕ) → (Phase → ℕ) → ℕ
beside ps rest f = sum f ps + rest f

pub IsSafe-eq :
    (t : TransactionTracker) (g h : (Phase → ℕ) → ℕ)
    → ((f : Phase → ℕ) → g f ≡ h f)
    → IsSafe t g
    → IsSafe t h
IsSafe-eq t g h e s = subst (IsSafe t) (fun_ext e) s

-- The places that the other goroutines may use are among those that they hold.
abbrev pub IsWithin : ((Phase → ℕ) → ℕ) → Type 0
IsWithin rest =
    (rest may_store ≤ rest holds) × ((ck : Bytes) → rest (may_store_for ck) ≤ rest (holds_for ck))

-- One place of a credential released.
freed :
    (j ck : Bytes) (t : TransactionTracker) (n : ℕ)
    → cred_count j t ≡ pos (same ck j + n)
    → cred_count j (add_cred decr ck t) ≡ pos n
unfolding cred_count add_cred
freed j ck t n h = ground (
  arith,
  lookup-put ck j (decr (counter (lookup ck t.credential_counts))) t.credential_counts,
  bytes_eq_iff ck j,
)

module _ (rest : (Phase → ℕ) → ℕ) (within : IsWithin rest) (t : TransactionTracker) where
  pub reserve-IsSafe :
      (key ck : Bytes) (now : Time)
      → IsSafe t rest
      → IsSafe (reserve key ck now t).0 (beside ((reserve key ck now t).1 ∷ []) rest)
  unfolding reserve sum cred_count
  reserve-IsSafe key ck now s = record {
    counted = ground (arith, s.counted, s.total, within.0);
    total = ground (arith, s.counted, s.total, within.0);
    per_credential = λ j. ground (arith, s.per_credential j);
    each = λ j. ground (arith, s.each j);
  }

  stored-IsSafe :
      (key ck : Bytes) (now : Time)
      → IsSafe t (beside (reserved key ck now ∷ []) rest)
      → lookup key t.transactions ≡ none
      → IsSafe (store_entry key (blank active now ck) t) (beside [] rest)
  unfolding sum store_entry cred_count owned
  stored-IsSafe key ck now s h =
      let m = t.transactions in
      let c : Cell = record { addr = t.allocated; entry = blank active now ck } in
      let more = count_where-put_new (λ _. true) key c m h in
      record {
        counted =
            ground (
              arith,
              s.counted,
              more,
              length-eq-count_where m,
              length-eq-count_where (put key c m),
            );
        total =
            ground
              (arith, s.total, more, length-eq-count_where m, length-eq-count_where (put key c m));
        per_credential =
            λ j. ground (arith, s.per_credential j, count_where-put_new (owned_by j) key c m h);
        each = λ j. ground (arith, s.each j, count_where-put_new (owned_by j) key c m h);
      }

  pub run-IsSafe :
      (p : Phase) → IsSafe t (beside (p ∷ []) rest) → IsSafe (run p t).0 (beside (run p t).1 rest)
  unfolding sum run
  run-IsSafe (counted key ck now) s =
      let n = counter (lookup ck t.credential_counts) in
      unfold run cred_count in
      record {
        counted = ground (arith, s.counted);
        total = ground (arith, s.total);
        per_credential = λ j. ground (
          arith,
          s.per_credential j,
          s.per_credential ck,
          lookup-put ck j (incr n) t.credential_counts,
          bytes_eq_iff ck j,
        );
        each = λ j. ground (
          arith,
          s.each j,
          s.per_credential j,
          within.1 j,
          lookup-put ck ck (incr n) t.credential_counts,
          bytes_eq_refl ck,
          bytes_eq_iff ck j,
        );
      }
  run-IsSafe (reserved key ck now) s = elim (Option-cases (lookup key t.transactions)) [
    | inr (c, h) ↦
        rw (h, run)
          (record {
            counted = s.counted;
            total = omega (arith, s.total);
            per_credential = s.per_credential;
            each = λ j. ground (arith, s.each j);
          })
    | inl h ↦ rw (h, run) (stored-IsSafe key ck now s h)
  ]
  run-IsSafe (release_credential ck) s =
      unfold run in
      record {
        counted = ground (arith, s.counted);
        total = ground (arith, s.total);
        per_credential = λ j. freed j ck t _ (ground (arith, s.per_credential j));
        each = λ j. ground (arith, s.each j);
      }
  run-IsSafe release_count s =
      unfold run cred_count in
      record {
        counted = ground (arith, s.counted);
        total = ground (arith, s.total);
        per_credential = λ j. ground (arith, s.per_credential j);
        each = λ j. ground (arith, s.each j);
      }
  run-IsSafe (deleted ck) s =
      unfold run cred_count in
      record {
        counted = ground (arith, s.counted);
        total = ground (arith, s.total);
        per_credential = λ j. ground (arith, s.per_credential j);
        each = λ j. ground (arith, s.each j);
      }
  run-IsSafe (deleted_counted ck) s =
      unfold run in
      record {
        counted = ground (arith, s.counted);
        total = ground (arith, s.total);
        per_credential = λ j. freed j ck t _ (ground (arith, s.per_credential j));
        each = λ j. ground (arith, s.each j);
      }

pub IsWithin-threads : (ps : List Phase) → IsWithin (over_threads ps)
IsWithin-threads ps = (
  sum_mono may_store holds may_store-le-holds ps,
  λ ck. sum_mono (may_store_for ck) (holds_for ck) (may_store_for-le ck) ps,
)

abbrev pub around : List Phase → List Phase → (Phase → ℕ) → ℕ
around before after f = sum f before + sum f after

pub IsWithin-around : (before after : List Phase) → IsWithin (around before after)
IsWithin-around before after =
    let b = IsWithin-threads before in
    let a = IsWithin-threads after in (omega (arith, a.0, b.0), λ ck. omega (arith, a.1 ck, b.1 ck))

pub load_and_delete-IsSafe :
    (key : Bytes) (t : TransactionTracker) (rest : (Phase → ℕ) → ℕ)
    → IsSafe t rest
    → IsSafe (load_and_delete key t).0 (beside (load_and_delete key t).1 rest)
unfolding load_and_delete sum cred_count owned
load_and_delete-IsSafe key t rest s = elim (Option-cases (lookup key t.transactions)) [
  | inl h ↦ rw (h, load_and_delete) (IsSafe-eq t rest (beside [] rest) (λ f. omega arith) s)
  | inr (c, h) ↦
      let m = t.transactions in
      let less = count_where-remove (λ _. true) key c m h in
      rw (h, load_and_delete)
        (record {
          counted = ground (
            arith,
            s.counted,
            less,
            length-eq-count_where m,
            length-eq-count_where (remove key m),
          );
          total =
              ground (
                arith,
                s.total,
                less,
                length-eq-count_where m,
                length-eq-count_where (remove key m),
              );
          per_credential =
              λ j. ground (arith, s.per_credential j, count_where-remove (owned_by j) key c m h);
          each = λ j. ground (arith, s.each j, count_where-remove (owned_by j) key c m h);
        })
]

pub compare_and_swap-IsSafe :
    (key : Bytes) (old : Cell) (e : TransactionEntry) (t : TransactionTracker)
    (rest : (Phase → ℕ) → ℕ)
    → e.credential_key ≡ old.entry.credential_key
    → lookup key t.transactions ≡ some old
    → IsSafe t rest
    → IsSafe (compare_and_swap key old.addr e t).0 rest
unfolding compare_and_swap store_entry cred_count owned
compare_and_swap-IsSafe key old e t rest own h s =
    let m = t.transactions in
    let c : Cell = record { addr = t.allocated; entry = e } in
    let kept = count_where-put_old (λ _. true) key c old m h in
    record {
      counted =
          ground
            (arith, s.counted, kept, length-eq-count_where m, length-eq-count_where (put key c m));
      total =
          ground
            (arith, s.total, kept, length-eq-count_where m, length-eq-count_where (put key c m));
      per_credential =
          λ j. ground (arith, s.per_credential j, count_where-put_old (owned_by j) key c old m h);
      each = λ j. ground (arith, s.each j, count_where-put_old (owned_by j) key c old m h);
    }
