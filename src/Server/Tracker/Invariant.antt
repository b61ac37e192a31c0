-- ===== src/Server/Tracker/Invariant.antt =====
-- The counters of the tracker agree with its table, addresses are fresh, and each entry carries the
-- credential of its key; every operation keeps this.
use go_pkicmp_ng.Prelude.{
  ℕ, ◌<◌, ◌≡◌, refl, Bool, true, none, some, inl, inr, Bytes, bytes_eq, bytes_eq_iff, bytes_eq_refl,
  length, arith, if◌then◌else◌, Option-cases,
}
use go_pkicmp_ng.Prelude.Int.{ℤ, pos, incr, decr, decr-incr}
use go_pkicmp_ng.Prelude.Assoc.{
  Assoc, lookup, put, remove, Distinct, count_where, lookup-put, lookup-remove, Distinct-put,
  Distinct-remove, count_where-put_new, count_where-put_old, count_where-remove,
  length-eq-count_where,
}
use go_pkicmp_ng.Server.Entry.{TransactionEntry, Cell, TransactionTracker}
use go_pkicmp_ng.Server.Tracker.{counter, cred_count, add_cred, add_count, store_entry, drop_entry}

-- How many entries a credential holds.
abbrev pub owned_by : Bytes → Cell → Bool
owned_by ck c = bytes_eq c.entry.credential_key ck

unfoldable pub owned : Bytes → Assoc Cell → ℕ
owned ck m = count_where (owned_by ck) m

pub record IsAccounted (t : TransactionTracker) : Type 0 where
  pub distinct : Distinct t.transactions
  pub counted : t.count ≡ pos (length t.transactions)
  pub per_credential : (ck : Bytes) → cred_count ck t ≡ pos (owned ck t.transactions)
  pub fresh : (k : Bytes) (c : Cell) → lookup k t.transactions ≡ some c → c.addr < t.allocated

-- Two trackers with the same table and the same counts.
pub record SameTable (t u : TransactionTracker) : Type 0 where
  pub transactions : u.transactions ≡ t.transactions
  pub count : u.count ≡ t.count
  pub cred_counts : (ck : Bytes) → cred_count ck u ≡ cred_count ck t
  pub allocated : u.allocated ≡ t.allocated

pub IsAccounted-SameTable :
    (t u : TransactionTracker) → SameTable t u → IsAccounted t → IsAccounted u
unfolding cred_count owned
IsAccounted-SameTable t u s v = record {
  distinct = rw s.transactions v.distinct;
  counted = rw (s.transactions, s.count) v.counted;
  per_credential = λ ck. rw (s.transactions, s.cred_counts ck) (v.per_credential ck);
  fresh = λ k c h. rw s.allocated (v.fresh k c (rw s.transactions at h));
}

pub cred_count-add_cred :
    (f : ℤ → ℤ) (ck j : Bytes) (t : TransactionTracker)
    → cred_count j (add_cred f ck t)
      ≡ (if bytes_eq ck j then f (cred_count ck t) else cred_count j t)
unfolding cred_count add_cred
cred_count-add_cred f ck j t =
    ground
      (arith, lookup-put ck j (f (counter (lookup ck t.credential_counts))) t.credential_counts)

-- What was reserved for a refused start is released.
pub SameTable-release_count :
    (t : TransactionTracker) → SameTable t (add_count decr (add_count incr t))
unfolding add_count cred_count
SameTable-release_count t = record {
  transactions = refl;
  count = decr-incr _;
  cred_counts = λ ck. refl;
  allocated = refl;
}

pub SameTable-release :
    (ck : Bytes) (t : TransactionTracker)
    → SameTable t (add_count decr (add_cred decr ck (add_cred incr ck (add_count incr t))))
unfolding add_count add_cred cred_count
SameTable-release ck t = record {
  transactions = refl;
  count = decr-incr _;
  cred_counts = λ j.
      simp (lookup-put, bytes_eq_refl, decr-incr)
        (ground (arith, decr-incr (counter (lookup ck t.credential_counts)), bytes_eq_iff ck j));
  allocated = refl;
}

-- A new entry under a free key, with its capacity reserved.
pub IsAccounted-store_new :
    (key ck : Bytes) (e : TransactionEntry) (t : TransactionTracker)
    → e.credential_key ≡ ck
    → lookup key t.transactions ≡ none
    → IsAccounted t
    → IsAccounted (store_entry key e (add_cred incr ck (add_count incr t)))
unfolding store_entry add_count add_cred
IsAccounted-store_new key ck e t own free v =
    let m = t.transactions in
    let c : Cell = record { addr = t.allocated; entry = e } in
    record {
      distinct = Distinct-put key c m v.distinct;
      counted = ground (
        arith,
        v.counted,
        length-eq-count_where m,
        length-eq-count_where (put key c m),
        count_where-put_new (λ _. true) key c m free,
      );
      per_credential = λ j.
          unfold owned cred_count in
          ground (
            arith,
            v.per_credential j,
            lookup-put ck j (incr (counter (lookup ck t.credential_counts))) t.credential_counts,
            v.per_credential ck,
            count_where-put_new (owned_by j) key c m free,
            bytes_eq_iff ck j,
          );
      fresh = λ k d h. ground (arith, lookup-put key k c m, v.fresh k d);
    }

-- A new entry in the place of one of the same credential.
pub IsAccounted-store_old :
    (key : Bytes) (e : TransactionEntry) (old : Cell) (t : TransactionTracker)
    → lookup key t.transactions ≡ some old
    → e.credential_key ≡ old.entry.credential_key
    → IsAccounted t
    → IsAccounted (store_entry key e t)
unfolding store_entry
IsAccounted-store_old key e old t found own v =
    let m = t.transactions in
    let c : Cell = record { addr = t.allocated; entry = e } in
    record {
      distinct = Distinct-put key c m v.distinct;
      counted = ground (
        arith,
        v.counted,
        length-eq-count_where m,
        length-eq-count_where (put key c m),
        count_where-put_old (λ _. true) key c old m found,
      );
      per_credential = λ j.
          unfold owned cred_count in
          ground (arith, v.per_credential j, count_where-put_old (owned_by j) key c old m found);
      fresh = λ k d h. ground (arith, lookup-put key k c m, v.fresh k d);
    }

drop_entry_found :
    (key : Bytes) (c : Cell) (t : TransactionTracker)
    → lookup key t.transactions ≡ some c
    → IsAccounted t
    → IsAccounted (
        add_cred decr c.entry.credential_key
          (add_count decr (record t { transactions = remove key t.transactions })))
unfolding add_count add_cred
drop_entry_found key c t found v =
    let m = t.transactions in
    let ck = c.entry.credential_key in
    record {
      distinct = Distinct-remove key m v.distinct;
      counted = ground (
        arith,
        v.counted,
        length-eq-count_where m,
        length-eq-count_where (remove key m),
        count_where-remove (λ _. true) key c m found,
      );
      per_credential = λ j.
          unfold owned cred_count in
          ground (
            arith,
            v.per_credential j,
            v.per_credential ck,
            lookup-put ck j (decr (counter (lookup ck t.credential_counts))) t.credential_counts,
            count_where-remove (owned_by j) key c m found,
            bytes_eq_iff ck j,
          );
      fresh = λ k d h. ground (arith, lookup-remove key k m v.distinct, v.fresh k d);
    }

pub IsAccounted-drop_entry :
    (key : Bytes) (t : TransactionTracker) → IsAccounted t → IsAccounted (drop_entry key t)
IsAccounted-drop_entry key t v = elim (Option-cases (lookup key t.transactions)) [
  | inl e ↦ unfold drop_entry in rw (e, drop_entry) v
  | inr (c, e) ↦ unfold drop_entry in rw (e, drop_entry) (drop_entry_found key c t e v)
]
