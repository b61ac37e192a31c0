-- ===== src/Server/Tracker/Valid.antt =====
-- The full invariant of the tracker: counters that agree with the table, counters within the limits,
-- and entries filed under the key of their credential.
use go_pkicmp_ng.Prelude.{
  ◌≡◌, sym, ◌∙◌, ap, false, none, some, inl, inr, Bytes, bytes_eq, bytes_eq_iff, arith,
  if◌then◌else◌, Bool-cases, Option-cases,
}
use go_pkicmp_ng.Prelude.Int.{incr, decr, ltb_ℤ, ◌≤ℤ◌}
use go_pkicmp_ng.Prelude.Assoc.{lookup, remove, Distinct, lookup-put, lookup-remove}
use go_pkicmp_ng.Server.Entry.{TransactionEntry, Cell, TransactionTracker}
use go_pkicmp_ng.Server.Tracker.{
  make_key, make_credential_key, counter, cred_count, add_cred, add_count, store_entry, drop_entry,
}
use go_pkicmp_ng.Server.Tracker.Keys.{IsShort, IsCollisionFree, make_key-injective}
use go_pkicmp_ng.Server.Tracker.Invariant.{
  IsAccounted, SameTable, IsAccounted-SameTable, IsAccounted-store_new, IsAccounted-store_old,
  IsAccounted-drop_entry,
}

-- No counter is above its limit.
pub record IsBounded (t : TransactionTracker) : Type 0 where
  pub total : t.count ≤ℤ t.max_transactions
  pub each : (ck : Bytes) → cred_count ck t ≤ℤ t.max_transactions_per_credential

-- An entry carries the credential that its key was made of.
pub record IsKeyed (sha256 : Bytes → Bytes) (t : TransactionTracker) : Type 0 where
  pub owner :
      (cred txn : Bytes) (c : Cell)
      → IsShort cred
      → IsShort txn
      → lookup (make_key sha256 cred txn) t.transactions ≡ some c
      → c.entry.credential_key ≡ make_credential_key sha256 cred

pub record IsValid (sha256 : Bytes → Bytes) (t : TransactionTracker) : Type 0 where
  pub accounted : IsAccounted t
  pub bounded : IsBounded t
  pub keyed : IsKeyed sha256 t

-- Dropping an entry raises no counter.
IsBounded-drop_entry :
    (key : Bytes) (t : TransactionTracker) → IsBounded t → IsBounded (drop_entry key t)
unfolding drop_entry cred_count
IsBounded-drop_entry key t b = elim (Option-cases (lookup key t.transactions)) [
  | inl e ↦ rw (e, drop_entry) b
  | inr (c, e) ↦ rw (e, drop_entry) (dropped c)
]
  where
    dropped :
        (c : Cell)
        → IsBounded (
            add_cred decr c.entry.credential_key
              (add_count decr (record t { transactions = remove key t.transactions })))
    dropped c =
        let ck = c.entry.credential_key in
        let n = counter (lookup ck t.credential_counts) in
        record {
          total = ground (arith, b.total);
          each = λ j.
              ground (arith, b.each j, b.each ck, lookup-put ck j (decr n) t.credential_counts);
        }

pub lookup-drop_entry :
    (key j : Bytes) (t : TransactionTracker)
    → Distinct t.transactions
    → lookup j (drop_entry key t).transactions
      ≡ (if bytes_eq key j then none else lookup j t.transactions)
unfolding drop_entry
lookup-drop_entry key j t d =
    ground (arith, lookup-remove key j t.transactions d, bytes_eq_iff key j)

module _ (sha256 : Bytes → Bytes) where
  pub IsValid-SameTable :
      (t u : TransactionTracker)
      → SameTable t u
      → u.max_transactions ≡ t.max_transactions
      → u.max_transactions_per_credential ≡ t.max_transactions_per_credential
      → IsValid sha256 t
      → IsValid sha256 u
  unfolding cred_count
  IsValid-SameTable t u s e e' v = record {
    accounted = IsAccounted-SameTable t u s v.accounted;
    bounded = record {
      total = ground (arith, s.count, v.bounded.total);
      each = λ ck. ground (arith, s.cred_counts ck, v.bounded.each ck);
    };
    keyed = record {
      owner = λ cred txn c hc ht h. v.keyed.owner cred txn c hc ht (rw s.transactions at h);
    };
  }

  pub IsValid-store_new :
      (cred txn : Bytes) (e : TransactionEntry) (t : TransactionTracker)
      → IsCollisionFree sha256
      → IsShort cred
      → IsShort txn
      → e.credential_key ≡ make_credential_key sha256 cred
      → lookup (make_key sha256 cred txn) t.transactions ≡ none
      → ltb_ℤ t.max_transactions (incr t.count) ≡ false
      → ltb_ℤ t.max_transactions_per_credential
          (incr (cred_count (make_credential_key sha256 cred) t))
        ≡ false
      → IsValid sha256 t
      → IsValid sha256 (
          store_entry
            (make_key sha256 cred txn)
            e
            (add_cred incr (make_credential_key sha256 cred) (add_count incr t)))
  IsValid-store_new cred txn e t free hc ht own absent room each v =
      let ck = make_credential_key sha256 cred in
      let key = make_key sha256 cred txn in
      let c : Cell = record { addr = t.allocated; entry = e } in
      record {
        accounted = IsAccounted-store_new key ck e t own absent v.accounted;
        bounded = record {
          total = unfold store_entry add_cred add_count in ground arith;
          each = λ j.
              unfold store_entry add_count cred_count add_cred in
              ground (
                arith,
                v.bounded.each j,
                lookup-put ck j (incr (counter (lookup ck t.credential_counts)))
                    t.credential_counts,
              );
        };
        keyed = record {
          owner = λ cred' txn' d hc' ht' h.
              elim (Bool-cases (bytes_eq key (make_key sha256 cred' txn'))) [
                | inl same ↦
                    let pair =
                      make_key-injective sha256 cred cred' txn txn' free hc hc' ht ht'
                        ((bytes_eq_iff key (make_key sha256 cred' txn')).0 same) in
                    unfold store_entry add_cred add_count in
                    ground (
                      arith,
                      lookup-put key (make_key sha256 cred' txn') c t.transactions,
                      ap (make_credential_key sha256) pair.0,
                    )
                | inr other ↦
                    unfold store_entry add_cred add_count in
                    ground (
                      arith,
                      lookup-put key (make_key sha256 cred' txn') c t.transactions,
                      v.keyed.owner cred' txn' d hc' ht',
                    )
              ];
        };
      }

  pub IsValid-store_old :
      (cred txn : Bytes) (e : TransactionEntry) (old : Cell) (t : TransactionTracker)
      → IsCollisionFree sha256
      → IsShort cred
      → IsShort txn
      → e.credential_key ≡ make_credential_key sha256 cred
      → lookup (make_key sha256 cred txn) t.transactions ≡ some old
      → IsValid sha256 t
      → IsValid sha256 (store_entry (make_key sha256 cred txn) e t)
  IsValid-store_old cred txn e old t free hc ht own found v =
      let key = make_key sha256 cred txn in
      let c : Cell = record { addr = t.allocated; entry = e } in
      record {
        accounted =
            IsAccounted-store_old key e old t found
              (own ∙ sym (v.keyed.owner cred txn old hc ht found)) v.accounted;
        bounded = record {
          total = unfold store_entry in v.bounded.total;
          each = λ j. unfold store_entry cred_count in v.bounded.each j;
        };
        keyed = record {
          owner = λ cred' txn' d hc' ht' h.
              elim (Bool-cases (bytes_eq key (make_key sha256 cred' txn'))) [
                | inl same ↦
                    let pair =
                      make_key-injective sha256 cred cred' txn txn' free hc hc' ht ht'
                        ((bytes_eq_iff key (make_key sha256 cred' txn')).0 same) in
                    unfold store_entry in
                    ground (
                      arith,
                      lookup-put key (make_key sha256 cred' txn') c t.transactions,
                      ap (make_credential_key sha256) pair.0,
                    )
                | inr other ↦
                    unfold store_entry in
                    ground (
                      arith,
                      lookup-put key (make_key sha256 cred' txn') c t.transactions,
                      v.keyed.owner cred' txn' d hc' ht',
                    )
              ];
        };
      }

  pub IsValid-drop_entry :
      (key : Bytes) (t : TransactionTracker) → IsValid sha256 t → IsValid sha256 (drop_entry key t)
  IsValid-drop_entry key t v = record {
    accounted = IsAccounted-drop_entry key t v.accounted;
    bounded = IsBounded-drop_entry key t v.bounded;
    keyed = record {
      owner = λ cred txn c hc ht h. ground (
        arith,
        lookup-drop_entry key (make_key sha256 cred txn) t v.accounted.distinct,
        v.keyed.owner cred txn c hc ht,
      );
    };
  }
