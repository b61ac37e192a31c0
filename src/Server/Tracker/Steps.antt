-- ===== src/Server/Tracker/Steps.antt =====
-- Any sequence of calls on a tracker, and what holds after it.
use go_pkicmp_ng.Prelude.{◌≡◌, refl, [], ◌∷◌, inl, inr, Bytes, length, arith, Bool-cases}
use go_pkicmp_ng.Prelude.Int.{ℤ, pos, ltb_ℤ, ◌≤ℤ◌}
use go_pkicmp_ng.Prelude.Assoc.{Assoc, lookup, count_where}
use go_pkicmp_ng.Pkicmp.Types.{Time, Duration}
use go_pkicmp_ng.Server.Entry.{
  active, completed, RequestType, TransactionEntry, blank, Cell, TransactionTracker,
  new_transaction_tracker,
}
use go_pkicmp_ng.Server.Tracker.{
  make_key, make_credential_key, cred_count, start_if_absent, advance, set_pending, set_issued,
  set_completed, Issuance, delete, cleanup_entry, cleanup_range, cleanup_expired, pending_entry,
  issued_entry,
}
use go_pkicmp_ng.Server.Tracker.Keys.{IsShort, IsCollisionFree}
use go_pkicmp_ng.Server.Tracker.Invariant.{owned}
use go_pkicmp_ng.Server.Tracker.Valid.{
  IsValid, IsValid-SameTable, IsValid-store_new, IsValid-store_old, IsValid-drop_entry,
}
use go_pkicmp_ng.Server.Tracker.Operations.{
  stored, full, credential_full, existing, start_if_absent-Started, advance_lem, limits,
  set_completed-cases,
}
use go_pkicmp_ng.Server.Tracker.Cleanup.{cleanup_entry_lem}

-- One call, with identifiers of the lengths that the code assumes.
pub data Step (sha256 : Bytes → Bytes) : TransactionTracker → TransactionTracker → Type 0 where
  start :
      (cred txn : Bytes) (now : Time) (t : TransactionTracker)
      → IsShort cred
      → IsShort txn
      → Step sha256 t (start_if_absent sha256 cred txn now t).0
  wait :
      (cred txn : Bytes) (q : RequestType) (ref nonce : Bytes) (check : Duration) (last now : Time)
      (t : TransactionTracker)
      → IsShort cred
      → IsShort txn
      → Step sha256 t (set_pending sha256 cred txn q ref nonce check last now t).0
  issue :
      (cred txn : Bytes) (i : Issuance) (now : Time) (t : TransactionTracker)
      → IsShort cred
      → IsShort txn
      → Step sha256 t (set_issued sha256 cred txn i now t).0
  complete :
      (cred txn : Bytes) (now : Time) (t : TransactionTracker)
      → IsShort cred
      → IsShort txn
      → Step sha256 t (set_completed sha256 cred txn now t)
  release : (cred txn : Bytes) (t : TransactionTracker) → Step sha256 t (delete sha256 cred txn t)
  cleanup :
      (max_age : Duration) (now : Time) (t : TransactionTracker)
      → Step sha256 t (cleanup_expired max_age now t).0

pub data Reach (sha256 : Bytes → Bytes) (t : TransactionTracker) : TransactionTracker → Type 0 where
  here : Reach sha256 t t
  next : {u v : TransactionTracker} → Reach sha256 t u → Step sha256 u v → Reach sha256 t v

module _ (sha256 : Bytes → Bytes) (free : IsCollisionFree sha256) where
  IsValid-Started :
      (cred txn : Bytes) (now : Time) (t : TransactionTracker)
      → IsShort cred
      → IsShort txn
      → IsValid sha256 t
      → IsValid sha256 (start_if_absent sha256 cred txn now t).0
  IsValid-Started cred txn now t hc ht v = elim (start_if_absent-Started sha256 cred txn now t) [
    | stored absent room each e ↦ rw e (
        IsValid-store_new sha256 cred txn (blank active now (make_credential_key sha256 cred)) t
          free hc ht refl absent room each v)
    | full _ _ s ↦
        IsValid-SameTable sha256 t _ s (limits sha256 cred txn now t).0
          (limits sha256 cred txn now t).1 v
    | credential_full _ _ s ↦
        IsValid-SameTable sha256 t _ s (limits sha256 cred txn now t).0
          (limits sha256 cred txn now t).1 v
    | existing _ _ s ↦
        IsValid-SameTable sha256 t _ s (limits sha256 cred txn now t).0
          (limits sha256 cred txn now t).1 v
  ]

  IsValid-advance :
      (cred txn : Bytes) (e : TransactionEntry) (t : TransactionTracker)
      → IsShort cred
      → IsShort txn
      → e.credential_key ≡ make_credential_key sha256 cred
      → IsValid sha256 t
      → IsValid sha256 (advance (make_key sha256 cred txn) e t).0
  IsValid-advance cred txn e t hc ht own v = elim (advance_lem (make_key sha256 cred txn) e t) [
    | inl (old, found, _, r) ↦
        rw r (IsValid-store_old sha256 cred txn e old t free hc ht own found v)
    | inr r ↦ rw r v
  ]

  IsValid-set_completed :
      (cred txn : Bytes) (now : Time) (t : TransactionTracker)
      → IsShort cred
      → IsShort txn
      → IsValid sha256 t
      → IsValid sha256 (set_completed sha256 cred txn now t)
  IsValid-set_completed cred txn now t hc ht v = elim (set_completed-cases sha256 cred txn now t) [
    | inl (_, r) ↦ rw r v
    | inr (old, h, r) ↦ rw r (
        IsValid-store_old sha256 cred txn
          (record (old.entry) { state = completed; last_activity = now }) old t free hc ht
          (v.keyed.owner cred txn old hc ht h) h v)
  ]

  IsValid-cleanup_entry :
      (max_age : Duration) (now : Time) (key : Bytes) (c : Cell) (t : TransactionTracker)
      → IsValid sha256 t
      → IsValid sha256 (cleanup_entry max_age now key c t).0
  IsValid-cleanup_entry max_age now key c t v = elim (cleanup_entry_lem max_age now key c t) [
    | inl (_, r) ↦ rw r (IsValid-drop_entry sha256 key t v)
    | inr (_, r) ↦ rw r v
  ]

  IsValid-cleanup_range :
      (max_age : Duration) (now : Time) (m : Assoc Cell) (t : TransactionTracker)
      → IsValid sha256 t
      → IsValid sha256 (cleanup_range max_age now m t).0
  unfolding cleanup_range
  IsValid-cleanup_range max_age now [] t v = v
  IsValid-cleanup_range max_age now ((key, c) ∷ m) t v =
      IsValid-cleanup_range max_age now m (cleanup_entry max_age now key c t).0
        (IsValid-cleanup_entry max_age now key c t v)

  IsValid-cleanup_expired :
      (max_age : Duration) (now : Time) (t : TransactionTracker)
      → IsValid sha256 t
      → IsValid sha256 (cleanup_expired max_age now t).0
  unfolding cleanup_expired
  IsValid-cleanup_expired max_age now t v = elim (Bool-cases (ltb_ℤ (pos 0) max_age)) [
    | inl e ↦ rw (e, cleanup_expired) (IsValid-cleanup_range max_age now t.transactions t v)
    | inr e ↦ rw (e, cleanup_expired) v
  ]

  pub Step-IsValid :
      {t u : TransactionTracker} → Step sha256 t u → IsValid sha256 t → IsValid sha256 u
  Step-IsValid (start cred txn now t hc ht) v = IsValid-Started cred txn now t hc ht v
  Step-IsValid (wait cred txn q ref nonce check last now t hc ht) v =
      unfold set_pending in
      IsValid-advance cred txn
        (pending_entry now (make_credential_key sha256 cred) q ref nonce check last) t hc ht
        (unfold pending_entry in refl) v
  Step-IsValid (issue cred txn i now t hc ht) v =
      unfold set_issued in
      IsValid-advance cred txn (issued_entry now (make_credential_key sha256 cred) i) t hc ht
        (unfold issued_entry in refl) v
  Step-IsValid (complete cred txn now t hc ht) v = IsValid-set_completed cred txn now t hc ht v
  Step-IsValid (release cred txn t) v = unfold delete in IsValid-drop_entry sha256 _ t v
  Step-IsValid (cleanup max_age now t) v = IsValid-cleanup_expired max_age now t v

  pub Reach-IsValid :
      {t u : TransactionTracker} → Reach sha256 t u → IsValid sha256 t → IsValid sha256 u
  Reach-IsValid here v = v
  Reach-IsValid (next r s) v = Step-IsValid s (Reach-IsValid r v)

-- No call touches the limits.
abbrev HasLimits : ℤ → ℤ → TransactionTracker → Type 0
HasLimits m p t = (t.max_transactions ≡ m) × (t.max_transactions_per_credential ≡ p)

HasLimits-cleanup_range :
    (max_age : Duration) (now : Time) (es : Assoc Cell) {m p : ℤ} (t : TransactionTracker)
    → HasLimits m p t
    → HasLimits m p (cleanup_range max_age now es t).0
unfolding cleanup_range
HasLimits-cleanup_range max_age now [] t h = h
HasLimits-cleanup_range max_age now ((key, c) ∷ es) t h =
    HasLimits-cleanup_range max_age now es (cleanup_entry max_age now key c t).0
      (unfold cleanup_entry in ground arith)

HasLimits-Step :
    {sha256 : Bytes → Bytes} {m p : ℤ} {t u : TransactionTracker}
    → Step sha256 t u
    → HasLimits m p t
    → HasLimits m p u
HasLimits-Step {sha256} (start cred txn now t hc ht) h =
    ground (arith, limits sha256 cred txn now t)
HasLimits-Step (wait cred txn q ref nonce check last now t hc ht) h =
    unfold set_pending in ground arith
HasLimits-Step (issue cred txn i now t hc ht) h = unfold set_issued in ground arith
HasLimits-Step (complete cred txn now t hc ht) h = unfold set_completed in ground arith
HasLimits-Step (release cred txn t) h = unfold delete in ground arith
HasLimits-Step (cleanup max_age now t) h =
    unfold cleanup_expired in ground (arith, HasLimits-cleanup_range max_age now t.transactions t h)

HasLimits-Reach :
    {sha256 : Bytes → Bytes} {m p : ℤ} {t u : TransactionTracker}
    → Reach sha256 t u
    → HasLimits m p t
    → HasLimits m p u
HasLimits-Reach here h = h
HasLimits-Reach (next r s) h = HasLimits-Step s (HasLimits-Reach r h)

pub IsValid-new :
    (sha256 : Bytes → Bytes) (max_txn max_per_cred : ℤ)
    → pos 0 ≤ℤ max_txn
    → pos 0 ≤ℤ max_per_cred
    → IsValid sha256 (new_transaction_tracker max_txn max_per_cred)
IsValid-new sha256 m p hm hp =
    unfold new_transaction_tracker cred_count owned lookup count_where in
    record {
      accounted = record {
        distinct = tt;
        counted = refl;
        per_credential = λ ck. refl;
        fresh = λ k c h. cc;
      };
      bounded = record { total = hm; each = λ ck. hp };
      keyed = record { owner = λ cred txn c hc ht h. cc };
    }

-- Whatever calls were made on a new tracker with limits that are not negative, under a hash with no
-- collision and with identifiers shorter than 2^32 bytes: the counters agree with the table, a
-- credential's counter with its entries, and no counter is above its limit.
pub tracker_counts :
    (sha256 : Bytes → Bytes) (max_txn max_per_cred : ℤ) (u : TransactionTracker)
    → IsCollisionFree sha256
    → pos 0 ≤ℤ max_txn
    → pos 0 ≤ℤ max_per_cred
    → Reach sha256 (new_transaction_tracker max_txn max_per_cred) u
    → (u.count ≡ pos (length u.transactions))
      × (pos (length u.transactions) ≤ℤ max_txn)
      × ((ck : Bytes)
          → (cred_count ck u ≡ pos (owned ck u.transactions))
            × (pos (owned ck u.transactions) ≤ℤ max_per_cred))
tracker_counts sha256 m p u free hm hp r =
    let v = Reach-IsValid sha256 free r (IsValid-new sha256 m p hm hp) in
    let l = HasLimits-Reach {m = m} {p = p} r (unfold new_transaction_tracker in (refl, refl)) in
    (
      v.accounted.counted,
      ground (arith, v.accounted.counted, v.bounded.total, l.0),
      λ ck. (
        v.accounted.per_credential ck,
        ground (arith, v.accounted.per_credential ck, v.bounded.each ck, l.1),
      ),
    )
