-- ===== src/Server/Tracker/Isolation.antt =====
-- A peer cannot touch the transactions of another credential, whatever identifiers it sends.
use go_pkicmp_ng.Prelude.{◌≡◌, ◌≢◌, inl, inr, Bytes, bytes_eq_iff, arith}
use go_pkicmp_ng.Prelude.Assoc.{lookup, Distinct, lookup-put}
use go_pkicmp_ng.Pkicmp.Types.{Time, Duration}
use go_pkicmp_ng.Server.Entry.{RequestType, TransactionEntry, TransactionTracker, blank, active}
use go_pkicmp_ng.Server.Tracker.{
  make_key, make_credential_key, store_entry, start_if_absent, add_cred, add_count, advance,
  set_pending, set_issued, set_completed, Issuance, delete,
}
use go_pkicmp_ng.Server.Tracker.Keys.{IsShort, IsCollisionFree, make_key-injective}
use go_pkicmp_ng.Server.Tracker.Valid.{lookup-drop_entry}
use go_pkicmp_ng.Server.Tracker.Operations.{
  stored, full, credential_full, existing, start_if_absent-Started, set_completed-cases,
  advance_lem,
}
use go_pkicmp_ng.Server.Tracker.Transitions.{lookup-store_entry}

-- What a peer that holds one credential can do to the tracker.
pub data ByCredential (sha256 : Bytes → Bytes) (cred : Bytes) (t : TransactionTracker)
    : TransactionTracker → Type 0 where
  start :
      (txn : Bytes)
      → IsShort txn
      → (now : Time) → ByCredential sha256 cred t (start_if_absent sha256 cred txn now t).0
  wait :
      (txn : Bytes)
      → IsShort txn
      → (q : RequestType) (ref nonce : Bytes) (check : Duration) (last now : Time)
      → ByCredential sha256 cred t (set_pending sha256 cred txn q ref nonce check last now t).0
  issue :
      (txn : Bytes)
      → IsShort txn
      → (i : Issuance) (now : Time)
      → ByCredential sha256 cred t (set_issued sha256 cred txn i now t).0
  complete :
      (txn : Bytes)
      → IsShort txn
      → (now : Time) → ByCredential sha256 cred t (set_completed sha256 cred txn now t)
  release : (txn : Bytes) → IsShort txn → ByCredential sha256 cred t (delete sha256 cred txn t)

module _ (sha256 : Bytes → Bytes) (cred txn : Bytes) (t : TransactionTracker) (j : Bytes) where
  -- Each call touches at most the key that it computes.
  start-elsewhere :
      (now : Time)
      → make_key sha256 cred txn ≢ j
      → lookup j (start_if_absent sha256 cred txn now t).0.transactions ≡ lookup j t.transactions
  start-elsewhere now ne = elim (start_if_absent-Started sha256 cred txn now t) [
    | stored _ _ _ e ↦ rw e (
        unfold store_entry add_cred add_count in
        ground (
          arith,
          lookup-put (make_key sha256 cred txn) j
              (record {
                addr = t.allocated;
                entry = blank active now (make_credential_key sha256 cred);
              })
              t.transactions,
          bytes_eq_iff (make_key sha256 cred txn) j,
        ))
    | full _ _ s ↦ rw s.transactions
    | credential_full _ _ s ↦ rw s.transactions
    | existing _ _ s ↦ rw s.transactions
  ]

  store-elsewhere :
      (e : TransactionEntry)
      → make_key sha256 cred txn ≢ j
      → lookup j (store_entry (make_key sha256 cred txn) e t).transactions ≡ lookup j t.transactions
  store-elsewhere e ne = ground (
    arith,
    lookup-store_entry (make_key sha256 cred txn) j e t,
    bytes_eq_iff (make_key sha256 cred txn) j,
  )

  advance-elsewhere :
      (e : TransactionEntry)
      → make_key sha256 cred txn ≢ j
      → lookup j (advance (make_key sha256 cred txn) e t).0.transactions ≡ lookup j t.transactions
  advance-elsewhere e ne = elim (advance_lem (make_key sha256 cred txn) e t) [
    | inl (old, _, _, r) ↦ rw r (store-elsewhere e ne)
    | inr r ↦ rw r
  ]

  complete-elsewhere :
      (now : Time)
      → make_key sha256 cred txn ≢ j
      → lookup j (set_completed sha256 cred txn now t).transactions ≡ lookup j t.transactions
  complete-elsewhere now ne = elim (set_completed-cases sha256 cred txn now t) [
    | inl (_, r) ↦ rw r
    | inr (old, _, r) ↦ rw r (store-elsewhere _ ne)
  ]

  delete-elsewhere :
      Distinct t.transactions
      → make_key sha256 cred txn ≢ j
      → lookup j (delete sha256 cred txn t).transactions ≡ lookup j t.transactions
  unfolding delete
  delete-elsewhere d ne = ground (
    arith,
    lookup-drop_entry (make_key sha256 cred txn) j t d,
    bytes_eq_iff (make_key sha256 cred txn) j,
  )

-- Whatever a peer with one credential does, under whatever identifiers, the table holds for every
-- other credential exactly what it held; provided that the hash has no collision and that the
-- identifiers have the lengths that the code assumes.
pub ByCredential-isolated :
    (sha256 : Bytes → Bytes) (cred other txn' : Bytes) (t u : TransactionTracker)
    → IsCollisionFree sha256
    → IsShort cred
    → IsShort other
    → IsShort txn'
    → Distinct t.transactions
    → cred ≢ other
    → ByCredential sha256 cred t u
    → lookup (make_key sha256 other txn') u.transactions
      ≡ lookup (make_key sha256 other txn') t.transactions
ByCredential-isolated sha256 cred other txn' t u free hc ho ht' d ne call = go u call
  where
    apart : (txn : Bytes) → IsShort txn → make_key sha256 cred txn ≢ make_key sha256 other txn'
    apart txn ht e = ne (make_key-injective sha256 cred other txn txn' free hc ho ht ht' e).0

    go :
        (u : TransactionTracker)
        → ByCredential sha256 cred t u
        → lookup (make_key sha256 other txn') u.transactions
          ≡ lookup (make_key sha256 other txn') t.transactions
    go _ (start txn ht now) =
        start-elsewhere sha256 cred txn t (make_key sha256 other txn') now (apart txn ht)
    go _ (wait txn ht q ref nonce check last now) =
        unfold set_pending in
        advance-elsewhere sha256 cred txn t (make_key sha256 other txn') _ (apart txn ht)
    go _ (issue txn ht i now) =
        unfold set_issued in
        advance-elsewhere sha256 cred txn t (make_key sha256 other txn') _ (apart txn ht)
    go _ (complete txn ht now) =
        complete-elsewhere sha256 cred txn t (make_key sha256 other txn') now (apart txn ht)
    go _ (release txn ht) =
        delete-elsewhere sha256 cred txn t (make_key sha256 other txn') d (apart txn ht)
