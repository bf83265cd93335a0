-- ===== src/Issuance/Kept.antt =====
-- src/issuance.rs, lines 369 to 715: which records stay when records are dropped, added and replaced.
use herdr_dog_relay.Prelude.{
  ℕ, ◌+◌, ◌≤◌, ◌<◌, ◌≡◌, ◌≢◌, lt→ltb, ◌⊎◌, inl, inr, refl, ◌∙◌, List, [], ◌∷◌, ◌++◌, Bool, true,
  false, some, Bytes, find, any, retain, ltb, leb, ◌==◌, ◌&&◌, nat_ord, bytes_ord, arith,
  Bool-cases,
}
use herdr_dog_relay.Issuance.{
  IssuanceResultKey, IssuanceResultRecord, IssuanceResultStatus, same_key, prune_records,
}
use herdr_dog_relay.Issuance.Records.{
  find_key, has_authorization, put_key, attached, finalized, refused,
}
use herdr_dog_relay.Issuance.Ledger.{IsAccepted, IsFresh, same_key_iff, found-IsAccepted}
use herdr_dog_relay.Issuance.Decisions.{
  attach_record-some, issue_record-some, reject_record-some, unattached-pending,
}
use herdr_dog_relay.Issuance.Invariant.{Taken, kept, moved}
use herdr_dog_relay.Issuance.Events.{
  Event, time, Decided, by_attach, by_issue, by_reject, Step, prunes, adds, updates, stays, steps,
}

find-retain :
    (p q : IssuanceResultRecord → Bool) (rs : List IssuanceResultRecord) (r : IssuanceResultRecord)
    → p r ≡ true
    → find q rs ≡ some r
    → find q (retain p rs) ≡ some r
find-retain p q [] r h f = cc
find-retain p q (s ∷ rs) r h f = ground (arith, find-retain p q rs r h)

find-append :
    (q : IssuanceResultRecord → Bool) (rs ss : List IssuanceResultRecord) (r : IssuanceResultRecord)
    → find q rs ≡ some r
    → find q (rs ++ ss) ≡ some r
find-append q [] ss r f = cc
find-append q (s ∷ rs) ss r f = ground (arith, find-append q rs ss r)

pub find_key-put_key :
    (key : IssuanceResultKey) (r s : IssuanceResultRecord) (rs : List IssuanceResultRecord)
    → find_key key rs ≡ some r
    → s.key ≡ r.key
    → find_key key (put_key key s rs) ≡ some s
unfolding find_key put_key
find_key-put_key key r s [] f k = cc
find_key-put_key key r s (x ∷ rs) f k = ground (arith, find_key-put_key key r s rs)

pub find_key-put_key_other :
    (key k : IssuanceResultKey) (s : IssuanceResultRecord) (rs : List IssuanceResultRecord)
    → s.key ≡ k
    → same_key k key ≡ false
    → find_key key (put_key k s rs) ≡ find_key key rs
unfolding find_key put_key
find_key-put_key_other key k s [] e n = refl
find_key-put_key_other key k s (r ∷ rs) e n =
    ground (arith, find_key-put_key_other key k s rs e n, same_key_iff r.key k)

pub Decided-pending :
    (e : Event) (key : IssuanceResultKey) (now : ℕ) (r s : IssuanceResultRecord)
    → Decided e key now r s
    → IsAccepted r
    → r.status ≡ IssuanceResultStatus.pending
Decided-pending e key now r s (by_attach a m q c d) v =
    let (e, empty, live) = attach_record-some m r s d in unattached-pending r v.status empty live
Decided-pending e key now r s (by_issue a m q c d) v = (issue_record-some m now r s d).1
Decided-pending e key now r s (by_reject a code q c d) v = (reject_record-some code now r s d).1

pub Decided-key :
    (e : Event) (key : IssuanceResultKey) (now : ℕ) (r s : IssuanceResultRecord)
    → Decided e key now r s
    → (s.key ≡ r.key)
      × ((s.retained_until_epoch_seconds ≡ r.retained_until_epoch_seconds)
          ⊎ (s.retained_until_epoch_seconds ≡ now + 86400))
unfolding attached finalized refused
Decided-key e key now r s (by_attach a m q c d) = ground (arith, attach_record-some m r s d)
Decided-key e key now r s (by_issue a m q c d) = ground (arith, issue_record-some m now r s d)
Decided-key e key now r s (by_reject a code q c d) =
    ground (arith, reject_record-some code now r s d)

find_key-prune_records :
    (now : ℕ) (rs : List IssuanceResultRecord) (key : IssuanceResultKey) (r : IssuanceResultRecord)
    → now < r.retained_until_epoch_seconds
    → find_key key rs ≡ some r
    → find_key key (prune_records rs now) ≡ some r
unfolding find_key prune_records
find_key-prune_records now rs key r t f = find-retain _ _ rs r (lt→ltb _ _ t) f

-- A record that is not pending stays under its key until its retention ends.
Step-final :
    (ev : Event) (now : ℕ) (rs next : List IssuanceResultRecord) (key : IssuanceResultKey)
    (r : IssuanceResultRecord)
    → IsFresh IsAccepted [] rs
    → Step ev now rs next
    → now < r.retained_until_epoch_seconds
    → r.status ≢ IssuanceResultStatus.pending
    → find_key key rs ≡ some r
    → find_key key next ≡ some r
unfolding find_key
Step-final ev now rs next key r l (prunes e) t n f = rw e (find_key-prune_records now rs key r t f)
Step-final ev now rs next key r l (adds a k b app_id generation expires_at until o c f' m e) t n f =
    rw e (find-append _ (prune_records rs now) _ r (find_key-prune_records now rs key r t f))
Step-final ev now rs next key r l (updates k x s f' d e) t n f =
    let p = find_key-prune_records now rs key r t f in
    let (v, q) = found-IsAccepted now rs k x l f' in
    elim (Bool-cases (same_key k key)) [
      | inl t ↦
          let o : r ≡ x = ground (arith, p, f', same_key_iff k key) in
          absurd (n (rw o (Decided-pending ev k now x s d v)))
      | inr t ↦ rw e (
          find_key-put_key_other key k s (prune_records rs now) ((Decided-key ev k now x s d).0 ∙ q)
            t
          ∙ p)
    ]

pub Taken-final :
    (e : Event) (rs next : List IssuanceResultRecord) (key : IssuanceResultKey)
    (r : IssuanceResultRecord)
    → Taken e rs next
    → ((now : ℕ) → time e ≡ some now → now < r.retained_until_epoch_seconds)
    → r.status ≢ IssuanceResultStatus.pending
    → find_key key rs ≡ some r
    → find_key key next ≡ some r
Taken-final e rs next key r (kept q) t n f = rw q f
Taken-final e rs next key r (moved l few (stays q)) t n f = rw q f
Taken-final e rs next key r (moved l few (steps now h s)) t n f =
    Step-final e now rs next key r l s (t now h) n f

-- Some record of an authorization is retained up to a time.
abbrev pub is_bound : Bytes → ℕ → IssuanceResultRecord → Bool
is_bound id until r = (r.key.authorization_id == id) && leb until r.retained_until_epoch_seconds

any-retain :
    (p q : IssuanceResultRecord → Bool) (rs : List IssuanceResultRecord)
    → ((r : IssuanceResultRecord) → q r ≡ true → p r ≡ true)
    → any q rs ≡ true
    → any q (retain p rs) ≡ true
any-retain p q [] i h = cc
any-retain p q (r ∷ rs) i h = ground (arith, i r, any-retain p q rs i)

any-append :
    (q : IssuanceResultRecord → Bool) (rs ss : List IssuanceResultRecord)
    → any q rs ≡ true
    → any q (rs ++ ss) ≡ true
any-append q [] ss h = cc
any-append q (r ∷ rs) ss h = ground (arith, any-append q rs ss)

any-put_key :
    (q : IssuanceResultRecord → Bool) (key : IssuanceResultKey) (x s : IssuanceResultRecord)
    (rs : List IssuanceResultRecord)
    → find_key key rs ≡ some x
    → (q x ≡ true → q s ≡ true)
    → any q rs ≡ true
    → any q (put_key key s rs) ≡ true
unfolding find_key put_key
any-put_key q key x s [] f i h = cc
any-put_key q key x s (r ∷ rs) f i h = ground (arith, any-put_key q key x s rs)

-- A bound authorization stays bound up to a day after a time that the steps have passed.
Step-bound :
    (ev : Event) (now start : ℕ) (rs next : List IssuanceResultRecord) (id : Bytes)
    → Step ev now rs next
    → start ≤ now
    → now < start + 86400
    → any (is_bound id (start + 86400)) rs ≡ true
    → any (is_bound id (start + 86400)) next ≡ true
unfolding prune_records
Step-bound ev now start rs next id s lo hi h = elim s [
  | prunes e ↦ rw e pruned
  | adds a k b app_id generation expires_at until o c f m e ↦
      rw e (any-append _ (prune_records rs now) _ pruned)
  | updates k x s f d e ↦ rw e (any-put_key _ k x s (prune_records rs now) f (bound k x s d) pruned)
]
  where
    pruned : any (is_bound id (start + 86400)) (prune_records rs now) ≡ true
    pruned = any-retain _ _ rs (λ r i. ground arith) h

    bound :
        (k : IssuanceResultKey) (x s : IssuanceResultRecord)
        → Decided ev k now x s
        → is_bound id (start + 86400) x ≡ true
        → is_bound id (start + 86400) s ≡ true
    bound k x s d i = ground (arith, Decided-key ev k now x s d)

pub Taken-bound :
    (e : Event) (start : ℕ) (rs next : List IssuanceResultRecord) (id : Bytes)
    → Taken e rs next
    → ((now : ℕ) → time e ≡ some now → (start ≤ now) × (now < start + 86400))
    → any (is_bound id (start + 86400)) rs ≡ true
    → any (is_bound id (start + 86400)) next ≡ true
Taken-bound e start rs next id (kept q) t h = rw q h
Taken-bound e start rs next id (moved l few (stays q)) t h = rw q h
Taken-bound e start rs next id (moved l few (steps now k s)) t h =
    Step-bound e now start rs next id s (t now k).0 (t now k).1 h

pub any-last :
    (q : IssuanceResultRecord → Bool) (rs : List IssuanceResultRecord) (r : IssuanceResultRecord)
    → q r ≡ true
    → any q (rs ++ r ∷ []) ≡ true
any-last q [] r h = ground arith
any-last q (s ∷ rs) r h = ground (arith, any-last q rs r h)

any-weaken :
    (p q : IssuanceResultRecord → Bool) (rs : List IssuanceResultRecord)
    → ((r : IssuanceResultRecord) → p r ≡ true → q r ≡ true)
    → any p rs ≡ true
    → any q rs ≡ true
any-weaken p q [] i h = cc
any-weaken p q (r ∷ rs) i h = ground (arith, i r, any-weaken p q rs i)

pub has_authorization-bound :
    (id : Bytes) (until now : ℕ) (rs : List IssuanceResultRecord)
    → now < until
    → any (is_bound id until) rs ≡ true
    → has_authorization id (prune_records rs now) ≡ true
unfolding has_authorization prune_records
has_authorization-bound id until now rs t h =
    any-weaken (is_bound id until) (λ (r : IssuanceResultRecord). r.key.authorization_id == id) _
      (λ r i. ground arith)
      (any-retain (λ (r : IssuanceResultRecord). ltb now r.retained_until_epoch_seconds)
        (is_bound id until) rs (λ r i. ground arith) h)
