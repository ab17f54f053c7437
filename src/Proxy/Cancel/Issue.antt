-- ===== src/Proxy/Cancel/Issue.antt =====
-- The keys that `issue` draws, against the registry before and after.
use pg_k8s_proxy.Common.{
  ◌^◌, ◌≤◌, ◌<◌, ◌≡◌, ◌≢◌, refl, Bytes, Option, none, some, List, [], ◌∷◌, lookup, erase,
  lookup-insert, lookup-erase, if◌then◌else◌, arith, length, Option-cases, inl, inr, All, ◌⊎◌,
}
use pg_k8s_proxy.Wire.Startup.{CancelRequest}
use pg_k8s_proxy.Proxy.Cancel.{
  key_eq, key_eq_iff, cancel_keys, CancelEntry, CancelRegistry, random_cancel_key, issue, release,
}

-- What a call of `issue` guarantees.
pub record Issued (entry : CancelEntry) (before after : CancelRegistry) (key : CancelRequest)
    : Type 0 where
  pub fresh : lookup key before ≡ none
  pub not_negative : key.process_id < 2 ^ 31
  pub found :
      (j : CancelRequest) → lookup j after ≡ (if key_eq key j then some entry else lookup j before)

-- What `issue` has returned is as `Issued` says.
pub issue-some-Issued :
    (draws : List Bytes) (entry : CancelEntry) (entries : CancelRegistry) {key : CancelRequest}
    {after : CancelRegistry} {left : List Bytes}
    → issue draws entry entries ≡ some (key, after, left)
    → Issued entry entries after key
unfolding issue
issue-some-Issued [] entry entries h = cc
issue-some-Issued (buf ∷ draws) entry entries {key} {after} h =
    elim (Option-cases (lookup (random_cancel_key buf) entries)) [
      | inr (_, taken) ↦ issue-some-Issued draws entry entries (rw (taken, issue) at h)
      | inl free ↦
          let (k, a) = issued_is (random_cancel_key buf) draws (rw (free, issue) at h) in
          record {
            fresh = rw k free;
            not_negative = rw k (unfold random_cancel_key in omega arith);
            found = λ j. rw (k, a) (lookup-insert (random_cancel_key buf) j entry entries);
          }
    ]
  where
    issued_is :
        {a : CancelRegistry} {l : List Bytes} (k : CancelRequest) (left : List Bytes)
        → ◌≡◌ {A = Option (CancelRequest × CancelRegistry × List Bytes)}
            (some (k, a, left))
            (some (key, after, l))
        → (key ≡ k) × (after ≡ a)
    issued_is k left e = (cc, cc)

-- However a session ends, releasing its key leaves the registry as it was before the key was
-- issued.
pub release-issue :
    (draws : List Bytes) (entry : CancelEntry) (entries : CancelRegistry) (j : CancelRequest)
    {key : CancelRequest} {after : CancelRegistry} {left : List Bytes}
    → issue draws entry entries ≡ some (key, after, left)
    → lookup j (release key after) ≡ lookup j entries
release-issue draws entry entries j {key} {after} h =
    let i = issue-some-Issued draws entry entries h in
    ground (arith, lookup-erase key j after, i.found j, i.fresh, key_eq_iff key j)

abbrev pub keys_of : List Bytes → List CancelRequest
keys_of [] = []
keys_of (buf ∷ draws) = random_cancel_key buf ∷ keys_of draws

abbrev pub AreDistinct : List CancelRequest → Type 0
AreDistinct [] = Unit
AreDistinct (k ∷ ks) = All (λ j. j ≢ k) ks × AreDistinct ks

erase-le : (k : CancelRequest) (m : CancelRegistry) → length (erase k m) ≤ length m
unfolding erase
erase-le k [] = omega arith
erase-le k ((j, v) ∷ m) = ground (arith, erase-le k m)

erase-lt :
    (k : CancelRequest) (m : CancelRegistry) {v : CancelEntry}
    → lookup k m ≡ some v
    → length (erase k m) < length m
unfolding erase lookup
erase-lt k [] h = cc
erase-lt k ((j, w) ∷ m) {v} h = ground (arith, erase-lt k m {v = v}, erase-le k m)

abbrev pub AreTaken : CancelRegistry → List CancelRequest → Type 0
AreTaken m = All (λ k. (v : CancelEntry) × (lookup k m ≡ some v))

AreTaken-erase :
    (k : CancelRequest) (m : CancelRegistry) (ks : List CancelRequest)
    → All (λ j. j ≢ k) ks
    → AreTaken m ks
    → AreTaken (erase k m) ks
AreTaken-erase k m [] n t = tt
AreTaken-erase k m (j ∷ ks) n ((v, e), t) =
    ((v, ground (arith, lookup-erase k j m, key_eq_iff k j, e, n.0)), AreTaken-erase k m ks n.1 t)

-- Distinct keys that are all in use are no more than the entries.
taken-le-length :
    (ks : List CancelRequest) (m : CancelRegistry)
    → AreDistinct ks
    → AreTaken m ks
    → length ks ≤ length m
taken-le-length [] m d t = omega arith
taken-le-length (k ∷ ks) m d ((v, e), t) =
    omega (arith, taken-le-length ks (erase k m) d.1 (AreTaken-erase k m ks d.0 t), erase-lt k m e)

all_taken :
    (draws : List Bytes) (entry : CancelEntry) (entries : CancelRegistry)
    → issue draws entry entries ≡ none
    → AreTaken entries (keys_of draws)
unfolding issue
all_taken [] entry entries h = tt
all_taken (buf ∷ draws) entry entries h =
    elim (Option-cases (lookup (random_cancel_key buf) entries)) [
      | inr (v, taken) ↦ ((v, taken), all_taken draws entry entries (rw (taken, issue) at h))
      | inl free ↦ absurd (cc (rw (free, issue) at h))
    ]

length-keys_of : (draws : List Bytes) → length (keys_of draws) ≡ length draws
length-keys_of [] = refl
length-keys_of (buf ∷ draws) = omega (arith, length-keys_of draws)

-- The loop ends at the latest at the first of more distinct draws than there are entries.
issue_total :
    (draws : List Bytes) (entry : CancelEntry) (entries : CancelRegistry)
    → AreDistinct (keys_of draws)
    → length entries < length draws
    → issue draws entry entries ≢ none
issue_total draws entry entries d n h = omega (
  arith,
  taken-le-length (keys_of draws) entries d (all_taken draws entry entries h),
  length-keys_of draws,
)

-- `issue` returns unless every key that it draws is in use. The key that it returns was not in use,
-- its process id is an int32 that is not negative, it leads to the entry that was recorded, and no
-- other key is affected.
pub issue-Issued :
    (draws : List Bytes) (entry : CancelEntry) (entries : CancelRegistry)
    → (AreTaken entries (keys_of draws) × (issue draws entry entries ≡ none))
      ⊎ ((key : CancelRequest) × (after : CancelRegistry) × (left : List Bytes) × (issue draws entry
              entries
            ≡ some (key, after, left))
          × Issued entry entries after key)
issue-Issued draws entry entries = elim (Option-cases (issue draws entry entries)) [
  | inl e ↦ inl (all_taken draws entry entries e, e)
  | inr ((key, after, left), e) ↦ inr (key, after, left, e, issue-some-Issued draws entry entries e)
]
