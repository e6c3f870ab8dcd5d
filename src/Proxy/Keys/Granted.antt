-- ===== src/Proxy/Keys/Granted.antt =====
-- Whom the admission grants.
use unhardcoded.Prelude.{
  ℕ, String, true, false, ◌≡◌, refl, Option, none, some, List, [], ◌∷◌, keep, All, Bool-cases, inl,
  inr, str_eq, sym, ap, subst, ◌∙◌, ◌⊎◌,
}
use unhardcoded.Proxy.Keys.{
  AuthCode, KeyRecord, Meta, Identity, Auth, denied, granted, Stores, Storage, Known, known,
  unknown, unavailable, is_revoked, has_expired, first_fault, matches, key_record_allows, admit_key,
  admit_record, admit_known, local_identity, truthy, find_caller, caller_auth_of, admit_token,
  ControlPlane, ResolvedKey, is_taken, admit_tenant, admit_consumer, admit_resolved, fall_through,
  caller_auth_async,
}

-- A key record that lets its key pass.
abbrev pub IsUsable : ℕ → KeyRecord → Type 0
IsUsable now k = (is_revoked k ≡ false) × (has_expired now k ≡ false)

unfaulted :
    (now : ℕ) (k : KeyRecord) (ks : List KeyRecord)
    → first_fault now (k ∷ ks) ≡ none
    → IsUsable now k × (first_fault now ks ≡ none)
unfolding first_fault
unfaulted now k ks h = elim (Bool-cases (is_revoked k)) [
  | inl e ↦ let g = rw e at h in absurd cc
  | inr e ↦ elim (Bool-cases (has_expired now k)) [
    | inl f ↦ let g = rw (e, f) at h in absurd cc
    | inr f ↦ let g = rw (e, f) at h in ((e, f), g)
  ]
]

All-IsUsable :
    (now : ℕ) (digest : String) (ks : List KeyRecord)
    → first_fault now (keep (matches digest) ks) ≡ none
    → All (λ k. matches digest k ≡ true → IsUsable now k) ks
All-IsUsable now digest [] h = tt
All-IsUsable now digest (k ∷ ks) h = elim (Bool-cases (matches digest k)) [
  | inl e ↦
      let g = rw e at h in
      let (usable, rest) = unfaulted now k (keep (matches digest) ks) g in
      ((λ m. usable), All-IsUsable now digest ks rest)
  | inr e ↦ let g = rw e at h in ((λ m. absurd cc), All-IsUsable now digest ks g)
]

granted_inj : (i j : Identity) → granted i ≡ granted j → i ≡ j
granted_inj i j h = cc

admit_key-granted :
    (i j : Identity) (o : Option AuthCode) → admit_key i o ≡ granted j → (o ≡ none) × (i ≡ j)
unfolding admit_key
admit_key-granted i j none h = (refl, cc)
admit_key-granted i j (some code) h = absurd cc

-- The record of the caller lets the key pass.
abbrev pub Passes : Stores → Identity → Type 0
Passes s i =
    (s.consumer_meta i.caller ≡ some i.meta)
    × (str_eq i.meta.status "active" ≡ true)
    × All (λ k. matches i.digest k ≡ true → IsUsable s.now k) i.meta.keys

abbrev pub IsLocal : Stores → String → Identity → Type 0
IsLocal s t i = (i.digest ≡ s.sha256 t) × (find_caller s t ≡ known i.caller i.storage) × Passes s i

admit_record-granted :
    (s : Stores) (digest caller : String) (storage : Storage) (o : Option Meta) (i : Identity)
    → s.consumer_meta caller ≡ o
    → admit_record s digest caller storage o ≡ granted i
    → (i.digest ≡ digest) × (known caller storage ≡ known i.caller i.storage) × Passes s i
unfolding admit_record key_record_allows
admit_record-granted s digest caller storage none i e h = absurd cc
admit_record-granted s digest caller storage (some m) i e h =
    elim (Bool-cases (str_eq m.status "active")) [
      | inr f ↦ let g = rw f at h in absurd cc
      | inl f ↦
          let g = rw f at h in
          let (free, same) = admit_key-granted (local_identity digest caller storage m) i _ g in
          subst
            (λ j.
              (j.digest ≡ digest) × (known caller storage ≡ known j.caller j.storage) × Passes s j)
            same (refl, refl, (e, f, All-IsUsable s.now digest m.keys free))
    ]

admit_known-granted :
    (s : Stores) (t : String) (k : Known) (i : Identity)
    → find_caller s t ≡ k
    → admit_known s (s.sha256 t) k ≡ granted i
    → IsLocal s t i
unfolding admit_known
admit_known-granted s t (known caller storage) i e h =
    let (d, k, p) =
      admit_record-granted s (s.sha256 t) caller storage (s.consumer_meta caller) i refl h in
    (d, e ∙ k, p)
admit_known-granted s t unknown i e h = absurd cc
admit_known-granted s t unavailable i e h = absurd cc

token-granted :
    (s : Stores) (o : Option String) (i : Identity)
    → admit_token s o ≡ granted i
    → (t : String) × ((o ≡ some t) × IsLocal s t i)
unfolding admit_token
token-granted s none i h = absurd cc
token-granted s (some t) i h = (t, (refl, admit_known-granted s t (find_caller s t) i refl h))

-- Whom the control plane lets in: the local stores did not name the caller, it answers for an active
-- key of a consumer, and no local consumer has that consumer's name or is inactive under it.
abbrev pub IsTenant : Stores → ControlPlane → String → Identity → Type 0
IsTenant s cp t i =
    (cp.enabled ≡ true)
    × ((code : AuthCode) × (admit_token s (some t) ≡ denied none code))
    × ((k : ResolvedKey) × ((name : String) × ((cp.resolve_key (s.sha256 t) ≡ some k)
            × (k.active ≡ true)
            × (truthy k.consumer ≡ some name)
            × (i.caller ≡ cp.caller_name name)
            × (i.tenant_id ≡ k.tenant_id)
            × (is_taken s i.caller (cp.local_meta i.caller) ≡ false)
            × (str_eq (cp.local_meta i.caller).status "active" ≡ true))))

tenant-granted :
    (s : Stores) (digest caller : String) (k : ResolvedKey) (m : Meta) (i : Identity)
    → admit_tenant s digest caller k m ≡ granted i
    → (i.caller ≡ caller)
      × (i.tenant_id ≡ k.tenant_id)
      × (is_taken s caller m ≡ false)
      × (str_eq m.status "active" ≡ true)
unfolding admit_tenant
tenant-granted s digest caller k m i h = elim (Bool-cases (is_taken s caller m)) [
  | inl e ↦ let g = rw e at h in absurd cc
  | inr e ↦ elim (Bool-cases (str_eq m.status "active")) [
    | inr f ↦ let g = rw (e, f) at h in absurd cc
    | inl f ↦
        let g = rw (e, f) at h in
        let same = granted_inj _ i g in
        (ap (λ j. j.caller) (sym same), ap (λ j. j.tenant_id) (sym same), e, f)
  ]
]

consumer-granted :
    (s : Stores) (cp : ControlPlane) (digest : String) (code : AuthCode) (k : ResolvedKey)
    (o : Option String) (i : Identity)
    → admit_consumer s cp digest (denied none code) k o ≡ granted i
    → (k.active ≡ true)
      × ((name : String) × ((o ≡ some name)
            × (admit_tenant s digest (cp.caller_name name) k (cp.local_meta (cp.caller_name name))
                ≡ granted i)))
unfolding admit_consumer admit_tenant
consumer-granted s cp digest code k none i h = absurd cc
consumer-granted s cp digest code k (some name) i h = elim (Bool-cases k.active) [
  | inl e ↦ let g = rw e at h in (e, (name, (refl, g)))
  | inr e ↦ let g = rw e at h in absurd cc
]

resolved-granted :
    (s : Stores) (cp : ControlPlane) (t : String) (code : AuthCode) (o : Option ResolvedKey)
    (i : Identity)
    → cp.enabled ≡ true
    → admit_token s (some t) ≡ denied none code
    → cp.resolve_key (s.sha256 t) ≡ o
    → admit_resolved s cp (s.sha256 t) (denied none code) o ≡ granted i
    → IsTenant s cp t i
unfolding admit_resolved
resolved-granted s cp t code none i on local e h = absurd cc
resolved-granted s cp t code (some k) i on local e h =
    let (active, (name, (named, tenant))) =
      consumer-granted s cp (s.sha256 t) code k (truthy k.consumer) i h in
    let (called, owner, free, status) =
      tenant-granted s (s.sha256 t) (cp.caller_name name) k (cp.local_meta (cp.caller_name name)) i
        tenant in
    let free' = subst (λ c. is_taken s c (cp.local_meta c) ≡ false) (sym called) free in
    let status' =
      subst (λ c. str_eq (cp.local_meta c).status "active" ≡ true) (sym called) status in
    (on, (code, local), (k, (name, (e, active, named, called, owner, free', status'))))

fall_through-granted :
    (s : Stores) (cp : ControlPlane) (o : Option String) (a : Auth) (i : Identity)
    → admit_token s o ≡ a
    → fall_through s cp o a ≡ granted i
    → (a ≡ granted i) ⊎ ((t : String) × ((o ≡ some t) × IsTenant s cp t i))
unfolding fall_through admit_resolved admit_consumer
fall_through-granted s cp none (denied none code) i e h = absurd cc
fall_through-granted s cp none (denied (some c) code) i e h = absurd cc
fall_through-granted s cp (some t) (denied (some c) code) i e h = absurd cc
fall_through-granted s cp none (granted j) i e h = inl h
fall_through-granted s cp (some t) (granted j) i e h = inl h
fall_through-granted s cp (some t) (denied none code) i e h = elim (Bool-cases cp.enabled) [
  | inr off ↦ let g = rw off at h in absurd cc
  | inl on ↦
      let g = rw on at h in
      inr (t, (refl, resolved-granted s cp t code (cp.resolve_key (s.sha256 t)) i on e refl g))
]

-- A caller is granted only with a token that is not empty, in one of two ways. Its token is in one of
-- the three local stores, under the caller's name; that caller's record was read and is active; and
-- no record of its keys that matches the token's digest is revoked or expired. Or the local stores
-- gave no name, the control plane is enabled and resolves the digest to an active key of a consumer
-- and its tenant, and no local consumer has the resulting name or is inactive under it.
pub caller_auth_async-granted :
    (s : Stores) (cp : ControlPlane) (token : Option String) (i : Identity)
    → caller_auth_async s cp token ≡ granted i
    → (t : String) × ((truthy token ≡ some t) × (IsLocal s t i ⊎ IsTenant s cp t i))
unfolding caller_auth_async
caller_auth_async-granted s cp token i h =
    elim (fall_through-granted s cp (truthy token) (caller_auth_of s token) i refl h) [
      | inl local ↦ let (t, (e, p)) = token-granted s (truthy token) i local in (t, (e, inl p))
      | inr (t, (e, p)) ↦ (t, (e, inr p))
    ]
