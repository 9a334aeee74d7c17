-- ===== src/Sharing/Access.antt =====
-- What a share link gives access to, and for how long.
use orchestract.Common.{
  ℕ, ◌+◌, ◌<◌, ◌≡◌, refl, ◌∙◌, ◌↔◌, ◌⊎◌, Bool, true, false, not, ◌&&◌, Option, none, some, List, [],
  ◌∷◌, arith, ◌==◌, any, filter, Text, ok,
}
use orchestract.Passwords.{Bytes, Scrypt}
use orchestract.Sharing.{
  ShareScope, contract, ShareLink, member, unique, issue, is_active, allows_document, revoke,
  record_access,
}

member-filter_ne :
    (n k : ℕ) (ns : List ℕ)
    → member k (filter (λ m. not (m == n)) ns) ≡ (not (k == n) && member k ns)
unfolding any filter
member-filter_ne n k [] = ground arith
member-filter_ne n k (m ∷ ns) = ground (arith, member-filter_ne n k ns)

-- Removing repetitions keeps what the list names.
member-unique : (k : ℕ) (ns : List ℕ) → member k (unique ns) ≡ member k ns
unfolding unique any
member-unique k [] = refl
member-unique k (n ∷ ns) = ground (arith, member-filter_ne n k (unique ns), member-unique k ns)

module _ (scrypt : Scrypt) (salt : Bytes) (token : Text) (now contract_id : ℕ) (scope : ShareScope)
    (allow_download : Bool) (ttl : ℕ) (created_by : Text) (ids : List ℕ) (raw : Option Text)
    (l : ShareLink)
    (issued : issue scrypt salt token now contract_id scope allow_download ttl created_by ids raw
      ≡ ok l) where
  -- A fresh link shows a document exactly if its scope is the whole contract, or the document is
  -- among those it was issued for.
  pub allows_document-issue :
      (document_id : ℕ)
      → (allows_document document_id l ≡ true)
        ↔ ((scope ≡ contract) ⊎ (member document_id ids ≡ true))
  unfolding issue allows_document
  allows_document-issue document_id = ground (arith, member-unique document_id ids)

  -- A link that was just issued is active, from its issue on, for exactly its time to live.
  pub is_active-issue : (elapsed : ℕ) → (is_active (now + elapsed) l ≡ true) ↔ (elapsed < ttl)
  unfolding issue is_active
  is_active-issue elapsed = ground arith

-- What may happen to a link once it is issued.
pub data Change (l : ShareLink) : ShareLink → Type 0 where
  revoked : {l' : ShareLink} (now : ℕ) → l' ≡ revoke now l → Change l l'
  accessed : {l' : ShareLink} (now : ℕ) → l' ≡ record_access now l → Change l l'

pub data Changes (l : ShareLink) : ShareLink → Type 0 where
  same : Changes l l
  then_change : {m n : ShareLink} → Changes l m → Change m n → Changes l n

abbrev pub is_revoked : ShareLink → Bool
is_revoked l = elim l.revoked_at [ none ↦ false | some _ ↦ true ]

-- What no change touches, and a revocation that none takes back.
pub record Kept (l l' : ShareLink) : Type 0 where
  pub revocation : is_revoked l ≡ true → l'.revoked_at ≡ l.revoked_at
  pub expiry : l'.expires_at ≡ l.expires_at
  pub scope : l'.scope ≡ l.scope
  pub documents : l'.document_ids ≡ l.document_ids
  pub password : l'.password_hash ≡ l.password_hash

Change-Kept : {l l' : ShareLink} → Change l l' → Kept l l'
unfolding revoke record_access
Change-Kept (revoked now e) = record {
  revocation = λ r. ground arith;
  expiry = ground arith;
  scope = ground arith;
  documents = ground arith;
  password = ground arith;
}
Change-Kept (accessed now e) = record {
  revocation = λ r. ground arith;
  expiry = ground arith;
  scope = ground arith;
  documents = ground arith;
  password = ground arith;
}

-- Whatever happens to a link after its issue, its expiry, scope, documents and password stay as
-- they were, and a revocation keeps its date.
pub Changes-Kept : {l l' : ShareLink} → Changes l l' → Kept l l'
Changes-Kept same = record {
  revocation = λ r. refl;
  expiry = refl;
  scope = refl;
  documents = refl;
  password = refl;
}
Changes-Kept (then_change cs c) =
    let before = Changes-Kept cs in
    let after = Change-Kept c in
    record {
      revocation =
          λ r. after.revocation (ground (arith, before.revocation r)) ∙ before.revocation r;
      expiry = after.expiry ∙ before.expiry;
      scope = after.scope ∙ before.scope;
      documents = after.documents ∙ before.documents;
      password = after.password ∙ before.password;
    }

-- A revoked link stays inactive, whatever happens to it afterwards and at every later time.
pub revoke_final :
    (l : ShareLink) (now later : ℕ) {l' : ShareLink}
    → Changes (revoke now l) l'
    → is_active later l' ≡ false
unfolding revoke is_active
revoke_final l now later c =
    let kept = Changes-Kept c in ground (arith, kept.revocation (ground arith))
