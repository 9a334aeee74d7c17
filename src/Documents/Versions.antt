-- ===== src/Documents/Versions.antt =====
-- The version history of a document.
use orchestract.Common.{
  ℕ, ◌+◌, ◌≡◌, refl, sym, subst, some, List, [], ◌∷◌, ◌++◌, arith, length, length-append,
  last-append, Text, ok,
}
use orchestract.Documents.{
  DocumentVersion, Document, Upload, create_document, add_version, latest_version,
  set_document_summary,
}

-- The versions are numbered n + 1, n + 2 and so on.
abbrev pub NumberedFrom : ℕ → List DocumentVersion → Type 0
NumberedFrom n [] = Unit
NumberedFrom n (v ∷ vs) = (v.version_no ≡ n + 1) × NumberedFrom (n + 1) vs

pub record IsNumbered (d : Document) : Type 0 where
  pub numbered : NumberedFrom 0 d.versions
  pub current : d.current_version_no ≡ length d.versions

-- The documents that calls of the methods lead to.
pub data Kept : Document → Type 0 where
  created : (name : Text) {d : Document} → create_document name ≡ ok d → Kept d
  uploaded :
      {d d' : Document} (u : Upload) (now : ℕ) → Kept d → d' ≡ (add_version u now d).1 → Kept d'
  summarised :
      {d d' : Document} (summary : Text) (now : ℕ)
      → Kept d
      → d' ≡ set_document_summary summary now d
      → Kept d'

NumberedFrom-append :
    (n : ℕ) (vs : List DocumentVersion) (v : DocumentVersion)
    → NumberedFrom n vs
    → v.version_no ≡ n + length vs + 1
    → NumberedFrom n (vs ++ v ∷ [])
NumberedFrom-append n [] v h e = (omega arith, tt)
NumberedFrom-append n (x ∷ vs) v h e = (h.0, NumberedFrom-append (n + 1) vs v h.1 (omega arith))

created-IsNumbered : (name : Text) (d : Document) → create_document name ≡ ok d → IsNumbered d
unfolding create_document
created-IsNumbered name d h =
    let e : d.versions ≡ [] = ground arith in
    record { numbered = rw e tt; current = rw e (ground arith) }

uploaded-IsNumbered :
    (u : Upload) (now : ℕ) (d d' : Document)
    → IsNumbered d
    → d' ≡ (add_version u now d).1
    → IsNumbered d'
unfolding add_version
uploaded-IsNumbered u now d d' k e =
    let v = (add_version u now d).0 in
    subst IsNumbered (sym e) (record {
      numbered = NumberedFrom-append 0 d.versions v k.numbered (omega (arith, k.current));
      current = omega (arith, length-append d.versions (v ∷ []), k.current);
    })

summarised-IsNumbered :
    (summary : Text) (now : ℕ) (d d' : Document)
    → IsNumbered d
    → d' ≡ set_document_summary summary now d
    → IsNumbered d'
unfolding set_document_summary
summarised-IsNumbered summary now d d' k e =
    subst IsNumbered (sym e) (record { numbered = k.numbered; current = k.current })

-- However its methods are called, the versions of a document are numbered 1, 2, 3 and so on, and
-- its current number is how many there are.
pub Kept-IsNumbered : {d : Document} → Kept d → IsNumbered d
Kept-IsNumbered (created name {d} h) = created-IsNumbered name d h
Kept-IsNumbered (uploaded {d} {d'} u now k e) = uploaded-IsNumbered u now d d' (Kept-IsNumbered k) e
Kept-IsNumbered (summarised {d} {d'} summary now k e) =
    summarised-IsNumbered summary now d d' (Kept-IsNumbered k) e

-- After an upload the latest version is the one uploaded; it carries the next number and the
-- storage key, and the versions before it are as they were.
pub latest_version-add_version :
    (u : Upload) (now : ℕ) (d : Document)
    → let (v, d') = add_version u now d in
      (latest_version d' ≡ some v)
      × (v.version_no ≡ d.current_version_no + 1)
      × (v.version_no ≡ d'.current_version_no)
      × (v.storage_key ≡ u.storage_key)
      × (d'.versions ≡ d.versions ++ v ∷ [])
unfolding add_version latest_version
latest_version-add_version u now d = (last-append d.versions _, refl, refl, refl, refl)
