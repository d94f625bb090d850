-- ===== src/Apt/Signed/Structure.antt =====
-- A clearsigned document that passes the structure test has one signed message and one signature.
use mirror_sync.Base.{ℕ, ◌+◌, ◌≡◌, refl, true, false, List, [], ◌∷◌, arith, if◌then◌else◌, ok}
use mirror_sync.Base.Text.{Bytes, str, ◌=ˢ◌, is_empty, has_prefix, trim_space, split}
use mirror_sync.Base.Text.Laws.{=ˢ_iff}
use mirror_sync.Apt.Signed.{
  signed_begin, sig_begin, chomp, crlf_to_lf, clear_trailer, clear_signature, clear_body,
  clear_headers, clear_document, validate_clearsigned_structure,
}

-- How many lines are this one, up to a carriage return at the end.
pub occurs : Bytes → List Bytes → ℕ
occurs x [] = 0
occurs x (l ∷ ls) = (if chomp l =ˢ x then 1 else 0) + occurs x ls

not_blank :
    (x l : Bytes)
    → is_empty (trim_space x) ≡ false
    → is_empty (trim_space (chomp l)) ≡ true
    → (chomp l =ˢ x) ≡ false
not_blank x l h k = ground (arith, =ˢ_iff (chomp l) x)

trailer_occurs :
    (x : Bytes) (ls : List Bytes)
    → is_empty (trim_space x) ≡ false
    → clear_trailer ls ≡ ok tt
    → occurs x ls ≡ 0
unfolding clear_trailer occurs
trailer_occurs x [] h k = refl
trailer_occurs x (l ∷ ls) h k = ground (arith, not_blank x l h, trailer_occurs x ls h)

signature_occurs :
    (ls : List Bytes)
    → clear_signature ls ≡ ok tt
    → (occurs sig_begin ls ≡ 0) × (occurs signed_begin ls ≡ 0)
unfolding clear_signature occurs
signature_occurs [] h = absurd (cc)
signature_occurs (l ∷ ls) h = ground (
  arith,
  signature_occurs ls,
  trailer_occurs sig_begin ls (unfold trim_space in refl),
  trailer_occurs signed_begin ls (unfold trim_space in refl),
)

body_occurs :
    (ls : List Bytes)
    → clear_body ls ≡ ok tt
    → (occurs sig_begin ls ≡ 1) × (occurs signed_begin ls ≡ 0)
unfolding clear_body occurs
body_occurs [] h = absurd (cc)
body_occurs (l ∷ ls) h = ground (arith, body_occurs ls, signature_occurs ls)

not_header :
    (x l : Bytes)
    → has_prefix x (str "-----BEGIN PGP ") ≡ true
    → has_prefix (chomp l) (str "-----BEGIN PGP ") ≡ false
    → (chomp l =ˢ x) ≡ false
not_header x l h k = ground (arith, =ˢ_iff (chomp l) x)

not_empty : (x l : Bytes) → is_empty x ≡ false → is_empty (chomp l) ≡ true → (chomp l =ˢ x) ≡ false
not_empty x l h k = ground (arith, =ˢ_iff (chomp l) x)

headers_occurs :
    (ls : List Bytes)
    → clear_headers ls ≡ ok tt
    → (occurs sig_begin ls ≡ 1) × (occurs signed_begin ls ≡ 0)
unfolding clear_headers occurs
headers_occurs [] h = absurd (cc)
headers_occurs (l ∷ []) h = ground arith
headers_occurs (l ∷ m ∷ ls) h = ground (
  arith,
  headers_occurs (m ∷ ls),
  body_occurs (m ∷ ls),
  not_empty sig_begin l refl,
  not_empty signed_begin l refl,
  not_header sig_begin l (unfold has_prefix in refl),
  not_header signed_begin l (unfold has_prefix in refl),
)

document_occurs :
    (ls : List Bytes)
    → clear_document ls ≡ ok tt
    → (occurs sig_begin ls ≡ 1) × (occurs signed_begin ls ≡ 1)
unfolding clear_document occurs
document_occurs [] h = absurd (cc)
document_occurs (l ∷ ls) h =
    ground (arith, headers_occurs ls, =ˢ_iff (chomp l) signed_begin, =ˢ_iff (chomp l) sig_begin)

-- A document that passes the structure test has exactly one line that opens a signed message and
-- exactly one that opens a signature.
pub validate_clearsigned_structure-occurs :
    (document : Bytes)
    → validate_clearsigned_structure document ≡ ok tt
    → (occurs sig_begin (split (crlf_to_lf document) b'\n') ≡ 1)
      × (occurs signed_begin (split (crlf_to_lf document) b'\n') ≡ 1)
unfolding validate_clearsigned_structure
validate_clearsigned_structure-occurs document h =
    document_occurs (split (crlf_to_lf document) b'\n') h
