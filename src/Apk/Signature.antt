-- ===== src/Apk/Signature.antt =====
-- internal/apk/apk.go: what `verifyAPKIndex` and `verifyAPKPayload` accept.
use mirror_sync.Base.{
  ◌≡◌, ◌≢◌, refl, String, true, Option, none, some, List, [], ◌∷◌, arith, Result, ok, Result-cases,
  Bool-cases, Option-cases, inl, inr, ◌⊎◌, ◌↔◌, ◌∙◌, sym, ap, ok-injective, false, if◌then◌else◌,
  subst,
}
use mirror_sync.Base.Text.{Bytes, str, ◌=ˢ◌, has_prefix, trim_prefix, cut_prefix}
use mirror_sync.Base.Text.Laws.{=ˢ_iff}
use mirror_sync.Safe.{join_path}
use mirror_sync.Apk.{
  Formats, TarMember, Member, read_gzip_member_hash, decode_base64, verify_apk_index,
  split_signed_gzip_tar, load_rsa_public_key, find_index, verify_apk_payload, control_segment_sha1,
  decode_apk_checksum,
}

-- A member of an archive.
abbrev pub MemberOf : TarMember → List TarMember → Type 0
MemberOf m [] = ⊥
MemberOf m (n ∷ ns) = (m ≡ n) ⊎ MemberOf m ns

module _ {Key S : Type 0} (formats : Formats Key) (consume : TarMember → Result String S) where
  find_index_lem :
      (ms : List TarMember) (failure : Option String) {s : S}
      → find_index formats consume ms failure ≡ ok s
      → (m : TarMember) × MemberOf m ms × (m.name ≡ str "APKINDEX") × (consume m ≡ ok s)
  unfolding find_index
  find_index_lem [] (some x) e = absurd (ground arith)
  find_index_lem [] none e = absurd (ground arith)
  find_index_lem (m ∷ ms) failure e = elim (Bool-cases (m.name =ˢ str "APKINDEX")) [
    | inl h ↦ (m, inl refl, (=ˢ_iff m.name (str "APKINDEX")).0 h, rw h at e)
    | inr h ↦
        let (n, at, named, used) = find_index_lem ms failure (rw h at e) in (n, inr at, named, used)
  ]

  -- The bytes that carry a valid signature of the key in the file that the directory joined with
  -- the signature's name gives, and the member of them that
  -- was consumed.
  abbrev pub SignedUse : (Bytes → Option Bytes) → Bytes → Bytes → S → Type 0
  SignedUse read keys_dir text s =
      (parts : Bytes × Bytes × Bytes) × (key : Key) × (members : List TarMember × Option String)
      × (m : TarMember) × (split_signed_gzip_tar formats text ≡ ok parts)
      × (load_rsa_public_key formats (read (join_path keys_dir parts.1)) ≡ ok key)
      × (formats.verify_pkcs1v15 key (formats.sha1 parts.2) parts.0 ≡ true)
      × (formats.untar parts.2 ≡ some members)
      × MemberOf m members.0
      × (m.name ≡ str "APKINDEX")
      × (consume m ≡ ok s)

  -- Nothing of an index is used unless its signature is valid: a result comes from a member named
  -- APKINDEX of the very bytes whose hash the named key's signature covers.
  pub verify_apk_index_lem :
      (read : Bytes → Option Bytes) (keys_dir text : Bytes) {s : S}
      → verify_apk_index formats read keys_dir text consume ≡ ok s
      → SignedUse read keys_dir text s
  unfolding verify_apk_index
  verify_apk_index_lem read keys_dir text {s} e =
      elim (Result-cases (split_signed_gzip_tar formats text)) [
        | inr (x, bad) ↦ absurd (ground (arith, rw bad at e))
        | inl (parts, split) ↦
            elim (Result-cases (load_rsa_public_key formats (read (join_path keys_dir parts.1)))) [
              | inr (x, bad) ↦ absurd (ground (arith, rw (split, bad) at e))
              | inl (key, loaded) ↦ elim (Option-cases (formats.untar parts.2)) [
                | inl bad ↦ absurd (ground arith)
                | inr (members, opened) ↦
                    let valid : formats.verify_pkcs1v15 key (formats.sha1 parts.2) parts.0 ≡ true =
                      ground arith in
                    let found : find_index formats consume members.0 members.1 ≡ ok s =
                      ground arith in
                    let (m, inside, named, used) = find_index_lem members.0 members.1 found in
                    (parts, key, members, m, split, loaded, valid, opened, inside, named, used)
              ]
            ]
      ]

-- The bytes of the gzip member that `member` begins, and the name of the first tar member in it.
module _ {Key : Type 0} (formats : Formats Key) where
  abbrev pub Begins : Bytes → Member → Bytes → Type 0
  Begins content member name =
      (first : TarMember) × (formats.gunzip content ≡ some member)
      × (formats.first_member member.content ≡ some first)
      × (first.name ≡ name)

  -- The control segment is the first gzip member of the file, or the second one if the first holds
  -- a signature, a tar member whose name begins with `.SIGN.`.
  abbrev pub IsControlSegment : Bytes → Member → Type 0
  IsControlSegment file segment =
      (member : Member) × (name : Bytes) × Begins file member name
      × (((has_prefix name (str ".SIGN.") ≡ false) × (segment ≡ member))
          ⊎ ((has_prefix name (str ".SIGN.") ≡ true)
              × ((inner : Bytes) × Begins member.behind segment inner)))

  read_member_lem :
      (content hash name behind : Bytes)
      → (read_gzip_member_hash formats content ≡ ok (hash, name, behind)) ↔ (
          (member : Member) × Begins content member name
          × (formats.sha1 member.raw ≡ hash)
          × (member.behind ≡ behind))
  unfolding read_gzip_member_hash
  read_member_lem content hash name behind = (
    λ e. elim (Option-cases (formats.gunzip content)) [
      | inl bad ↦ absurd (ground (arith, rw bad at e))
      | inr (m, opened) ↦ elim (Option-cases (formats.first_member m.content)) [
        | inl bad ↦ absurd (ground (arith, rw (opened, bad) at e))
        | inr (first, found) ↦
            let same : Path (Result String (Bytes × Bytes × Bytes))
                (ok (formats.sha1 m.raw, first.name, m.behind)) (ok (hash, name, behind)) =
              rw (opened, found) at e in
            (m, (first, opened, found, cc), cc, cc)
      ]
    ],
    λ (m, (first, opened, found, named), hashed, rest).
        rw (opened, found, named, hashed, rest) refl,
  )

  control_segment_sha1_iff :
      (file hash : Bytes)
      → (control_segment_sha1 formats file ≡ ok hash)
        ↔ ((segment : Member) × IsControlSegment file segment × (formats.sha1 segment.raw ≡ hash))
  unfolding control_segment_sha1
  control_segment_sha1_iff file hash = (
    λ e. elim (Result-cases (read_gzip_member_hash formats file)) [
      | inr (x, bad) ↦ absurd (ground (arith, rw bad at e))
      | inl ((h, name, behind), read) ↦
          let (member, begins, hashed, rest) = (read_member_lem file h name behind).0 read in
          elim (Bool-cases (has_prefix name (str ".SIGN."))) [
            | inr absent ↦ (
              member,
              (member, name, begins, inl (absent, refl)),
              hashed ∙ ok-injective _ _ (rw (read, absent) at e),
            )
            | inl present ↦ elim (Result-cases (read_gzip_member_hash formats behind)) [
              | inr (x, bad) ↦ absurd (ground (arith, rw (read, present, bad) at e))
              | inl ((h', inner, behind'), again) ↦
                  let (segment, begins', hashed', _) =
                    (read_member_lem behind h' inner behind').0 again in
                  (
                    segment,
                    (
                      member,
                      name,
                      begins,
                      inr (
                        present,
                        (inner, subst (λ b. Begins b segment inner) (sym rest) begins'),
                      ),
                    ),
                    hashed' ∙ ok-injective _ _ (rw (read, present, again) at e),
                  )
            ]
          ]
    ],
    λ (segment, (member, name, begins, which), hashed). back segment member name which hashed (
        (read_member_lem file (formats.sha1 member.raw) name member.behind).1
          (member, begins, refl, refl)),
  )
    where
      back :
          (segment member : Member) (name : Bytes)
          → ((has_prefix name (str ".SIGN.") ≡ false) × (segment ≡ member))
            ⊎ ((has_prefix name (str ".SIGN.") ≡ true)
                × ((inner : Bytes) × Begins member.behind segment inner))
          → formats.sha1 segment.raw ≡ hash
          → read_gzip_member_hash formats file ≡ ok (formats.sha1 member.raw, name, member.behind)
          → control_segment_sha1 formats file ≡ ok hash
      back segment member name (inl (absent, same)) hashed read =
          rw (read, absent) (ap (λ (m : Member). ok (formats.sha1 m.raw)) (sym same) ∙ ap ok hashed)
      back segment member name (inr (present, (inner, begins))) hashed read =
          rw
            (
              read,
              present,
              (read_member_lem member.behind hash inner segment.behind).1
                  (segment, begins, hashed, refl),
            )
            refl

-- The text behind a prefix Q1, if it has one.
abbrev pub IsDigits : Bytes → Bytes → Type 0
IsDigits checksum digits =
    (checksum ≡ b'Q' ∷ (b'1' ∷ digits))
    ⊎ ((has_prefix checksum (str "Q1") ≡ false) × (checksum ≡ digits))

-- The hash in base64, with its padding or else without.
abbrev pub Decodes : Bytes → Bytes → Type 0
Decodes checksum hash =
    (digits : Bytes) × IsDigits checksum digits
    × ((decode_base64 true digits ≡ some hash)
        ⊎ ((decode_base64 true digits ≡ none) × (decode_base64 false digits ≡ some hash)))

abbrev digits_of : Bytes → Bytes
digits_of s = if has_prefix s (str "Q1") then trim_prefix s (str "Q1") else s

digits_lem : (s : Bytes) → IsDigits s (digits_of s)
unfolding has_prefix trim_prefix cut_prefix
digits_lem [] = inr (refl, refl)
digits_lem (c ∷ []) = inr (ground arith, ground arith)
digits_lem (c ∷ d ∷ s) = elim (Bool-cases (has_prefix (c ∷ d ∷ s) (str "Q1"))) [
  | inl present ↦ inl (ground arith)
  | inr absent ↦ inr (absent, ground arith)
]

digits_unique : (s t : Bytes) → IsDigits s t → digits_of s ≡ t
unfolding has_prefix trim_prefix cut_prefix
digits_unique s t (inl e) = rw e refl
digits_unique s t (inr (absent, e)) = rw absent e

decode_apk_checksum_iff :
    (checksum hash : Bytes) → (decode_apk_checksum checksum ≡ some hash) ↔ Decodes checksum hash
unfolding decode_apk_checksum
decode_apk_checksum_iff checksum hash = (
  λ e. elim (Option-cases (decode_base64 true (digits_of checksum))) [
    | inl absent ↦ (digits_of checksum, digits_lem checksum, inr (absent, rw absent at e))
    | inr (b, present) ↦ (digits_of checksum, digits_lem checksum, inl (present ∙ rw present at e))
  ],
  λ (t, digits, found). back t (digits_unique checksum t digits) found,
)
  where
    back :
        (t : Bytes)
        → digits_of checksum ≡ t
        → (decode_base64 true t ≡ some hash)
          ⊎ ((decode_base64 true t ≡ none) × (decode_base64 false t ≡ some hash))
        → decode_apk_checksum checksum ≡ some hash
    back t same (inl e) = rw (same, e) refl
    back t same (inr (absent, e)) = rw (same, absent) e

-- A payload is accepted exactly if its index entry has a checksum, and that is, in base64 with or
-- without padding and behind a prefix Q1 or without one, the SHA-1 hash of the bytes of the file's
-- control segment: its first gzip member, or the second one if the first holds a signature.
pub verify_apk_payload_iff :
    {Key : Type 0} (formats : Formats Key) (file checksum : Bytes)
    → (verify_apk_payload formats file checksum ≡ ok tt) ↔ (
        (checksum ≢ [])
        × ((segment : Member) × IsControlSegment formats file segment
            × Decodes checksum (formats.sha1 segment.raw)))
unfolding verify_apk_payload
verify_apk_payload_iff formats file [] = (λ e. absurd (ground arith), λ h. absurd (h.0 refl))
verify_apk_payload_iff formats file (c ∷ checksum) = (
  λ e. elim (Result-cases (control_segment_sha1 formats file)) [
    | inr (x, bad) ↦ absurd (ground (arith, rw bad at e))
    | inl (got, hashed) ↦ elim (Option-cases (decode_apk_checksum (c ∷ checksum))) [
      | inl bad ↦ absurd (ground (arith, rw (hashed, bad) at e))
      | inr (want, decoded) ↦
          let same : got ≡ want = ground (arith, =ˢ_iff got want, rw (hashed, decoded) at e) in
          let (segment, at, hash) = (control_segment_sha1_iff formats file got).0 hashed in
          (
            ground arith,
            (
              segment,
              at,
              (decode_apk_checksum_iff (c ∷ checksum) (formats.sha1 segment.raw)).0
                  (decoded ∙ ap some (sym (hash ∙ same))),
            ),
          )
    ]
  ],
  λ (_, (segment, at, decodes)).
      let hash = formats.sha1 segment.raw in
      rw
        (
          (control_segment_sha1_iff formats file hash).1 (segment, at, refl),
          (decode_apk_checksum_iff (c ∷ checksum) hash).1 decodes,
          (=ˢ_iff hash hash).1 refl,
        )
        refl,
)
