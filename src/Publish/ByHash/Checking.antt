-- ===== src/Publish/ByHash/Checking.antt =====
-- What `verifyRegularNoSymlink` of internal/publish/publish.go has seen.
use mirror_sync.Base.{◌≡◌, refl, Bool, true, false, Option, none, some, length, subst}
use mirror_sync.Base.Int.{pos, ◌==ℤ◌, ==ℤ_iff}
use mirror_sync.Base.Text.{Bytes, equal_fold, to_upper}
use mirror_sync.Model.{ByHashFile}
use mirror_sync.World.{World, Node, regular, special, Env, Files, call, op_stat}
use mirror_sync.World.Hoare.{Post, Run, bind, weaken}
use mirror_sync.World.Keeps.{At, call-Keeps}
use mirror_sync.Publish.{supported_hash, checksum_file}
use mirror_sync.Publish.Checks.{Digested, checksum_file-Run}
use mirror_sync.Publish.ByHash.{verify_sized, verify_regular, verify_regular_no_symlink}

-- The file at the path is a regular one with the size and the digest.
abbrev pub Hashed : Env → ByHashFile → Bytes → Files → Type 0
Hashed env expected p files =
    (content : Bytes) × (files p ≡ some (regular content))
    × (pos (length content) ≡ expected.size)
    × (supported_hash expected.algorithm ≡ true)
    × (equal_fold (env.digest (to_upper expected.algorithm) content) expected.digest ≡ true)

module _ (env : Env) (expected : ByHashFile) (F : Files → Type 0) (p : Bytes) where
  abbrev Seen : Bool → World → Type 0
  Seen b w = At F w × (b ≡ true → Hashed env expected p w.files)

  pub verify_regular_no_symlink-Run :
      Run
        (At F)
        (verify_regular_no_symlink env p expected.size expected.algorithm expected.digest)
        Seen
        (At F)
  unfolding verify_regular_no_symlink
  verify_regular_no_symlink-Run =
      bind (λ _. At F) Seen (At F) (At F) (call env op_stat p) _ (call-Keeps env F op_stat p)
        (λ _ w h. found w h (w.files p) refl)
    where
      There : Bytes → Files → Type 0
      There content files = F files × (files p ≡ some (regular content))

      sized :
          (w : World) (content : Bytes) (b : Bool)
          → (pos (length content) ==ℤ expected.size) ≡ b
          → F w.files
          → w.files p ≡ some (regular content)
          → Post Seen (At F) (verify_sized env p expected.algorithm expected.digest content b w)
      sized w content false _ h e = (h, λ bad. absurd (cc))
      sized w content true same h e =
          bind (Digested env (There content) p content expected.algorithm) Seen (At F)
            (At (There content)) _ _
            (weaken (Digested env (There content) p content expected.algorithm)
              (Digested env (There content) p content expected.algorithm) (At (There content))
              (At F) (At (There content)) (checksum_file env p expected.algorithm content)
              (checksum_file-Run env (There content) p content expected.algorithm) (λ a w' k. k)
              (λ w' k. k.0))
            (λ got w' k. (
              k.0.0,
              λ equal. (
                content,
                k.0.1,
                (==ℤ_iff (pos (length content)) expected.size).0 same,
                k.1,
                subst (λ d. equal_fold d expected.digest ≡ true) k.2 equal,
              ),
            ))
            w (h, e)

      found :
          (w : World)
          → F w.files
          → (o : Option Node) → w.files p ≡ o
          → Post Seen
              (At F)
              (verify_regular env p expected.size expected.algorithm expected.digest o w)
      found w h none e = (h, λ bad. absurd (cc))
      found w h (some special) e = (h, λ bad. absurd (cc))
      found w h (some (regular content)) e = sized w content _ refl h e
