-- ===== src/Publish/Checks.antt =====
-- What a verification that answers true has seen.
use mirror_sync.Base.{
  ◌≡◌, refl, Bool, true, false, Option, none, some, List, [], ◌∷◌, All, length, subst,
}
use mirror_sync.Base.Int.{pos, ==ℤ_iff}
use mirror_sync.Base.Text.{Bytes, is_empty, equal_fold, to_upper}
use mirror_sync.World.{
  World, Env, Node, regular, special, Files, done, call, op_stat, op_open, op_read,
}
use mirror_sync.World.Hoare.{Post, Run, bind, choice, weaken, call-Run}
use mirror_sync.World.Keeps.{At}
use mirror_sync.Publish.{
  VerifyOption, size_check, checksum_check, func_check, supported_hash, passes_check, checksum_file,
  verify_option, verify_options, verify_node, verify,
}

-- What an option tests of a content.
abbrev pub Passes : Env → Bytes → VerifyOption → Type 0
Passes env content (size_check size) = pos (length content) ≡ size
Passes env content (checksum_check algorithm hex) =
    is_empty hex ≡ false
    → (supported_hash algorithm ≡ true)
      × (equal_fold (env.digest (to_upper algorithm) content) hex ≡ true)
Passes env content (func_check check) = passes_check check content ≡ true

abbrev pub PassesIf : Env → Bytes → Option VerifyOption → Type 0
PassesIf env content none = Unit
PassesIf env content (some option) = Passes env content option

-- The file at the path has a content that passes all options.
abbrev pub Verified : Env → Bytes → List (Option VerifyOption) → Files → Type 0
Verified env p options files =
    (content : Bytes) × (files p ≡ some (regular content)) × All (PassesIf env content) options

module _ (env : Env) (F : Files → Type 0) (p content : Bytes) where
  abbrev Answer : Type 0 → Bool → World → Type 0
  Answer P b w = At F w × (b ≡ true → P)

  abbrev pub Digested : Bytes → Bytes → World → Type 0
  Digested algorithm got w =
      At F w × (supported_hash algorithm ≡ true) × (got ≡ env.digest (to_upper algorithm) content)

  pub checksum_file-Run :
      (algorithm : Bytes)
      → Run (At F) (checksum_file env p algorithm content) (Digested algorithm) (At F)
  unfolding checksum_file
  checksum_file-Run algorithm =
      choice (Digested algorithm) (At F) (At F) (supported_hash algorithm) _ _
        (λ e.
          bind (λ _. At F) (Digested algorithm) (At F) (At F) _ _
            (call-Run env (At F) (At F) (At F) op_open p (λ w h. h) (λ w h. h))
            (λ _.
              bind (λ _. At F) (Digested algorithm) (At F) (At F) _ _
                (call-Run env (At F) (At F) (At F) op_read p (λ w h. h) (λ w h. h))
                (λ _ w h. (h, e, refl))))
        (λ _ w h. h)

  option-Run :
      (option : VerifyOption)
      → Run (At F) (verify_option env p content option) (Answer (Passes env content option)) (At F)
  unfolding verify_option
  option-Run (size_check size) = λ w h. (h, λ e. (==ℤ_iff (pos (length content)) size).0 e)
  option-Run (func_check check) = λ w h. (h, λ e. e)
  option-Run (checksum_check algorithm hex) =
      choice (Answer (Passes env content (checksum_check algorithm hex))) (At F) (At F)
        (is_empty hex) _ _ (λ e w h. (h, λ _ bad. absurd (cc)))
        (λ e.
          bind (Digested algorithm) (Answer (Passes env content (checksum_check algorithm hex)))
            (At F) (At F) _ _ (checksum_file-Run algorithm)
            (λ got w h. (h.0, λ same _. (h.1, subst (λ d. equal_fold d hex ≡ true) h.2 same))))

  options-Run :
      (options : List (Option VerifyOption))
      → Run
          (At F)
          (verify_options env p content options)
          (Answer (All (PassesIf env content) options))
          (At F)
  unfolding verify_options
  options-Run [] = λ w h. (h, λ _. tt)
  options-Run (none ∷ options) =
      weaken (Answer (All (PassesIf env content) options))
        (Answer (All (PassesIf env content) (none ∷ options))) (At F) (At F) (At F)
        (verify_options env p content options) (options-Run options)
        (λ b w h. (h.0, λ e. (tt, h.1 e))) (λ w h. h)
  options-Run (some option ∷ options) =
      bind (Answer (Passes env content option))
        (Answer (All (PassesIf env content) (some option ∷ options))) (At F) (At F) _ _
        (option-Run option)
        (λ b.
          choice (Answer (All (PassesIf env content) (some option ∷ options))) (At F)
            (Answer (Passes env content option) b) b (verify_options env p content options)
            (done false)
            (λ e w h.
              weaken (Answer (All (PassesIf env content) options))
                (Answer (All (PassesIf env content) (some option ∷ options))) (At F) (At F) (At F)
                (verify_options env p content options) (options-Run options)
                (λ c w' k. (k.0, λ f. (h.1 e, k.1 f))) (λ w' k. k) w h.0)
            (λ _ w h. (h.0, λ bad. absurd (cc))))

-- A verification keeps the files, and if it answers true, the file is there and passes all options.
pub verify-Run :
    (env : Env) (F : Files → Type 0) (p : Bytes) (options : List (Option VerifyOption))
    → Run
        (At F)
        (verify env p options)
        (λ b w. At F w × (b ≡ true → Verified env p options w.files))
        (At F)
unfolding verify
verify-Run env F p options =
    bind (λ _. At F) (λ b w. At F w × (b ≡ true → Verified env p options w.files)) (At F) (At F)
      (call env op_stat p) _ (call-Run env (At F) (At F) (At F) op_stat p (λ w h. h) (λ w h. h))
      (λ _ w h. found w h (w.files p) refl)
  where
    found :
        (w : World)
        → F w.files
        → (o : Option Node) → w.files p ≡ o
        → Post
            (λ b w'. At F w' × (b ≡ true → Verified env p options w'.files))
            (At F)
            (verify_node env p options o w)
    found w h none e = (h, λ bad. absurd (cc))
    found w h (some special) e = (h, λ bad. absurd (cc))
    found w h (some (regular content)) e =
        weaken
          (λ b w'.
            At (λ files. F files × (files p ≡ some (regular content))) w'
            × (b ≡ true → All (PassesIf env content) options))
          (λ b w'. At F w' × (b ≡ true → Verified env p options w'.files))
          (At (λ files. F files × (files p ≡ some (regular content)))) (At F)
          (At (λ files. F files × (files p ≡ some (regular content))))
          (verify_options env p content options)
          (options-Run env (λ files. F files × (files p ≡ some (regular content))) p content
            options)
          (λ b w' k. (k.0.0, λ f. (content, k.0.1, k.1 f))) (λ w' k. k.0) w (h, e)
