-- ===== src/Config/Load.antt =====
-- `Load` of internal/config/config.go, over the reading of a file and package yaml.
use mirror_sync.Base.{
  ◌≡◌, true, Option, some, Result, ok, ◌>>=◌, ◌>>◌, reject_if, or_err, arith, String, Option-cases,
  Result-cases, inl, inr,
}
use mirror_sync.Base.Text.{Bytes, is_empty}
use mirror_sync.Safe.{abs, is_abs, path_dir}
use mirror_sync.Config.{Host, Config}
use mirror_sync.Config.Limits.{YamlNode, document_root, reject_explicit_zero_limits}
use mirror_sync.Config.Validate.{validate}
use mirror_sync.Config.Valid.{IsValid, validate-IsValid}
use mirror_sync.Config.Nodes.{NoZeroLimit}
use mirror_sync.Config.Explicit.{reject_explicit_zero_limits_iff}

-- os.ReadFile, and what package yaml makes of a file: the fields of a Config, or a tree of nodes.
pub record Reader : Type 0 where
  pub read_file : Bytes → Option Bytes
  pub decode : Bytes → Result String Config
  pub unmarshal : Bytes → Result String YamlNode

abbrev pub in_directory : Bytes → Config → Config
in_directory path c = record c { config_dir = path_dir path }

-- The checks on the content of a file.
unfoldable pub load_content : Host → Reader → Bytes → Bytes → Result String Config
load_content host reader path content = do
  c ← reader.decode content
  doc ← reader.unmarshal content
  reject_explicit_zero_limits doc
  validate host (in_directory path c)

unfoldable pub load : Host → Reader → Bytes → Result String Config
load host reader path = do
  reject_if (is_empty path) "-config is required"
  content ← or_err (reader.read_file (abs host.cwd path)) "read"
  load_content host reader (abs host.cwd path) content

-- No scalar of a limit is the integer 0 in the file that a configuration was loaded from.
abbrev pub FromFile : Host → Reader → Bytes → Type 0
FromFile host reader path =
    (content : Bytes) × (doc : YamlNode) × (reader.read_file (abs host.cwd path) ≡ some content)
    × (reader.unmarshal content ≡ ok doc)
    × NoZeroLimit (document_root doc)

-- A configuration that loads is valid: its publish paths are pairwise different and strictly below
-- storage.published, its retries are not negative, nor are its limits, those of the sources
-- included, and no scalar of a limit of its file is the integer 0. The condition is that the
-- working directory is an absolute path.
pub load-IsValid :
    (host : Host) (reader : Reader) (path : Bytes) {c : Config}
    → is_abs host.cwd ≡ true
    → load host reader path ≡ ok c
    → IsValid c × FromFile host reader path
unfolding load load_content
load-IsValid host reader path {c} h e = elim (Option-cases (reader.read_file (abs host.cwd path))) [
  | inl absent ↦ absurd (ground arith)
  | inr (content, present) ↦ elim (Result-cases (reader.decode content)) [
    | inr (x, bad) ↦ absurd (ground arith)
    | inl (raw, decoded) ↦ elim (Result-cases (reader.unmarshal content)) [
      | inr (x, bad) ↦ absurd (ground arith)
      | inl (doc, parsed) ↦
          let checked : reject_explicit_zero_limits doc ≡ ok tt = ground arith in
          let valid : validate host (in_directory (abs host.cwd path) raw) ≡ ok c = ground arith in
          (
            validate-IsValid host (in_directory (abs host.cwd path) raw) h valid,
            (content, doc, present, parsed, (reject_explicit_zero_limits_iff doc).0 checked),
          )
    ]
  ]
]
