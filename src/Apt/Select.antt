-- ===== src/Apt/Select.antt =====
-- internal/apt/apt.go: which files of a Release are mirrored, and which indexes are looked for.
pub mod Laws
use mirror_sync.Base.{
  ℕ, String, Bool, true, false, not, ◌&&◌, ◌||◌, Option, none, some, List, [], ◌∷◌, ◌++◌,
  if◌then◌else◌, ◌==◌, Result, ok, err, ◌>>=◌, or_default, filter_by, any_by, is_some, map,
}
use mirror_sync.Base.Text.{
  Bytes, str, ◌=ˢ◌, is_empty, has_prefix, has_suffix, trim_prefix, trim_suffix, cut_prefix, split,
  join, contains,
}
use mirror_sync.Base.Dict.{Dict, Set, lookup, keys, add, remove}
use mirror_sync.Base.Sort.{sort_strings}
use mirror_sync.Model.{RepositoryFile}
use mirror_sync.Safe.{rel, join_all, join_path, path_base}
use mirror_sync.Apt.Release.{ReleaseFile, no_file}

unfoldable pub set_from_slice : List Bytes → Set
set_from_slice [] = []
set_from_slice (v ∷ vs) = add v (set_from_slice vs)

-- The loop of `packageIndexArchitectures`; the list is `out`, whose members are `seen`.
unfoldable pub index_archs : List Bytes → List Bytes → List Bytes
index_archs [] out = if contains out (str "all") then out else out ++ (str "all" ∷ [])
index_archs (arch ∷ archs) out =
    index_archs archs (if is_empty arch || contains out arch then out else out ++ (arch ∷ []))

unfoldable pub package_index_architectures : List Bytes → List Bytes
package_index_architectures archs = index_archs archs []

unfoldable pub selected_real_architectures : List Bytes → Set
selected_real_architectures [] = []
selected_real_architectures (arch ∷ archs) =
    let rest = selected_real_architectures archs in
    if not (is_empty arch) && not (arch =ˢ str "all") then add arch rest else rest

unfoldable pub selected_architecture_names : List Bytes → List Bytes
selected_architecture_names archs = sort_strings (selected_real_architectures archs)

unfoldable pub allowed_package_architectures : List Bytes → Set
allowed_package_architectures archs = set_from_slice (package_index_architectures archs)

unfoldable pub trim_index_compression : Bytes → Bytes
trim_index_compression name =
    trim_suffix (trim_suffix (trim_suffix name (str ".gz")) (str ".xz")) (str ".bz2")

-- The architecture that a name gives behind the prefix.
abbrev behind : Bytes → Bytes → Option Bytes
behind prefix name = cut_prefix name prefix

abbrev binary_dir_parts : List Bytes → Option Bytes
binary_dir_parts (first ∷ second ∷ rest) = behind (str "binary-") first
binary_dir_parts _ = none

unfoldable pub binary_dir_arch : Bytes → Option Bytes
binary_dir_arch rel = binary_dir_parts (split rel b'/')

abbrev installer_parts : List Bytes → Option Bytes
installer_parts (first ∷ second ∷ third ∷ rest) =
    if first =ˢ str "debian-installer" then behind (str "binary-") second else none
installer_parts _ = none

unfoldable pub installer_binary_arch : Bytes → Option Bytes
installer_binary_arch rel = installer_parts (split rel b'/')

unfoldable pub cnf_arch : Bytes → Option Bytes
cnf_arch rel = behind (str "Commands-") (trim_index_compression (path_base rel))

-- The text between a prefix and a suffix; both tests are of the whole name.
unfoldable pub between : Bytes → Bytes → Bytes → Option Bytes
between prefix suffix base =
    if has_prefix base prefix && has_suffix base suffix
    then some (trim_suffix (trim_prefix base prefix) suffix)
    else none

unfoldable pub dep11_components_arch : Bytes → Option Bytes
dep11_components_arch rel =
    between (str "Components-") (str ".yml") (trim_index_compression (path_base rel))

unfoldable pub dep11_cid_index_arch : Bytes → Option Bytes
dep11_cid_index_arch rel =
    between (str "CID-Index-") (str ".json") (trim_index_compression (path_base rel))

abbrev named_arch : Option Bytes → Option Bytes
named_arch none = none
named_arch (some rest) =
    let arch = trim_prefix rest (str "udeb-") in if is_empty arch then none else some arch

unfoldable pub contents_arch : Bytes → Option Bytes
contents_arch name = named_arch (behind (str "Contents-") (trim_index_compression name))

-- `if arch, ok := …; ok { return set[arch] }`, and else the next test.
abbrev by_arch : Option Bytes → Set → Bool → Bool
by_arch none archs next = next
by_arch (some arch) archs next = contains archs arch

unfoldable pub mirror_component_file : Bytes → Set → Set → Bool
mirror_component_file rest selected packages = by_arch (binary_dir_arch rest) packages (
    by_arch (installer_binary_arch rest) selected (
      by_arch (cnf_arch rest) selected (
        by_arch (dep11_components_arch rest) selected (
          by_arch (dep11_cid_index_arch rest) selected
            (by_arch (contents_arch (path_base rest)) packages true)))))

unfoldable pub mirror_parts : List Bytes → Set → Set → Set → Bool
mirror_parts [] components selected packages = false
mirror_parts (name ∷ []) components selected packages = by_arch (contents_arch name) packages false
mirror_parts (component ∷ second ∷ rest) components selected packages =
    contains components component
    && mirror_component_file (join (second ∷ rest) b'/') selected packages

unfoldable pub should_mirror_release_file : Bytes → Set → Set → Set → Bool
should_mirror_release_file rel components selected packages =
    mirror_parts (split rel b'/') components selected packages

pub record AptSuite : Type 0 where
  pub name : Bytes
  pub components : List Bytes

abbrev pub is_wanted : AptSuite → List Bytes → Bytes → Bool
is_wanted suite archs clean_rel =
    should_mirror_release_file clean_rel (set_from_slice suite.components)
      (selected_real_architectures archs) (set_from_slice (package_index_architectures archs))

-- A file in front of the files of the rest of the loop.
abbrev pub put_file :
    AptSuite
    → Bytes
    → ReleaseFile
    → Result String (List RepositoryFile)
    → Result String (List RepositoryFile)
put_file suite clean_rel file others = do
  published ← rel (join_all (str "dists" ∷ suite.name ∷ clean_rel ∷ []))
  rest ← others
  ok (record { path = published; size = file.size; checksums = file.checksums } ∷ rest)

-- The loop over the sorted paths of the Release.
unfoldable pub select_paths :
    AptSuite → List Bytes → Dict ReleaseFile → List Bytes → Result String (List RepositoryFile)
select_paths suite archs hashes [] = ok []
select_paths suite archs hashes (path ∷ paths) =
    let rest = select_paths suite archs hashes paths in
    rel path >>= λ clean_rel.
    if is_wanted suite archs clean_rel
    then put_file suite clean_rel (or_default (lookup path hashes) no_file) rest
    else rest

unfoldable pub select_release_files :
    AptSuite → List Bytes → Dict ReleaseFile → Result String (List RepositoryFile)
select_release_files suite archs hashes =
    select_paths suite archs hashes (sort_strings (keys hashes))

-- `releaseFilesToResolve`
unfoldable pub release_files_to_resolve :
    List RepositoryFile → Set → Set → Bool → List RepositoryFile
release_files_to_resolve advertised selected_before resolved_before complete =
    if not complete
    then advertised
    else filter_by
        (λ (f : RepositoryFile).
          contains resolved_before f.path || not (contains selected_before f.path))
        advertised

unfoldable pub filter_repository_files : List RepositoryFile → Set → List RepositoryFile
filter_repository_files files paths =
    filter_by (λ (f : RepositoryFile). contains paths f.path) files

unfoldable pub index_candidates : Bytes → Bytes → List Bytes
index_candidates dir name =
    join_path dir (name ++ str ".xz")
    ∷ join_path dir (name ++ str ".gz")
    ∷ join_path dir (name ++ str ".bz2")
    ∷ join_path dir name
    ∷ []

unfoldable pub release_advertises_index : Bytes → Bytes → Dict ReleaseFile → Bool
release_advertises_index dir name hashes =
    any_by (λ rel. is_some (lookup rel hashes)) (index_candidates dir name)
