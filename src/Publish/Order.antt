-- ===== src/Publish/Order.antt =====
-- The order in which `PublishMetadata` writes: signatures last.
use mirror_sync.Base.{◌≡◌, Bool, true, false, List, [], ◌∷◌, arith, All-map, not, ◌&&◌, ◌||◌}
use mathlib.Core.List.{Perm}
use mirror_sync.Base.Text.{str, ◌=ˢ◌, text_leb}
use mirror_sync.Safe.{path_base}
use mirror_sync.Base.Text.Laws.{text_leb_total, text_leb_trans}
use mirror_sync.Base.Sort.{Sorted, sort-Sorted, sort-perm}
use mirror_sync.Model.{MetadataFile}
use mirror_sync.Publish.{metadata_priority, metadata_leb, publish_order}

leb_total : (f g : MetadataFile) → metadata_leb f g ≡ false → metadata_leb g f ≡ true
leb_total f g h = ground (arith, text_leb_total f.path g.path)

leb_trans :
    (f g h : MetadataFile)
    → metadata_leb f g ≡ true
    → metadata_leb g h ≡ true
    → metadata_leb f h ≡ true
leb_trans f g h a b = ground (arith, text_leb_trans f.path g.path h.path)

abbrev pub is_release : MetadataFile → Bool
is_release f = not f.signed_last && path_base f.path =ˢ str "Release"

abbrev pub is_plain : MetadataFile → Bool
is_plain f = not f.signed_last && not (path_base f.path =ˢ str "Release")

-- The first may stand before the second: behind a file that is signed last stand only such files,
-- behind a Release no plain file, and files of one kind stand in the order of their paths.
abbrev pub in_order : MetadataFile → MetadataFile → Bool
in_order f g =
    (not f.signed_last || g.signed_last)
    && (not (is_release f) || not (is_plain g))
    && (not (
          f.signed_last && g.signed_last
          || is_release f && is_release g
          || is_plain f && is_plain g)
        || text_leb f.path g.path)

leb-in_order : (f g : MetadataFile) → metadata_leb f g ≡ true → in_order f g ≡ true
unfolding metadata_priority
leb-in_order f g h = ground arith

weaker : (files : List MetadataFile) → Sorted metadata_leb files → Sorted in_order files
weaker [] _ = tt
weaker (f ∷ files) (h, s) = (
  All-map (λ g. metadata_leb f g ≡ true) (λ g. in_order f g ≡ true) (leb-in_order f) files h,
  weaker files s,
)

-- The files are published each once: first those that are neither signed last nor a Release, then
-- each Release that is not signed last, and at the end what is signed last; those of one kind in
-- the order of their paths.
pub publish_order-Sorted :
    (files : List MetadataFile)
    → Sorted in_order (publish_order files) × Perm (publish_order files) files
unfolding publish_order
publish_order-Sorted files =
    (weaker _ (sort-Sorted metadata_leb leb_total leb_trans files), sort-perm metadata_leb files)
