-- ===== src/Model/Laws.antt =====
-- Laws of the checksum table (internal/model/model.go).
use mirror_sync.Base.{◌≡◌, true, arith}
use mirror_sync.Base.Text.{Bytes, str, equal_fold}
use mirror_sync.Base.Text.Laws.{equal_fold_trans, equal_fold_sym}
use mirror_sync.Model.{Checksums, get, set}

-- A digest that `Set` accepts under a name is what `Get` returns under every spelling of that name.
pub get-set :
    (c : Checksums) (a b value : Bytes)
    → equal_fold a b ≡ true
    → (set c a value).1 ≡ true
    → get (set c a value).0 b ≡ value
unfolding get set
get-set c a b value h done = ground (
  arith,
  equal_fold_sym a b,
  equal_fold_trans b a (str "MD5"),
  equal_fold_trans a b (str "MD5"),
  equal_fold_trans b a (str "MD5Sum"),
  equal_fold_trans a b (str "MD5Sum"),
  equal_fold_trans b a (str "SHA1"),
  equal_fold_trans a b (str "SHA1"),
  equal_fold_trans b a (str "SHA256"),
  equal_fold_trans a b (str "SHA256"),
  equal_fold_trans b a (str "SHA512"),
  equal_fold_trans a b (str "SHA512"),
)
