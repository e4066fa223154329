-- ===== src/Names.antt =====
-- Image references: what the code uses of the package `name` of go-containerregistry, which it
-- does not implement. Every module that parses an image takes this record.
use kritis.Base.{String, Bool}
use kritis.Base.Result.{Result}

-- `name.Digest`, by the two methods that are called on it.
pub record Digest : Type 0 where
  -- `digest.Repository.Name()`
  pub repository_name : String
  -- `digest.DigestStr()`
  pub digest_str : String

-- `R` is `name.Repository`.
pub record Names (R : Type 0) : Type 0 where
  -- `name.ParseReference(s, name.WeakValidation)`, followed by `Context()`
  pub parse_reference : String → Result R
  -- `reflect.DeepEqual` on two repositories
  pub deep_equal : R → R → Bool
  -- `RegistryStr()`
  pub registry_str : R → String
  -- `name.NewDigest(s, name.WeakValidation)`
  pub new_digest_weak : String → Result Digest
  -- `name.NewDigest(s, name.StrictValidation)`
  pub new_digest_strict : String → Result Digest
