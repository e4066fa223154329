-- ===== src/Resolve/Documents.antt =====
-- pkg/kritis/kubectl/plugins/resolve/resolve.go: the resolver, and the substitution in the documents of
-- files.
use kritis.Base.{ℕ, zero, suc, ◌-◌, String, ◌+++◌, List, [], ◌∷◌, if◌then◌else◌}
use kritis.Base.Split.{prepend, glue, begins, text_length}
use kritis.Base.Maps.{insert}
use kritis.Base.Result.{Result, wrap}
use kritis.Base.Exec.{Exec, ◌>>=◌, pure, wrapping, lift}
use kritis.Names.{Names}
use kritis.Resolve.{Node, Items, map_slice, recursive_get_tagged_images, recursive_replace_image}

-- What the resolver calls of go-containerregistry, for tags `T` and images `I`.
pub record Registry (W T I : Type 0) : Type 0 where
  -- `name.NewTag(image, name.WeakValidation)`
  pub new_tag : String → Result T
  -- a tag, and its `Context()`, printed
  pub tag_text : T → String
  pub context : T → String
  pub remote_image : T → Exec W I
  -- the `Hex` of `Digest()`
  pub digest_hex : I → Result String

unfoldable pub resolver : {W T I : Type 0} → Registry W T I → String → Exec W String
resolver registry image = do
  tag ← wrapping (wrap "NewTag(%s): %v" (image ∷ [])) (lift (registry.new_tag image))
  source_image ←
      wrapping (wrap "remote.Image(%s): %v" (registry.tag_text tag ∷ []))
        (registry.remote_image tag)
  hex ←
      wrapping (wrap "Digest(%v): %v" (registry.tag_text tag ∷ []))
        (lift (registry.digest_hex source_image))
  pure (registry.context tag +++ ("@sha256:" +++ hex))

module _ {W : Type 0} (resolve : String → Exec W String) where
  -- The loop, with the map so far.
  unfoldable pub resolve_from :
      List (String × String) → List String → Exec W (List (String × String))
  resolve_from resolved_images [] = pure resolved_images
  resolve_from resolved_images (image ∷ images) = do
    digest_name ← resolve image
    resolve_from (insert image digest_name resolved_images) images

  unfoldable pub resolve_tags_to_digests : List String → Exec W (List (String × String))
  unfolding resolve_from
  resolve_tags_to_digests images = resolve_from [] images

-- `strings.Split` and `strings.Join` with a separator of more than one character: the first argument
-- counts the characters of a separator that are still to be skipped.
module _ (sep : String) where
  unfoldable pub split_from : ℕ → String → List String
  split_from skip String.[] = String.[] ∷ []
  split_from (suc skip) (String.◌∷◌ c s) = split_from skip s
  split_from zero (String.◌∷◌ c s) =
      let parts = split_from zero s in
      let behind = split_from (text_length sep - 1) s in
      if begins sep (String.◌∷◌ c s) then String.[] ∷ behind else prepend c parts

  unfoldable pub join_with : List String → String
  join_with [] = String.[]
  join_with (part ∷ []) = part
  join_with (part ∷ next ∷ parts) = glue part (glue sep (join_with (next ∷ parts)))

-- `yamlSeparator`
abbrev pub yaml_separator : String
yaml_separator = "---\n"

-- `yaml.Unmarshal` into a `yaml.MapSlice`, and `yaml.Marshal`
pub record Yaml : Type 0 where
  pub unmarshal : String → Result Items
  pub marshal : Node → Result String

-- One document, decoded.
unfoldable pub substitute : {R W : Type 0} → Names R → (String → Exec W String) → Node → Exec W Node
substitute names resolve m = do
  tagged_images ← lift (recursive_get_tagged_images names m)
  resolved_images ← resolve_tags_to_digests resolve tagged_images
  lift (recursive_replace_image resolved_images m)

module _ {R W : Type 0} (names : Names R) (yaml : Yaml) (resolve : String → Exec W String) where
  abbrev pub substitute_text : String → Exec W String
  substitute_text y = do
    items ← lift (yaml.unmarshal y)
    replaced_yaml ← substitute names resolve (map_slice items)
    lift (yaml.marshal replaced_yaml)

  unfoldable pub substitute_each : List String → Exec W (List String)
  substitute_each [] = pure []
  substitute_each (y ∷ yamls) = do
    updated ← substitute_text y
    rest ← substitute_each yamls
    pure (updated ∷ rest)

  unfoldable pub execute_substitution : String → Exec W String
  execute_substitution contents = do
    yamls ← substitute_each (split_from yaml_separator 0 contents)
    pure (join_with yaml_separator yamls)

  -- The loop over the files, with the new contents so far.
  unfoldable pub execute_from :
      (String → Exec W String)
      → List (String × String)
      → List String
      → Exec W (List (String × String))
  execute_from read_file substitutes [] = pure substitutes
  execute_from read_file substitutes (file ∷ files) = do
    contents ← read_file file
    new_contents ← execute_substitution contents
    execute_from read_file (insert file new_contents substitutes) files

  unfoldable pub execute : (String → Exec W String) → List String → Exec W (List (String × String))
  execute read_file files = execute_from read_file [] files
