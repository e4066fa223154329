-- ===== src/Resolve.antt =====
-- pkg/kritis/kubectl/plugins/resolve/resolve.go: tags of images in manifests, replaced by digests. The
-- YAML package, the registry and the files are parameters.
pub mod Replaced
pub mod Kept
pub mod Documents
pub mod Substituted
use kritis.Base.{
  String, Bool, true, false, ◌+++◌, Option, none, some, List, [], ◌∷◌, ◌++◌, str_eq, not,
  if◌then◌else◌,
}
use kritis.Base.Maps.{lookup, insert}
use kritis.Base.Result.{Result, ok, err, wrap, panicked, ◌>>=◌}
use kritis.Base.Exec
use kritis.Base.Exec.{Exec, pure, wrapping, lift}
use kritis.Names.{Names}
use kritis.Policy.Isp.{fully_qualified_image}

-- A decoded document: `yaml.MapSlice`, whose items have a key and a value, `[]interface{}`, and what
-- the type switches tell apart of the rest, texts and other scalars.
mutual
  pub data Node : Type 0 where
    text : String → Node
    scalar : String → Node
    map_slice : Items → Node
    sequence : Nodes → Node

  pub data Items : Type 0 where
    no_items : Items
    map_item : Node → Node → Items → Items

  pub data Nodes : Type 0 where
    no_nodes : Nodes
    one_node : Node → Nodes → Nodes

-- `v.(string)`, which panics on another type
abbrev pub as_text : Node → Result String
as_text (text s) = ok s
as_text (scalar s) = err panicked
as_text (map_slice items) = err panicked
as_text (sequence nodes) = err panicked

module _ {R : Type 0} (names : Names R) where
  abbrev pub unless_qualified : String → List String
  unless_qualified image = if fully_qualified_image names image then [] else image ∷ []

  abbrev pub tagged_value : Node → Result (List String)
  tagged_value value = do image ← as_text value; ok (unless_qualified image)

  -- An item, with the images of its value.
  abbrev pub tagged_item : Node → Node → Result (List String) → Result (List String)
  tagged_item key value inner = do
    k ← as_text key
    if str_eq k "image" then tagged_value value else inner

  unfoldable mutual
    pub recursive_get_tagged_images : Node → Result (List String)
    recursive_get_tagged_images (text s) = ok []
    recursive_get_tagged_images (scalar s) = ok []
    recursive_get_tagged_images (map_slice items) = tagged_in_items items
    recursive_get_tagged_images (sequence nodes) = tagged_in_nodes nodes

    pub tagged_in_items : Items → Result (List String)
    tagged_in_items no_items = ok []
    tagged_in_items (map_item key value items) =
        tagged_item key value (recursive_get_tagged_images value) >>= λ images.
        tagged_in_items items >>= λ others. ok (images ++ others)

    pub tagged_in_nodes : Nodes → Result (List String)
    tagged_in_nodes no_nodes = ok []
    tagged_in_nodes (one_node node nodes) = recursive_get_tagged_images node >>= λ images.
        tagged_in_nodes nodes >>= λ others. ok (images ++ others)

abbrev pub or_same : String → Option String → String
or_same val none = val
or_same val (some img) = img

-- A text value; the key is read, and an image that has a replacement is replaced.
abbrev pub replace_text : List (String × String) → Node → String → Result Node
replace_text replacements key val = do
  k ← as_text key
  ok (text (if str_eq k "image" then or_same val (lookup val replacements) else val))

-- The value of an item, with what the recursion gives for it.
abbrev pub replace_value : List (String × String) → Node → Node → Result Node → Result Node
replace_value replacements key (text val) inner = replace_text replacements key val
replace_value replacements key (scalar s) inner = inner
replace_value replacements key (map_slice items) inner = inner
replace_value replacements key (sequence nodes) inner = inner

module _ (replacements : List (String × String)) where
  unfoldable mutual
    pub recursive_replace_image : Node → Result Node
    recursive_replace_image (text s) = ok (text s)
    recursive_replace_image (scalar s) = ok (scalar s)
    recursive_replace_image (map_slice items) =
        replace_in_items items >>= λ replaced. ok (map_slice replaced)
    recursive_replace_image (sequence nodes) =
        replace_in_nodes nodes >>= λ replaced. ok (sequence replaced)

    pub replace_in_items : Items → Result Items
    replace_in_items no_items = ok no_items
    replace_in_items (map_item key value items) =
        replace_value replacements key value (recursive_replace_image value) >>= λ replaced.
        replace_in_items items >>= λ others. ok (map_item key replaced others)

    pub replace_in_nodes : Nodes → Result Nodes
    replace_in_nodes no_nodes = ok no_nodes
    replace_in_nodes (one_node node nodes) = recursive_replace_image node >>= λ replaced.
        replace_in_nodes nodes >>= λ others. ok (one_node replaced others)
