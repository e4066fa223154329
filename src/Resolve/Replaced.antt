-- ===== src/Resolve/Replaced.antt =====
-- A manifest whose images are resolved (pkg/kritis/kubectl/plugins/resolve/resolve.go) and the tagged
-- images that are left in it.
use kritis.Base.{
  String, ◌≡◌, refl, sym, subst, inl, inr, true, false, Option, none, some, List, [], ◌++◌, str_eq,
  All, All-prefix, All-suffix, Bool-cases,
}
use kritis.Base.Maps.{lookup}
use kritis.Base.Result.{Result, ok, err, ◌>>=◌, ok-injective}
use kritis.Names.{Names}
use kritis.Policy.Isp.{fully_qualified_image}
use kritis.Resolve.{
  Node, text, scalar, map_slice, sequence, Items, no_items, map_item, Nodes, no_nodes, one_node,
  unless_qualified, tagged_value, tagged_item, recursive_get_tagged_images, tagged_in_items,
  tagged_in_nodes, or_same, replace_value, recursive_replace_image, replace_in_items,
  replace_in_nodes,
}

module _ {R : Type 0} (names : Names R) (r : List (String × String)) where
  -- An image has a replacement, which is fully qualified.
  abbrev pub IsResolved : String → Type 0
  IsResolved image =
      (digest : String) × (lookup image r ≡ some digest)
      × (fully_qualified_image names digest ≡ true)

  -- Every replacement is fully qualified.
  abbrev pub AllQualified : Type 0
  AllQualified =
      (image digest : String)
      → lookup image r ≡ some digest
      → fully_qualified_image names digest ≡ true

  -- The replacement of an image is fully qualified, where the image is, or has a replacement.
  or_same-qualified :
      (image : String) (o : Option String)
      → AllQualified
      → lookup image r ≡ o
      → All (λ i. (digest : String) × (lookup i r ≡ some digest)) (unless_qualified names image)
      → fully_qualified_image names (or_same image o) ≡ true
  or_same-qualified image (some digest) q e h = q image digest e
  or_same-qualified image none q e h = elim (Bool-cases (fully_qualified_image names image)) [
    | inl f ↦ f
    | inr f ↦ let (digest, k) = (rw f at h).0 in absurd (cc (e, k))
  ]

  abbrev pub Found : List String → Type 0
  Found images = All (λ i. (digest : String) × (lookup i r ≡ some digest)) images

  -- The replacement succeeds, and nothing tagged is left.
  abbrev pub Cleaned : Node → Type 0
  Cleaned m =
      (m' : Node) × (recursive_replace_image r m ≡ ok m')
      × (recursive_get_tagged_images names m' ≡ ok [])

  abbrev ItemCleaned : Node → Node → Type 0
  ItemCleaned key value =
      (v' : Node) × (replace_value r key value (recursive_replace_image r value) ≡ ok v')
      × (tagged_item names key v' (recursive_get_tagged_images names v') ≡ ok [])

  abbrev Cleans : Node → Type 0
  Cleans m =
      (images : List String)
      → recursive_get_tagged_images names m ≡ ok images
      → Found images
      → Cleaned m

  image_text-ItemCleaned :
      (k v : String)
      → AllQualified
      → str_eq k "image" ≡ true
      → Found (unless_qualified names v)
      → ItemCleaned (text k) (text v)
  image_text-ItemCleaned k v q e h = (
    text (or_same v (lookup v r)),
    rw e refl,
    rw (e, or_same-qualified v (lookup v r) q refl h) refl,
  )

  image-ItemCleaned :
      (k : String) (value : Node) (images : List String)
      → AllQualified
      → str_eq k "image" ≡ true
      → tagged_value names value ≡ ok images
      → Found images
      → ItemCleaned (text k) value
  image-ItemCleaned k (text v) images q e t h =
      image_text-ItemCleaned k v q e (subst Found (sym (ok-injective t)) h)
  image-ItemCleaned k (scalar s) images q e t h = absurd (cc t)
  image-ItemCleaned k (map_slice items) images q e t h = absurd (cc t)
  image-ItemCleaned k (sequence nodes) images q e t h = absurd (cc t)

  other-ItemCleaned :
      (k : String) (value : Node)
      → str_eq k "image" ≡ false
      → Cleaned value
      → ItemCleaned (text k) value
  unfolding recursive_get_tagged_images recursive_replace_image
  other-ItemCleaned k (text v) e c = (text v, rw e refl, rw e refl)
  other-ItemCleaned k (scalar s) e (m', p, g) = (m', p, rw e g)
  other-ItemCleaned k (map_slice items) e (m', p, g) = (m', p, rw e g)
  other-ItemCleaned k (sequence nodes) e (m', p, g) = (m', p, rw e g)

  item-ItemCleaned :
      (key value : Node) (images : List String)
      → AllQualified
      → Cleans value
      → tagged_item names key value (recursive_get_tagged_images names value) ≡ ok images
      → Found images
      → ItemCleaned key value
  item-ItemCleaned (text k) value images q c t h = elim (Bool-cases (str_eq k "image")) [
    | inl e ↦ image-ItemCleaned k value images q e (rw e at t) h
    | inr e ↦ other-ItemCleaned k value e (c images (rw e at t) h)
  ]
  item-ItemCleaned (scalar s) value images q c t h = absurd (cc t)
  item-ItemCleaned (map_slice items) value images q c t h = absurd (cc t)
  item-ItemCleaned (sequence nodes) value images q c t h = absurd (cc t)

  abbrev ItemsClean : Items → Type 0
  ItemsClean items =
      (items' : Items) × (replace_in_items r items ≡ ok items')
      × (tagged_in_items names items' ≡ ok [])

  abbrev NodesClean : Nodes → Type 0
  NodesClean nodes =
      (nodes' : Nodes) × (replace_in_nodes r nodes ≡ ok nodes')
      × (tagged_in_nodes names nodes' ≡ ok [])

  -- Two collections in a row.
  collected :
      (m : Result (List String)) (n : Result (List String)) (images : List String)
      → (m >>= λ a. n >>= λ b. ok (a ++ b)) ≡ ok images
      → (a : List String) × (b : List String) × (m ≡ ok a) × (n ≡ ok b) × (a ++ b ≡ images)
  collected (ok a) (ok b) images h = (a, b, refl, refl, ok-injective h)
  collected (ok a) (err e) images h = absurd (cc h)
  collected (err e) n images h = absurd (cc h)

  Found-parts : (a b images : List String) → Found images → a ++ b ≡ images → Found a × Found b
  Found-parts a b images h e =
      let parts = subst Found (sym e) h in
      (
        All-prefix (λ i. (digest : String) × (lookup i r ≡ some digest)) a b parts,
        All-suffix (λ i. (digest : String) × (lookup i r ≡ some digest)) a b parts,
      )

  map_item-Clean :
      (key value : Node) (items : Items)
      → ItemCleaned key value
      → ItemsClean items
      → ItemsClean (map_item key value items)
  unfolding recursive_get_tagged_images recursive_replace_image
  map_item-Clean key value items (v', p, g) (items', ps, gs) =
      (map_item key v' items', rw (p, ps) refl, rw (g, gs) refl)

  one_node-Clean :
      (node : Node) (nodes : Nodes)
      → Cleaned node
      → NodesClean nodes
      → NodesClean (one_node node nodes)
  unfolding recursive_get_tagged_images recursive_replace_image
  one_node-Clean node nodes (m', p, g) (nodes', ps, gs) =
      (one_node m' nodes', rw (p, ps) refl, rw (g, gs) refl)

  map_slice-Cleaned : (items : Items) → ItemsClean items → Cleaned (map_slice items)
  unfolding recursive_get_tagged_images recursive_replace_image
  map_slice-Cleaned items (items', p, g) = (map_slice items', rw p refl, g)

  sequence-Cleaned : (nodes : Nodes) → NodesClean nodes → Cleaned (sequence nodes)
  unfolding recursive_get_tagged_images recursive_replace_image
  sequence-Cleaned nodes (nodes', p, g) = (sequence nodes', rw p refl, g)

  mutual
    unfolding recursive_get_tagged_images recursive_replace_image

    clean_node : (m : Node) → AllQualified → Cleans m
    clean_node (text s) q images t h = (text s, refl, refl)
    clean_node (scalar s) q images t h = (scalar s, refl, refl)
    clean_node (map_slice items) q images t h =
        map_slice-Cleaned items (clean_items items q images t h)
    clean_node (sequence nodes) q images t h =
        sequence-Cleaned nodes (clean_nodes nodes q images t h)

    clean_items :
        (items : Items)
        → AllQualified
        → (images : List String) → tagged_in_items names items ≡ ok images
        → Found images
        → ItemsClean items
    clean_items no_items q images t h = (no_items, refl, refl)
    clean_items (map_item key value items) q images t h =
        let (a, b, x, y, e) =
          collected (tagged_item names key value (recursive_get_tagged_images names value))
            (tagged_in_items names items) images t in
        let (ha, hb) = Found-parts a b images h e in
        map_item-Clean key value items (item-ItemCleaned key value a q (clean_node value q) x ha)
          (clean_items items q b y hb)

    clean_nodes :
        (nodes : Nodes)
        → AllQualified
        → (images : List String) → tagged_in_nodes names nodes ≡ ok images
        → Found images
        → NodesClean nodes
    clean_nodes no_nodes q images t h = (no_nodes, refl, refl)
    clean_nodes (one_node node nodes) q images t h =
        let (a, b, x, y, e) =
          collected (recursive_get_tagged_images names node) (tagged_in_nodes names nodes) images
            t in
        let (ha, hb) = Found-parts a b images h e in
        one_node-Clean node nodes (clean_node node q a x ha) (clean_nodes nodes q b y hb)

  -- A manifest is replaced without a panic and has no tagged image left, where each of its images has
  -- a replacement, and every replacement is fully qualified.
  pub recursive_replace_image-Cleaned :
      (m : Node) (images : List String)
      → AllQualified
      → recursive_get_tagged_images names m ≡ ok images
      → Found images
      → Cleaned m
  recursive_replace_image-Cleaned m images q t h = clean_node m q images t h
