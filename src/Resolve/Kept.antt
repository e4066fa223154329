-- ===== src/Resolve/Kept.antt =====
-- What the replacement of images in a manifest (pkg/kritis/kubectl/plugins/resolve/resolve.go) changes.
use kritis.Base.{
  String, ◌≡◌, refl, sym, ap, inl, inr, List, [], ◌∷◌, ◌++◌, map, str_eq, Bool-cases, if◌then◌else◌,
}
use kritis.Base.Maps.{lookup}
use kritis.Base.Result.{ok, >>=-eq-ok, ok-injective}
use mathlib.Core.List.{map-append}
use kritis.Resolve.{
  Node, text, scalar, map_slice, sequence, Items, no_items, map_item, Nodes, no_nodes, one_node,
  or_same, replace_value, recursive_replace_image, replace_in_items, replace_in_nodes,
}

-- The text of an item, which is an image under the key "image" only: without the image, and the image.
abbrev pub text_rest : Node → String → Node
text_rest (text k) v = if str_eq k "image" then text "" else text v
text_rest (scalar s) v = text v
text_rest (map_slice items) v = text v
text_rest (sequence nodes) v = text v

abbrev pub text_images : Node → String → List String
text_images (text k) v = if str_eq k "image" then v ∷ [] else []
text_images (scalar s) v = []
text_images (map_slice items) v = []
text_images (sequence nodes) v = []

-- The value of an item, with what the recursion gives for a value that is no text.
abbrev pub value_rest : Node → Node → Node → Node
value_rest (text v) key inner = text_rest key v
value_rest (scalar s) key inner = inner
value_rest (map_slice items) key inner = inner
value_rest (sequence nodes) key inner = inner

abbrev pub value_images : Node → Node → List String → List String
value_images (text v) key inner = text_images key v
value_images (scalar s) key inner = inner
value_images (map_slice items) key inner = inner
value_images (sequence nodes) key inner = inner

unfoldable mutual
  -- A manifest with an empty text for each image.
  pub without_images : Node → Node
  without_images (text s) = text s
  without_images (scalar s) = scalar s
  without_images (map_slice items) = map_slice (items_without items)
  without_images (sequence nodes) = sequence (nodes_without nodes)

  pub items_without : Items → Items
  items_without no_items = no_items
  items_without (map_item key value items) =
      map_item key (value_rest value key (without_images value)) (items_without items)

  pub nodes_without : Nodes → Nodes
  nodes_without no_nodes = no_nodes
  nodes_without (one_node node nodes) = one_node (without_images node) (nodes_without nodes)

unfoldable mutual
  -- The images of a manifest, in order.
  pub images_of : Node → List String
  images_of (text s) = []
  images_of (scalar s) = []
  images_of (map_slice items) = images_of_items items
  images_of (sequence nodes) = images_of_nodes nodes

  pub images_of_items : Items → List String
  images_of_items no_items = []
  images_of_items (map_item key value items) =
      value_images value key (images_of value) ++ images_of_items items

  pub images_of_nodes : Nodes → List String
  images_of_nodes no_nodes = []
  images_of_nodes (one_node node nodes) = images_of node ++ images_of_nodes nodes

module _ (r : List (String × String)) where
  -- The replacement of an image, which is the image itself where it has none.
  abbrev pub replacement : String → String
  replacement image = or_same image (lookup image r)

  abbrev pub Kept : Node → Node → Type 0
  Kept m m' =
      (without_images m' ≡ without_images m) × (images_of m' ≡ map replacement (images_of m))

  abbrev ValueKept : Node → Node → Node → Type 0
  ValueKept key value v' =
      (value_rest v' key (without_images v') ≡ value_rest value key (without_images value))
      × (value_images v' key (images_of v')
          ≡ map replacement (value_images value key (images_of value)))

  abbrev ItemsKept : Items → Items → Type 0
  ItemsKept items items' =
      (items_without items' ≡ items_without items)
      × (images_of_items items' ≡ map replacement (images_of_items items))

  abbrev NodesKept : Nodes → Nodes → Type 0
  NodesKept nodes nodes' =
      (nodes_without nodes' ≡ nodes_without nodes)
      × (images_of_nodes nodes' ≡ map replacement (images_of_nodes nodes))

  text-ValueKept :
      (k v : String) (v' : Node)
      → text (if str_eq k "image" then replacement v else v) ≡ v'
      → ValueKept (text k) (text v) v'
  text-ValueKept k v v' h = elim (Bool-cases (str_eq k "image")) [
    | inl e ↦ rw (← h, e) (refl, refl)
    | inr e ↦ rw (← h, e) (refl, refl)
  ]

  value-ValueKept :
      (key value v' : Node)
      → replace_value r key value (recursive_replace_image r value) ≡ ok v'
      → ((m' : Node) → recursive_replace_image r value ≡ ok m' → Kept value m')
      → ValueKept key value v'
  unfolding recursive_replace_image
  value-ValueKept (text k) (text v) v' h kept = text-ValueKept k v v' (ok-injective h)
  value-ValueKept (scalar s) (text v) v' h kept = absurd (cc h)
  value-ValueKept (map_slice items) (text v) v' h kept = absurd (cc h)
  value-ValueKept (sequence nodes) (text v) v' h kept = absurd (cc h)
  value-ValueKept key (scalar s) v' h kept = rw (← ok-injective h) (kept (scalar s) refl)
  value-ValueKept key (map_slice items) v' h kept =
      let (items', p, k) =
        >>=-eq-ok (replace_in_items r items) (λ replaced. ok (map_slice replaced)) h in
      rw (← ok-injective k) (kept (map_slice items') (rw p refl))
  value-ValueKept key (sequence nodes) v' h kept =
      let (nodes', p, k) =
        >>=-eq-ok (replace_in_nodes r nodes) (λ replaced. ok (sequence replaced)) h in
      rw (← ok-injective k) (kept (sequence nodes') (rw p refl))

  appended :
      (a b a' b' : List String)
      → a' ≡ map replacement a
      → b' ≡ map replacement b
      → a' ++ b' ≡ map replacement (a ++ b)
  appended a b a' b' e f = rw (e, f) (sym (map-append replacement a b))

  map_slice-Kept :
      (items items' : Items) → ItemsKept items items' → Kept (map_slice items) (map_slice items')
  unfolding without_images images_of
  map_slice-Kept items items' (w, i) = (ap map_slice w, i)

  sequence-Kept :
      (nodes nodes' : Nodes) → NodesKept nodes nodes' → Kept (sequence nodes) (sequence nodes')
  unfolding without_images images_of
  sequence-Kept nodes nodes' (w, i) = (ap sequence w, i)

  map_item-Kept :
      (key value v' : Node) (items items' : Items)
      → ValueKept key value v'
      → ItemsKept items items'
      → ItemsKept (map_item key value items) (map_item key v' items')
  unfolding without_images images_of
  map_item-Kept key value v' items items' (w, i) (ws, is) = (
    rw (w, ws) refl,
    appended (value_images value key (images_of value)) (images_of_items items)
        (value_images v' key (images_of v')) (images_of_items items') i is,
  )

  one_node-Kept :
      (node m' : Node) (nodes nodes' : Nodes)
      → Kept node m'
      → NodesKept nodes nodes'
      → NodesKept (one_node node nodes) (one_node m' nodes')
  unfolding without_images images_of
  one_node-Kept node m' nodes nodes' (w, i) (ws, is) = (
    rw (w, ws) refl,
    appended (images_of node) (images_of_nodes nodes) (images_of m') (images_of_nodes nodes') i is,
  )

  mutual
    unfolding recursive_replace_image without_images images_of

    kept_node : (m m' : Node) → recursive_replace_image r m ≡ ok m' → Kept m m'
    kept_node (text s) m' h = rw (← ok-injective h) (refl, refl)
    kept_node (scalar s) m' h = rw (← ok-injective h) (refl, refl)
    kept_node (map_slice items) m' h =
        let (items', p, k) =
          >>=-eq-ok (replace_in_items r items) (λ replaced. ok (map_slice replaced)) h in
        rw (← ok-injective k) (map_slice-Kept items items' (kept_items items items' p))
    kept_node (sequence nodes) m' h =
        let (nodes', p, k) =
          >>=-eq-ok (replace_in_nodes r nodes) (λ replaced. ok (sequence replaced)) h in
        rw (← ok-injective k) (sequence-Kept nodes nodes' (kept_nodes nodes nodes' p))

    kept_items :
        (items items' : Items) → replace_in_items r items ≡ ok items' → ItemsKept items items'
    kept_items no_items items' h = rw (← ok-injective h) (refl, refl)
    kept_items (map_item key value items) items' h =
        let (v', p, k) =
          >>=-eq-ok (replace_value r key value (recursive_replace_image r value)) _ h in
        let (others, q, e) = >>=-eq-ok (replace_in_items r items) (λ o. ok (map_item key v' o)) k in
        rw (← ok-injective e) (
          map_item-Kept key value v' items others (value-ValueKept key value v' p (kept_node value))
            (kept_items items others q))

    kept_nodes :
        (nodes nodes' : Nodes) → replace_in_nodes r nodes ≡ ok nodes' → NodesKept nodes nodes'
    kept_nodes no_nodes nodes' h = rw (← ok-injective h) (refl, refl)
    kept_nodes (one_node node nodes) nodes' h =
        let (m', p, k) = >>=-eq-ok (recursive_replace_image r node) _ h in
        let (others, q, e) = >>=-eq-ok (replace_in_nodes r nodes) (λ o. ok (one_node m' o)) k in
        rw (← ok-injective e)
          (one_node-Kept node m' nodes others (kept_node node m' p) (kept_nodes nodes others q))

  -- A manifest whose images are replaced without a panic is the same but for its images, which are the
  -- texts under a key "image", and these are, in order, the replacements of its images, an image
  -- without one being kept.
  pub recursive_replace_image-Kept :
      (m m' : Node)
      → recursive_replace_image r m ≡ ok m'
      → (without_images m' ≡ without_images m) × (images_of m' ≡ map replacement (images_of m))
  recursive_replace_image-Kept m m' h = kept_node m m' h
