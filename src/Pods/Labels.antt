-- ===== src/Pods/Labels.antt =====
-- The label that a pod has after it was deleted and added by patches of one snapshot of the pod
-- (pkg/kritis/pods/pods.go).
use kritis.Base.{
  String, ◌≡◌, refl, ap, subst, ◌∙◌, Bool, true, false, Option, none, some, [], ◌∷◌, str_eq,
  str_eq_iff, if◌then◌else◌, Bool-cases, inl, inr,
}
use kritis.Base.Maps.{lookup, lookup-insert, lookup-delete}
use kritis.Base.Result
use kritis.Base.Result.{Result, ok, err, Done}
use kritis.Base.Exec.{◌>>◌, lift}
use kritis.Base.Returned.{bound-ok}
use kritis.Resources.{Workload}
use kritis.Pods.{
  StringMap, Cluster, add_to, delete_from, get_patch, apply_patch, add_labels_and_annotations,
  delete_labels_and_annotations,
}

-- The value of a key in a map that may be nil.
abbrev pub value_of : StringMap → String → Option String
value_of none key = none
value_of (some m) key = lookup key m

abbrev pub same_value : Option String → Option String → Bool
same_value none none = true
same_value (some a) (some b) = str_eq a b
same_value _ _ = false

value_of-add :
    (m : StringMap) (key value : String) → value_of (add_to ((key, value) ∷ []) m) key ≡ some value
unfolding lookup
value_of-add none key value = rw ((str_eq_iff key key).1 refl) refl
value_of-add (some m) key value =
    lookup-insert key key value m ∙ (rw ((str_eq_iff key key).1 refl) refl)

value_of-delete : (m : StringMap) (key : String) → value_of (delete_from (key ∷ []) m) key ≡ none
value_of-delete none key = refl
value_of-delete (some m) key = lookup-delete key key m ∙ (rw ((str_eq_iff key key).1 refl) refl)

-- What the cluster does with patches, for the labels that a world has for a pod: the patch between two
-- objects sets and removes the labels in which they differ, and leaves the others.
pub record Merges {W J P : Type 0} (cluster : Cluster W J P)
    (label_at : W → String → String → String → Option String) : Type 0 where
  pub clientset_law :
      (ns name key : String) (w : W)
      → label_at (cluster.get_clientset w).1 ns name key ≡ label_at w ns name key
  pub patch_law :
      (o m : Workload) (a b : J) (p : P) (key : String) (w w' : W)
      → cluster.marshal o ≡ ok a
      → cluster.marshal m ≡ ok b
      → cluster.create_two_way_merge_patch a b ≡ ok p
      → cluster.patch m.meta.namespace m.meta.name p w ≡ (ok tt, w')
      → label_at w' m.meta.namespace m.meta.name key ≡ (
          if same_value (value_of o.meta.labels key) (value_of m.meta.labels key)
          then label_at w m.meta.namespace m.meta.name key
          else value_of m.meta.labels key)

module _ {W J P : Type 0} (cluster : Cluster W J P)
    (label_at : W → String → String → String → Option String) (merges : Merges cluster label_at)
    (key : String) where
  got_patch :
      (m : Workload) (a : J) (p : P)
      → get_patch cluster m a ≡ ok p
      → (b : J) × (cluster.marshal m ≡ ok b) × (cluster.create_two_way_merge_patch a b ≡ ok p)
  unfolding get_patch
  got_patch m a p h =
      Result.>>=-eq-ok (cluster.marshal m) (λ b. cluster.create_two_way_merge_patch a b) h

  applied-label :
      (o m : Workload) (a : J) (w w' : W)
      → cluster.marshal o ≡ ok a
      → apply_patch cluster m a w ≡ (ok tt, w')
      → label_at w' m.meta.namespace m.meta.name key ≡ (
          if same_value (value_of o.meta.labels key) (value_of m.meta.labels key)
          then label_at w m.meta.namespace m.meta.name key
          else value_of m.meta.labels key)
  unfolding apply_patch
  applied-label o m a w w' e h =
      let (p, g, k) = bound-ok _ tt w' (lift (get_patch cluster m a)) w h in
      let (done, c, q) = bound-ok _ tt w' cluster.get_clientset w k in
      let (b, x, y) = got_patch m a p g in
      (merges.patch_law o m a b p key (cluster.get_clientset w).1 w' e x y q
        ∙ ap
            (λ l.
              if same_value (value_of o.meta.labels key) (value_of m.meta.labels key)
              then l
              else value_of m.meta.labels key)
            (merges.clientset_law m.meta.namespace m.meta.name key w))

  abbrev label : Workload → W → Option String
  label pod w = label_at w pod.meta.namespace pod.meta.name key

  deleted-label :
      (pod : Workload) (w w' : W)
      → delete_labels_and_annotations cluster pod (key ∷ []) (key ∷ []) w ≡ (ok tt, w')
      → label pod w'
        ≡ (if same_value (value_of pod.meta.labels key) none then label pod w else none)
  unfolding delete_labels_and_annotations
  deleted-label pod w w' h =
      let (a, e, k) = bound-ok _ tt w' (lift (cluster.marshal pod)) w h in
      subst
        (λ o.
          label pod w' ≡ (if same_value (value_of pod.meta.labels key) o then label pod w else o))
        (value_of-delete pod.meta.labels key) (applied-label pod _ a w w' e k)

  added-label :
      (pod : Workload) (value annotation : String) (w w' : W)
      → add_labels_and_annotations cluster pod ((key, value) ∷ []) ((key, annotation) ∷ []) w
        ≡ (ok tt, w')
      → label pod w' ≡ (
          if same_value (value_of pod.meta.labels key) (some value)
          then label pod w
          else some value)
  unfolding add_labels_and_annotations
  added-label pod value annotation w w' h =
      let (a, e, k) = bound-ok _ tt w' (lift (cluster.marshal pod)) w h in
      subst
        (λ o.
          label pod w' ≡ (if same_value (value_of pod.meta.labels key) o then label pod w else o))
        (value_of-add pod.meta.labels key value) (applied-label pod _ a w w' e k)

  toggle :
      (old : Option String) (value : String) (before between after : Option String)
      → between ≡ (if same_value old none then before else none)
      → after ≡ (if same_value old (some value) then between else some value)
      → after ≡ (if same_value old (some value) then none else some value)
  toggle none value before between after d a = a
  toggle (some u) value before between after d a = elim (Bool-cases (str_eq u value)) [
    | inl e ↦ rw e (rw (e, d) at a)
    | inr e ↦ rw e (rw e at a)
  ]

  -- A label that is deleted and then added, both from one snapshot of the pod: it has the value, except
  -- where the snapshot had the value already; then the pod has no such label.
  pub replaced-label :
      (pod : Workload) (value annotation : String) (w w' : W)
      → (delete_labels_and_annotations cluster pod (key ∷ []) (key ∷ [])
            >> add_labels_and_annotations cluster pod ((key, value) ∷ []) ((key, annotation) ∷ []))
          w
        ≡ (ok tt, w')
      → label pod w'
        ≡ (if same_value (value_of pod.meta.labels key) (some value) then none else some value)
  replaced-label pod value annotation w w' h =
      let deletion = delete_labels_and_annotations cluster pod (key ∷ []) (key ∷ []) in
      let (done, d, k) = bound-ok _ tt w' deletion w h in
      toggle (value_of pod.meta.labels key) value (label pod w) (label pod (deletion w).1)
        (label pod w') (deleted-label pod w (deletion w).1 (ap (λ r. (r, (deletion w).1)) d))
        (added-label pod value annotation (deletion w).1 w' k)
