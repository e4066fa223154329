-- ===== src/Resolve/Substituted.antt =====
-- What the substitution in a document leaves (pkg/kritis/kubectl/plugins/resolve/resolve.go).
use kritis.Base.{
  String, ◌≡◌, refl, ap, subst, ◌∙◌, inl, inr, Bool, true, false, Option, some, List, [], ◌∷◌,
  str_eq, str_eq_iff, All, Bool-cases, if◌then◌else◌,
}
use kritis.Base.Maps.{lookup, insert, lookup-insert, lookup-nil}
use kritis.Base.Result.{ok, ok-injective}
use kritis.Base.Exec.{Exec}
use kritis.Base.Returned.{bound-ok}
use kritis.Names.{Names}
use kritis.Policy.Isp.{fully_qualified_image}
use kritis.Resolve.{Node, recursive_get_tagged_images}
use kritis.Resolve.Documents.{resolve_from, resolve_tags_to_digests, substitute}
use kritis.Resolve.Replaced.{AllQualified, recursive_replace_image-Cleaned}

-- An image has an entry.
abbrev Has : List (String × String) → String → Type 0
Has r image = (digest : String) × (lookup image r ≡ some digest)

module _ (image digest : String) (acc : List (String × String)) where
  inserted :
      (b : Bool) (other : String) {o : Option String}
      → str_eq image other ≡ b
      → lookup other (insert image digest acc) ≡ o
      → (if b then some digest else lookup other acc) ≡ o
  inserted b other e h = rw (lookup-insert image other digest acc, e) at h

  insert-Has : Has (insert image digest acc) image
  insert-Has =
      (digest, lookup-insert image image digest acc ∙ (rw ((str_eq_iff image image).1 refl) refl))

  kept-Has : (other : String) → Has acc other → Has (insert image digest acc) other
  kept-Has other (d, h) = elim (Bool-cases (str_eq image other)) [
    | inl e ↦ (digest, lookup-insert image other digest acc ∙ (rw e refl))
    | inr e ↦ (d, lookup-insert image other digest acc ∙ (rw e h))
  ]

  insert-AllQualified :
      {R : Type 0} (names : Names R)
      → fully_qualified_image names digest ≡ true
      → AllQualified names acc
      → AllQualified names (insert image digest acc)
  insert-AllQualified names f q other d h = elim (Bool-cases (str_eq image other)) [
    | inl e ↦ subst (λ x. fully_qualified_image names x ≡ true) (cc (inserted true other e h)) f
    | inr e ↦ q other d (inserted false other e h)
  ]

module _ {R W : Type 0} (names : Names R) (resolve : String → Exec W String)
    (qualified : (image digest : String) (w : W)
      → (resolve image w).0 ≡ ok digest
      → fully_qualified_image names digest ≡ true) where
  -- All images have entries, and all entries are qualified; earlier entries stay.
  resolved-entries :
      (acc : List (String × String)) (images : List String) (r : List (String × String)) (w w' : W)
      → resolve_from resolve acc images w ≡ (ok r, w')
      → AllQualified names acc
      → AllQualified names r × All (Has r) images × ((i : String) → Has acc i → Has r i)
  unfolding resolve_from
  resolved-entries acc [] r w w' h q = (
    subst (AllQualified names) (ok-injective (ap (λ x. x.0) h)) q,
    tt,
    λ i k. subst (λ m. Has m i) (ok-injective (ap (λ x. x.0) h)) k,
  )
  resolved-entries acc (image ∷ images) r w w' h q =
      let (digest, e, k) = bound-ok _ r w' (resolve image) w h in
      let (qr, hs, keep) =
        resolved-entries (insert image digest acc) images r (resolve image w).1 w' k
          (insert-AllQualified image digest acc names (qualified image digest w e) q) in
      (
        qr,
        (keep image (insert-Has image digest acc), hs),
        λ i x. keep i (kept-Has image digest acc i x),
      )

  nothing-AllQualified : AllQualified names []
  nothing-AllQualified image digest h = absurd (cc (h, lookup-nil {A = String} image))

  -- Where every image that the resolver gives is fully qualified, the substitution in a document whose
  -- images can be listed and resolved does not panic or fail, does nothing but resolve, and leaves no
  -- tagged image.
  pub substitute-Cleaned :
      (m : Node) (images : List String) (r : List (String × String)) (w w' : W)
      → recursive_get_tagged_images names m ≡ ok images
      → resolve_tags_to_digests resolve images w ≡ (ok r, w')
      → (m' : Node) × (substitute names resolve m w ≡ (ok m', w'))
        × (recursive_get_tagged_images names m' ≡ ok [])
  unfolding substitute resolve_tags_to_digests
  substitute-Cleaned m images r w w' t h =
      let (q, found, keep) = resolved-entries [] images r w w' h nothing-AllQualified in
      let (m', p, g) = recursive_replace_image-Cleaned names r m images q t found in
      (m', rw (t, h, p) refl, g)
