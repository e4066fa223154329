-- ===== src/Admission/Reviewed.antt =====
-- The webhook's verdict on a pod, a deployment or a replica set.
use kritis.Base.{
  String, ◌≡◌, refl, ◌⊎◌, inl, inr, Bool, true, false, ◌||◌, Option, none, some, List, [], ◌∷◌, All,
}
use kritis.Base.Result.{Result, ok, err}
use kritis.Base.Ensures.{
  Ensures, Ensures-pure, Ensures-raise, Ensures-attempt, Ensures-if, Ensures-weaken, Ensures-bind,
}
use kritis.Names.{Names}
use kritis.Resources.{Workload, ObjectMeta, OwnerReference}
use kritis.Admission.{
  Kind, kind_of, workload_images, images_are_valid, retrieve_by_kind, retrieve_owners_images,
  owner_is_valid, check_each, check_listed, check_owners, check_breakglass,
}
use kritis.Admission.Review.{Response, AdmissionConfig, reviewed_pod, review_workload}
use kritis.Admission.Closed.{AdmissionKept, GapsApprove, IspsApprove, review_images-Ensures}

module _ {R W K : Type 0} (names : Names R) (config : AdmissionConfig W K) (P : W → Type 0) where
  -- The owner is of a known kind, and as fetched in a world with `P`, its images cover the given ones.
  abbrev pub Owns : List String → String → OwnerReference → Type 0
  Owns images ns o =
      (kind : Kind) × (owner : Workload) × (kind_of o.kind ≡ some kind)
      × ((v : W) × P v × ((config.get_workload kind ns o.name v).0 ≡ ok owner))
      × (images_are_valid names images (workload_images owner) ≡ true)

  -- There is a list of owners, and each of them covers the images.
  abbrev pub Owned : List String → ObjectMeta → Type 0
  Owned images meta =
      (owners : List OwnerReference) × (meta.owner_references ≡ some owners)
      × All (Owns images meta.namespace) owners

  -- Why the webhook allows an object.
  abbrev pub Allowed : Kind → Workload → Type 0
  Allowed kind workload =
      Owned (workload_images workload) workload.meta
      ⊎ (check_breakglass workload.meta ≡ true)
      ⊎ (GapsApprove config P (workload_images workload) workload.meta.namespace
            (reviewed_pod kind workload)
          × IspsApprove config P (workload_images workload) workload.meta.namespace
              (reviewed_pod kind workload))

  module _ (kept : AdmissionKept config P) where
    -- What the images of an owner are.
    abbrev Fetched : String → OwnerReference → List String → Type 0
    Fetched ns o images =
        (kind : Kind) × (owner : Workload) × (kind_of o.kind ≡ some kind)
        × ((v : W) × P v × ((config.get_workload kind ns o.name v).0 ≡ ok owner))
        × (images ≡ workload_images owner)

    retrieve_by_kind-Ensures :
        (ns : String) (o : OwnerReference) (kind : Option Kind)
        → kind_of o.kind ≡ kind
        → Ensures P (Fetched ns o) (retrieve_by_kind names config.get_workload kind ns o)
    retrieve_by_kind-Ensures ns o none e = Ensures-raise _ _
    retrieve_by_kind-Ensures ns o (some kind) e =
        Ensures-bind
          (λ owner. (v : W) × P v × ((config.get_workload kind ns o.name v).0 ≡ ok owner)) _ _ _
          (record { keeps = kept.workload kind ns o.name; gives = λ w owner p f. (w, p, f) })
          (λ owner f. Ensures-pure _ (workload_images owner) (kind, owner, e, f, refl))

    retrieve-Ensures :
        (ns : String) (o : OwnerReference)
        → Ensures P (Fetched ns o) (retrieve_owners_images names config.get_workload ns o)
    unfolding retrieve_owners_images
    retrieve-Ensures ns o = retrieve_by_kind-Ensures ns o (kind_of o.kind) refl

    owner_is_valid-Owns :
        (images : List String) (ns : String) (o : OwnerReference) (r : Result (List String))
        → ((owned : List String) → r ≡ ok owned → Fetched ns o owned)
        → owner_is_valid names config.get_workload images r ≡ true
        → Owns images ns o
    owner_is_valid-Owns images ns o (ok owned) fetched h =
        let (kind, owner, known, f, same) = fetched owned refl in
        (kind, owner, known, f, rw same at h)
    owner_is_valid-Owns images ns o (err e) fetched h = absurd (cc h)

    check_each-Ensures :
        (images : List String) (ns : String) (owners : List OwnerReference)
        → Ensures P
            (λ b. b ≡ true → All (Owns images ns) owners)
            (check_each names config.get_workload images ns owners)
    unfolding check_each
    check_each-Ensures images ns [] = Ensures-pure _ true (λ h. tt)
    check_each-Ensures images ns (o ∷ owners) =
        Ensures-bind _ _ _ _
          (Ensures-attempt (Fetched ns o) (retrieve_owners_images names config.get_workload ns o)
            (retrieve-Ensures ns o))
          λ r fetched.
            Ensures-if _ (owner_is_valid names config.get_workload images r) _ _
              (λ e.
                Ensures-weaken _ _ _ (check_each-Ensures images ns owners)
                  (λ b k h. (owner_is_valid-Owns images ns o r fetched e, k h)))
              (λ e. Ensures-pure _ false (λ h. absurd (cc h)))

    check_listed-Ensures :
        (images : List String) (meta : ObjectMeta) (owners : Option (List OwnerReference))
        → meta.owner_references ≡ owners
        → Ensures P
            (λ b. b ≡ true → Owned images meta)
            (check_listed names config.get_workload images meta.namespace owners)
    check_listed-Ensures images meta none e = Ensures-pure _ false (λ h. absurd (cc h))
    check_listed-Ensures images meta (some owners) e =
        Ensures-weaken _ _ _ (check_each-Ensures images meta.namespace owners)
          (λ b k h. (owners, e, k h))

    check_owners-Ensures :
        (images : List String) (meta : ObjectMeta)
        → Ensures P
            (λ b. b ≡ true → Owned images meta)
            (check_owners names config.get_workload images meta)
    unfolding check_owners
    check_owners-Ensures images meta = check_listed-Ensures images meta meta.owner_references refl

    passed_lem :
        (kind : Kind) (workload : Workload) (b : Bool)
        → (b ≡ true → Owned (workload_images workload) workload.meta)
        → (b || check_breakglass workload.meta) ≡ true
        → Allowed kind workload
    passed_lem kind workload true h e = inl (h refl)
    passed_lem kind workload false h e = inr (inl e)

    pub review_workload-Ensures :
        (kind : Kind) (workload : Workload) (ar : Response)
        → Ensures P
            (λ ar'. ar'.allowed ≡ true → Allowed kind workload)
            (review_workload names config kind workload ar)
    unfolding review_workload
    review_workload-Ensures kind workload ar =
        Ensures-bind _ _ _ _ (check_owners-Ensures (workload_images workload) workload.meta) λ b h.
          Ensures-if _ (b || check_breakglass workload.meta) _ _
            (λ e. Ensures-pure _ ar (λ _. passed_lem kind workload b h e))
            (λ _.
              Ensures-weaken _ _ _
                (review_images-Ensures config P kept (workload_images workload)
                  workload.meta.namespace (reviewed_pod kind workload) ar)
                (λ ar' allows k. inr (inr (allows k).1)))
