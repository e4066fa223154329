-- ===== src/Admission/Closed.antt =====
-- What an allowing response says of the reviews behind it.
use kritis.Base.{
  String, ◌≡◌, refl, ◌⊎◌, inl, inr, true, Option, List, [], ◌∷◌, if◌then◌else◌, is_empty,
}
use kritis.Base.Result.{Error, Result, ok, err, Done}
use kritis.Base.Exec.{Exec, pure}
use kritis.Base.Ensures.{
  Ensures, Ensures-pure, Ensures-attempt, Ensures-if, Ensures-weaken, Ensures-closing, Ensures-bind,
}
use kritis.Resources.{GenericAttestationPolicy, ImageSecurityPolicy, Workload}
use kritis.Metadata.{Client}
use kritis.Admission.{Kind}
use kritis.Admission.Review.{
  Response, AdmissionConfig, create_denied_response, denied_by, review_with,
  review_generic_attestation_policy, review_image_security_policy, review_fetched_isps, review_isps,
  review_fetched_gaps, review_images,
}

denied_by_lem :
    (ar : Response) (r : Result Done)
    → (denied_by ar r).allowed ≡ true
    → (ar.allowed ≡ true) × (r ≡ ok tt)
unfolding create_denied_response
denied_by_lem ar (ok tt) h = (h, refl)
denied_by_lem ar (err e) h = absurd (cc h)

denied_lem : (ar : Response) (e : Error) → (create_denied_response ar e).allowed ≡ true → ⊥
unfolding create_denied_response
denied_lem ar e h = cc h

module _ {W K : Type 0} (config : AdmissionConfig W K) (P : W → Type 0) where
  -- The calls of the webhook keep `P`.
  pub record AdmissionKept : Type 0 where
    pub client : (w : W) → P w → P (config.fetch_metadata_client w).1
    pub read_only_client : (w : W) → P w → P (config.fetch_metadata_read_only_client w).1
    pub closed : (c : Client W K) (w : W) → P w → P (config.close c w)
    pub gaps : (ns : String) (w : W) → P w → P (config.fetch_generic_attestation_policies ns w).1
    pub isps : (ns : String) (w : W) → P w → P (config.fetch_image_security_policies ns w).1
    pub workload :
        (kind : Kind) (ns name : String) (w : W) → P w → P (config.get_workload kind ns name w).1
    pub gap_review :
        (images : List String) (gs : List GenericAttestationPolicy) (p : Option Workload)
        (c : Client W K) (w : W)
        → P w
        → P (config.reviewer.review_gap images gs p c w).1
    pub isp_review :
        (images : List String) (is : List ImageSecurityPolicy) (p : Option Workload)
        (c : Client W K) (w : W)
        → P w
        → P (config.reviewer.review_isp images is p c w).1

  -- The call gave the client in a world with `P`.
  abbrev pub Gave : Exec W (Client W K) → Client W K → Type 0
  Gave fetch client = (v : W) × P v × ((fetch v).0 ≡ ok client)

  -- With a client that the call gave, and in some world with `P`, the review returns no error.
  abbrev pub Approves : Exec W (Client W K) → (Client W K → Exec W Done) → Type 0
  Approves fetch review =
      (client : Client W K) × Gave fetch client × (v : W) × P v × ((review client v).0 ≡ ok tt)

  -- The generic attestation policies of the namespace, as fetched in a world with `P`, are none or
  -- their review approves.
  abbrev pub GapsApprove : List String → String → Option Workload → Type 0
  GapsApprove images ns reviewed =
      (gaps : List GenericAttestationPolicy) × ((v : W) × P v
        × ((config.fetch_generic_attestation_policies ns v).0 ≡ ok gaps))
      × ((gaps ≡ [])
          ⊎ Approves config.fetch_metadata_read_only_client
              (config.reviewer.review_gap images gaps reviewed))

  abbrev pub IspsApprove : List String → String → Option Workload → Type 0
  IspsApprove images ns reviewed =
      (isps : List ImageSecurityPolicy) × ((v : W) × P v
        × ((config.fetch_image_security_policies ns v).0 ≡ ok isps))
      × ((isps ≡ [])
          ⊎ Approves config.fetch_metadata_client (config.reviewer.review_isp images isps reviewed))

  -- The response allows only if the one before it did, and then `Q` holds.
  abbrev pub Allows : Response → Type 0 → Response → Type 0
  Allows ar Q ar' = ar'.allowed ≡ true → (ar.allowed ≡ true) × Q

  module _ (kept : AdmissionKept) where
    review_with-Ensures :
        (fetch : Exec W (Client W K)) (review : Client W K → Exec W Done) (ar : Response)
        (client : Result (Client W K))
        → ((c : Client W K) → client ≡ ok c → Gave fetch c)
        → ((c : Client W K) (w : W) → P w → P (review c w).1)
        → Ensures P (Allows ar (Approves fetch review)) (review_with config review ar client)
    unfolding review_with
    review_with-Ensures fetch review ar (err e) gave k =
        Ensures-pure _ _ (λ h. absurd (denied_lem ar _ h))
    review_with-Ensures fetch review ar (ok client) gave k =
        Ensures-closing _ (config.close client) _ (kept.closed client) (
          Ensures-bind _ _ _ _
            (Ensures-attempt (λ u. Approves fetch review) (review client)
              (record { keeps = k client; gives = λ w u p e. (client, gave client refl, w, p, e) }))
            λ r h.
              Ensures-pure _ (denied_by ar r)
                (λ allowed. let (before, same) = denied_by_lem ar r allowed in (before, h tt same)))

    module _ (images : List String) (ns : String) (reviewed : Option Workload) where
      review_gap-Ensures :
          (gaps : List GenericAttestationPolicy) (ar : Response)
          → Ensures P
              (Allows ar (
                Approves config.fetch_metadata_read_only_client
                  (config.reviewer.review_gap images gaps reviewed)))
              (review_generic_attestation_policy config images ns reviewed gaps ar)
      unfolding review_generic_attestation_policy
      review_gap-Ensures gaps ar =
          Ensures-bind _ _ _ _
            (Ensures-attempt (Gave config.fetch_metadata_read_only_client)
              config.fetch_metadata_read_only_client
              (record { keeps = kept.read_only_client; gives = λ w c p e. (w, p, e) }))
            λ client gave.
              review_with-Ensures config.fetch_metadata_read_only_client _ ar client gave
                (kept.gap_review images gaps reviewed)

      review_isp-Ensures :
          (isps : List ImageSecurityPolicy) (ar : Response)
          → Ensures P
              (Allows ar (
                Approves config.fetch_metadata_client
                  (config.reviewer.review_isp images isps reviewed)))
              (review_image_security_policy config images ns reviewed isps ar)
      unfolding review_image_security_policy
      review_isp-Ensures isps ar =
          Ensures-bind _ _ _ _
            (Ensures-attempt (Gave config.fetch_metadata_client) config.fetch_metadata_client
              (record { keeps = kept.client; gives = λ w c p e. (w, p, e) }))
            λ client gave.
              review_with-Ensures config.fetch_metadata_client _ ar client gave
                (kept.isp_review images isps reviewed)

      pub none_lem : {A : Type 0} (xs : List A) → is_empty xs ≡ true → xs ≡ []
      none_lem [] e = refl
      none_lem (x ∷ xs) e = absurd (cc e)

      fetched_isps-Ensures :
          (ar : Response) (r : Result (List ImageSecurityPolicy))
          → ((isps : List ImageSecurityPolicy)
              → r ≡ ok isps
              → (v : W) × P v × ((config.fetch_image_security_policies ns v).0 ≡ ok isps))
          → Ensures P
              (Allows ar (IspsApprove images ns reviewed))
              (review_fetched_isps config images ns reviewed ar r)
      fetched_isps-Ensures ar (err e) fetched = Ensures-pure _ _ (λ h. absurd (denied_lem ar _ h))
      fetched_isps-Ensures ar (ok isps) fetched =
          Ensures-if _ (is_empty isps) _ _
            (λ e. Ensures-pure _ ar (λ h. (h, (isps, fetched isps refl, inl (none_lem isps e)))))
            (λ e. Ensures-weaken _ _ _ (review_isp-Ensures isps ar) (λ ar' allows h.
              let (before, approves) = allows h in
              (before, (isps, fetched isps refl, inr approves))))

      review_isps-Ensures :
          (ar : Response)
          → Ensures P
              (Allows ar (IspsApprove images ns reviewed))
              (review_isps config images ns reviewed ar)
      unfolding review_isps
      review_isps-Ensures ar =
          Ensures-bind _ _ _ _
            (Ensures-attempt
              (λ isps. (v : W) × P v × ((config.fetch_image_security_policies ns v).0 ≡ ok isps))
              (config.fetch_image_security_policies ns)
              (record { keeps = kept.isps ns; gives = λ w isps p e. (w, p, e) }))
            λ r fetched. fetched_isps-Ensures ar r fetched

      first_review-Ensures :
          (ar : Response) (gaps : List GenericAttestationPolicy)
          → ((v : W) × P v × ((config.fetch_generic_attestation_policies ns v).0 ≡ ok gaps))
          → Ensures P (Allows ar (GapsApprove images ns reviewed)) (
              if is_empty gaps
              then pure ar
              else review_generic_attestation_policy config images ns reviewed gaps ar)
      first_review-Ensures ar gaps fetched =
          Ensures-if _ (is_empty gaps) _ _
            (λ e. Ensures-pure _ ar (λ h. (h, (gaps, fetched, inl (none_lem gaps e)))))
            (λ e. Ensures-weaken _ _ _ (review_gap-Ensures gaps ar) (λ ar' allows h.
              let (before, approves) = allows h in (before, (gaps, fetched, inr approves))))

      fetched_gaps-Ensures :
          (ar : Response) (r : Result (List GenericAttestationPolicy))
          → ((gaps : List GenericAttestationPolicy)
              → r ≡ ok gaps
              → (v : W) × P v × ((config.fetch_generic_attestation_policies ns v).0 ≡ ok gaps))
          → Ensures P
              (Allows ar (GapsApprove images ns reviewed × IspsApprove images ns reviewed))
              (review_fetched_gaps config images ns reviewed ar r)
      fetched_gaps-Ensures ar (err e) fetched = Ensures-pure _ _ (λ h. absurd (denied_lem ar _ h))
      fetched_gaps-Ensures ar (ok gaps) fetched =
          Ensures-bind _ _ _ _ (first_review-Ensures ar gaps (fetched gaps refl)) λ ar' first.
            Ensures-weaken _ _ _ (review_isps-Ensures ar') (λ ar'' second h.
              let (between, isps) = second h in
              let (before, gs) = first between in (before, (gs, isps)))

      pub review_images-Ensures :
          (ar : Response)
          → Ensures P
              (Allows ar (GapsApprove images ns reviewed × IspsApprove images ns reviewed))
              (review_images config images ns reviewed ar)
      unfolding review_images
      review_images-Ensures ar =
          Ensures-bind _ _ _ _
            (Ensures-attempt
              (λ gaps.
                (v : W) × P v × ((config.fetch_generic_attestation_policies ns v).0 ≡ ok gaps))
              (config.fetch_generic_attestation_policies ns)
              (record { keeps = kept.gaps ns; gives = λ w gaps p e. (w, p, e) }))
            λ r fetched. fetched_gaps-Ensures ar r fetched
