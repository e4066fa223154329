-- ===== src/Signer/Uploaded.antt =====
-- What a run of `SignImage` (pkg/kritis/signer/signer.go) without an error has done.
use kritis.Base.{
  String, ◌≡◌, refl, sym, ap, ◌⊎◌, inl, inr, Bool, true, false, Option, List, [], arith, is_empty,
  not,
}
use kritis.Base.Result.{Result, ok, wrap, map_err-eq-ok, ok-injective}
use kritis.Base.Exec.{lift, wrapping}
use kritis.Base.Returned.{bound-ok, wrapped-ok}
use kritis.Names.{Names}
use kritis.Metadata.{Bytes, Attestation, Client, Note, get_name, generic_signature_type}
use kritis.Review.Isp.{get_or_create_attestation_note}
use kritis.Payload.{ContainerSig, atomic_container_payload}
use kritis.Signer.{
  SignerConfig, create_attestation, upload_attestation, is_attestation_already_exist,
  create_and_upload, sign_unless, sign_image,
}

module _ {R W K : Type 0} (names : Names R) (marshal : ContainerSig → Result Bytes)
    (client : Client W K) (config : SignerConfig W) (image : String) (w' : W) where
  -- The payload of the image was signed, and the run ended with the upload of what the signer returned.
  abbrev pub Uploaded : Type 0
  Uploaded =
      (payload : Bytes) × (att : Attestation) × (note : Option Note) × (atomic_container_payload
          names marshal image
        ≡ ok payload)
      × ((v : W) × ((config.c_signer payload v).0 ≡ ok att))
      × ((v : W) × (client.upload_attestation_occurrence (get_name note) image att config.project
              generic_signature_type v
            ≡ (ok tt, w')))

  -- The attestations of the image were deleted.
  abbrev pub Deleted : Type 0
  Deleted = (v : W) × ((client.delete_attestation_occurrence image config.authority v).0 ≡ ok tt)

  -- There was an attestation, which is kept: nothing was done but to read the attestations.
  abbrev pub Kept : W → Type 0
  Kept w =
      (config.overwrite ≡ false)
      × (w' ≡ (client.attestations image config.authority w).1)
      × ((atts : List Attestation) × ((client.attestations image config.authority w).0 ≡ ok atts)
          × (is_empty atts ≡ false))

  -- There was none, or it was deleted, and a new one is uploaded.
  abbrev pub Replaced : W → Type 0
  Replaced w =
      Uploaded
      × ((atts : List Attestation) × ((client.attestations image config.authority w).0 ≡ ok atts)
          × ((is_empty atts ≡ true) ⊎ ((config.overwrite ≡ true) × Deleted)))

  uploaded-Uploaded :
      (payload : Bytes) (att : Attestation) (u v : W)
      → atomic_container_payload names marshal image ≡ ok payload
      → (config.c_signer payload u).0 ≡ ok att
      → upload_attestation names marshal client config image att v ≡ (ok tt, w')
      → Uploaded
  unfolding upload_attestation
  uploaded-Uploaded payload att u v p s h =
      let (note, q, k) =
        bound-ok _ tt w' (get_or_create_attestation_note client config.authority) v h in
      (
        payload,
        att,
        note,
        p,
        (u, s),
        ((get_or_create_attestation_note client config.authority v).1, k),
      )

  made-Uploaded :
      (att : Attestation) (u v : W)
      → (create_attestation names marshal client config image u).0 ≡ ok att
      → upload_attestation names marshal client config image att v ≡ (ok tt, w')
      → Uploaded
  unfolding create_attestation
  made-Uploaded att u v c h =
      let w₁ = (create_attestation names marshal client config image u).1 in
      let (payload, p, s) =
        bound-ok config.c_signer att w₁ (lift (atomic_container_payload names marshal image)) u
          (ap (λ r. (r, w₁)) c) in
      uploaded-Uploaded payload att u v p (ap (λ r. r.0) s) h

  create_and_upload-Uploaded :
      (v : W) → create_and_upload names marshal client config image v ≡ (ok tt, w') → Uploaded
  create_and_upload-Uploaded v h =
      let made =
        wrapping (wrap "creatiing attestation failed: %v" [])
          (create_attestation names marshal client config image) in
      let (att, c, k) = bound-ok _ tt w' made v h in
      made-Uploaded att v (made v).1
        (map_err-eq-ok (wrap "creatiing attestation failed: %v" [])
          (create_attestation names marshal client config image v).0 c)
        (wrapped-ok (wrap "uploading attestation failed: %v" []) tt w'
          (upload_attestation names marshal client config image att) (made v).1 k)

  deleted-Replaced :
      (v : W)
      → sign_unless names marshal client config image true true v ≡ (ok tt, w')
      → Uploaded × Deleted
  deleted-Replaced v h =
      let deletion = client.delete_attestation_occurrence image config.authority in
      let (done, d, k) =
        bound-ok _ tt w' (wrapping (wrap "deleting existing attestation failed: %v" []) deletion) v
          h in
      (
        create_and_upload-Uploaded _ k,
        (v, map_err-eq-ok (wrap "deleting existing attestation failed: %v" []) (deletion v).0 d),
      )

  signed-cases :
      (w v : W) (atts : List Attestation) (existed overwrite : Bool)
      → v ≡ (client.attestations image config.authority w).1
      → (client.attestations image config.authority w).0 ≡ ok atts
      → not (is_empty atts) ≡ existed
      → config.overwrite ≡ overwrite
      → sign_unless names marshal client config image existed overwrite v ≡ (ok tt, w')
      → Kept w ⊎ Replaced w
  signed-cases w v atts true false e a x o h = inl (o, cc (e, h), (atts, a, ground arith))
  signed-cases w v atts true true e a x o h =
      let (u, d) = deleted-Replaced v h in inr (u, (atts, a, inr (o, d)))
  signed-cases w v atts false overwrite e a x o h =
      inr (create_and_upload-Uploaded v h, (atts, a, inl (ground arith)))

  abbrev pub Outcome : W → Type 0
  Outcome w = Kept w ⊎ Replaced w

  existed-Outcome :
      (w v : W) (existed : Bool)
      → is_attestation_already_exist names marshal client config image w ≡ (ok existed, v)
      → sign_unless names marshal client config image existed config.overwrite v ≡ (ok tt, w')
      → Outcome w
  unfolding is_attestation_already_exist
  existed-Outcome w v existed e h =
      let (atts, a, p) = bound-ok _ existed v (client.attestations image config.authority) w e in
      signed-cases w v atts existed config.overwrite (sym (ap (λ r. r.1) p)) a
        (ok-injective (ap (λ r. r.0) p)) refl h

  -- A run of `SignImage` without an error either kept an attestation that was there, only reading it,
  -- because the signer does not overwrite; or it ended with the upload of what the signer returned
  -- for the payload of the image, and there was no attestation before or a deletion succeeded,
  -- where the signer overwrites.
  pub sign_image-Outcome :
      (w : W) → sign_image names marshal client config image w ≡ (ok tt, w') → Outcome w
  unfolding sign_image
  sign_image-Outcome w h =
      let checked =
        wrapping (wrap "checking existing attestation status failed: %v" [])
          (is_attestation_already_exist names marshal client config image) in
      let (existed, c, k) = bound-ok _ tt w' checked w h in
      existed-Outcome w (checked w).1 existed
        (wrapped-ok (wrap "checking existing attestation status failed: %v" []) existed
          (checked w).1 (is_attestation_already_exist names marshal client config image) w
          (ap (λ r. (r, (checked w).1)) c))
        k
