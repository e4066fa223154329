-- ===== src/Cache/Notes.antt =====
-- The notes of pkg/kritis/metadata/containeranalysis/cache.go, found by the address of an authority: the
-- field `notes` of `Cache`, beside the other two. A nil note is `none`.
use kritis.Base.{String, Option, none, some, List}
use kritis.Base.Maps.{lookup}
use kritis.Base.Result.{Result, ok, err, panicked}
use kritis.Base.Exec.{Exec}
use kritis.Base.Maps.{insert}
use kritis.Resources.{AttestationAuthority}
use kritis.Metadata.{Note, Client}

abbrev pub Notes : Type 0
Notes = List (String × Option Note)

-- `if err != nil { c.notes[aa] = n }`, where `n` is nil
unfoldable pub store_failed_note : String → Result (Option Note) → Notes → Notes
store_failed_note address (ok n) notes = notes
store_failed_note address (err panicked) notes = notes
store_failed_note address (err e) notes = insert address none notes

module _ {W K : Type 0} (client : Client W K) where
  abbrev pub note_or :
      Option (Option Note) → String → AttestationAuthority → Exec (Notes × W) (Option Note)
  note_or (some n) address aa (notes, w) = (ok n, (notes, w))
  note_or none address aa (notes, w) =
      let (r, w') = client.attestation_note aa w in (r, (store_failed_note address r notes, w'))

  unfoldable pub cached_attestation_note :
      String → AttestationAuthority → Exec (Notes × W) (Option Note)
  cached_attestation_note address aa (notes, w) =
      note_or (lookup address notes) address aa (notes, w)

  -- `CreateAttestationNote`, which passes on to the client
  unfoldable pub cached_create_attestation_note :
      AttestationAuthority → Exec (Notes × W) (Option Note)
  cached_create_attestation_note aa (notes, w) =
      let (r, w') = client.create_attestation_note aa w in (r, (notes, w'))
